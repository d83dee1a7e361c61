-- ===== src/Screen/Tests.antt =====
-- The choice of cameras of cctv/cctv.cpp at concrete states.
use cctvmonitor.Base.{ℕ, zero, suc, ◌≤◌, ◌≡◌, refl, true, false, [], ◌∷◌, ◌++◌, arith, replicate}
use cctvmonitor.Base.Int.{pos, negsuc, ◌+ℤ◌}
use cctvmonitor.State.{State, IpcInfo, no_ipc, IsValid}
use cctvmonitor.State.Video.{get_video_idx_accord_btn_pose, get_btn_pose_accord_video_idx}
use cctvmonitor.State.Sample.{sample, sample-IsValid}
use cctvmonitor.Screen.{
  close_media, un_init, opened, single_play, View, four_play, get_next_single_video, four_of,
  group_button_video_click,
}
use cctvmonitor.Screen.Style.{to_four, sigale_page, four_page}
use cctvmonitor.Screen.Order.{buttons, first_camera, get_next_single_video-first_camera}
use cctvmonitor.Screen.Turns.{AreFilled, shown-turns}
use cctvmonitor.Screen.Restart.{shown, IsEmptyGroup, shown-Reaches}

get_next_single_video-first_camera_example :
    get_next_single_video sample (pos 1) ≡ first_camera sample (buttons 10 22 ++ buttons 0 32)
unfolding get_btn_pose_accord_video_idx
get_next_single_video-first_camera_example =
    get_next_single_video-first_camera sample (pos 1) 2 1 (omega arith) (omega arith) refl

-- The two cameras take turns.
get_next_single_video-turns :
    (get_next_single_video sample (pos 0) ≡ pos 1) × (get_next_single_video sample (pos 1) ≡ pos 0)
unfolding get_next_single_video get_video_idx_accord_btn_pose get_btn_pose_accord_video_idx ◌+ℤ◌
get_next_single_video-turns = (refl, refl)

-- Cameras with buttons of the first and the third group, none of the second.
abbrev gap : State
gap = record sample {
  video_num = 30;
  cams =
      record no_ipc { ui_group = pos 2; ui_pos = pos 1 }
      ∷ replicate 31 (record no_ipc { ui_group = pos 0; ui_pos = pos 0 });
}

gap-IsValid : IsValid gap
gap-IsValid = ground (arith, sample-IsValid)

gap-IsEmptyGroup : IsEmptyGroup gap 1
unfolding get_video_idx_accord_btn_pose
gap-IsEmptyGroup zero h = refl
gap-IsEmptyGroup (suc zero) h = refl
gap-IsEmptyGroup (suc (suc zero)) h = refl
gap-IsEmptyGroup (suc (suc (suc zero))) h = refl
gap-IsEmptyGroup (suc (suc (suc (suc j)))) h = absurd (omega arith)

shown-Reaches_example : (g : ℕ) × (g ≤ 1) × (shown gap 7 ≡ four_of gap (pos g))
shown-Reaches_example =
    shown-Reaches gap 1 7 gap-IsValid (omega arith) (omega arith) gap-IsEmptyGroup

-- From the second group the polling goes to the first; the camera of the third is not shown.
shown-gap : (shown gap 1 ≡ replicate 4 (negsuc 0)) × (shown gap 2 ≡ pos 1 ∷ replicate 3 (negsuc 0))
unfolding shown get_video_idx_accord_btn_pose get_btn_pose_accord_video_idx ◌+ℤ◌
shown-gap = (refl, refl)

-- A camera in each group.
abbrev at_group : ℕ → IpcInfo
at_group g = record no_ipc { ui_group = pos g; ui_pos = pos 0 }

abbrev full : State
full = record sample {
  video_num = 30;
  cams =
      at_group 0
      ∷ at_group 1
      ∷ at_group 2
      ∷ at_group 3
      ∷ at_group 4
      ∷ at_group 5
      ∷ at_group 6
      ∷ at_group 7
      ∷ replicate 24 (at_group 0);
}

full-IsValid : IsValid full
full-IsValid = ground (arith, sample-IsValid)

full-AreFilled : AreFilled full
unfolding get_video_idx_accord_btn_pose
full-AreFilled zero h = (0, omega arith, refl)
full-AreFilled (suc zero) h = (0, omega arith, refl)
full-AreFilled (suc (suc zero)) h = (0, omega arith, refl)
full-AreFilled (suc (suc (suc zero))) h = (0, omega arith, refl)
full-AreFilled (suc (suc (suc (suc zero)))) h = (0, omega arith, refl)
full-AreFilled (suc (suc (suc (suc (suc zero))))) h = (0, omega arith, refl)
full-AreFilled (suc (suc (suc (suc (suc (suc zero)))))) h = (0, omega arith, refl)
full-AreFilled (suc (suc (suc (suc (suc (suc (suc zero))))))) h = (0, omega arith, refl)
full-AreFilled (suc (suc (suc (suc (suc (suc (suc (suc g)))))))) h = absurd (omega arith)

shown-turns_example : shown full 11 ≡ four_of full (pos 3)
shown-turns_example = shown-turns full 11 full-IsValid (omega arith) full-AreFilled

abbrev view : View
view = record {
  cur_style = four_play;
  next_style = four_play;
  cur_single = negsuc 0;
  next_single = pos 3;
  cur_four = replicate 4 (negsuc 0);
  next_four = replicate 4 (negsuc 0);
  cycle_flag = true;
  warn = false;
  warn_freshed = false;
  last_time = pos 10;
  players = replicate 4 0;
  back_players = 0 ∷ 7 ∷ 0 ∷ 9 ∷ [];
  back_four = replicate 4 (pos 1);
  single_player = 0;
  back_player = 0;
  back_single = negsuc 0;
  calls = [];
}

-- A second click within the second is not taken; a click closes the players of the background.
group_button_video_click-view :
    (group_button_video_click sample (1 ∷ 2 ∷ []) (pos 10) 2 view ≡ view)
    × ((group_button_video_click sample (1 ∷ 2 ∷ []) (pos 11) 2 view).calls
        ≡ close_media 7 ∷ un_init 7 ∷ close_media 9 ∷ un_init 9 ∷ [])
unfolding group_button_video_click get_video_idx_accord_btn_pose
group_button_video_click-view = (refl, refl)

-- From one picture to four: the background's player 7 is closed, and CMP_UnInit gets 0 for it.
to_four-calls :
    (to_four (1 ∷ 2 ∷ 3 ∷ 4 ∷ []) (record view {
      single_player = 5;
      back_players = 7 ∷ replicate 3 0;
      next_four = pos 0 ∷ replicate 3 (negsuc 0);
    })).calls
    ≡ close_media 5 ∷ un_init 5 ∷ close_media 7 ∷ un_init 0 ∷ opened 1 (pos 0) ∷ []
unfolding to_four
to_four-calls = refl

-- Back to one picture, with the first camera of the four.
sigale_page-view :
    let v =
      sigale_page (pos 11) 6 (record view { cur_four = negsuc 0 ∷ pos 1 ∷ replicate 2 (pos 2) }) in
    (v.cur_single ≡ pos 1) × (v.single_player ≡ 6) × (v.back_players ≡ replicate 4 0)
unfolding sigale_page
sigale_page-view = (refl, refl, refl)

-- The four pictures of the group of the camera shown.
four_page-view :
    (four_page sample
      (pos 11)
      (1 ∷ 2 ∷ 3 ∷ 4 ∷ [])
      (record view { cur_style = single_play; cur_single = pos 1 })).cur_four
    ≡ pos 0 ∷ pos 1 ∷ replicate 2 (negsuc 0)
unfolding four_page get_video_idx_accord_btn_pose get_btn_pose_accord_video_idx four_of
four_page-view = refl
