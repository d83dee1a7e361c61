-- ===== src/Screen.antt =====
-- Which cameras the operator interface shows next, from cctv/cctv.cpp: the polling, and the buttons that
-- choose a camera. The players, the buttons and the icons are the libraries'; a button or a player is
-- known by its address.
pub mod Order
pub mod Restart
pub mod Turns
pub mod Style
mod Tests
use cctvmonitor.Base.{
  ℕ, zero, suc, ◌+◌, ◌-◌, ◌*◌, ◌/◌, ◌%◌, Bool, true, false, not, ◌&&◌, ◌||◌, Option, none, some,
  List, [], ◌∷◌, ◌++◌, ◌==◌, ltb, leb, if◌then◌else◌, get_or, drop, take, replicate, map,
}
use cctvmonitor.Base.Int.{is_negative, ℤ, pos, negsuc, ◌+ℤ◌, eq_ℤ, pos_part, index?}
use cctvmonitor.State.{State}
use cctvmonitor.State.Video.{get_video_idx_accord_btn_pose, get_btn_pose_accord_video_idx}

-- The camera at a button.
abbrev pub at_button : State → ℤ → ℕ → ℤ
at_button st g j = get_video_idx_accord_btn_pose st g (pos j)

-- The inner loop of GetNextSingleVideo, over the positions from `j` on, `n` of them.
unfoldable pub find_in_row : State → ℤ → ℕ → ℕ → Option ℕ
find_in_row st g j zero = none
find_in_row st g j (suc n) =
    if is_negative (at_button st g j) then find_in_row st g (suc j) n else some j

-- The outer loop, over the groups from `g` on, `n` of them.
unfoldable pub find_in_rows : State → ℤ → ℕ → ℕ → Option (ℤ × ℕ)
unfolding find_in_row
find_in_rows st g j zero = none
find_in_rows st g j (suc n) = elim (find_in_row st g j (4 - j)) [
  | some k ↦ some (g, k)
  | none ↦ find_in_rows st (g +ℤ pos 1) 0 n
]

abbrev pub rows_left : ℤ → ℕ
rows_left (pos g) = 8 - g
rows_left (negsuc i) = 9 + i

-- Where the search begins: behind the button of the camera shown. No camera is at a negative position.
unfoldable pub begin : ℤ × ℤ × ℤ → ℤ × ℕ
begin (r, g, p) =
    let p1 = p +ℤ pos 1 in
    let g1 = g +ℤ pos 1 in
    if leb 4 (pos_part p1)
    then (if eq_ℤ g1 (pos 8) then (pos 0, 0) else (g1, 0))
    else (g, pos_part p1)

-- The two searches of GetNextSingleVideo, and the button that they end at.
unfoldable pub search : State → ℤ × ℕ → ℤ × ℕ
unfolding find_in_rows
search st (g, j) = elim (find_in_rows st g j (rows_left g)) [
  | some b ↦ b
  | none ↦ elim (find_in_rows st (pos 0) 0 8) [ some b ↦ b | none ↦ (pos 0, 0) ]
]

-- GetNextSingleVideo; `cur` is g_iCurSingleVideoIdx.
unfoldable pub get_next_single_video : State → ℤ → ℤ
unfolding begin search
get_next_single_video st cur =
    let (g, j) = search st (begin (get_btn_pose_accord_video_idx st cur)) in at_button st g j

-- The last of four that is not -1.
unfoldable pub last_shown : ℤ → List ℤ → ℤ
last_shown v [] = v
last_shown v (c ∷ cs) = last_shown (if eq_ℤ c (negsuc 0) then v else c) cs

-- The group behind a group; up to 28 cameras, the last group is shown with the first.
unfoldable pub next_group : ℕ → ℤ → ℤ
next_group n g =
    let g1 = g +ℤ pos 1 in
    if eq_ℤ g1 (pos 7) && leb n 28
    then pos 0
    else if eq_ℤ g1 (pos 8)
    then (if leb n 28 then pos 1 else pos 0)
    else g1

-- The cameras of a group, with those of the last group where the first has none.
unfoldable pub four_of : State → ℤ → List ℤ
four_of st g =
    map
      (λ j.
        let v = at_button st g j in
        if eq_ℤ v (negsuc 0) && (eq_ℤ g (pos 0) && leb st.video_num 28)
        then at_button st (pos 7) j
        else v)
      (0 ∷ 1 ∷ 2 ∷ 3 ∷ [])

-- GetNextFourVideo; `four` is g_aiCurFourVideoIdx.
unfoldable pub get_next_four_video : State → List ℤ → List ℤ
unfolding last_shown next_group four_of
get_next_four_video st four =
    let (r, g, p) = get_btn_pose_accord_video_idx st (last_shown (negsuc 0) four) in
    four_of st (next_group st.video_num g)

-- `E_PLAY_STYLE`
pub data PlayStyle : Type 0 where
  four_play single_play : PlayStyle

abbrev pub is_four : PlayStyle → Bool
is_four four_play = true
is_four single_play = false

-- The calls of the player library: CMP_CloseMedia, CMP_UnInit, a player that is made and opened for a
-- camera, and CMP_SetDisplayEnable for one that is there.
pub data Call : Type 0 where
  close_media un_init display : ℕ → Call
  opened : ℕ → ℤ → Call

-- The globals and members that choose the cameras. `players` are g_pHplay[0] to [3], 0 for none,
-- `back_players` the other four, `single_player` g_hSinglePlay and `back_player` g_hBackSinglePlay;
-- `calls` are those made so far.
pub record View : Type 0 where
  pub cur_style : PlayStyle
  pub next_style : PlayStyle
  pub cur_single : ℤ
  pub next_single : ℤ
  pub cur_four : List ℤ
  pub next_four : List ℤ
  pub cycle_flag : Bool
  pub warn : Bool
  pub warn_freshed : Bool
  pub last_time : ℤ
  pub players : List ℕ
  pub back_players : List ℕ
  pub back_four : List ℤ
  pub single_player : ℕ
  pub back_player : ℕ
  pub back_single : ℤ
  pub calls : List Call

-- videoPollingfunction, less the icons that UpdateCamStatefunc sets.
unfoldable pub video_polling : State → View → View
unfolding get_next_four_video get_next_single_video
video_polling st v =
    if v.cycle_flag
    then (if is_four v.cur_style
        then record v { next_single = negsuc 0; next_four = get_next_four_video st v.cur_four }
        else record v { next_single = get_next_single_video st v.cur_single })
    else v

-- The loops of FindDoorBtnInfo, FindDoorClipBtnInfo, FindBoxPecuBtnInfo and FindBoxFireBtnInfo over their
-- buttons, from number `i` on; 0 for a button that is not there.
unfoldable pub find_btn_info : ℕ → List ℕ → ℕ → ℕ
find_btn_info i [] b = 0
find_btn_info i (c ∷ cs) b = if c == b then i else find_btn_info (suc i) cs b

-- The four slots for the warnings' buttons: the camera of the button is shown next.
unfoldable pub warn_click : List ℕ → List ℤ → ℕ → View → View
unfolding find_btn_info
warn_click buttons idx b v =
    if v.warn_freshed
    then v
    else record v { next_single = get_or idx (find_btn_info 0 buttons b) (negsuc 0) }

-- FindCameBtnInfo over the 32 buttons, group by group.
unfoldable pub find_came_btn_info : ℕ → List ℕ → ℕ → Option ℕ
find_came_btn_info i [] b = none
find_came_btn_info i (c ∷ cs) b = if c == b then some i else find_came_btn_info (suc i) cs b

-- The choice of GroupButtonVideoClickSlot, for a group and a position.
unfoldable pub choose : State → ℕ → ℕ → View → View
unfolding four_of
choose st g j v =
    if not (is_four v.cur_style) || v.warn
    then record v { next_single = at_button st (pos g) j }
    else record v {
      next_four = four_of st (if g == 7 && leb st.video_num 28 then pos 0 else pos g);
      next_single = negsuc 0;
    }

-- The players that are there are closed.
unfoldable pub close_players : List ℕ → List Call
close_players [] = []
close_players (p ∷ ps) =
    let rest = close_players ps in if p == 0 then rest else close_media p ∷ un_init p ∷ rest

-- The players in the background are closed.
unfoldable pub close_background : View → View
unfolding close_players
close_background v = record v {
  calls = v.calls ++ (close_players v.back_players ++ close_players (v.back_player ∷ []));
  back_players = replicate 4 0;
  back_four = replicate 4 (negsuc 0);
  back_player = 0;
  back_single = negsuc 0;
}

-- GroupButtonVideoClickSlot; `time` is what the clock gives.
unfoldable pub group_button_video_click : State → List ℕ → ℤ → ℕ → View → View
unfolding find_came_btn_info choose close_background
group_button_video_click st buttons time b v =
    if eq_ℤ time v.last_time || v.warn_freshed
    then v
    else (let v1 = record v { last_time = time } in
        let v2 : View = elim (find_came_btn_info 0 buttons b) [
          | none ↦ v1
          | some i ↦ choose st (i / 4) (i % 4) v1
        ] in
        if v2.cycle_flag then close_background v2 else v2)

-- Less than 600000 in either direction.
abbrev pub close_to : ℤ → Bool
close_to (pos n) = ltb n 600000
close_to (negsuc n) = ltb (suc n) 600000

-- PlayWidCicked, where the click before was `since` microseconds ago.
unfoldable pub play_wid_clicked : ℤ → ℤ → View → View
play_wid_clicked since index v =
    if v.warn_freshed || not (close_to since && is_four v.cur_style)
    then v
    else (if not (eq_ℤ v.cur_single (negsuc 0))
        then record v { next_single = negsuc 0 }
        else elim (index? index 4) [
          | none ↦ v
          | some k ↦
              if get_or v.players k 0 == 0
              then v
              else record v { next_single = get_or v.cur_four k (negsuc 0) }
        ])

-- closeVideoCyc
unfoldable pub close_video_cyc : View → View
close_video_cyc v = record v { cycle_flag = false }

-- cycleSlot; whether the button is the one that opens the polling.
unfoldable pub cycle_slot : ℤ → Option Bool → View → View
unfolding close_video_cyc
cycle_slot time sender v =
    if eq_ℤ time v.last_time || v.warn
    then v
    else (let v1 = record v { last_time = time } in
        elim sender [
          | none ↦ v1
          | some true ↦
              if v1.cycle_flag
              then v1
              else (if is_four v1.cur_style
                  then record v1 { cycle_flag = true; next_single = negsuc 0 }
                  else record v1 { cycle_flag = true })
          | some false ↦ close_video_cyc v1
        ])
