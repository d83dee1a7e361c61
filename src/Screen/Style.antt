-- ===== src/Screen/Style.antt =====
-- The change between one picture and four in cctv/cctv.cpp: PlayStyleChangedfunc, sigalePageSlot and
-- fourPageSlot. The windows and icons that are shown, hidden or to be drawn again are left out.
use cctvmonitor.Base.{ℕ, not, ◌&&◌, ◌||◌, List, [], ◌∷◌, ◌++◌, ◌==◌, leb, if◌then◌else◌, replicate}
use cctvmonitor.Base.Int.{is_negative, ℤ, pos, negsuc, eq_ℤ}
use cctvmonitor.State.{State}
use cctvmonitor.State.Video.{get_btn_pose_accord_video_idx}
use cctvmonitor.Screen.{
  four_of, four_play, single_play, is_four, Call, close_media, un_init, display, opened, View,
  close_players,
}

-- The players of a picture and of its background are closed, in turn; of those of the background
-- CMP_UnInit gets the picture's, which is 0 by then.
unfoldable pub close_pairs : List ℕ → List ℕ → List Call
unfolding close_players
close_pairs [] bs = []
close_pairs (p ∷ ps) [] = []
close_pairs (p ∷ ps) (b ∷ bs) =
    close_players (p ∷ [])
    ++ ((if b == 0 then [] else close_media b ∷ un_init 0 ∷ []) ++ close_pairs ps bs)

-- What CMP_Init returns for each picture, and the players that are made.
unfoldable pub made_players : List ℕ → List ℤ → List ℕ
made_players (h ∷ hs) (i ∷ is) = (if eq_ℤ i (negsuc 0) then 0 else h) ∷ made_players hs is
made_players _ _ = []

unfoldable pub made_calls : List ℕ → List ℤ → List Call
made_calls (h ∷ hs) (i ∷ is) =
    let rest = made_calls hs is in if eq_ℤ i (negsuc 0) then rest else opened h i ∷ rest
made_calls _ _ = []

-- PlayStyleChangedfunc for four pictures; `made` is what CMP_Init returns for each.
unfoldable pub to_four : List ℕ → View → View
unfolding close_pairs made_players made_calls close_players
to_four made v = record v {
  calls =
      v.calls
      ++ (close_players (v.single_player ∷ v.back_player ∷ [])
          ++ (close_pairs v.players v.back_players ++ made_calls made v.next_four));
  single_player = 0;
  cur_single = negsuc 0;
  next_single = negsuc 0;
  back_player = 0;
  back_single = negsuc 0;
  players = made_players made v.next_four;
  back_players = replicate 4 0;
  back_four = replicate 4 (negsuc 0);
  cur_four = v.next_four;
  cur_style = four_play;
}

-- The indices whose players were there become -1.
unfoldable pub cleared : List ℕ → List ℤ → List ℤ
cleared (p ∷ ps) (i ∷ is) = (if p == 0 then i else negsuc 0) ∷ cleared ps is
cleared _ is = is

-- The players of a picture and of its background are closed, in turn.
unfoldable pub close_both : List ℕ → List ℕ → List Call
unfolding close_players
close_both (p ∷ ps) (b ∷ bs) = close_players (p ∷ b ∷ []) ++ close_both ps bs
close_both _ _ = []

-- The picture shown alone: a new player where the camera is another.
unfoldable pub show_single : ℕ → View → View
unfolding close_players
show_single made v =
    if eq_ℤ v.cur_single v.next_single
    then record v { calls = v.calls ++ display v.single_player ∷ [] }
    else record v {
      calls = v.calls ++ (close_players (v.single_player ∷ []) ++ opened made v.next_single ∷ []);
      single_player = made;
      cur_single = v.next_single;
    }

-- PlayStyleChangedfunc for one picture.
unfoldable pub to_single : ℕ → View → View
unfolding cleared close_both show_single
to_single made v = show_single made (record v {
  calls = v.calls ++ (close_players (v.back_player ∷ []) ++ close_both v.players v.back_players);
  back_player = 0;
  back_single = negsuc 0;
  players = replicate 4 0;
  back_players = replicate 4 0;
  cur_four = cleared v.players v.cur_four;
  back_four = cleared v.back_players v.back_four;
  next_four = replicate 4 (negsuc 0);
  cur_style = single_play;
})

-- The loop of sigalePageSlot: the first camera of the four, and the next four.
unfoldable pub first_of_four : ℤ → List ℤ → List ℤ → ℤ × List ℤ
first_of_four next (c ∷ cs) (n ∷ ns) =
    let (i, rest) = first_of_four next cs ns in
    if eq_ℤ c (negsuc 0) then (i, negsuc 0 ∷ rest) else (c, n ∷ ns)
first_of_four next _ ns = (next, ns)

-- sigalePageSlot
unfoldable pub sigale_page : ℤ → ℕ → View → View
unfolding to_single first_of_four
sigale_page time made v =
    if eq_ℤ time v.last_time || v.warn
    then v
    else (let v1 = record v { last_time = time } in
        if not (is_four v.cur_style)
        then v1
        else (let (i, four) =
              if eq_ℤ v.cur_single (negsuc 0)
              then first_of_four v.next_single v.cur_four v.next_four
              else (v.cur_single, v.next_four) in
            to_single made (record v1 {
              next_style = single_play;
              next_single = if eq_ℤ i (negsuc 0) then pos 0 else i;
              next_four = four;
            })))

-- The group that fourPageSlot shows.
unfoldable pub group_of : State → ℤ → ℤ
group_of st cur =
    let (r, g, p) = get_btn_pose_accord_video_idx st cur in
    let g1 = if eq_ℤ cur (negsuc 0) then negsuc 0 else g in
    if is_negative g1 || (eq_ℤ g1 (pos 7) && leb st.video_num 28) then pos 0 else g1

-- fourPageSlot
unfoldable pub four_page : State → ℤ → List ℕ → View → View
unfolding to_four group_of
four_page st time made v =
    if eq_ℤ time v.last_time || v.warn
    then v
    else (let v1 = record v { last_time = time } in
        if is_four v.cur_style
        then v1
        else to_four made (record v1 {
          next_style = four_play;
          next_four = four_of st (group_of st v.cur_single);
          next_single = negsuc 0;
        }))
