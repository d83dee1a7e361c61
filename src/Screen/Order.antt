-- ===== src/Screen/Order.antt =====
-- The order in which the polling of cctv/cctv.cpp shows single cameras.
use cctvmonitor.Base.{
  ℕ, zero, suc, ◌+◌, ◌-◌, ◌*◌, ◌/◌, ◌%◌, ◌≤◌, ◌<◌, ◌≡◌, refl, sym, ap, ◌∙◌, Bool, true, false,
  Option, none, some, List, [], ◌∷◌, ◌++◌, arith, if◌then◌else◌, append_assoc,
}
use cctvmonitor.Base.Int.{is_negative, ℤ, pos, ◌+ℤ◌, success}
use cctvmonitor.State.{State}
use cctvmonitor.State.Video.{get_btn_pose_accord_video_idx}
use cctvmonitor.Screen.{at_button, find_in_row, find_in_rows, begin, search, get_next_single_video}

-- The buttons from number `s` on, `n` of them, in the order of the screen: four to a group.
abbrev pub buttons : ℕ → ℕ → List ℕ
buttons s zero = []
buttons s (suc n) = s ∷ buttons (suc s) n

abbrev pub camera_at : State → ℕ → ℤ
camera_at st s = at_button st (pos (s / 4)) (s % 4)

-- The camera of the first button of a list that has one, and that of the first button of the screen where
-- none has.
unfoldable pub first_camera : State → List ℕ → ℤ
first_camera st [] = camera_at st 0
first_camera st (s ∷ ss) =
    let rest = first_camera st ss in if is_negative (camera_at st s) then rest else camera_at st s

row_or : State → ℕ → Option ℕ → ℤ → ℤ
row_or st g none v = v
row_or st g (some k) v = at_button st (pos g) k

camera_at_row : (st : State) (g j : ℕ) → j < 4 → camera_at st (g * 4 + j) ≡ at_button st (pos g) j
camera_at_row st g j h =
    let a : (g * 4 + j) / 4 ≡ g = omega arith in
    let b : (g * 4 + j) % 4 ≡ j = omega arith in rw (a, b) refl

row_choice :
    (t : Bool) (st : State) (g j : ℕ) (o : Option ℕ) (v : ℤ)
    → (if t then row_or st g o v else at_button st (pos g) j)
      ≡ row_or st g (if t then o else some j) v
unfolding row_or
row_choice true st g j o v = refl
row_choice false st g j o v = refl

first_camera-row :
    (n : ℕ) (st : State) (g j : ℕ) (rest : List ℕ)
    → j + n ≤ 4
    → first_camera st (buttons (g * 4 + j) n ++ rest)
      ≡ row_or st g (find_in_row st (pos g) j n) (first_camera st rest)
unfolding first_camera find_in_row
first_camera-row zero st g j rest h = unfold row_or in refl
first_camera-row (suc n) st g j rest h =
    let next : suc (g * 4 + j) ≡ g * 4 + suc j = omega arith in
    let again = first_camera-row n st g (suc j) rest (omega arith) in
    let here = camera_at_row st g j (omega arith) in
    ap (λ x. if is_negative x then first_camera st (buttons (suc (g * 4 + j)) n ++ rest) else x)
      here
    ∙ ap (λ x. if is_negative (at_button st (pos g) j) then x else at_button st (pos g) j)
        (ap (λ s. first_camera st (buttons s n ++ rest)) next ∙ again)
    ∙ row_choice (is_negative (at_button st (pos g) j)) st g j (find_in_row st (pos g) (suc j) n)
        (first_camera st rest)

buttons-append : (s n m : ℕ) → buttons s (n + m) ≡ buttons s n ++ buttons (s + n) m
buttons-append s zero m =
    let none_of : 0 + m ≡ m = omega arith in
    let here : s ≡ s + 0 = omega arith in ap (buttons s) none_of ∙ ap (λ i. buttons i m) here
buttons-append s (suc n) m =
    let one : suc n + m ≡ suc (n + m) = omega arith in
    let next : suc s + n ≡ s + suc n = omega arith in
    ap (buttons s) one
    ∙ ap (λ ss. s ∷ ss)
        (buttons-append (suc s) n m ∙ ap (λ i. buttons (suc s) n ++ buttons i m) next)

-- What stands at a button, or else a value.
rows_or : State → Option (ℤ × ℕ) → ℤ → ℤ
rows_or st none v = v
rows_or st (some (g, k)) v = at_button st g k

rows_choice :
    (st : State) (g : ℕ) (o : Option ℕ) (r : Option (ℤ × ℕ)) (v : ℤ)
    → row_or st g o (rows_or st r v) ≡ rows_or st (elim o [ some k ↦ some (pos g, k) | none ↦ r ]) v
unfolding row_or rows_or
rows_choice st g none r v = refl
rows_choice st g (some k) r v = refl

pub plus_one : (g : ℕ) → pos g +ℤ pos 1 ≡ pos (g + 1)
unfolding ◌+ℤ◌
plus_one g = ground arith

-- The searches over the groups from `g` on look at the buttons from there to the last.
first_camera-rows :
    (n : ℕ) (st : State) (g j : ℕ) (rest : List ℕ)
    → j ≤ 4
    → first_camera st (buttons (g * 4 + j) (suc n * 4 - j) ++ rest)
      ≡ rows_or st (find_in_rows st (pos g) j (suc n)) (first_camera st rest)
unfolding find_in_rows
first_camera-rows zero st g j rest h =
    unfold rows_or in
    first_camera-row (4 - j) st g j rest (omega arith)
    ∙ rows_choice st g (find_in_row st (pos g) j (4 - j)) none (first_camera st rest)
first_camera-rows (suc n) st g j rest h =
    let split : suc (suc n) * 4 - j ≡ (4 - j) + suc n * 4 = omega arith in
    let next : (g * 4 + j) + (4 - j) ≡ (g + 1) * 4 + 0 = omega arith in
    let all : buttons (g * 4 + j) (suc (suc n) * 4 - j) ++ rest
        ≡ buttons (g * 4 + j) (4 - j) ++ (buttons ((g + 1) * 4 + 0) (suc n * 4) ++ rest) =
      ap (λ m. buttons (g * 4 + j) m ++ rest) split
      ∙ ap (λ ss. ss ++ rest) (buttons-append (g * 4 + j) (4 - j) (suc n * 4))
      ∙ ap (λ i. (buttons (g * 4 + j) (4 - j) ++ buttons i (suc n * 4)) ++ rest) next
      ∙ append_assoc (buttons (g * 4 + j) (4 - j)) (buttons ((g + 1) * 4 + 0) (suc n * 4)) rest in
    let whole : suc n * 4 ≡ suc n * 4 - 0 = omega arith in
    let again =
      ap (λ m. first_camera st (buttons ((g + 1) * 4 + 0) m ++ rest)) whole
      ∙ first_camera-rows n st (g + 1) 0 rest (omega arith) in
    ap (first_camera st) all
    ∙ first_camera-row (4 - j) st g j (buttons ((g + 1) * 4 + 0) (suc n * 4) ++ rest) (omega arith)
    ∙ ap (row_or st g (find_in_row st (pos g) j (4 - j))) again
    ∙ rows_choice st g (find_in_row st (pos g) j (4 - j)) (find_in_rows st (pos (g + 1)) 0 (suc n))
        (first_camera st rest)
    ∙ ap
        (λ x.
          rows_or st
            (elim (find_in_row st (pos g) j (4 - j)) [
              | some k ↦ some (pos g, k)
              | none ↦ find_in_rows st x 0 (suc n)
            ])
            (first_camera st rest))
        (sym (plus_one g))

-- A camera's button as a number.
abbrev after : ℕ → ℕ
after s = (s + 1) % 32

search_choice :
    (st : State) (o r : Option (ℤ × ℕ))
    → (let (g, j) = elim o as (λ x. ℤ × ℕ) [
      | some b ↦ b
      | none ↦ elim r [ some b ↦ b | none ↦ (pos 0, 0) ]
    ] in
        at_button st g j)
      ≡ rows_or st o (rows_or st r (at_button st (pos 0) 0))
unfolding rows_or
search_choice st none none = refl
search_choice st none (some b) = refl
search_choice st (some b) r = refl

search_lem :
    (st : State) (g j : ℕ)
    → g < 8
    → j < 4
    → (let (h, k) = search st (pos g, j) in at_button st h k)
      ≡ first_camera st (buttons (g * 4 + j) (32 - (g * 4 + j)) ++ buttons 0 32)
unfolding search first_camera
search_lem st g j hg hj =
    let groups : 8 - g ≡ suc (7 - g) = omega arith in
    let rest : suc (7 - g) * 4 - j ≡ 32 - (g * 4 + j) = omega arith in
    search_choice st (find_in_rows st (pos g) j (8 - g)) (find_in_rows st (pos 0) 0 8)
    ∙ ap
        (λ n.
          rows_or st (find_in_rows st (pos g) j n)
            (rows_or st (find_in_rows st (pos 0) 0 8) (at_button st (pos 0) 0)))
        groups
    ∙ ap (rows_or st (find_in_rows st (pos g) j (suc (7 - g))))
        (sym (first_camera-rows 7 st 0 0 [] (omega arith)))
    ∙ sym (first_camera-rows (7 - g) st g j (buttons 0 32) (omega arith))
    ∙ ap (λ n. first_camera st (buttons (g * 4 + j) n ++ buttons 0 32)) rest

begin-after :
    (r : ℤ) (g p : ℕ)
    → g < 8
    → p < 4
    → begin (r, pos g, pos p) ≡ (pos (after (g * 4 + p) / 4), after (g * 4 + p) % 4)
unfolding begin
begin-after r g p hg hp = rw (plus_one p, plus_one g) (ground arith)

-- GetNextSingleVideo gives the first camera behind the one shown, in the order of the buttons on the
-- screen and from its begin again behind its end; the camera shown has a button, of a group below 8 and a
-- position below 4.
pub get_next_single_video-first_camera :
    (st : State) (cur : ℤ) (g p : ℕ)
    → g < 8
    → p < 4
    → get_btn_pose_accord_video_idx st cur ≡ (success, pos g, pos p)
    → get_next_single_video st cur
      ≡ first_camera st (buttons (after (g * 4 + p)) (32 - after (g * 4 + p)) ++ buttons 0 32)
get_next_single_video-first_camera st cur g p hg hp e =
    let s = after (g * 4 + p) in
    let number : s / 4 * 4 + s % 4 ≡ s = omega arith in
    unfold get_next_single_video in
    ap (λ b. let (h, k) = search st (begin b) in at_button st h k) e
    ∙ ap (λ b. let (h, k) = search st b in at_button st h k) (begin-after success g p hg hp)
    ∙ search_lem st (s / 4) (s % 4) (omega arith) (omega arith)
    ∙ ap (λ i. first_camera st (buttons i (32 - i) ++ buttons 0 32)) number
