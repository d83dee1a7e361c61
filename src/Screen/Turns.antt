-- ===== src/Screen/Turns.antt =====
-- The polling of four cameras in cctv/cctv.cpp where each group has a camera.
use cctvmonitor.Base.{
  ℕ, zero, suc, ◌+◌, ◌%◌, ◌<◌, ◌≡◌, ◌⊎◌, inl, inr, refl, ap, ◌∙◌, false, List, [], ◌∷◌, arith,
  if◌then◌else◌, dec_lt,
}
use cctvmonitor.Base.Int.{is_negative, ℤ, pos, negsuc, eq_ℤ}
use cctvmonitor.State.{State, IsValid}
use cctvmonitor.State.Video.{get_btn_pose_accord_video_idx}
use cctvmonitor.State.Video.Laws.{get_video_idx_accord_btn_pose-failure}
use cctvmonitor.Screen.{at_button, last_shown, next_group, four_of, get_next_four_video}
use cctvmonitor.Screen.Order.{plus_one}
use cctvmonitor.Screen.Restart.{shown, four_of_many, GroupIs-shown, next_of_group}

-- A camera, or the answer that there is none.
abbrev IsAnswer : ℤ → Type 0
IsAnswer v = (is_negative v ≡ false) ⊎ (v ≡ negsuc 0)

abbrev AreAnswers : List ℤ → Type 0
AreAnswers [] = Unit {0}
AreAnswers (c ∷ cs) = IsAnswer c × AreAnswers cs

abbrev HasCamera : List ℤ → Type 0
HasCamera [] = ⊥
HasCamera (c ∷ cs) = (is_negative c ≡ false) ⊎ HasCamera cs

step_camera :
    (v c : ℤ)
    → IsAnswer c
    → is_negative v ≡ false
    → is_negative (if eq_ℤ c (negsuc 0) then v else c) ≡ false
step_camera v (pos n) a h = refl
step_camera v (negsuc n) (inl e) h = absurd (ground (arith, e))
step_camera v (negsuc n) (inr e) h = ground (arith, e, h)

last_shown-camera :
    (v : ℤ) (cs : List ℤ)
    → AreAnswers cs
    → is_negative v ≡ false
    → is_negative (last_shown v cs) ≡ false
unfolding last_shown
last_shown-camera v [] a h = h
last_shown-camera v (c ∷ cs) a h =
    last_shown-camera (if eq_ℤ c (negsuc 0) then v else c) cs a.1 (step_camera v c a.0 h)

last_shown-HasCamera :
    (v : ℤ) (cs : List ℤ) → AreAnswers cs → HasCamera cs → is_negative (last_shown v cs) ≡ false
unfolding last_shown
last_shown-HasCamera v [] a h = absurd h
last_shown-HasCamera v (pos n ∷ cs) a h = last_shown-camera (pos n) cs a.1 refl
last_shown-HasCamera v (negsuc n ∷ cs) a (inl e) = absurd (ground (arith, e))
last_shown-HasCamera v (negsuc n ∷ cs) a (inr h) =
    last_shown-HasCamera (if eq_ℤ (negsuc n) (negsuc 0) then v else negsuc n) cs a.1 h

at_button-IsAnswer :
    (st : State) (g j : ℕ) (v : ℤ) → g < 8 → j < 4 → at_button st (pos g) j ≡ v → IsAnswer v
at_button-IsAnswer st g j (pos n) hg hj e = inl refl
at_button-IsAnswer st g j (negsuc n) hg hj e =
    inr (ap negsuc (get_video_idx_accord_btn_pose-failure st g j n hg hj e))

-- Each group has a button with a camera.
abbrev pub AreFilled : State → Type 0
AreFilled st = (g : ℕ) → g < 8 → (j : ℕ) × (j < 4) × (is_negative (at_button st (pos g) j) ≡ false)

four_of-HasCamera :
    (st : State) (g j : ℕ)
    → j < 4
    → is_negative (at_button st (pos g) j) ≡ false
    → HasCamera (
        at_button st (pos g) 0
        ∷ at_button st (pos g) 1
        ∷ at_button st (pos g) 2
        ∷ at_button st (pos g) 3
        ∷ [])
four_of-HasCamera st g zero l h = inl h
four_of-HasCamera st g (suc zero) l h = inr (inl h)
four_of-HasCamera st g (suc (suc zero)) l h = inr (inr (inl h))
four_of-HasCamera st g (suc (suc (suc zero))) l h = inr (inr (inr (inl h)))
four_of-HasCamera st g (suc (suc (suc (suc j)))) l h = absurd (omega arith)

group_shown :
    (st : State) (g : ℕ)
    → IsValid st
    → 28 < st.video_num
    → AreFilled st
    → g < 8
    → (get_btn_pose_accord_video_idx st (last_shown (negsuc 0) (four_of st (pos g)))).1 ≡ pos g
group_shown st g valid many filled h =
    let (j, l, e) = filled g h in
    let answer : (j : ℕ) → j < 4 → IsAnswer (at_button st (pos g) j) =
      λ j l. at_button-IsAnswer st g j (at_button st (pos g) j) h l refl in
    let camera : is_negative (last_shown (negsuc 0) (four_of st (pos g))) ≡ false =
      rw (four_of_many st (pos g) many) (
        last_shown-HasCamera (negsuc 0) _
          (
            answer 0 (omega arith),
            (answer 1 (omega arith), (answer 2 (omega arith), (answer 3 (omega arith), tt))),
          )
          (four_of-HasCamera st g j l e)) in
    elim (GroupIs-shown st g valid many h) [
      | inl n ↦ absurd (ground (arith, n, camera))
      | inr e ↦ e
    ]

next_group_last : (n : ℕ) → 28 < n → next_group n (pos 7) ≡ pos 0
unfolding next_group
next_group_last n many = rw (plus_one 7) (ground arith)

next_of_last :
    (st : State) (four : List ℤ)
    → 28 < st.video_num
    → (get_btn_pose_accord_video_idx st (last_shown (negsuc 0) four)).1 ≡ pos 7
    → get_next_four_video st four ≡ four_of st (pos 0)
unfolding get_next_four_video
next_of_last st four many h =
    ap (four_of st) (ap (next_group st.video_num) h ∙ next_group_last st.video_num many)

-- With more than 28 cameras of which each group has one, the polling of four cameras that begins with the
-- first group shows the eight groups in turn, however long it runs.
pub shown-turns :
    (st : State) (n : ℕ)
    → IsValid st
    → 28 < st.video_num
    → AreFilled st
    → shown st n ≡ four_of st (pos (n % 8))
unfolding shown
shown-turns st zero valid many filled = refl
shown-turns st (suc n) valid many filled =
    let again = ap (get_next_four_video st) (shown-turns st n valid many filled) in
    let here = group_shown st (n % 8) valid many filled (omega arith) in
    elim (dec_lt (n % 8) 7) [
      | Dec.yes l ↦
          let e : n % 8 + 1 ≡ suc n % 8 = omega arith in
          again
          ∙ next_of_group st (four_of st (pos (n % 8))) (n % 8) many l here
          ∙ ap (λ g. four_of st (pos g)) e
      | Dec.no ge ↦
          let e : n % 8 ≡ 7 = omega arith in
          let z : 0 ≡ suc n % 8 = omega arith in
          again
          ∙ next_of_last st (four_of st (pos (n % 8))) many (here ∙ ap pos e)
          ∙ ap (λ g. four_of st (pos g)) z
    ]
