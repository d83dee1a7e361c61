-- ===== src/Screen/Restart.antt =====
-- Where the polling of four cameras in cctv/cctv.cpp begins again.
use cctvmonitor.Base.{
  ℕ, zero, suc, ◌+◌, ◌≤◌, ◌<◌, ◌≡◌, ◌⊎◌, inl, inr, refl, subst, ap, ◌∙◌, Bool, true, ◌&&◌, List, [],
  ◌∷◌, arith, if◌then◌else◌, leb, if_both_of, dec_lt,
}
use cctvmonitor.Base.Int.{is_negative, ℤ, pos, negsuc, ◌+ℤ◌, eq_ℤ}
use cctvmonitor.State.{State, IsValid}
use cctvmonitor.State.Video.{get_btn_pose_accord_video_idx}
use cctvmonitor.State.Video.Laws.{Answers, get_video_idx_accord_btn_pose-Answers}
use cctvmonitor.Screen.{at_button, last_shown, next_group, four_of, get_next_four_video}
use cctvmonitor.Screen.Order.{plus_one}

-- The four cameras shown after `n` rounds of the polling that begins with the first group.
unfoldable pub shown : State → ℕ → List ℤ
unfolding four_of get_next_four_video
shown st zero = four_of st (pos 0)
shown st (suc n) = get_next_four_video st (shown st n)

-- No camera in use has a button of the group.
abbrev pub IsEmptyGroup : State → ℕ → Type 0
IsEmptyGroup st h = (j : ℕ) → j < 4 → is_negative (at_button st (pos h) j) ≡ true

last_shown-keeps :
    (P : ℤ → Type 0) (v a b c d : ℤ)
    → P v
    → P a
    → P b
    → P c
    → P d
    → P (last_shown v (a ∷ b ∷ c ∷ d ∷ []))
unfolding last_shown
last_shown-keeps P v a b c d hv ha hb hc hd =
    let of_a = if_both_of P (eq_ℤ a (negsuc 0)) {a = v} {c = a} (λ e. hv) (λ e. ha) in
    let of_b = if_both_of P (eq_ℤ b (negsuc 0)) {c = b} (λ e. of_a) (λ e. hb) in
    let of_c = if_both_of P (eq_ℤ c (negsuc 0)) {c = c} (λ e. of_b) (λ e. hc) in
    if_both_of P (eq_ℤ d (negsuc 0)) {c = d} (λ e. of_c) (λ e. hd)

plain_if : (a b : Bool) (n : ℕ) (x v : ℤ) → 28 < n → (if a && (b && leb n 28) then x else v) ≡ v
plain_if a b n x v h = ground arith

pub four_of_many :
    (st : State) (g : ℤ)
    → 28 < st.video_num
    → four_of st g ≡ at_button st g 0 ∷ at_button st g 1 ∷ at_button st g 2 ∷ at_button st g 3 ∷ []
unfolding four_of
four_of_many st g h =
    let p : (j : ℕ)
        → (if eq_ℤ (at_button st g j) (negsuc 0) && (eq_ℤ g (pos 0) && leb st.video_num 28)
            then at_button st (pos 7) j
            else at_button st g j)
          ≡ at_button st g j =
      λ j.
        plain_if (eq_ℤ (at_button st g j) (negsuc 0)) (eq_ℤ g (pos 0)) st.video_num
          (at_button st (pos 7) j) (at_button st g j) h in
    rw (p 0, p 1, p 2, p 3) refl

-- The group of a camera, if it is one.
abbrev pub GroupIs : State → ℕ → ℤ → Type 0
GroupIs st g v = (is_negative v ≡ true) ⊎ ((get_btn_pose_accord_video_idx st v).1 ≡ pos g)

GroupIs-Answers : (st : State) (g p : ℕ) (v : ℤ) → Answers st g p v → GroupIs st g v
GroupIs-Answers st g p (pos k) h = inr (ap (λ r. r.1) h.1)
GroupIs-Answers st g p (negsuc k) h = inl refl

pub GroupIs-shown :
    (st : State) (g : ℕ)
    → IsValid st
    → 28 < st.video_num
    → g < 8
    → GroupIs st g (last_shown (negsuc 0) (four_of st (pos g)))
GroupIs-shown st g valid many h =
    let at : (j : ℕ) → j < 4 → GroupIs st g (at_button st (pos g) j) = λ j l.
      GroupIs-Answers st g j (at_button st (pos g) j)
        (get_video_idx_accord_btn_pose-Answers st g j valid h l) in
    rw (four_of_many st (pos g) many) (
      last_shown-keeps (GroupIs st g) (negsuc 0) (at_button st (pos g) 0) (at_button st (pos g) 1)
        (at_button st (pos g) 2) (at_button st (pos g) 3) (inl refl) (at 0 (omega arith))
        (at 1 (omega arith)) (at 2 (omega arith)) (at 3 (omega arith)))

next-first :
    (st : State) (v : ℤ)
    → 28 < st.video_num
    → is_negative v ≡ true
    → next_group st.video_num (get_btn_pose_accord_video_idx st v).1 ≡ pos 0
unfolding next_group get_btn_pose_accord_video_idx ◌+ℤ◌
next-first st (pos k) many h = absurd (ground (arith, h))
next-first st (negsuc k) many h = ground arith

next_group_many : (n g : ℕ) → 28 < n → g < 7 → next_group n (pos g) ≡ pos (g + 1)
unfolding next_group
next_group_many n g many h = rw (plus_one g) (ground arith)

-- The next four are those of a group up to the empty one.
abbrev Reaches : State → ℕ → List ℤ → Type 0
Reaches st h four = (g : ℕ) × (g ≤ h) × (four ≡ four_of st (pos g))

next_of_negative :
    (st : State) (four : List ℤ)
    → 28 < st.video_num
    → is_negative (last_shown (negsuc 0) four) ≡ true
    → get_next_four_video st four ≡ four_of st (pos 0)
unfolding get_next_four_video
next_of_negative st four many h =
    ap (four_of st) (next-first st (last_shown (negsuc 0) four) many h)

pub next_of_group :
    (st : State) (four : List ℤ) (g : ℕ)
    → 28 < st.video_num
    → g < 7
    → (get_btn_pose_accord_video_idx st (last_shown (negsuc 0) four)).1 ≡ pos g
    → get_next_four_video st four ≡ four_of st (pos (g + 1))
unfolding get_next_four_video
next_of_group st four g many l h =
    ap (four_of st) (ap (next_group st.video_num) h ∙ next_group_many st.video_num g many l)

empty-negative :
    (st : State) (h : ℕ)
    → 28 < st.video_num
    → IsEmptyGroup st h
    → is_negative (last_shown (negsuc 0) (four_of st (pos h))) ≡ true
empty-negative st h many empty = rw (four_of_many st (pos h) many) (
    last_shown-keeps (λ v. is_negative v ≡ true) (negsuc 0) (at_button st (pos h) 0)
      (at_button st (pos h) 1) (at_button st (pos h) 2) (at_button st (pos h) 3) refl
      (empty 0 (omega arith)) (empty 1 (omega arith)) (empty 2 (omega arith))
      (empty 3 (omega arith)))

Reaches-next :
    (st : State) (h g : ℕ)
    → IsValid st
    → 28 < st.video_num
    → h < 8
    → IsEmptyGroup st h
    → g ≤ h
    → Reaches st h (get_next_four_video st (four_of st (pos g)))
Reaches-next st h g valid many hh empty le =
    let back : is_negative (last_shown (negsuc 0) (four_of st (pos g))) ≡ true
        → Reaches st h (get_next_four_video st (four_of st (pos g))) =
      λ e. (0, omega arith, next_of_negative st (four_of st (pos g)) many e) in
    elim (dec_lt g h) [
      | Dec.yes lt ↦ elim (GroupIs-shown st g valid many (omega arith)) [
        | inl e ↦ back e
        | inr e ↦ (g + 1, omega arith, next_of_group st (four_of st (pos g)) g many (omega arith) e)
      ]
      | Dec.no ge ↦
          let same : h ≡ g = omega arith in
          back (
            subst (λ i. is_negative (last_shown (negsuc 0) (four_of st (pos i))) ≡ true) same
              (empty-negative st h many empty))
    ]

-- With more than 28 cameras and a group that none of them has a button of, the polling of four cameras
-- that begins with the first group never comes behind that group, however long it runs.
pub shown-Reaches :
    (st : State) (h n : ℕ)
    → IsValid st
    → 28 < st.video_num
    → h < 8
    → IsEmptyGroup st h
    → (g : ℕ) × (g ≤ h) × (shown st n ≡ four_of st (pos g))
unfolding shown
shown-Reaches st h zero valid many hh empty = (0, omega arith, refl)
shown-Reaches st h (suc n) valid many hh empty =
    let (g, le, e) = shown-Reaches st h n valid many hh empty in
    let (k, le', e') = Reaches-next st h g valid many hh empty le in
    (k, le', ap (get_next_four_video st) e ∙ e')
