-- ===== src/Proc/Broadcast/Pecu.antt =====
-- The PECU alarms of pmsg/pmsgproc.c.
use cctvmonitor.Base.{
  ℕ, ◌+◌, ◌-◌, ◌^◌, ◌≡◌, ◌<◌, ◌⊎◌, inl, inr, refl, sym, ap, subst, ◌∙◌, Bool, false, not, ◌&&◌,
  ◌||◌, [], ◌∷◌, ◌++◌, ◌==◌, ltb, get_or, if_both, Bytes, arith, Bool-cases,
}
use cctvmonitor.Base.Int.{ℤ, pos, negsuc, failure}
use cctvmonitor.Base.Bits.{test_bit, test_bit-or_bit, test_bit_zero, or_bit-lt}
use cctvmonitor.State.{State}
use cctvmonitor.State.Warn.{
  get_pecu_video_index, get_pecu_warn_info, get_pecu_first_warn_video_idx, set_pecu_warn_info,
  set_pecu_first_warn_video_idx,
}
use cctvmonitor.Proc.Broadcast.{pecu_from, on_pecu, first_video, pecu_bit, camera_of, is_pecu}

-- The address of PECU `j` is in the message.
abbrev pub alarms : Bytes → ℕ → Bool
alarms [] j = false
alarms (v ∷ vs) j = v == 20 + j || alarms vs j

abbrev pub HasNoCamera : State → Bytes → Type 0
HasNoCamera st [] = Unit {0}
HasNoCamera st (v ∷ vs) = (camera_of st v ≡ failure) × HasNoCamera st vs

-- The first of the addresses that has a camera has `k`.
abbrev pub FirstCamera : State → Bytes → ℕ → Type 0
FirstCamera st vs k =
    (before : Bytes) × (v : ℕ) × (after : Bytes) × (vs ≡ before ++ v ∷ after)
    × HasNoCamera st before
    × (camera_of st v ≡ pos k)

pecu_bit-test :
    (bits v j : ℕ) → j < 24 → test_bit (pecu_bit bits v) j ≡ (test_bit bits j || v == 20 + j)
pecu_bit-test bits v j h = ground (arith, test_bit-or_bit bits (v - 20) j)

pecu_bit-lt : (bits v : ℕ) → bits < 2 ^ 24 → pecu_bit bits v < 2 ^ 24
pecu_bit-lt bits v h = elim (Bool-cases (is_pecu v)) [
  | inl y ↦ ground (arith, y, or_bit-lt bits (v - 20) 24 h (ground (arith, y)))
  | inr y ↦ ground (arith, y)
]

pecu_bits :
    (st : State) (vs : Bytes) (bits : ℕ) (next : ℤ) (j : ℕ)
    → j < 24
    → test_bit (pecu_from st bits next vs).0 j ≡ (test_bit bits j || alarms vs j)
unfolding pecu_from
pecu_bits st [] bits next j h = ground arith
pecu_bits st (v ∷ vs) bits next j h = ground (
  arith,
  pecu_bits st vs (pecu_bit bits v) (first_video next (camera_of st v)) j h,
  pecu_bit-test bits v j h,
)

pecu_bits-lt :
    (st : State) (vs : Bytes) (bits : ℕ) (next : ℤ)
    → bits < 2 ^ 24
    → (pecu_from st bits next vs).0 < 2 ^ 24
unfolding pecu_from
pecu_bits-lt st [] bits next h = h
pecu_bits-lt st (v ∷ vs) bits next h = pecu_bits-lt st vs _ _ (pecu_bit-lt bits v h)

pecu_kept : (st : State) (vs : Bytes) (bits k : ℕ) → (pecu_from st bits (pos k) vs).1 ≡ pos k
unfolding pecu_from
pecu_kept st [] bits k = refl
pecu_kept st (v ∷ vs) bits k = pecu_kept st vs _ k

-- A result that is -1 or an index.
abbrev IsIndex : ℤ → Type 0
IsIndex c = (c ≡ failure) ⊎ ((k : ℕ) × (c ≡ pos k))

pecu-IsIndex_cases : (st : State) (i : ℕ) → IsIndex (get_pecu_video_index st (pos i))
unfolding get_pecu_video_index
pecu-IsIndex_cases st i =
    elim (Bool-cases (ltb i 24 && not (ltb st.video_num (get_or st.pecu_video i 0)))) [
      | inl y ↦ inr (get_or st.pecu_video i 0, ground (arith, y))
      | inr y ↦ inl (ground (arith, y))
    ]

camera_cases : (st : State) (v : ℕ) → IsIndex (camera_of st v)
camera_cases st v = if_both IsIndex (is_pecu v) (pecu-IsIndex_cases st (v - 20)) (inl refl)

-- What the loop finds where no camera was found before.
Found : State → Bytes → ℤ → Type 0
Found st vs r = ((r ≡ failure) × HasNoCamera st vs) ⊎ ((k : ℕ) × (r ≡ pos k) × FirstCamera st vs k)

Found-next :
    (st : State) (v : ℕ) (vs : Bytes) (r : ℤ)
    → camera_of st v ≡ failure
    → Found st vs r
    → Found st (v ∷ vs) r
unfolding Found
Found-next st v vs r e (inl (a, b)) = inl (a, (e, b))
Found-next st v vs r e (inr (k, a, (before, w, after, q, n, c))) =
    inr (k, a, (v ∷ before, w, after, ap (◌∷◌ v) q, (e, n), c))

pecu_first : (st : State) (vs : Bytes) (bits : ℕ) → Found st vs (pecu_from st bits (negsuc 0) vs).1
unfolding pecu_from Found
pecu_first st [] bits = inl (refl, tt)
pecu_first st (v ∷ vs) bits = elim (camera_cases st v) [
  | inl e ↦
      subst
        (λ c. Found st (v ∷ vs) (pecu_from st (pecu_bit bits v) (first_video (negsuc 0) c) vs).1)
        (sym e) (Found-next st v vs _ e (pecu_first st vs (pecu_bit bits v)))
  | inr (k, e) ↦
      subst
        (λ c. Found st (v ∷ vs) (pecu_from st (pecu_bit bits v) (first_video (negsuc 0) c) vs).1)
        (sym e) (inr (k, pecu_kept st vs (pecu_bit bits v) k, ([], v, vs, refl, tt, e)))
]

-- After a PECU message the stored word has exactly the bits of the PECUs, 0 to 23, whose address is in
-- the message, and no bit above them; the first warning's camera is that of the first address in the
-- message that has a camera, and -1 where none has one.
pub on_pecu_lem :
    (st : State) (vs : Bytes) (j : ℕ)
    → j < 24
    → (test_bit (get_pecu_warn_info (on_pecu st vs)) j ≡ alarms vs j)
      × (get_pecu_warn_info (on_pecu st vs) < 2 ^ 24)
      × (((get_pecu_first_warn_video_idx (on_pecu st vs) ≡ failure) × HasNoCamera st vs)
          ⊎ ((k : ℕ) × (get_pecu_first_warn_video_idx (on_pecu st vs) ≡ pos k)
              × FirstCamera st vs k))
unfolding on_pecu get_pecu_warn_info get_pecu_first_warn_video_idx Found set_pecu_warn_info
    set_pecu_first_warn_video_idx
on_pecu_lem st vs j h = (
  pecu_bits st vs 0 (negsuc 0) j h ∙ ap (λ b. b || alarms vs j) (test_bit_zero j),
  pecu_bits-lt st vs 0 (negsuc 0) (omega arith),
  pecu_first st vs 0,
)
