-- ===== src/State/Warn/Laws.antt =====
-- What the warnings' operations of state/state.c promise.
use cctvmonitor.Base.{
  ℕ, zero, suc, ◌+◌, ◌-◌, ◌≡◌, ◌<◌, refl, none, some, List, [], ◌∷◌, ltb, if◌then◌else◌, ◌==◌,
  get_or, update, Bytes, length, replicate, arith, get_or-update_self, get_or-update_ne, ℕ_discrete,
  subst,
}
use cctvmonitor.Base.Int.{failure, success}
use cctvmonitor.State.{State, CarriageWarn, no_warn, IsValid}
use cctvmonitor.State.Warn.{
  carriage, set_fire_warn_info, get_fire_warn_info, get_door_warn_info, get_all_door_clip_info,
  set_all_door_clip_info, set_clips, get_all_fire_warn_info,
}

get_or-set_clips :
    (rs : List CarriageWarn) (bs : Bytes) (n i : ℕ)
    → i < length rs
    → get_or (set_clips rs bs n) i no_warn
      ≡ record (get_or rs i no_warn) { door_clip_warn = get_or bs (n + i) 0 }
unfolding set_clips
get_or-set_clips [] bs n i h = absurd (omega arith)
get_or-set_clips (r ∷ rs) bs n zero h = let e : n + 0 ≡ n = omega arith in rw e refl
get_or-set_clips (r ∷ rs) bs n (suc i) h =
    let e : n + suc i ≡ n + 1 + i = omega arith in
    rw e (get_or-set_clips rs bs (n + 1) i (omega arith))

-- What SetAllDoorClipInfo stores of six bytes is what GetAllDoorClipInfo copies out, followed by
-- zeros in a longer buffer; the fire warnings stay as they are, and a buffer below six bytes is
-- refused.
get-set_all_door_clip_info :
    (st : State) (a b c d e f : ℕ) (rest : Bytes) (len : ℕ)
    → IsValid st
    → let st' = (set_all_door_clip_info st (a ∷ b ∷ c ∷ d ∷ e ∷ f ∷ rest)).1 in
      (get_all_door_clip_info st' len
        ≡ (if ltb len 6 then none else some (a ∷ b ∷ c ∷ d ∷ e ∷ f ∷ replicate (len - 6) 0)))
      × (get_all_fire_warn_info st' len ≡ get_all_fire_warn_info st len)
unfolding set_all_door_clip_info get_all_door_clip_info get_all_fire_warn_info
get-set_all_door_clip_info st a b c d e f rest len v =
    let bs = a ∷ b ∷ c ∷ d ∷ e ∷ f ∷ rest in
    let at : (i : ℕ)
        → i < 6
        → get_or (set_clips st.warns bs 0) i no_warn
          ≡ record (carriage st i) { door_clip_warn = get_or bs (0 + i) 0 } =
      λ i h. get_or-set_clips st.warns bs 0 i (omega (arith, v.warns_length)) in
    let b0 = at 0 (omega arith) in
    let b1 = at 1 (omega arith) in
    let b2 = at 2 (omega arith) in
    let b3 = at 3 (omega arith) in
    let b4 = at 4 (omega arith) in
    let b5 = at 5 (omega arith) in
    (ground (arith, b0, b1, b2, b3, b4, b5), ground (arith, b0, b1, b2, b3, b4, b5))

get_or_updated :
    (st : State) (c d : ℕ) (f : CarriageWarn → CarriageWarn)
    → IsValid st
    → c ≡ d
    → ¬ 5 < c
    → get_or (update st.warns c f) d no_warn ≡ f (carriage st d)
get_or_updated st c d f v e h =
    subst (λ m. get_or (update st.warns c f) m no_warn ≡ f (carriage st m)) e
      (get_or-update_self st.warns c f no_warn (omega (arith, v.warns_length)))

-- A fire warning stored for a carriage is the one read of it, no other carriage's changes, nor does
-- any door warning; a carriage number above 5 is refused, and changes no warning.
get-set_fire_warn_info :
    (st : State) (c d w : ℕ)
    → IsValid st
    → let (r, st') = set_fire_warn_info st c w in
      (r ≡ (if ltb 5 c then failure else success))
      × (get_fire_warn_info st' d
          ≡ (if ltb 5 d then none else if c == d then some w else get_fire_warn_info st d))
      × (get_door_warn_info st' d ≡ get_door_warn_info st d)
unfolding set_fire_warn_info get_fire_warn_info get_door_warn_info
get-set_fire_warn_info st c d w v =
    let f : CarriageWarn → CarriageWarn = λ r. record r { fire_warn = w } in
    elim (ℕ_discrete c d) [
      | Dec.no ne ↦ (
        ground arith,
        ground (arith, get_or-update_ne st.warns c d f no_warn ne),
        ground (arith, get_or-update_ne st.warns c d f no_warn ne),
      )
      | Dec.yes e ↦ (
        ground arith,
        ground (arith, v.warns_length, get_or_updated st c d f v e),
        ground (arith, v.warns_length, get_or_updated st c d f v e),
      )
    ]
