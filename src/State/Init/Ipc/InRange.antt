-- ===== src/State/Init/Ipc/InRange.antt =====
-- What a line that ParseIpcInfo of state/state.c takes holds.
use cctvmonitor.Base.{
  ℕ, ◌≡◌, ◌<◌, inl, inr, refl, sym, ◌∙◌, subst, true, ◌||◌, List, [], ◌∷◌, ◌==◌, ltb, if◌then◌else◌,
  Bytes, arith, Bool-cases,
}
use cctvmonitor.Base.Int.{ℤ, pos, negsuc, ◌-ℤ◌, success}
use cctvmonitor.Base.Decimal.{atoi}
use cctvmonitor.State.{IpcInfo}
use cctvmonitor.State.Init.Ipc.{checked, parse_field, parse_fields, parse_ipc_info, tokens}

-- `v` is one of the `n` indices from 0 on.
abbrev pub IsBelow : ℤ → ℕ → Type 0
IsBelow v n = (k : ℕ) × (v ≡ pos k) × (k < n)

pub record InRange (c : IpcInfo) : Type 0 where
  pub nvr_in : IsBelow c.nvr_no 6
  pub group_in : IsBelow c.ui_group 8
  pub pos_in : IsBelow c.ui_pos 4
  pub img_in : IsBelow (c.img_index -ℤ pos 1) 32

checked_in :
    (v : ℤ) (n b m : ℕ) (ret : ℤ) → checked v n (negsuc b) ret ≡ pos m → IsBelow v n × (ret ≡ pos m)
checked_in (negsuc i) n b m ret e = absurd (ground arith)
checked_in (pos i) n b m ret e = elim (Bool-cases (ltb i n)) [
  | inl y ↦ ((i, refl, ground (arith, y)), ground (arith, y, e))
  | inr z ↦ absurd (ground (arith, z, e))
]

module _ (user password : Bytes) where
  -- The addresses, fields 4 and 5, change neither the numbers nor iRet.
  addresses :
      (ts : List Bytes) (c : IpcInfo) (ret : ℤ)
      → let r = parse_fields user password 4 ts c ret in
        (r.1.nvr_no ≡ c.nvr_no)
        × (r.1.ui_group ≡ c.ui_group)
        × (r.1.ui_pos ≡ c.ui_pos)
        × (r.1.img_index ≡ c.img_index)
        × (r.2 ≡ ret)
  unfolding parse_fields parse_field
  addresses [] c ret = (refl, refl, refl, refl, refl)
  addresses (t ∷ []) c ret = (refl, refl, refl, refl, refl)
  addresses (t ∷ u ∷ ts) c ret = (refl, refl, refl, refl, refl)

  fields_in :
      (ts : List Bytes) (c : IpcInfo) (m : ℕ)
      → let r = parse_fields user password 0 ts c (pos 0) in
        r.2 ≡ pos m → (r.0 == 4 || r.0 == 5) ≡ true → InRange r.1
  unfolding parse_fields parse_field
  fields_in [] c m e h = absurd (ground (arith, h))
  fields_in (t ∷ []) c m e h = absurd (ground (arith, h))
  fields_in (t ∷ u ∷ []) c m e h = absurd (ground (arith, h))
  fields_in (t ∷ u ∷ v ∷ []) c m e h = absurd (ground (arith, h))
  fields_in (t ∷ u ∷ v ∷ w ∷ ts) c m e h =
      let c4 = record c {
        nvr_no = atoi t -ℤ pos 1;
        ui_group = atoi u -ℤ pos 1;
        ui_pos = atoi v -ℤ pos 1;
        img_index = atoi w;
      } in
      let (a, b, d, f, g) = addresses ts c4 _ in
      let (i3, r3) = checked_in (atoi w -ℤ pos 1) 32 3 m _ (sym g ∙ e) in
      let (i2, r2) = checked_in (atoi v -ℤ pos 1) 4 2 m _ r3 in
      let (i1, r1) = checked_in (atoi u -ℤ pos 1) 8 1 m _ r2 in
      let (i0, r0) = checked_in (atoi t -ℤ pos 1) 6 0 m _ r1 in
      record {
        nvr_in = subst (λ x. IsBelow x 6) (sym a) i0;
        group_in = subst (λ x. IsBelow x 8) (sym b) i1;
        pos_in = subst (λ x. IsBelow x 4) (sym d) i2;
        img_in = subst (λ x. IsBelow (x -ℤ pos 1) 32) (sym f) i3;
      }

-- The end of ParseIpcInfo.
ended_in :
    (i : ℕ) (c : IpcInfo) (ret : ℤ)
    → (let r : ℤ × IpcInfo = elim ret [
      | negsuc n ↦ (negsuc 0, c)
      | pos n ↦ if i == 4 || i == 5 then (success, c) else (negsuc 0, c)
    ] in
        (r.0 ≡ success → ((m : ℕ) × (ret ≡ pos m) × ((i == 4 || i == 5) ≡ true))) × (r.1 ≡ c))
ended_in i c (negsuc n) = ((λ e. absurd (ground arith)), refl)
ended_in i c (pos n) = elim (Bool-cases (i == 4 || i == 5)) [
  | inl y ↦ ((λ e. (n, refl, y)), ground (arith, y))
  | inr z ↦ ((λ e. absurd (ground (arith, z, e))), ground (arith, z))
]

-- A line that ParseIpcInfo takes gives the camera an NVR below 6, a group below 8, a position below 4
-- and an image from 1 to 32, however the line is made.
pub parse_ipc_info-InRange :
    (s : Bytes) (c : IpcInfo) (user password : Bytes)
    → (parse_ipc_info s c user password).0 ≡ success
    → InRange (parse_ipc_info s c user password).1
unfolding parse_ipc_info
parse_ipc_info-InRange s c user password e =
    let r = parse_fields user password 0 (tokens s) c (pos 0) in
    let (back, same) = ended_in r.0 r.1 r.2 in
    let (m, good, whole) = back e in
    subst InRange (sym same) (fields_in user password (tokens s) c m good whole)
