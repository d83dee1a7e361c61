-- ===== src/Gb2312/Whole.antt =====
-- The conversion to UTF-8 of ftp/gb2312_utf8.c of a text whose characters are whole stays inside the memory
-- that it allocates and inside its caller's buffer.
use cctvmonitor.Base.{
  ℕ, suc, ◌+◌, ◌-◌, ◌*◌, ◌^◌, ◌≤◌, ◌<◌, ◌≡◌, refl, sym, subst, Bool, true, false, Option, none,
  some, [], ◌∷◌, ◌++◌, ◌==◌, ltb, leb, lt→ltb, if◌then◌else◌, length, length-take, length-append,
  take, replicate, Bytes, overwrite, arith, if_both, if_both_of,
}
use cctvmonitor.Gb2312.{Table, getun, encoded, is_high, to_utf_8, gb2312_to_utf_8}
use cctvmonitor.Gb2312.Bounds.{gb2312_to_utf_8-lt}

-- ASCII bytes, and pairs of a byte above 0x80 and another; whether the table has them does not matter.
pub data IsWhole : Bytes → Type 0 where
  ended : IsWhole []
  low : {s : Bytes} (b : ℕ) → b < 128 → IsWhole s → IsWhole (b ∷ s)
  high : {s : Bytes} (b c : ℕ) → 128 < b → b < 256 → IsWhole s → IsWhole (b ∷ c ∷ s)

-- A result of the loop over `n` bytes: at most three for every two.
abbrev Fits : ℕ → Option Bytes → Type 0
Fits n none = ⊥
Fits n (some r) = 2 * length r ≤ 3 * n

step-Fits :
    (n out_len k : ℕ) (r : Bytes) (rest : Option Bytes)
    → 2 * length r ≤ 3 * n
    → Fits n rest
    → Fits n (
        if ltb (n * 2) (length r)
        then none
        else if leb (out_len - k) (length r)
        then some (take (out_len - k) r)
        else rest)
step-Fits n out_len k r rest h more =
    if_both_of (Fits n) (ltb (n * 2) (length r)) (λ e. absurd (ground (arith, e)))
      (λ e.
        if_both_of (Fits n) (leb (out_len - k) (length r))
          (λ e. omega (arith, length-take (out_len - k) r)) (λ e. more))

module _ (t : Table) (out_len size : ℕ) where
  to_utf_8_one :
      (n b : ℕ) (s rst : Bytes)
      → b < 128
      → to_utf_8 t out_len size (suc n) (b ∷ s) rst ≡ (
          let r = rst ++ b ∷ [] in
          if ltb size (length r)
          then none
          else if leb (out_len - 1) (length r)
          then some (take (out_len - 1) r)
          else to_utf_8 t out_len size n s r)
  unfolding to_utf_8
  to_utf_8_one n b [] rst h = let e : is_high b ≡ false = ground arith in rw e refl
  to_utf_8_one n b (c ∷ s) rst h = let e : is_high b ≡ false = ground arith in rw e refl

  to_utf_8_two :
      (n b c : ℕ) (s rst : Bytes)
      → 128 < b
      → b < 256
      → to_utf_8 t out_len size (suc (suc n)) (b ∷ c ∷ s) rst ≡ (
          let r = rst ++ encoded (getun t (b + c * 2 ^ 8) ∷ []) in
          if ltb size (length r)
          then none
          else if leb (out_len - 2) (length r)
          then some (take (out_len - 2) r)
          else to_utf_8 t out_len size n s r)
  unfolding to_utf_8
  to_utf_8_two n b c s rst h h2 =
      let high : is_high b ≡ true = ground arith in
      let wide : leb b 0x80 ≡ false = ground arith in
      let left : suc n - 1 ≡ n = omega arith in rw (high, wide, left) refl

to_utf_8-Fits :
    (t : Table) (out_len n : ℕ) {s : Bytes} (w : IsWhole s) (rst : Bytes)
    → 2 * length rst + 3 * length s ≤ 3 * n
    → Fits n (to_utf_8 t out_len (n * 2) (length s) s rst)
to_utf_8-Fits t out_len n ended rst h = unfold to_utf_8 in omega arith
to_utf_8-Fits t out_len n (low {s} b l w) rst h =
    let r = rst ++ b ∷ [] in
    let one = length-append rst (b ∷ []) in
    subst (Fits n) (sym (to_utf_8_one t out_len (n * 2) (length s) b s rst l)) (
      step-Fits n out_len 1 r (to_utf_8 t out_len (n * 2) (length s) s r) (omega (arith, one))
        (to_utf_8-Fits t out_len n w r (omega (arith, one))))
to_utf_8-Fits t out_len n (high {s} b c l l' w) rst h =
    let us = getun t (b + c * 2 ^ 8) ∷ [] in
    let r = rst ++ encoded us in
    let three : length r ≡ length rst + 3 =
      unfold encoded in omega (arith, length-append rst (encoded us)) in
    subst (Fits n) (sym (to_utf_8_two t out_len (n * 2) (length s) b c s rst l l')) (
      step-Fits n out_len 2 r (to_utf_8 t out_len (n * 2) (length s) s r) (omega (arith, three))
        (to_utf_8-Fits t out_len n w r (omega (arith, three))))

abbrev HasResult : Option (ℕ × Bytes) → Type 0
HasResult o = (len : ℕ) × (buf : Bytes) × (o ≡ some (len, buf))

-- What is stored of the result of the loop.
stored :
    (n out_len : ℕ) (o : Option Bytes)
    → 0 < n
    → Fits n o
    → HasResult (elim o [
      | none ↦ none
      | some r ↦
          if ltb (length r) (n * 2)
          then some (length r, overwrite (replicate out_len 0) r)
          else none
    ])
stored n out_len none p h = absurd h
stored n out_len (some r) p h =
    let room : ltb (length r) (n * 2) ≡ true = lt→ltb (length r) (n * 2) (omega arith) in
    (length r, overwrite (replicate out_len 0) r, rw room refl)

gb2312_to_utf_8-some :
    (malloc : Bool) (t : Table) (s : Bytes) (out_len : ℕ)
    → IsWhole s
    → HasResult (gb2312_to_utf_8 malloc t s (length s) out_len)
unfolding gb2312_to_utf_8
gb2312_to_utf_8-some malloc t s out_len w =
    let none_written : HasResult (some (0, replicate out_len 0)) = (0, replicate out_len 0, refl) in
    if_both_of HasResult (length s == 0) (λ e. none_written)
      (λ e.
        if_both HasResult malloc
          (stored (length s) out_len (to_utf_8 t out_len (length s * 2) (length s) s [])
            (ground (arith, e)) (to_utf_8-Fits t out_len (length s) w [] (omega arith)))
          none_written)

-- GB2312ToUTF_8 of a text of ASCII bytes and whole pairs, each of a byte above 0x80 and another, never writes
-- behind the memory that it allocates, and leaves a buffer of OutBuflen bytes with a length below
-- OutBuflen, whatever the table and `malloc`, for an OutBuflen of at least 2.
pub gb2312_to_utf_8-IsWhole :
    (malloc : Bool) (t : Table) (s : Bytes) (out_len : ℕ)
    → 2 ≤ out_len
    → IsWhole s
    → (len : ℕ) × (buf : Bytes) × (gb2312_to_utf_8 malloc t s (length s) out_len ≡ some (len, buf))
      × (len < out_len)
      × (length buf ≡ out_len)
gb2312_to_utf_8-IsWhole malloc t s out_len h w =
    let (len, buf, e) = gb2312_to_utf_8-some malloc t s out_len w in
    let (below, whole) = gb2312_to_utf_8-lt malloc t s (length s) out_len len buf h e in
    (len, buf, e, below, whole)
