-- ===== src/Gb2312/Bounds.antt =====
-- The conversion to UTF-8 of ftp/gb2312_utf8.c stays inside its caller's buffer; the one to GB2312 does
-- not look at its size.
use cctvmonitor.Base.{
  ◌∙◌, ℕ, zero, suc, ◌-◌, ◌*◌, ◌≤◌, ◌<◌, ◌≡◌, refl, ap, Bool, true, Option, none, some, [], ◌∷◌,
  ◌++◌, ltb, leb, length, length-take, length-append, length-drop, length-replicate, replicate,
  Bytes, overwrite, arith, if_both, option_both, leb_of_le, if◌then◌else◌, ◌==◌, take, if_both_of,
  drop, subst,
}
use cctvmonitor.Gb2312.RoundTrip.{to_gb_low}
use cctvmonitor.Gb2312.{
  Table, gb2unicode, encoded, to_utf_8, gb2312_to_utf_8, to_gb, utf_8_to_gb2312, is_high, push,
}

-- A result of the loop has fewer bytes than `out_len`.
abbrev Below : ℕ → Option Bytes → Type 0
Below out_len none = Unit {0}
Below out_len (some r) = length r < out_len

-- A step that puts `r` there: the tests on its length, and the rest of the loop.
step-Below :
    (out_len size k : ℕ) (r : Bytes) (rest : Option Bytes)
    → 2 ≤ out_len
    → 1 ≤ k
    → (length r < out_len → Below out_len rest)
    → Below out_len (
        if ltb size (length r)
        then none
        else if leb (out_len - k) (length r)
        then some (take (out_len - k) r)
        else rest)
step-Below out_len size k r rest h one more = if_both (Below out_len) (ltb size (length r)) tt (
    if_both_of (Below out_len) (leb (out_len - k) (length r))
      (λ e. omega (arith, length-take (out_len - k) r)) (λ e. more (ground (arith, e))))

to_utf_8-Below :
    (t : Table) (out_len size n : ℕ) (s rst : Bytes)
    → 2 ≤ out_len
    → length rst < out_len
    → Below out_len (to_utf_8 t out_len size n s rst)
unfolding to_utf_8
to_utf_8-Below t out_len size zero s rst h l = l
to_utf_8-Below t out_len size (suc n) [] rst h l = tt
to_utf_8-Below t out_len size (suc n) (b ∷ []) rst h l =
    let r = rst ++ b ∷ [] in
    if_both (Below out_len) (is_high b) tt (
      step-Below out_len size 1 r (to_utf_8 t out_len size n [] r) h (omega arith)
        (to_utf_8-Below t out_len size n [] r h))
to_utf_8-Below t out_len size (suc n) (b ∷ c ∷ s) rst h l =
    let r = rst ++ b ∷ [] in
    if_both (Below out_len) (is_high b)
      (option_both (Below out_len) (gb2unicode t 2 (b ∷ c ∷ s)) tt (λ us.
        step-Below out_len size 2 (rst ++ encoded us)
          (to_utf_8 t out_len size (n - 1) s (rst ++ encoded us)) h (omega arith)
          (to_utf_8-Below t out_len size (n - 1) s (rst ++ encoded us) h)))
      (step-Below out_len size 1 r (to_utf_8 t out_len size n (c ∷ s) r) h (omega arith)
        (to_utf_8-Below t out_len size n (c ∷ s) r h))

length-overwrite :
    (dst src : Bytes) → length src ≤ length dst → length (overwrite dst src) ≡ length dst
unfolding overwrite
length-overwrite dst src h =
    omega (arith, length-append src (drop (length src) dst), length-drop (length src) dst)

-- A length and a buffer of `out_len` bytes that has room for it.
abbrev Inside : ℕ → Option (ℕ × Bytes) → Type 0
Inside out_len none = Unit {0}
Inside out_len (some (len, buf)) = (len < out_len) × (length buf ≡ out_len)

stored-Inside :
    (out_len size : ℕ) (o : Option Bytes)
    → Below out_len o
    → Inside out_len (elim o [
      | none ↦ none
      | some r ↦
          if ltb (length r) size then some (length r, overwrite (replicate out_len 0) r) else none
    ])
stored-Inside out_len size none h = tt
stored-Inside out_len size (some r) h =
    if_both (Inside out_len) (ltb (length r) size)
      (
        h,
        length-overwrite (replicate out_len 0) r (omega (arith, length-replicate {A = ℕ} out_len 0))
            ∙ length-replicate out_len 0,
      )
      tt

gb2312_to_utf_8-Inside :
    (malloc : Bool) (t : Table) (s : Bytes) (n out_len : ℕ)
    → 2 ≤ out_len
    → Inside out_len (gb2312_to_utf_8 malloc t s n out_len)
unfolding gb2312_to_utf_8
gb2312_to_utf_8-Inside malloc t s n out_len h =
    let empty : Inside out_len (some (0, replicate out_len 0)) =
      (omega arith, length-replicate out_len 0) in
    if_both (Inside out_len) (n == 0) empty (
      if_both (Inside out_len) malloc
        (stored-Inside out_len (n * 2) (to_utf_8 t out_len (n * 2) n s [])
          (to_utf_8-Below t out_len (n * 2) n s [] h (omega arith)))
        empty)

-- Where GB2312ToUTF_8 neither reads behind its text nor writes behind the memory that it allocates for
-- itself, it leaves a buffer of OutBuflen bytes with a length below OutBuflen, whatever the table and
-- `malloc`, for an OutBuflen of at least 2.
pub gb2312_to_utf_8-lt :
    (malloc : Bool) (t : Table) (s : Bytes) (n out_len len : ℕ) (buf : Bytes)
    → 2 ≤ out_len
    → gb2312_to_utf_8 malloc t s n out_len ≡ some (len, buf)
    → (len < out_len) × (length buf ≡ out_len)
gb2312_to_utf_8-lt malloc t s n out_len len buf h e =
    subst (Inside out_len) e (gb2312_to_utf_8-Inside malloc t s n out_len h)

abbrev pub AllAscii : Bytes → Type 0
AllAscii [] = Unit {0}
AllAscii (b ∷ s) = (b < 128) × AllAscii s

to_gb-ascii :
    (t : Table) (ctemp s rest : Bytes) → AllAscii s → to_gb t ctemp (length s) (s ++ rest) ≡ some s
to_gb-ascii t ctemp [] rest h = unfold to_gb in refl
to_gb-ascii t ctemp (b ∷ s) rest h =
    to_gb_low t ctemp (length s) b (s ++ rest) h.0 ∙ ap (push b) (to_gb-ascii t ctemp s rest h.1)

-- UTF_8ToGB2312 of an ASCII text, where its `malloc` succeeds, whatever the table, writes behind its
-- caller's buffer exactly where the text does not fit it with a NUL; otherwise it leaves the text and
-- zeros.
pub utf_8_to_gb2312-ascii :
    (t : Table) (s rest : Bytes) (out_len : ℕ)
    → AllAscii s
    → utf_8_to_gb2312 true t (s ++ rest) (length s) out_len ≡ (
        if ltb (length s) out_len
        then some (length s, overwrite (replicate out_len 0) (s ++ 0 ∷ []))
        else none)
unfolding utf_8_to_gb2312
utf_8_to_gb2312-ascii t s rest out_len h =
    rw (to_gb-ascii t (replicate 4 0) s rest h, leb_of_le (length s) (length s) (omega arith)) refl
