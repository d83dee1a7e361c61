-- ===== src/Gb2312/RoundTrip.antt =====
-- A GB2312 text through UTF-8 and back by ftp/gb2312_utf8.c.
use cctvmonitor.Base.{
  drop, ℕ, suc, ◌+◌, ◌-◌, ◌*◌, ◌/◌, ◌%◌, ◌^◌, ◌≤◌, ◌<◌, ◌≡◌, refl, sym, ap, ◌∙◌, Bool, true, false,
  ◌&&◌, none, some, [], ◌∷◌, ◌++◌, ltb, leb, ◌==◌, length, length-append, replicate, Bytes,
  overwrite, arith, append_assoc, append-nil, bit_and, bit_or,
}
use cctvmonitor.Gb2312.{
  Table, getun, getgb, unicode2gb, encoded, unicode_to_utf_8, utf_8_to_unicode, to_utf_8,
  gb2312_to_utf_8, to_gb, utf_8_to_gb2312, is_high, push,
}
use cctvmonitor.Base.Passes.{passes, passes_at}

-- A text of ASCII characters and of pairs of bytes that the table has, with a number from 256 on.
pub data Text (t : Table) : Bytes → Type 0 where
  done : Text t []
  ascii : {s : Bytes} (b : ℕ) → b < 128 → Text t s → Text t (b ∷ s)
  pair :
      {s : Bytes} (b c u : ℕ)
      → 128 < b
      → b < 256
      → c < 256
      → getun t (b + c * 2 ^ 8) ≡ u
      → getgb t u ≡ b + c * 2 ^ 8
      → 256 ≤ u
      → u < 65536
      → Text t s
      → Text t (b ∷ c ∷ s)

-- The bytes that UnicodeToUTF_8 writes.
abbrev lead : ℕ → ℕ
lead hi = bit_or 0xe0 (bit_and hi 0xf0 / 2 ^ 4)

abbrev middle : ℕ → ℕ → ℕ
middle c hi = (bit_or 0x80 (bit_and hi 0x0f * 2 ^ 2) + c) % 2 ^ 8

abbrev last : ℕ → ℕ
last lo = bit_or 0x80 (bit_and lo 0x3f)

abbrev upper : ℕ → ℕ
upper lo = bit_and lo 0xc0 / 2 ^ 6

-- The tests of the bits of a high and a low byte.
high_test : ℕ → ℕ → Bool
high_test c hi =
    ((bit_and (lead hi) 0x0f * 2 ^ 4 + bit_and (middle c hi / 2 ^ 2) 0x0f) % 2 ^ 8 == hi)
    && (bit_and (middle c hi) 0x03 == c && lead hi / 2 ^ 7 % 2 == 1)

low_test : ℕ → Bool
low_test lo = ((upper lo * 2 ^ 6 + bit_and (last lo) 0x3f) % 2 ^ 8 == lo) && ltb (upper lo) 4

high_table : passes 4 (λ c. passes 256 (high_test c)) ≡ true
unfolding passes high_test
high_table = refl

low_table : passes 256 low_test ≡ true
unfolding passes low_test
low_table = refl

high_facts :
    (c hi : ℕ)
    → c < 4
    → hi < 256
    → ((bit_and (lead hi) 0x0f * 2 ^ 4 + bit_and (middle c hi / 2 ^ 2) 0x0f) % 2 ^ 8 ≡ hi)
      × (bit_and (middle c hi) 0x03 ≡ c)
      × (is_high (lead hi) ≡ true)
unfolding high_test
high_facts c hi h k = ground (
  arith,
  passes_at 256 (high_test c) hi (passes_at 4 (λ d. passes 256 (high_test d)) c high_table h) k,
)

low_facts :
    (lo : ℕ)
    → lo < 256
    → ((upper lo * 2 ^ 6 + bit_and (last lo) 0x3f) % 2 ^ 8 ≡ lo) × (upper lo < 4)
unfolding low_test
low_facts lo h = ground (arith, passes_at 256 low_test lo low_table h)

-- UTF_8ToUnicode undoes UnicodeToUTF_8, whose first byte is a high one.
decode-encode :
    (lo hi : ℕ)
    → lo < 256
    → hi < 256
    → utf_8_to_unicode (lead hi) (middle (upper lo) hi) (last lo) ≡ hi * 2 ^ 8 + lo
unfolding utf_8_to_unicode
decode-encode lo hi h k =
    let (a, b) = low_facts lo h in let (c, d, e) = high_facts (upper lo) hi b k in rw (c, d, a) refl

-- The UTF-8 bytes of a text.
utf_8_of : {t : Table} {s : Bytes} → Text t s → Bytes
unfolding unicode_to_utf_8
utf_8_of done = []
utf_8_of (ascii b h d) = b ∷ utf_8_of d
utf_8_of (pair b c u h1 h2 h3 e1 e2 h4 h5 d) =
    unicode_to_utf_8 (u % 2 ^ 8) (u / 2 ^ 8 % 2 ^ 8) ++ utf_8_of d

utf_8_of-le :
    {t : Table} {s : Bytes} (d : Text t s)
    → (2 * length (utf_8_of d) ≤ 3 * length s) × (length s ≤ length (utf_8_of d))
unfolding utf_8_of
utf_8_of-le done = omega arith
utf_8_of-le (ascii b h d) = omega (arith, utf_8_of-le d)
utf_8_of-le (pair b c u h1 h2 h3 e1 e2 h4 h5 d) = omega (arith, utf_8_of-le d)

pub to_gb_low :
    (t : Table) (ctemp : Bytes) (n b : ℕ) (s : Bytes)
    → b < 128
    → to_gb t ctemp (suc n) (b ∷ s) ≡ push b (to_gb t ctemp n s)
unfolding to_gb
to_gb_low t ctemp n b [] h = ground arith
to_gb_low t ctemp n b (c ∷ []) h = ground arith
to_gb_low t ctemp n b (c ∷ d ∷ s) h = ground arith

to_gb_high :
    (t : Table) (ctemp : Bytes) (n b c d u g : ℕ) (s : Bytes)
    → is_high b ≡ true
    → utf_8_to_unicode b c d ≡ u
    → getgb t u ≡ g
    → 256 ≤ u
    → u < 65536
    → (ctemp' : Bytes) × (to_gb t ctemp (suc (suc (suc n))) (b ∷ c ∷ d ∷ s)
        ≡ push (g % 2 ^ 8) (push (g / 2 ^ 8 % 2 ^ 8) (to_gb t ctemp' n s)))
unfolding to_gb unicode2gb overwrite
to_gb_high t ctemp n b c d u g s high e e2 h k =
    let more : (u / 2 ^ 8 % 2 ^ 8 == 0) ≡ false = ground arith in
    let left : suc (suc n) - 2 ≡ n = omega arith in
    (overwrite ctemp (g % 2 ^ 8 ∷ g / 2 ^ 8 % 2 ^ 8 ∷ []), rw (high, e, more, e2, left) refl)

to_gb-utf_8_of :
    {t : Table} {s : Bytes} (d : Text t s) (ctemp rest : Bytes)
    → to_gb t ctemp (length (utf_8_of d)) (utf_8_of d ++ rest) ≡ some s
unfolding utf_8_of
to_gb-utf_8_of {t} done ctemp rest = unfold to_gb in refl
to_gb-utf_8_of {t} (ascii b h d) ctemp rest =
    to_gb_low t ctemp (length (utf_8_of d)) b (utf_8_of d ++ rest) h
    ∙ ap (push b) (to_gb-utf_8_of d ctemp rest)
to_gb-utf_8_of {t} (pair b c u h1 h2 h3 e1 e2 h4 h5 d) ctemp rest =
    let lo = u % 2 ^ 8 in
    let hi = u / 2 ^ 8 % 2 ^ 8 in
    let g = b + c * 2 ^ 8 in
    let small : lo < 256 = omega arith in
    let small' : hi < 256 = omega arith in
    let number : hi * 2 ^ 8 + lo ≡ u = omega arith in
    let (ctemp', step) =
      to_gb_high t ctemp (length (utf_8_of d)) (lead hi) (middle (upper lo) hi) (last lo) u g
        (utf_8_of d ++ rest) (high_facts (upper lo) hi (low_facts lo small).1 small').2
        (decode-encode lo hi small small' ∙ number) e2 h4 h5 in
    let low : g % 2 ^ 8 ≡ b = omega arith in
    let high : g / 2 ^ 8 % 2 ^ 8 ≡ c = omega arith in
    step ∙ rw (low, high, to_gb-utf_8_of d ctemp' rest) refl

module _ (t : Table) (out_len size : ℕ) where
  to_utf_8_low :
      (n b : ℕ) (s rst : Bytes)
      → b < 128
      → suc (length rst) ≤ size
      → 2 + length rst < out_len
      → to_utf_8 t out_len size (suc n) (b ∷ s) rst ≡ to_utf_8 t out_len size n s (rst ++ b ∷ [])
  unfolding to_utf_8
  to_utf_8_low n b [] rst h k l = ground (arith, length-append rst (b ∷ []))
  to_utf_8_low n b (c ∷ s) rst h k l = ground (arith, length-append rst (b ∷ []))

  to_utf_8_high :
      (n b c : ℕ) (s rst : Bytes)
      → 128 < b
      → b < 256
      → 3 + length rst ≤ size
      → 5 + length rst < out_len
      → to_utf_8 t out_len size (suc (suc n)) (b ∷ c ∷ s) rst
        ≡ to_utf_8 t out_len size n s (rst ++ encoded (getun t (b + c * 2 ^ 8) ∷ []))
  to_utf_8_high n b c s rst h h2 k l =
      let us = getun t (b + c * 2 ^ 8) ∷ [] in
      let r = rst ++ encoded us in
      let long : length r ≡ length rst + 3 =
        unfold encoded in omega (arith, length-append rst (encoded us)) in
      let high : is_high b ≡ true = ground arith in
      let wide : leb b 0x80 ≡ false = ground arith in
      let room : ltb size (length r) ≡ false = ground (arith, long) in
      let more : leb (out_len - 2) (length r) ≡ false = ground (arith, long) in
      let left : suc n - 1 ≡ n = omega arith in
      unfold to_utf_8 in rw (high, wide, room, more, left) refl

  to_utf_8-utf_8_of :
      {s : Bytes} (d : Text t s) (rst : Bytes)
      → length rst + length (utf_8_of d) ≤ size
      → length rst + length (utf_8_of d) + 2 < out_len
      → to_utf_8 t out_len size (length s) s rst ≡ some (rst ++ utf_8_of d)
  unfolding utf_8_of
  to_utf_8-utf_8_of done rst k l = unfold to_utf_8 in ap some (sym (append-nil rst))
  to_utf_8-utf_8_of (ascii {s} b h d) rst k l =
      let one = length-append rst (b ∷ []) in
      to_utf_8_low (length s) b s rst h (omega arith) (omega arith)
      ∙ to_utf_8-utf_8_of d (rst ++ b ∷ []) (omega (arith, one)) (omega (arith, one))
      ∙ ap some (append_assoc rst (b ∷ []) (utf_8_of d))
  to_utf_8-utf_8_of (pair {s} b c u h1 h2 h3 e1 e2 h4 h5 d) rst k l =
      let lo = u % 2 ^ 8 in
      let hi = u / 2 ^ 8 % 2 ^ 8 in
      let three = length-append rst (unicode_to_utf_8 lo hi) in
      let same : rst ++ encoded (getun t (b + c * 2 ^ 8) ∷ []) ≡ rst ++ unicode_to_utf_8 lo hi =
        unfold encoded in rw e1 refl in
      to_utf_8_high (length s) b c s rst h1 h2 (omega arith) (omega arith)
      ∙ ap (to_utf_8 t out_len size (length s) s) same
      ∙ to_utf_8-utf_8_of d (rst ++ unicode_to_utf_8 lo hi) (omega (arith, three))
          (omega (arith, three))
      ∙ ap some (append_assoc rst (unicode_to_utf_8 lo hi) (utf_8_of d))

converted :
    (t : Table) (out_len : ℕ) {s : Bytes} (d : Text t s)
    → 0 < length s
    → 2 * length s + 3 < out_len
    → gb2312_to_utf_8 true t s (length s) out_len
      ≡ some (length (utf_8_of d), overwrite (replicate out_len 0) (utf_8_of d))
unfolding gb2312_to_utf_8
converted t out_len {s} d some_text h =
    let (le, ge) = utf_8_of-le d in
    let full : (length s == 0) ≡ false = ground arith in
    let room : ltb (length (utf_8_of d)) (length s * 2) ≡ true = ground arith in
    rw (full, to_utf_8-utf_8_of t out_len (length s * 2) d [] (omega arith) (omega arith), room)
      refl

converted_all :
    (t : Table) (out_len : ℕ) {s : Bytes} (d : Text t s)
    → 2 * length s + 3 < out_len
    → gb2312_to_utf_8 true t s (length s) out_len
      ≡ some (length (utf_8_of d), overwrite (replicate out_len 0) (utf_8_of d))
converted_all t out_len done h = unfold gb2312_to_utf_8 utf_8_of in refl
converted_all t out_len (ascii b l d) h = converted t out_len (ascii b l d) (omega arith) h
converted_all t out_len (pair b c u h1 h2 h3 e1 e2 h4 h5 d) h =
    converted t out_len (pair b c u h1 h2 h3 e1 e2 h4 h5 d) (omega arith) h

converted_back :
    (t : Table) (out_len : ℕ) {s : Bytes} (d : Text t s) (zeros : Bytes)
    → length s < out_len
    → utf_8_to_gb2312 true t (overwrite zeros (utf_8_of d)) (length (utf_8_of d)) out_len
      ≡ some (length s, overwrite (replicate out_len 0) (s ++ 0 ∷ []))
unfolding utf_8_to_gb2312
converted_back t out_len {s} d zeros k =
    let (le, ge) = utf_8_of-le d in
    let room : ltb (length s) out_len ≡ true = ground arith in
    let short : leb (length s) (length (utf_8_of d)) ≡ true = ground arith in
    rw (to_gb-utf_8_of d (replicate 4 0) (drop (length (utf_8_of d)) zeros), short, room) refl

-- A GB2312 text that GB2312ToUTF_8 converts and UTF_8ToGB2312 converts back is there again, with its
-- length and zeros behind it: the text is made of ASCII bytes and of pairs that the table has, with
-- numbers from 256 on that it gives back, the first buffer has more than twice its length and three
-- bytes, the second more than its length, and no `malloc` fails.
pub utf_8_to_gb2312-gb2312_to_utf_8 :
    (t : Table) (s : Bytes) (out_len out_len' : ℕ)
    → Text t s
    → 2 * length s + 3 < out_len
    → length s < out_len'
    → (elim (gb2312_to_utf_8 true t s (length s) out_len) [
      | none ↦ none
      | some (n, v) ↦ utf_8_to_gb2312 true t v n out_len'
    ])
      ≡ some (length s, overwrite (replicate out_len' 0) (s ++ 0 ∷ []))
utf_8_to_gb2312-gb2312_to_utf_8 t s out_len out_len' d h k =
    rw (converted_all t out_len d h) (converted_back t out_len' d (replicate out_len 0) k)
