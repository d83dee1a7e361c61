-- ===== src/Gb2312.antt =====
-- The conversions between GB2312 and UTF-8 of ftp/gb2312_utf8.c. The table giGB2312 is an argument. A
-- text is the bytes that can be read from its pointer on; `none` is a read or write outside a buffer.
pub mod RoundTrip
pub mod Bounds
pub mod Whole
mod Tests
use cctvmonitor.Base.{
  ℕ, zero, suc, ◌+◌, ◌-◌, ◌*◌, ◌/◌, ◌%◌, ◌^◌, Bool, true, false, ◌&&◌, Option, none, some, List, [],
  ◌∷◌, ◌++◌, ◌==◌, ltb, leb, if◌then◌else◌, length, take, get_or, replicate, Bytes, overwrite,
  bit_and, bit_or,
}

-- giGB2312: the code of a character, its low byte first in a text, and its Unicode number.
abbrev pub Table : Type 0
Table = List (ℕ × ℕ)

unfoldable pub getun : Table → ℕ → ℕ
getun [] gb = 0xffff
getun ((g, u) ∷ t) gb = if g == gb then u else getun t gb

unfoldable pub getgb : Table → ℕ → ℕ
getgb [] unicode = 0xffff
getgb ((g, u) ∷ t) unicode = if u == unicode then g else getgb t unicode

-- What a step puts in front of the rest.
abbrev pub push {ℓ} : {A : Type ℓ} → A → Option (List A) → Option (List A)
push x none = none
push x (some xs) = some (x ∷ xs)

-- gb2unicode; the number is what is left of `len`.
unfoldable pub gb2unicode : Table → ℕ → Bytes → Option (List ℕ)
unfolding getun
gb2unicode t zero s = some []
gb2unicode t (suc n) [] = none
gb2unicode t (suc n) (b ∷ []) =
    let rest = gb2unicode t n [] in if leb b 0x80 then push b rest else none
gb2unicode t (suc n) (b ∷ c ∷ s) =
    let single = gb2unicode t n (c ∷ s) in
    let pair = gb2unicode t (n - 1) s in
    if leb b 0x80 then push b single else push (getun t (b + c * 2 ^ 8)) pair

-- unicode2gb
unfoldable pub unicode2gb : Table → List ℕ → Bytes
unfolding getgb
unicode2gb t [] = []
unicode2gb t (u ∷ us) =
    let rest = unicode2gb t us in
    if u / 2 ^ 8 % 2 ^ 8 == 0
    then u % 2 ^ 8 ∷ rest
    else getgb t u % 2 ^ 8 ∷ getgb t u / 2 ^ 8 % 2 ^ 8 ∷ rest

-- UTF_8ToUnicode: the number whose bytes it writes, the low one first.
unfoldable pub utf_8_to_unicode : ℕ → ℕ → ℕ → ℕ
utf_8_to_unicode p0 p1 p2 =
    ((bit_and p0 0x0f * 2 ^ 4 + bit_and (p1 / 2 ^ 2) 0x0f) % 2 ^ 8) * 2 ^ 8
    + (bit_and p1 0x03 * 2 ^ 6 + bit_and p2 0x3f) % 2 ^ 8

-- UnicodeToUTF_8 of a number with its low and its high byte.
unfoldable pub unicode_to_utf_8 : ℕ → ℕ → Bytes
unicode_to_utf_8 lo hi =
    bit_or 0xe0 (bit_and hi 0xf0 / 2 ^ 4)
    ∷ (bit_or 0x80 (bit_and hi 0x0f * 2 ^ 2) + bit_and lo 0xc0 / 2 ^ 6) % 2 ^ 8
    ∷ bit_or 0x80 (bit_and lo 0x3f)
    ∷ []

-- `(tmptext >> 7) & 1`
abbrev pub is_high : ℕ → Bool
is_high b = b / 2 ^ 7 % 2 == 1

-- The bytes of UnicodeToUTF_8 for what gb2unicode put first.
unfoldable pub encoded : List ℕ → Bytes
unfolding unicode_to_utf_8
encoded us = unicode_to_utf_8 (get_or us 0 0 % 2 ^ 8) (get_or us 0 0 / 2 ^ 8 % 2 ^ 8)

-- The loop of GB2312ToUTF_8: `out_len` is OutBuflen, at least 2, `size` that of the buffer of `malloc`,
-- `rst` what was written to it, and the number what is left of pLen.
unfoldable pub to_utf_8 : Table → ℕ → ℕ → ℕ → Bytes → Bytes → Option Bytes
unfolding gb2unicode encoded
to_utf_8 t out_len size zero s rst = some rst
to_utf_8 t out_len size (suc n) [] rst = none
to_utf_8 t out_len size (suc n) (b ∷ []) rst =
    let r = rst ++ b ∷ [] in
    let rest = to_utf_8 t out_len size n [] r in
    if is_high b
    then none
    else if ltb size (length r)
    then none
    else if leb (out_len - 1) (length r)
    then some (take (out_len - 1) r)
    else rest
to_utf_8 t out_len size (suc n) (b ∷ c ∷ s) rst =
    let r = rst ++ b ∷ [] in
    let single = to_utf_8 t out_len size n (c ∷ s) r in
    if is_high b
    then elim (gb2unicode t 2 (b ∷ c ∷ s)) [
      | none ↦ none
      | some us ↦
          if ltb size (length (rst ++ encoded us))
          then none
          else if leb (out_len - 2) (length (rst ++ encoded us))
          then some (take (out_len - 2) (rst ++ encoded us))
          else to_utf_8 t out_len size (n - 1) s (rst ++ encoded us)
    ]
    else if ltb size (length r)
    then none
    else if leb (out_len - 1) (length r)
    then some (take (out_len - 1) r)
    else single

-- GB2312ToUTF_8: the length and the buffer of `out_len` bytes that it leaves.
unfoldable pub gb2312_to_utf_8 : Bool → Table → Bytes → ℕ → ℕ → Option (ℕ × Bytes)
unfolding to_utf_8 overwrite
gb2312_to_utf_8 malloc t s n out_len =
    if n == 0
    then some (0, replicate out_len 0)
    else if malloc
    then elim (to_utf_8 t out_len (n * 2) n s []) [
      | none ↦ none
      | some r ↦
          if ltb (length r) (n * 2)
          then some (length r, overwrite (replicate out_len 0) r)
          else none
    ]
    else some (0, replicate out_len 0)

-- The loop of UTF_8ToGB2312: what newBuf is given. `ctemp` is Ctemp, and the number what is left of pLen.
unfoldable pub to_gb : Table → Bytes → ℕ → Bytes → Option Bytes
unfolding unicode2gb utf_8_to_unicode overwrite
to_gb t ctemp zero s = some []
to_gb t ctemp (suc n) [] = none
to_gb t ctemp (suc n) (b ∷ []) =
    let rest = to_gb t ctemp n [] in if is_high b then none else push b rest
to_gb t ctemp (suc n) (b ∷ c ∷ []) =
    let rest = to_gb t ctemp n (c ∷ []) in if is_high b then none else push b rest
to_gb t ctemp (suc n) (b ∷ c ∷ d ∷ s) =
    let rest = to_gb t ctemp n (c ∷ d ∷ s) in
    let ctemp' = overwrite ctemp (unicode2gb t (utf_8_to_unicode b c d ∷ [])) in
    let pair = push (get_or ctemp' 0 0) (push (get_or ctemp' 1 0) (to_gb t ctemp' (n - 2) s)) in
    if is_high b then pair else push b rest

-- UTF_8ToGB2312. The copy takes one byte more than there are, whatever OutBuflen is.
unfoldable pub utf_8_to_gb2312 : Bool → Table → Bytes → ℕ → ℕ → Option (ℕ × Bytes)
unfolding to_gb overwrite
utf_8_to_gb2312 malloc t s n out_len =
    if malloc
    then elim (to_gb t (replicate 4 0) n s) [
      | none ↦ none
      | some r ↦
          if leb (length r) n && ltb (length r) out_len
          then some (length r, overwrite (replicate out_len 0) (r ++ 0 ∷ []))
          else none
    ]
    else some (0, replicate out_len 0)
