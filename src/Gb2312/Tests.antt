-- ===== src/Gb2312/Tests.antt =====
-- The conversions of ftp/gb2312_utf8.c with the first rows of its table.
use cctvmonitor.Base.{
  ℕ, ◌≡◌, ◌<◌, refl, true, none, some, [], ◌∷◌, ◌++◌, if◌then◌else◌, ltb, length, replicate,
  overwrite, Bytes, codes, arith,
}
use cctvmonitor.Gb2312.{Table, gb2312_to_utf_8, utf_8_to_gb2312, getun, getgb}
use cctvmonitor.Gb2312.RoundTrip.{Text, done, ascii, pair, utf_8_to_gb2312-gb2312_to_utf_8}
use cctvmonitor.Gb2312.Bounds.{utf_8_to_gb2312-ascii}
use cctvmonitor.Gb2312.Whole.{low, high, ended, gb2312_to_utf_8-IsWhole}

abbrev rows : Table
rows = (0xa1a1, 0x3000) ∷ (0xa2a1, 0x3001) ∷ (0xa3a1, 0x3002) ∷ []

abbrev text : Bytes
text = b'a' ∷ 0xa1 ∷ 0xa2 ∷ []

text-Text : Text rows text
unfolding getun getgb
text-Text = ascii b'a' (omega arith) (
    pair 0xa1 0xa2 0x3001 (omega arith) (omega arith) (omega arith) refl refl (omega arith)
      (omega arith) done)

utf_8_to_gb2312-gb2312_to_utf_8_example :
    (elim (gb2312_to_utf_8 true rows text 3 10) [
      | none ↦ none
      | some (n, v) ↦ utf_8_to_gb2312 true rows v n 4
    ])
    ≡ some (3, overwrite (replicate 4 0) (text ++ 0 ∷ []))
utf_8_to_gb2312-gb2312_to_utf_8_example =
    utf_8_to_gb2312-gb2312_to_utf_8 rows text 10 4 text-Text (omega arith) (omega arith)

text-converted :
    gb2312_to_utf_8 true rows text 3 10
    ≡ some (4, b'a' ∷ 0xe3 ∷ 0x80 ∷ 0x81 ∷ 0 ∷ 0 ∷ 0 ∷ 0 ∷ 0 ∷ 0 ∷ [])
unfolding gb2312_to_utf_8
text-converted = refl

-- A character that would not fit is cut.
text-cut : gb2312_to_utf_8 true rows text 3 5 ≡ some (3, b'a' ∷ 0xe3 ∷ 0x80 ∷ 0 ∷ 0 ∷ [])
unfolding gb2312_to_utf_8
text-cut = refl

gb2312_to_utf_8-IsWhole_example :
    (len : ℕ) × (buf : Bytes) × (gb2312_to_utf_8 true rows text 3 5 ≡ some (len, buf))
    × (len < 5)
    × (length buf ≡ 5)
gb2312_to_utf_8-IsWhole_example =
    gb2312_to_utf_8-IsWhole true rows text 5 (omega arith)
      (low b'a' (omega arith) (high 0xa1 0xa2 (omega arith) (omega arith) ended))

utf_8_to_gb2312-ascii_example :
    utf_8_to_gb2312 true rows (codes "/video/a" ++ 0 ∷ []) 8 8
    ≡ (if ltb 8 8 then some (8, overwrite (replicate 8 0) (codes "/video/a" ++ 0 ∷ [])) else none)
utf_8_to_gb2312-ascii_example =
    utf_8_to_gb2312-ascii rows (codes "/video/a") (0 ∷ []) 8 (omega arith)

-- A high byte alone: two bytes are allocated and three are written.
high-overruns : gb2312_to_utf_8 true rows (0xa1 ∷ 0 ∷ []) 1 10 ≡ none
unfolding gb2312_to_utf_8 getun
high-overruns = refl
