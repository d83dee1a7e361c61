-- ===== src/Ftp/Dirs/Path.antt =====
-- The path that FTP_CheckdirAndMakedir of ftp/ftpApi.c goes along, as its directories.
use cctvmonitor.Base.{
  suc, ◌+◌, ◌-◌, ◌<◌, ◌≡◌, refl, ap, ◌∙◌, some, List, [], ◌∷◌, ◌++◌, length, length-append,
  take-length, drop-length, sym, Bytes, append_assoc, arith, lt→ltb, strsep, strsep-append, Lacks,
}
use cctvmonitor.Gb2312.Bounds.{AllAscii}
use cctvmonitor.Ftp.Dirs.{behind_nth, position_str, new_name}

-- Directories, each with its slash; of an absolute path the first is empty.
abbrev pub joined : List Bytes → Bytes
joined [] = []
joined (d ∷ ds) = d ++ b'/' ∷ joined ds

-- No name has a slash in it.
abbrev pub AreNames : List Bytes → Type 0
AreNames [] = Unit {0}
AreNames (d ∷ ds) = Lacks b'/' d × AreNames ds

pub AllAscii-split : (s t : Bytes) → AllAscii (s ++ t) → AllAscii s × AllAscii t
AllAscii-split [] t h = (tt, h)
AllAscii-split (b ∷ s) t h = let (p, q) = AllAscii-split s t h.1 in ((h.0, p), q)

pub AllAscii-append : (s t : Bytes) → AllAscii s → AllAscii t → AllAscii (s ++ t)
AllAscii-append [] t h g = g
AllAscii-append (b ∷ s) t h g = (h.0, AllAscii-append s t h.1 g)

behind_nth-joined :
    (ds : List Bytes) (rest : Bytes)
    → AreNames ds
    → behind_nth b'/' (length ds) (joined ds ++ rest) ≡ some rest
unfolding behind_nth
behind_nth-joined [] rest h = refl
behind_nth-joined (d ∷ ds) rest h =
    let assoc : (d ++ b'/' ∷ joined ds) ++ rest ≡ d ++ b'/' ∷ (joined ds ++ rest) =
      append_assoc d (b'/' ∷ joined ds) rest in
    let cut : strsep b'/' ((d ++ b'/' ∷ joined ds) ++ rest) ≡ (d, some (joined ds ++ rest)) =
      ap (strsep b'/') assoc ∙ strsep-append b'/' d (joined ds ++ rest) h.0 in
    rw (cut, behind_nth) (behind_nth-joined ds rest h.1)

pub position_str-joined :
    (ds : List Bytes) (rest : Bytes)
    → AreNames ds
    → length (joined ds ++ rest) < 100
    → position_str b'/' (length ds) (joined ds ++ rest) ≡ some (joined ds)
position_str-joined ds rest names h =
    let n : length (joined ds ++ rest) - length rest ≡ length (joined ds) =
      omega (arith, length-append (joined ds) rest) in
    unfold position_str in
    rw
      (
        lt→ltb (length (joined ds ++ rest)) 100 h,
        behind_nth-joined ds rest names,
        n,
        take-length (joined ds) rest,
      )
      refl

joined-append :
    (ds : List Bytes) (d : Bytes) → joined (ds ++ d ∷ []) ≡ joined ds ++ (d ++ b'/' ∷ [])
joined-append [] d = refl
joined-append (e ∷ ds) d =
    ap (λ s. e ++ b'/' ∷ s) (joined-append ds d)
    ∙ sym (append_assoc e (b'/' ∷ joined ds) (d ++ b'/' ∷ []))

AreNames-append :
    (ds : List Bytes) (d : Bytes) → AreNames ds → Lacks b'/' d → AreNames (ds ++ d ∷ [])
AreNames-append [] d h l = (l, tt)
AreNames-append (e ∷ ds) d h l = (h.0, AreNames-append ds d h.1 l)

pub new_name-joined : (front d : Bytes) → new_name front (front ++ (d ++ b'/' ∷ [])) ≡ some d
new_name-joined front d =
    let n : length (d ++ b'/' ∷ []) ≡ length d + 1 = length-append d (b'/' ∷ []) in
    let less : length d + 1 - 1 ≡ length d = omega arith in
    unfold new_name in
    rw (drop-length front (d ++ b'/' ∷ []), n, less, take-length d (b'/' ∷ [])) (ground arith)

pub position_str-next :
    (ds : List Bytes) (d rest : Bytes)
    → AreNames ds
    → Lacks b'/' d
    → length (joined ds ++ (d ++ b'/' ∷ rest)) < 100
    → position_str b'/' (suc (length ds)) (joined ds ++ (d ++ b'/' ∷ rest))
      ≡ some (joined ds ++ (d ++ b'/' ∷ []))
position_str-next ds d rest names name h =
    let text = joined-append ds d in
    let whole : joined (ds ++ d ∷ []) ++ rest ≡ joined ds ++ (d ++ b'/' ∷ rest) =
      ap (λ s. s ++ rest) text
      ∙ append_assoc (joined ds) (d ++ b'/' ∷ []) rest
      ∙ ap (λ s. joined ds ++ s) (append_assoc d (b'/' ∷ []) rest) in
    let count : length (ds ++ d ∷ []) ≡ suc (length ds) =
      omega (arith, length-append ds (d ∷ [])) in
    let found =
      position_str-joined (ds ++ d ∷ []) rest (AreNames-append ds d names name)
        (omega (arith, ap length whole)) in
    ap (λ n. position_str b'/' n (joined ds ++ (d ++ b'/' ∷ rest))) (sym count)
    ∙ ap (position_str b'/' (length (ds ++ d ∷ []))) (sym whole)
    ∙ found
    ∙ ap some text
