-- ===== src/Config/Lines.antt =====
-- Splitting a file into lines by `fgets` and putting the lines together again.
use cctvmonitor.Base.{
  ℕ, zero, suc, ◌≤◌, ◌<◌, ◌≡◌, ◌≢◌, refl, ap, ◌∙◌, Bool, true, List, [], ◌∷◌, ◌++◌, ◌==◌, length,
  Bytes, Lacks, arith, append_assoc, length-append,
}
use cctvmonitor.Config.{fgets, lines_from, lines, concat}

-- The text is empty or ends in a newline.
abbrev pub ends_line : Bytes → Bool
ends_line [] = true
ends_line (c ∷ []) = c == b'\n'
ends_line (c ∷ d ∷ s) = ends_line (d ∷ s)

-- A piece that `fgets` reads back as it stands, whatever follows it.
abbrev pub IsLine : Bytes → Type 0
IsLine l = (l ≢ []) × ((r : Bytes) → fgets 255 (l ++ r) ≡ (l, r))

abbrev pub AllLines : List Bytes → Type 0
AllLines [] = Unit {0}
AllLines (l ∷ ls) = IsLine l × AllLines ls

fgets-append : (n : ℕ) (s : Bytes) → (fgets n s).0 ++ (fgets n s).1 ≡ s
unfolding fgets
fgets-append zero s = refl
fgets-append (suc n) [] = refl
fgets-append (suc n) (c ∷ s) = ground (arith, fgets-append n s)

-- A line that ends in a newline.
pub fgets_newline :
    (l r : Bytes) (n : ℕ)
    → Lacks b'\n' l
    → length l < n
    → fgets n (l ++ b'\n' ∷ r) ≡ (l ++ b'\n' ∷ [], r)
unfolding fgets
fgets_newline l r zero h lt = absurd (omega arith)
fgets_newline [] r (suc n) h lt = refl
fgets_newline (c ∷ l) r (suc n) h lt = ground (arith, h.0, fgets_newline l r n h.1 (omega arith))

-- What `fgets` takes of a text that ends in a newline, it takes again whatever follows, and the
-- rest ends in a newline too.
fgets_again :
    (n : ℕ) (s : Bytes)
    → ends_line s ≡ true
    → (ends_line (fgets n s).1 ≡ true)
      × ((r : Bytes) → (s ≢ []) → fgets n ((fgets n s).0 ++ r) ≡ ((fgets n s).0, r))
unfolding fgets
fgets_again zero s h = (h, λ r ne. refl)
fgets_again (suc n) [] h = (refl, λ r ne. absurd (ne refl))
fgets_again (suc n) (c ∷ []) h = (ground arith, λ r ne. ground arith)
fgets_again (suc n) (c ∷ d ∷ s) h =
    let (e, again) = fgets_again n (d ∷ s) h in
    (ground (arith, e), λ r ne. ground (arith, again r (cc)))

fgets-shorter_rest : (n : ℕ) (s : Bytes) → length (fgets n s).1 ≤ length s
fgets-shorter_rest n s =
    omega (arith, ap length (fgets-append n s), length-append (fgets n s).0 (fgets n s).1)

fgets-shorter :
    (n c : ℕ) (s : Bytes)
    → (length (fgets (suc n) (c ∷ s)).1 ≤ length s) × ((fgets (suc n) (c ∷ s)).0 ≢ [])
unfolding fgets
fgets-shorter n c s = ground (arith, fgets-shorter_rest n s)

lines_from-concat : (n : ℕ) (s : Bytes) → length s ≤ n → concat (lines_from n s) ≡ s
unfolding lines_from concat
lines_from-concat zero [] h = refl
lines_from-concat zero (c ∷ s) h = absurd (omega arith)
lines_from-concat (suc n) [] h = refl
lines_from-concat (suc n) (c ∷ s) h =
    let r = (fgets 255 (c ∷ s)).1 in
    ap (λ t. (fgets 255 (c ∷ s)).0 ++ t)
      (lines_from-concat n r (omega (arith, (fgets-shorter 254 c s).0)))
    ∙ fgets-append 255 (c ∷ s)

lines_from_all : (n : ℕ) (s : Bytes) → ends_line s ≡ true → AllLines (lines_from n s)
unfolding lines_from
lines_from_all zero s h = tt
lines_from_all (suc n) [] h = tt
lines_from_all (suc n) (c ∷ s) h =
    let (e, again) = fgets_again 255 (c ∷ s) h in
    (((fgets-shorter 254 c s).1, λ r. again r (cc)), lines_from_all n (fgets 255 (c ∷ s)).1 e)

pub concat-lines : (s : Bytes) → concat (lines s) ≡ s
unfolding lines
concat-lines s = lines_from-concat (length s) s (omega arith)

pub AllLines-lines : (s : Bytes) → ends_line s ≡ true → AllLines (lines s)
unfolding lines
AllLines-lines s h = lines_from_all (length s) s h

lines_from-concat_all :
    (ls : List Bytes) (n : ℕ) → AllLines ls → length (concat ls) ≤ n → lines_from n (concat ls) ≡ ls
unfolding concat lines_from
lines_from-concat_all [] zero h lt = refl
lines_from-concat_all [] (suc n) h lt = refl
lines_from-concat_all ([] ∷ ls) n h lt = absurd (h.0.0 refl)
lines_from-concat_all ((c ∷ l) ∷ ls) zero h lt = absurd (omega arith)
lines_from-concat_all ((c ∷ l) ∷ ls) (suc n) h lt =
    let e = h.0.1 (concat ls) in
    let later = lines_from-concat_all ls n h.1 (omega (arith, length-append l (concat ls))) in
    ground (arith, e, later)

pub lines-concat : (ls : List Bytes) → AllLines ls → lines (concat ls) ≡ ls
unfolding lines
lines-concat ls h = lines_from-concat_all ls (length (concat ls)) h (omega arith)

-- A text with no newline in it and a newline behind it.
pub IsLine-of : (l : Bytes) → Lacks b'\n' l → length l < 255 → IsLine (l ++ b'\n' ∷ [])
IsLine-of l h lt = (
  (λ e. absurd (omega (arith, ap length e, length-append l (b'\n' ∷ [])))),
  λ r. rw append_assoc (fgets_newline l r 255 h lt),
)
