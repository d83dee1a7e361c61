-- ===== src/Base/CString.antt =====
-- Bytes of C buffers as lists of numbers, and the string functions of <string.h> that the sources
-- use, over the bytes in front of the terminating NUL.
use Prim.Native.Char.{code}
use Prim.Native.String.{String}
use Prim.Native.Nat.{ℕ, ◌-◌}
use mathlib.Core.Path.{◌≡◌, refl}
use mathlib.Core.Logic.{◌≢◌, ◌↔◌}
use mathlib.Core.Bool.{Bool, true, false, ◌&&◌}
use mathlib.Core.List.{List, [], ◌∷◌, ◌++◌}
use native.Mathlib.Omega.{arith}
use cctvmonitor.Base.Tests.{◌==◌, if◌then◌else◌}
use cctvmonitor.Base.Lists.{length, take, drop, replicate}

abbrev pub Bytes : Type 0
Bytes = List ℕ

-- The code points of an ASCII literal.
abbrev pub codes : String → Bytes
codes String.[] = []
codes (String.◌∷◌ c s) = code c ∷ codes s

-- `memcmp(s, p, strlen(p)) == 0`, with `p` free of NULs.
unfoldable pub starts_with : Bytes → Bytes → Bool
starts_with s [] = true
starts_with [] (c ∷ p) = false
starts_with (b ∷ s) (c ∷ p) = b == c && starts_with s p

-- The C string at the start of a buffer.
unfoldable pub c_string : Bytes → Bytes
c_string [] = []
c_string (b ∷ s) = if b == 0 then [] else b ∷ c_string s

-- `memcpy(dst, src, length src)`
unfoldable pub overwrite : Bytes → Bytes → Bytes
overwrite dst src = src ++ drop (length src) dst

-- `strncpy(dst, s, n)`: exactly `n` bytes are written, the string cut or padded with NULs.
unfoldable pub strncpy : Bytes → Bytes → ℕ → Bytes
unfolding overwrite
strncpy dst s n = overwrite dst (take n s ++ replicate (n - length s) 0)

pub starts_with-append : (p s : Bytes) → starts_with (p ++ s) p ≡ true
unfolding starts_with
starts_with-append [] s = refl
starts_with-append (c ∷ p) s = ground (arith, starts_with-append p s)

-- `strcmp(s, t) == 0`
unfoldable pub bytes_eq : Bytes → Bytes → Bool
bytes_eq [] [] = true
bytes_eq (b ∷ s) (c ∷ t) = b == c && bytes_eq s t
bytes_eq _ _ = false

pub bytes_eq_iff : (s t : Bytes) → (bytes_eq s t ≡ true) ↔ (s ≡ t)
unfolding bytes_eq
bytes_eq_iff (b ∷ s) (c ∷ t) = ground (arith, bytes_eq_iff s t)
bytes_eq_iff _ _ = ground arith

-- No byte of the text is `x`.
abbrev pub Lacks : ℕ → Bytes → Type 0
Lacks x [] = Unit {0}
Lacks x (b ∷ s) = (b ≢ x) × Lacks x s

pub Lacks-append : (x : ℕ) (s t : Bytes) → Lacks x s → Lacks x t → Lacks x (s ++ t)
Lacks-append x [] t p q = q
Lacks-append x (b ∷ s) t p q = (p.0, Lacks-append x s t p.1 q)

pub Lacks_split : (x : ℕ) (s t : Bytes) → Lacks x (s ++ t) → Lacks x s × Lacks x t
Lacks_split x [] t p = (tt, p)
Lacks_split x (b ∷ s) t p = let (q, r) = Lacks_split x s t p.1 in ((p.0, q), r)

pub c_string_lem : (s : Bytes) → Lacks 0 s → c_string s ≡ s
unfolding c_string
c_string_lem [] h = refl
c_string_lem (b ∷ s) h = ground (arith, h.0, c_string_lem s h.1)

-- A string with a NUL behind it.
pub c_string-append : (s t : Bytes) → Lacks 0 s → c_string (s ++ 0 ∷ t) ≡ s
unfolding c_string
c_string-append [] t h = refl
c_string-append (b ∷ s) t h = ground (arith, h.0, c_string-append s t h.1)
