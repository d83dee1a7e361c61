-- ===== src/Base/Search.antt =====
-- Searching byte strings: `strstr`, `strchr`, and `strsep` on one separator.
use Prim.Native.Nat.{ℕ, ◌+◌, ◌-◌, ◌*◌}
use mathlib.Core.Bool.{Bool, ◌&&◌}
use mathlib.Core.Option.{Option, none, some}
use mathlib.Core.Path.{◌≡◌}
use mathlib.Core.List.{[], ◌∷◌, ◌++◌}
use native.Mathlib.Omega.{arith}
use cctvmonitor.Base.Tests.{◌==◌, leb, if◌then◌else◌}
use cctvmonitor.Base.CString.{Bytes, starts_with, Lacks}

-- `strsep(&s, c)`: the piece in front of the separator, and what is behind it (`NULL` for none).
unfoldable pub strsep : ℕ → Bytes → Bytes × Option Bytes
strsep c [] = ([], none)
strsep c (b ∷ s) =
    let (piece, rest) = strsep c s in if b == c then ([], some s) else (b ∷ piece, rest)

pub strsep-append : (x : ℕ) (s t : Bytes) → Lacks x s → strsep x (s ++ x ∷ t) ≡ (s, some t)
unfolding strsep
strsep-append x [] t h = ground arith
strsep-append x (b ∷ s) t h = ground (arith, h.0, strsep-append x s t h.1)

-- `strstr(s, p)`: the text from the first occurrence on.
unfoldable pub strstr : Bytes → Bytes → Option Bytes
unfolding starts_with
strstr [] p = if starts_with [] p then some [] else none
strstr (b ∷ s) p = if starts_with (b ∷ s) p then some (b ∷ s) else strstr s p

abbrev pub is_digit : ℕ → Bool
is_digit c = leb b'0' c && leb c b'9'

-- The digits of `atoi`: `n` is the value of those read.
unfoldable pub digits_value : ℕ → Bytes → ℕ
digits_value n [] = n
digits_value n (c ∷ s) =
    let rest = digits_value (n * 10 + (c - b'0')) s in if is_digit c then rest else n

-- The first occurrence of a single byte.
pub strstr-append : (x : ℕ) (s t : Bytes) → Lacks x s → strstr (s ++ x ∷ t) (x ∷ []) ≡ some (x ∷ t)
unfolding strstr
strstr-append x [] t h = ground arith
strstr-append x (b ∷ s) t h = ground (arith, h.0, strstr-append x s t h.1)
