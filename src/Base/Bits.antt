-- ===== src/Base/Bits.antt =====
-- Single bits of a number: `w |= 1 << k`, and the test of a bit.
use cctvmonitor.Base.{
  ℕ, zero, suc, ◌+◌, ◌*◌, ◌/◌, ◌%◌, ◌≡◌, ◌<◌, ◌^◌, refl, ap, ◌∙◌, Bool, false, ◌||◌, arith, ◌==◌,
  if◌then◌else◌,
}

abbrev pub is_odd : ℕ → Bool
is_odd w = w % 2 == 1

unfoldable pub test_bit : ℕ → ℕ → Bool
test_bit w zero = is_odd w
test_bit w (suc k) = test_bit (w / 2) k

unfoldable pub or_bit : ℕ → ℕ → ℕ
or_bit w zero = if is_odd w then w else w + 1
or_bit w (suc k) = 2 * or_bit (w / 2) k + w % 2

pub test_bit-or_bit : (w k j : ℕ) → test_bit (or_bit w k) j ≡ (k == j || test_bit w j)
unfolding test_bit or_bit
test_bit-or_bit w zero zero = ground arith
test_bit-or_bit w zero (suc j) =
    let e : or_bit w 0 / 2 ≡ w / 2 = ground arith in ap (λ x. test_bit x j) e ∙ ground arith
test_bit-or_bit w (suc k) zero =
    let e : (2 * or_bit (w / 2) k + w % 2) % 2 ≡ w % 2 = omega arith in ground (arith, e)
test_bit-or_bit w (suc k) (suc j) =
    let e : (2 * or_bit (w / 2) k + w % 2) / 2 ≡ or_bit (w / 2) k = omega arith in
    ap (λ x. test_bit x j) e ∙ test_bit-or_bit (w / 2) k j ∙ ground arith

pub or_bit-lt : (w k n : ℕ) → w < 2 ^ n → k < n → or_bit w k < 2 ^ n
unfolding or_bit
or_bit-lt w k zero h l = absurd (omega arith)
or_bit-lt w zero (suc n) h l =
    let e : 2 ^ suc n ≡ 2 * 2 ^ n = omega arith in
    let p : or_bit w 0 ≡ 2 * (w / 2) + 1 = ground arith in omega arith
or_bit-lt w (suc k) (suc n) h l =
    let e : 2 ^ suc n ≡ 2 * 2 ^ n = omega arith in
    let i = or_bit-lt (w / 2) k n (omega arith) (omega arith) in omega arith

pub test_bit_zero : (j : ℕ) → test_bit 0 j ≡ false
unfolding test_bit
test_bit_zero zero = refl
test_bit_zero (suc j) = test_bit_zero j
