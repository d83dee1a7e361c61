-- ===== src/Proc/Crc/Poly.antt =====
-- The CRC by polynomial division, and GetCRC8 against it.
use cctvmonitor.Base.{
  ℕ, zero, suc, ◌*◌, ◌%◌, ◌<◌, ◌≡◌, refl, ap, ◌∙◌, Bool, true, not, ◌&&◌, ◌||◌, ◌≢◌, sym, [], ◌∷◌,
  ◌++◌, Bytes, bit_xor, leb, ltb, ◌==◌, ==_iff, if◌then◌else◌, arith,
}
use cctvmonitor.Base.Passes.{passes, passes_at}
use cctvmonitor.Proc.Crc.{crc8_entry, crc8_from, get_crc8}

-- One bit of the division by x^8 + x^5 + x^4 + 1, the highest bit first.
unfoldable pub shift_bit : ℕ → ℕ
shift_bit c = if leb 128 c then bit_xor (c * 2 % 256) 0x31 else c * 2

unfoldable pub shift_bits : ℕ → ℕ → ℕ
unfolding shift_bit
shift_bits zero c = c
shift_bits (suc n) c = shift_bits n (shift_bit c)

-- The remainder with one more byte.
unfoldable pub poly_step : ℕ → ℕ → ℕ
unfolding shift_bits
poly_step crc b = shift_bits 8 (bit_xor crc b)

unfoldable pub poly_from : ℕ → Bytes → ℕ
poly_from crc [] = crc
poly_from crc (b ∷ bs) = poly_from (poly_step crc b) bs

-- Every item of a list is a byte.
abbrev pub AllBytes : Bytes → Type 0
AllBytes [] = Unit {0}
AllBytes (b ∷ bs) = (b < 256) × AllBytes bs

crc8_entry_table : passes 256 (λ x. crc8_entry x == shift_bits 8 x && ltb (crc8_entry x) 256) ≡ true
unfolding passes crc8_entry shift_bits
crc8_entry_table = refl

crc8_entry_facts : (x : ℕ) → x < 256 → (crc8_entry x ≡ shift_bits 8 x) × (crc8_entry x < 256)
crc8_entry_facts x h = ground (
  arith,
  passes_at 256 (λ y. crc8_entry y == shift_bits 8 y && ltb (crc8_entry y) 256) x crc8_entry_table
      h,
)

-- Over two bytes.
passes_at_pair :
    (p : ℕ → ℕ → Bool) (x y : ℕ)
    → passes 256 (λ a. passes 256 (λ b. p a b)) ≡ true
    → x < 256
    → y < 256
    → p x y ≡ true
passes_at_pair p x y h hx hy =
    passes_at 256 (p x) y (passes_at 256 (λ a. passes 256 (p a)) x h hx) hy

xor_table :
    passes 256 (λ x.
      passes 256 (λ y.
        ltb (bit_xor x y) 256 && bit_xor x (bit_xor x y) == y && bit_xor (bit_xor x y) y == x))
    ≡ true
unfolding passes
xor_table = refl

xor_facts :
    (x y : ℕ)
    → x < 256
    → y < 256
    → (bit_xor x y < 256) × (bit_xor x (bit_xor x y) ≡ y) × (bit_xor (bit_xor x y) y ≡ x)
xor_facts x y hx hy = ground (
  arith,
  passes_at_pair
      (λ a b. ltb (bit_xor a b) 256 && bit_xor a (bit_xor a b) == b && bit_xor (bit_xor a b) b == a)
      x y xor_table hx hy,
)

entry_injective_table :
    passes 256 (λ x. passes 256 (λ y. not (crc8_entry x == crc8_entry y) || x == y)) ≡ true
unfolding passes crc8_entry
entry_injective_table = refl

entry_injective : (x y : ℕ) → x < 256 → y < 256 → crc8_entry x ≡ crc8_entry y → x ≡ y
entry_injective x y hx hy e = ground (
  arith,
  passes_at_pair (λ a b. not (crc8_entry a == crc8_entry b) || a == b) x y entry_injective_table hx
      hy,
)

step_lt : (c b : ℕ) → c < 256 → b < 256 → crc8_entry (bit_xor c b) < 256
step_lt c b hc hb = (crc8_entry_facts (bit_xor c b) (xor_facts c b hc hb).0).1

crc8_from-lt : (bs : Bytes) (c : ℕ) → c < 256 → AllBytes bs → crc8_from c bs < 256
unfolding crc8_from
crc8_from-lt [] c hc h = hc
crc8_from-lt (b ∷ bs) c hc h = crc8_from-lt bs (crc8_entry (bit_xor c b)) (step_lt c b hc h.0) h.1

crc8_from-poly : (bs : Bytes) (c : ℕ) → c < 256 → AllBytes bs → crc8_from c bs ≡ poly_from c bs
unfolding crc8_from poly_from poly_step
crc8_from-poly [] c hc h = refl
crc8_from-poly (b ∷ bs) c hc h =
    crc8_from-poly bs (crc8_entry (bit_xor c b)) (step_lt c b hc h.0) h.1
    ∙ ap (λ x. poly_from x bs) (crc8_entry_facts (bit_xor c b) (xor_facts c b hc h.0).0).0

-- GetCRC8 computes the remainder of the division by x^8 + x^5 + x^4 + 1, bit by bit from the
-- highest, with start value 0, of any sequence of bytes.
pub get_crc8-poly : (bs : Bytes) → AllBytes bs → get_crc8 bs ≡ poly_from 0 bs
unfolding get_crc8
get_crc8-poly bs h = crc8_from-poly bs 0 (omega arith) h

crc8_from-append : (bs cs : Bytes) (c : ℕ) → crc8_from c (bs ++ cs) ≡ crc8_from (crc8_from c bs) cs
unfolding crc8_from
crc8_from-append [] cs c = refl
crc8_from-append (b ∷ bs) cs c = crc8_from-append bs cs (crc8_entry (bit_xor c b))

xor_self_table : passes 256 (λ x. bit_xor x x == 0) ≡ true
unfolding passes
xor_self_table = refl

-- The CRC of bytes with their own CRC byte behind them is 0.
get_crc8-append_self : (bs : Bytes) → AllBytes bs → get_crc8 (bs ++ get_crc8 bs ∷ []) ≡ 0
unfolding get_crc8
get_crc8-append_self bs h =
    let c = crc8_from 0 bs in
    let e : bit_xor c c ≡ 0 = (==_iff (bit_xor c c) 0).0 (
      passes_at 256 (λ x. bit_xor x x == 0) c xor_self_table (crc8_from-lt bs 0 (omega arith) h)) in
    crc8_from-append bs (c ∷ []) 0 ∙ unfold crc8_from crc8_entry in rw e refl

crc8_from_injective :
    (bs : Bytes) (c d : ℕ)
    → c < 256
    → d < 256
    → AllBytes bs
    → crc8_from c bs ≡ crc8_from d bs
    → c ≡ d
unfolding crc8_from
crc8_from_injective [] c d hc hd h e = e
crc8_from_injective (b ∷ bs) c d hc hd h e =
    let p = xor_facts c b hc h.0 in
    let q = xor_facts d b hd h.0 in
    let same = entry_injective (bit_xor c b) (bit_xor d b) p.0 q.0 (
      crc8_from_injective bs (crc8_entry (bit_xor c b)) (crc8_entry (bit_xor d b))
        (step_lt c b hc h.0) (step_lt d b hd h.0) h.1 e) in
    sym p.2 ∙ (ap (λ z. bit_xor z b) same ∙ q.2)

-- In data made of bytes, another byte at any one place gives another CRC.
pub get_crc8_detects :
    (bs cs : Bytes) (x y : ℕ)
    → AllBytes bs
    → AllBytes cs
    → x < 256
    → y < 256
    → x ≢ y
    → get_crc8 (bs ++ x ∷ cs) ≢ get_crc8 (bs ++ y ∷ cs)
unfolding get_crc8
get_crc8_detects bs cs x y hb hc hx hy ne e =
    let c = crc8_from 0 bs in
    let hcrc = crc8_from-lt bs 0 (omega arith) hb in
    let p = xor_facts c x hcrc hx in
    let q = xor_facts c y hcrc hy in
    let tails : crc8_from c (x ∷ cs) ≡ crc8_from c (y ∷ cs) =
      sym (crc8_from-append bs (x ∷ cs) 0) ∙ (e ∙ crc8_from-append bs (y ∷ cs) 0) in
    let same = entry_injective (bit_xor c x) (bit_xor c y) p.0 q.0 (
      crc8_from_injective cs (crc8_entry (bit_xor c x)) (crc8_entry (bit_xor c y))
        (step_lt c x hcrc hx) (step_lt c y hcrc hy) hc (unfold crc8_from in tails)) in
    ne (sym p.1 ∙ (ap (bit_xor c) same ∙ q.1))
