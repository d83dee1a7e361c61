-- ===== src/Base/Decimal.antt =====
-- Decimal text: `%d` and `atoi`.
use cctvmonitor.Base.{
  ℕ, zero, suc, ◌+◌, ◌-◌, ◌*◌, ◌≤◌, ◌<◌, ◌/◌, ◌%◌, ◌^◌, subst, ◌≢◌, ◌≡◌, refl, ap, sym, ◌∙◌, Bool,
  ◌&&◌, ◌||◌, [], ◌∷◌, ◌++◌, arith, ◌==◌, ltb, leb, if◌then◌else◌, length, length-append, Bytes,
  digits_value, dec_lt, Lacks,
}
use cctvmonitor.Base.Int.{ℤ, pos, negsuc, sub_ℕ}

-- The digits of a number that has at most `w` of them.
unfoldable pub decimal_from : ℕ → ℕ → Bytes
decimal_from zero n = []
decimal_from (suc w) n =
    let front = decimal_from w (n / 10) in
    if ltb n 10 then (b'0' + n) ∷ [] else front ++ (b'0' + n % 10) ∷ []

-- An `int` has at most ten digits.
unfoldable pub decimal : ℕ → Bytes
unfolding decimal_from
decimal n = decimal_from 10 n

-- `%d`
unfoldable pub print_int : ℤ → Bytes
unfolding decimal
print_int (pos n) = decimal n
print_int (negsuc n) = b'-' ∷ decimal (suc n)

abbrev pub is_space : ℕ → Bool
is_space c = c == 32 || leb 9 c && leb c 13

-- `atoi` on text whose value is an `int`.
unfoldable pub atoi : Bytes → ℤ
unfolding digits_value
atoi [] = pos 0
atoi (c ∷ s) =
    let rest = atoi s in
    if is_space c
    then rest
    else if c == b'-'
    then sub_ℕ 0 (digits_value 0 s)
    else if c == b'+'
    then pos (digits_value 0 s)
    else pos (digits_value 0 (c ∷ s))

abbrev pub AllDigits : Bytes → Type 0
AllDigits [] = Unit {0}
AllDigits (c ∷ s) = (b'0' ≤ c) × (c ≤ b'9') × AllDigits s

AllDigits-append : (s t : Bytes) → AllDigits s → AllDigits t → AllDigits (s ++ t)
AllDigits-append [] t h k = k
AllDigits-append (c ∷ s) t h k = (h.0, h.1, AllDigits-append s t h.2 k)

decimal_one : (w n : ℕ) → n < 10 → decimal_from (suc w) n ≡ (b'0' + n) ∷ []
unfolding decimal_from
decimal_one w n h = ground arith

decimal_more :
    (w n : ℕ) → ¬ n < 10 → decimal_from (suc w) n ≡ decimal_from w (n / 10) ++ (b'0' + n % 10) ∷ []
unfolding decimal_from
decimal_more w n h = ground arith

decimal_from-AllDigits : (w n : ℕ) → AllDigits (decimal_from w n)
unfolding decimal_from
decimal_from-AllDigits zero n = tt
decimal_from-AllDigits (suc w) n = elim (dec_lt n 10) [
  | Dec.yes h ↦ subst AllDigits (sym (decimal_one w n h)) (omega arith, omega arith, tt)
  | Dec.no h ↦ subst AllDigits (sym (decimal_more w n h)) (
      AllDigits-append (decimal_from w (n / 10)) _ (decimal_from-AllDigits w (n / 10))
        (omega arith, omega arith, tt))
]

value-append :
    (s : Bytes) (a c : ℕ)
    → AllDigits s
    → c < 10
    → digits_value a (s ++ (b'0' + c) ∷ []) ≡ digits_value a s * 10 + c
unfolding digits_value
value-append [] a c h k = ground arith
value-append (d ∷ s) a c h k =
    ground (arith, h.0, h.1, value-append s (a * 10 + (d - b'0')) c h.2 k)

value-decimal_from : (w n : ℕ) → n < 10 ^ w → digits_value 0 (decimal_from w n) ≡ n
unfolding digits_value decimal_from
value-decimal_from zero n h = omega arith
value-decimal_from (suc w) n h = elim (dec_lt n 10) [
  | Dec.yes k ↦ ap (digits_value 0) (decimal_one w n k) ∙ ground arith
  | Dec.no k ↦
      ap (digits_value 0) (decimal_more w n k)
      ∙ value-append (decimal_from w (n / 10)) 0 (n % 10) (decimal_from-AllDigits w (n / 10))
          (omega arith)
      ∙ omega (
        arith,
        value-decimal_from w (n / 10)
            (let e : 10 ^ suc w ≡ 10 * 10 ^ w = omega arith in omega arith),
      )
]

decimal_from-ne : (w n : ℕ) → decimal_from (suc w) n ≢ []
decimal_from-ne w n e = elim (dec_lt n 10) [
  | Dec.yes h ↦ absurd (ground (arith, sym (decimal_one w n h) ∙ e))
  | Dec.no h ↦ absurd (
      omega (
        arith,
        ap length (sym (decimal_more w n h) ∙ e),
        length-append (decimal_from w (n / 10)) ((b'0' + n % 10) ∷ []),
      ))
]

length-decimal_from : (w n : ℕ) → length (decimal_from w n) ≤ w
unfolding decimal_from
length-decimal_from zero n = omega arith
length-decimal_from (suc w) n = elim (dec_lt n 10) [
  | Dec.yes h ↦ omega (arith, ap length (decimal_one w n h))
  | Dec.no h ↦ omega (
    arith,
    ap length (decimal_more w n h),
    length-append (decimal_from w (n / 10)) ((b'0' + n % 10) ∷ []),
    length-decimal_from w (n / 10),
  )
]

atoi-digits : (s : Bytes) → AllDigits s → atoi s ≡ pos (digits_value 0 s)
unfolding atoi digits_value
atoi-digits [] h = refl
atoi-digits (c ∷ s) h = ground (arith, h.0, h.1)

-- The text of a number, and the number read of it.
pub decimal-AllDigits : (n : ℕ) → AllDigits (decimal n)
unfolding decimal
decimal-AllDigits n = decimal_from-AllDigits 10 n

pub decimal-ne : (n : ℕ) → decimal n ≢ []
unfolding decimal
decimal-ne n = decimal_from-ne 9 n

pub length-decimal : (n : ℕ) → length (decimal n) ≤ 10
unfolding decimal
length-decimal n = length-decimal_from 10 n

pub atoi-decimal : (n : ℕ) → n < 10 ^ 10 → atoi (decimal n) ≡ pos n
unfolding decimal
atoi-decimal n h =
    atoi-digits (decimal_from 10 n) (decimal_from-AllDigits 10 n)
    ∙ ap pos (value-decimal_from 10 n h)

length-decimal_from_lt : (k w n : ℕ) → n < 10 ^ suc k → length (decimal_from w n) ≤ suc k
unfolding decimal_from
length-decimal_from_lt k zero n h = omega arith
length-decimal_from_lt zero (suc w) n h = omega (arith, ap length (decimal_one w n (omega arith)))
length-decimal_from_lt (suc k) (suc w) n h = elim (dec_lt n 10) [
  | Dec.yes l ↦ omega (arith, ap length (decimal_one w n l))
  | Dec.no l ↦
      let e : 10 ^ suc (suc k) ≡ 10 * 10 ^ suc k = omega arith in
      omega (
        arith,
        ap length (decimal_more w n l),
        length-append (decimal_from w (n / 10)) ((b'0' + n % 10) ∷ []),
        length-decimal_from_lt k w (n / 10) (omega arith),
      )
]

pub length-decimal_seven : (n : ℕ) → n < 10000000 → length (decimal n) ≤ 7
unfolding decimal
length-decimal_seven n h = length-decimal_from_lt 6 10 n h

pub length-decimal_three : (n : ℕ) → n < 1000 → length (decimal n) ≤ 3
unfolding decimal
length-decimal_three n h = length-decimal_from_lt 2 10 n h

Lacks-digits : (x : ℕ) (s : Bytes) → x < b'0' → AllDigits s → Lacks x s
Lacks-digits x [] h d = tt
Lacks-digits x (c ∷ s) h d = (omega (arith, d.0), Lacks-digits x s h d.2)

-- The text of a number has only digits.
pub Lacks-decimal : (x n : ℕ) → x < b'0' → Lacks x (decimal n)
Lacks-decimal x n h = Lacks-digits x (decimal n) h (decimal-AllDigits n)

pub value-decimal : (n : ℕ) → n < 10 ^ 10 → digits_value 0 (decimal n) ≡ n
unfolding decimal
value-decimal n h = value-decimal_from 10 n h
