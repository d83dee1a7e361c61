-- ===== src/Base/Tests.antt =====
-- Boolean tests on the native numbers, and the conditional.
use Prim.Native.Nat.{ℕ, ◌≤◌, ◌<◌, compare, Ordering}
use mathlib.Core.Path.{◌≡◌, refl}
use mathlib.Core.Logic.{◌↔◌, ◌⊎◌, inl, inr}
use mathlib.Core.Bool.{Bool, true, false}
use mathlib.Core.Option.{Option, none, some}
use native.Mathlib.Omega.{arith}

-- These compute to `compare`, which `ground` and `grind` read with no lemma listed.
abbrev pub ltb : ℕ → ℕ → Bool
ltb a b = elim (compare a b) [ Ordering.lt ↦ true | _ ↦ false ]

abbrev pub leb : ℕ → ℕ → Bool
leb a b = elim (compare a b) [ Ordering.gt ↦ false | _ ↦ true ]

infix 50 ◌==◌
abbrev pub ◌==◌ : ℕ → ℕ → Bool
a == b = elim (compare a b) [ Ordering.eq ↦ true | _ ↦ false ]

infix 1 if◌then◌else◌
abbrev pub if◌then◌else◌ {ℓ} : {A : Type ℓ} → Bool → A → A → A
if true then x else y = x
if false then x else y = y

-- `omega` reads a test through such lemmas.
pub ltb→lt : (a b : ℕ) → ltb a b ≡ true → a < b
ltb→lt a b h = ground arith

pub lt→ltb : (a b : ℕ) → a < b → ltb a b ≡ true
lt→ltb a b h = ground arith

pub leb→le : (a b : ℕ) → leb a b ≡ true → a ≤ b
leb→le a b h = ground arith

pub ==_iff : (a b : ℕ) → ((a == b) ≡ true) ↔ (a ≡ b)
==_iff a b = ground arith

pub ltb-false_of_le : (a b : ℕ) → b ≤ a → ltb a b ≡ false
ltb-false_of_le a b h = ground arith

pub leb_of_le : (a b : ℕ) → a ≤ b → leb a b ≡ true
leb_of_le a b h = ground arith

pub leb-false_of_lt : (a b : ℕ) → b < a → leb a b ≡ false
leb-false_of_lt a b h = ground arith

pub ruleset tests = (arith, ltb→lt, lt→ltb, leb→le)

-- To split on a computed value and keep the equation.
pub Bool-cases : (b : Bool) → (b ≡ true) ⊎ (b ≡ false)
Bool-cases true = inl refl
Bool-cases false = inr refl

pub Option-cases {ℓ} : {A : Type ℓ} (o : Option A) → (o ≡ none) ⊎ ((a : A) × (o ≡ some a))
Option-cases none = inl refl
Option-cases (some a) = inr (a, refl)

-- What holds of both branches holds of the choice.
pub if_both {ℓ κ} :
    {A : Type ℓ} (Q : A → Type κ) (test : Bool) {a c : A} → Q a → Q c → Q (if test then a else c)
if_both Q true h k = h
if_both Q false h k = k

-- The same, with what the test says.
pub if_both_of {ℓ κ} :
    {A : Type ℓ} (Q : A → Type κ) (test : Bool) {a c : A}
    → (test ≡ true → Q a)
    → (test ≡ false → Q c)
    → Q (if test then a else c)
if_both_of Q true h k = h refl
if_both_of Q false h k = k refl

-- What holds of both cases of an option holds of the choice.
pub option_both {ℓ κ μ} :
    {A : Type ℓ} {B : Type κ} (Q : B → Type μ) (o : Option A) {d : B} {f : A → B}
    → Q d
    → ((a : A) → Q (f a))
    → Q (elim o [ none ↦ d | some a ↦ f a ])
option_both Q none h k = h
option_both Q (some a) h k = k a
