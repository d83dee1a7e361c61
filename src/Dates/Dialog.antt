-- ===== src/Dates/Dialog.antt =====
-- What the buttons of the time dialog in cctv/timeset.cpp keep.
use cctvmonitor.Base.{
  ℕ, zero, suc, ◌+◌, ◌≤◌, ◌<◌, ◌≡◌, refl, sym, subst, ◌∙◌, Bool, true, false, not, ◌&&◌, ◌%◌, some,
  List, [], ◌∷◌, ◌||◌, length, get_elem?, arith, if◌then◌else◌,
}
use cctvmonitor.Base.Int.{ℤ, pos, pos_part, neg_part, ◌+ℤ◌, ◌-ℤ◌}
use cctvmonitor.Dates.{
  get_max_day, Time, Part, of_year, of_month, of_day, of_hour, of_min, of_sec, turn, days_of,
  is_leap, is_leap_too, divides, change, clamp_february, st_button_click, day_num,
}
use cctvmonitor.Dates.Valid.{days-le}

-- What the time dialog keeps: all but the days of the months of 30 days.
pub record InRange (t : Time) : Type 0 where
  pub month_ge : 1 ≤ t.month
  pub month_le : t.month ≤ 12
  pub day_ge : 1 ≤ t.day
  pub day_le : t.day ≤ 31
  pub hour_lt : t.hour < 24
  pub min_lt : t.min < 60
  pub sec_lt : t.sec < 60
  pub february_ge : 28 ≤ t.february
  pub february_le : t.february ≤ 29

turn-le :
    (low high top : ℕ) (up : Bool) (n : ℕ)
    → low ≤ high
    → high ≤ top
    → low ≤ n
    → n ≤ top
    → (low ≤ turn low high up n) × (turn low high up n ≤ top)
unfolding turn
turn-le low high top up n a b c d = ground arith

divisor : (n : ℕ) → n % 400 ≡ 0 → n % 100 ≡ 0
divisor n h = omega arith

leap_choice : (a b c : Bool) → (a ≡ true → b ≡ true) → (a || (not b && c)) ≡ (if b then a else c)
leap_choice true b c h = ground (arith, h)
leap_choice false true c h = refl
leap_choice false false c h = refl

-- The two tests for a leap year agree.
is_leap-is_leap_too : (y : ℤ) → is_leap y ≡ is_leap_too y
is_leap-is_leap_too y =
    leap_choice (divides 400 y) (divides 100 y) (divides 4 y)
      (λ h. ground (arith, divisor (pos_part y + neg_part y) (ground (arith, h))))

clamp_february-InRange :
    (t : Time)
    → InRange t
    → InRange (clamp_february t) × (t.month ≡ 2 → (clamp_february t).day ≤ get_max_day t.year 2)
unfolding clamp_february get_max_day
clamp_february-InRange t v =
    let same = is_leap-is_leap_too t.year in
    let days = days-le false true (is_leap_too t.year) in
    (ground (arith, days), λ e. rw same (ground (arith, e, days)))

clamp_february_month :
    (t : Time) → ((clamp_february t).month ≡ t.month) × ((clamp_february t).year ≡ t.year)
unfolding clamp_february
clamp_february_month t = ground arith

-- Lengths of months.
abbrev AreDays : List ℕ → Type 0
AreDays [] = Unit {0}
AreDays (n ∷ ns) = ((28 ≤ n) × (n ≤ 31)) × AreDays ns

within :
    (ns : List ℕ) (i : ℕ)
    → AreDays ns
    → i < length ns
    → (last : ℕ) × (get_elem? ns i ≡ some last) × (28 ≤ last) × (last ≤ 31)
within [] i h l = absurd (omega arith)
within (n ∷ ns) zero h l = (n, refl, h.0.0, h.0.1)
within (n ∷ ns) (suc i) h l = within ns i h.1 (omega arith)

days_of-le :
    (february m : ℕ)
    → 28 ≤ february
    → february ≤ 29
    → 1 ≤ m
    → m ≤ 12
    → (last : ℕ) × (days_of february m ≡ some last) × (28 ≤ last) × (last ≤ 31)
unfolding days_of
days_of-le february zero a b c e = absurd (omega arith)
days_of-le february (suc m) a b c e = within (day_num february) m (ground arith) (omega arith)

change_of_day :
    (up : Bool) (t : Time) (last : ℕ)
    → days_of t.february t.month ≡ some last
    → change of_day up t ≡ some (record t { day = turn 1 last up t.day })
unfolding change
change_of_day up t last e = rw (e, change) refl

click_of :
    (part : Part) (up : Bool) (t u : Time)
    → change part up t ≡ some u
    → st_button_click part up t ≡ some (clamp_february u)
unfolding st_button_click
click_of part up t u e = rw (e, st_button_click) refl

change-InRange :
    (part : Part) (up : Bool) (t : Time)
    → InRange t
    → (u : Time) × (change part up t ≡ some u) × InRange u
unfolding change
change-InRange of_year up t v = (
  _,
  refl,
  (let b = days-le false true (is_leap (if up then t.year +ℤ pos 1 else t.year -ℤ pos 1)) in
      record {
        month_ge = v.month_ge;
        month_le = v.month_le;
        day_ge = v.day_ge;
        day_le = v.day_le;
        hour_lt = v.hour_lt;
        min_lt = v.min_lt;
        sec_lt = v.sec_lt;
        february_ge = b.0;
        february_le = ground (arith);
      }),
)
change-InRange of_month up t v =
    let b = turn-le 1 12 12 up t.month (omega arith) (omega arith) v.month_ge v.month_le in
    (_, refl, ground (arith, b))
change-InRange of_day up t v =
    let (last, e, a, b) =
      days_of-le t.february t.month v.february_ge v.february_le v.month_ge v.month_le in
    let c = turn-le 1 last 31 up t.day (omega arith) b v.day_ge v.day_le in
    (record t { day = turn 1 last up t.day }, change_of_day up t last e, ground (arith, c))
change-InRange of_hour up t v =
    let b =
      turn-le 0 23 23 up t.hour (omega arith) (omega arith) (omega arith)
        (omega (arith, v.hour_lt)) in
    (_, refl, ground (arith, b))
change-InRange of_min up t v =
    let b =
      turn-le 0 59 59 up t.min (omega arith) (omega arith) (omega arith)
        (omega (arith, v.min_lt)) in
    (_, refl, ground (arith, b))
change-InRange of_sec up t v =
    let b =
      turn-le 0 59 59 up t.sec (omega arith) (omega arith) (omega arith)
        (omega (arith, v.sec_lt)) in
    (_, refl, ground (arith, b))

-- Every button of the time dialog, from labels of a month from 1 to 12, a day from 1 to 31 and a time of
-- the day, uses idayNum inside and gives such labels again; and a day of February is one of its year.
pub st_button_click-InRange :
    (part : Part) (up : Bool) (t : Time)
    → InRange t
    → (u : Time) × (st_button_click part up t ≡ some u)
      × InRange u
      × (u.month ≡ 2 → u.day ≤ get_max_day u.year 2)
st_button_click-InRange part up t v =
    let (u, e, w) = change-InRange part up t v in
    let (a, b) = clamp_february-InRange u w in
    let same = clamp_february_month u in
    (
      clamp_february u,
      click_of part up t u e,
      a,
      (λ m.
          subst (λ y. (clamp_february u).day ≤ get_max_day y 2) (sym same.1) (b (sym same.0 ∙ m))),
    )
