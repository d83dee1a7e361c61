-- ===== src/Dates/Valid.antt =====
-- The days that the buttons for the log in cctv/sysmanage.cpp can reach.
use cctvmonitor.Base.{ℕ, ◌+◌, ◌≤◌, Bool, ◌||◌, ◌==◌, leb, ◌-◌, if_both_of, arith, if◌then◌else◌}
use cctvmonitor.Base.Int.{ℤ, pos}
use cctvmonitor.Dates.{get_max_day, LogDate, clamp_day, turn_day, group_button_click, is_leap}

pub days-le :
    (a b c : Bool)
    → (28 ≤ (if a then 30 else if b then (if c then 29 else 28) else 31))
      × ((if a then 30 else if b then (if c then 29 else 28) else 31) ≤ 31)
days-le a b c = ground arith

get_max_day-le : (y : ℤ) (m : ℕ) → (28 ≤ get_max_day y m) × (get_max_day y m ≤ 31)
unfolding get_max_day
get_max_day-le y m = days-le (m == 4 || (m == 6 || (m == 9 || m == 11))) (m == 2) (is_leap y)

-- A day of the calendar, of a year from 1970 to 2100.
pub record IsDate (d : LogDate) : Type 0 where
  pub year_ge : 1970 ≤ d.year
  pub year_le : d.year ≤ 2100
  pub month_ge : 1 ≤ d.month
  pub month_le : d.month ≤ 12
  pub day_ge : 1 ≤ d.day
  pub day_le : d.day ≤ get_max_day (pos d.year) d.month

clamp_day-IsDate :
    (d : LogDate)
    → 1970 ≤ d.year
    → d.year ≤ 2100
    → 1 ≤ d.month
    → d.month ≤ 12
    → 1 ≤ d.day
    → IsDate (clamp_day d)
unfolding clamp_day
clamp_day-IsDate d a b c e f = ground (arith, get_max_day-le (pos d.year) d.month)

turn_day-le :
    (up : Bool) (last day : ℕ)
    → 28 ≤ last
    → 1 ≤ day
    → day ≤ last
    → (1 ≤ turn_day up last day) × (turn_day up last day ≤ last)
unfolding turn_day
turn_day-le up last day a b c = ground arith

-- Every button of the day of the log, from a day of the calendar of a year from 1970 to 2100, gives such a
-- day again.
pub group_button_click-IsDate :
    (index : ℕ) (d : LogDate) → IsDate d → IsDate (group_button_click index d)
unfolding group_button_click
group_button_click-IsDate index d v =
    if_both_of IsDate (index == 1)
      (λ e.
        if_both_of IsDate (leb d.year 1970) (λ f. v)
          (λ f.
            clamp_day-IsDate (record d { year = d.year - 1 }) (ground (arith, f))
              (omega (arith, v.year_le)) v.month_ge v.month_le v.day_ge))
      (λ e1.
        if_both_of IsDate (index == 2)
          (λ e.
            if_both_of IsDate (leb 2100 d.year) (λ f. v)
              (λ f.
                clamp_day-IsDate (record d { year = d.year + 1 }) (omega (arith, v.year_ge))
                  (ground (arith, f)) v.month_ge v.month_le v.day_ge))
          (λ e2.
            if_both_of IsDate (index == 3)
              (λ e.
                clamp_day-IsDate (record d { month = if leb d.month 1 then 12 else d.month - 1 })
                  v.year_ge v.year_le (ground (arith, v.month_ge)) (ground (arith, v.month_le))
                  v.day_ge)
              (λ e3.
                if_both_of IsDate (index == 4)
                  (λ e.
                    clamp_day-IsDate
                      (record d { month = if leb 12 d.month then 1 else d.month + 1 }) v.year_ge
                      v.year_le (ground (arith, v.month_ge)) (ground (arith, v.month_le)) v.day_ge)
                  (λ e4.
                    if_both_of IsDate (index == 5 || index == 6)
                      (λ e.
                        let t =
                          turn_day-le (index == 6) (get_max_day (pos d.year) d.month) d.day
                            (get_max_day-le (pos d.year) d.month).0 v.day_ge v.day_le in
                        record {
                          year_ge = v.year_ge;
                          year_le = v.year_le;
                          month_ge = v.month_ge;
                          month_le = v.month_le;
                          day_ge = t.0;
                          day_le = t.1;
                        })
                      (λ e. v)))))
