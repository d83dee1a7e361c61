-- ===== src/Dates/Tests.antt =====
-- The dates of cctv/sysmanage.cpp and cctv/timeset.cpp at concrete values.
use cctvmonitor.Base.{◌≤◌, ◌≡◌, refl, true, false, none, some, arith}
use cctvmonitor.Base.Int.{pos}
use cctvmonitor.Dates.{
  LogDate, group_button_click, get_max_day, Time, of_month, of_day, st_button_click,
}
use cctvmonitor.Dates.Valid.{IsDate, group_button_click-IsDate}
use cctvmonitor.Dates.Dialog.{InRange, st_button_click-InRange}

-- From the 31st of March to February.
abbrev march : LogDate
march = record { year = 2023; month = 3; day = 31 }

group_button_click-IsDate_example : IsDate (group_button_click 3 march)
unfolding get_max_day
group_button_click-IsDate_example = group_button_click-IsDate 3 march (ground arith)

group_button_click-march : group_button_click 3 march ≡ record { year = 2023; month = 2; day = 28 }
unfolding group_button_click
group_button_click-march = refl

abbrev dialog : Time
dialog = record { year = pos 2024; month = 3; day = 31; hour = 0; min = 0; sec = 59; february = 28 }

st_button_click-InRange_example :
    (u : Time) × (st_button_click of_month false dialog ≡ some u)
    × InRange u
    × (u.month ≡ 2 → u.day ≤ get_max_day u.year 2)
st_button_click-InRange_example = st_button_click-InRange of_month false dialog (ground arith)

-- The dialog shows the 31st of April.
st_button_click-april : st_button_click of_month true dialog ≡ some (record dialog { month = 4 })
unfolding st_button_click
st_button_click-april = refl

-- In a leap year the day goes from the 28th of February to the 1st, before the year's buttons are used.
st_button_click-leap :
    st_button_click of_day true (record dialog { month = 2; day = 28 })
    ≡ some (record dialog { month = 2; day = 1 })
unfolding st_button_click
st_button_click-leap = refl

-- Labels without a time: idayNum is read in front of its begin.
st_button_click-empty : st_button_click of_day true (record dialog { month = 0 }) ≡ none
unfolding st_button_click
st_button_click-empty = refl
