-- ===== src/Dates.antt =====
-- The dates that the operator interface sets: GetMaxDay of cctv/comm.cpp, the buttons for the day of the
-- log in cctv/sysmanage.cpp, and those of the time dialog in cctv/timeset.cpp. A label is the number that
-- its text shows.
pub mod Valid
pub mod Dialog
mod Tests
use cctvmonitor.Base.{
  ℕ, zero, suc, ◌+◌, ◌-◌, ◌*◌, ◌%◌, Bool, true, false, not, ◌&&◌, ◌||◌, Option, none, some, List,
  [], ◌∷◌, ◌==◌, ltb, leb, if◌then◌else◌, get_elem?,
}
use cctvmonitor.Base.Int.{ℤ, pos, negsuc, ◌+ℤ◌, ◌-ℤ◌, pos_part, neg_part}

-- A remainder is 0 for a negative number as for its opposite.
abbrev pub divides : ℕ → ℤ → Bool
divides k y = (pos_part y + neg_part y) % k == 0

-- The test of GetMaxDay.
abbrev pub is_leap : ℤ → Bool
is_leap y = divides 400 y || (not (divides 100 y) && divides 4 y)

-- GetMaxDay
unfoldable pub get_max_day : ℤ → ℕ → ℕ
get_max_day y m =
    if m == 4 || (m == 6 || (m == 9 || m == 11))
    then 30
    else if m == 2
    then (if is_leap y then 29 else 28)
    else 31

-- m_iYear, m_iMonth and m_iDay of sysManage.
pub record LogDate : Type 0 where
  pub year : ℕ
  pub month : ℕ
  pub day : ℕ

-- A day behind the end of the month becomes the last.
unfoldable pub clamp_day : LogDate → LogDate
unfolding get_max_day
clamp_day d =
    let last = get_max_day (pos d.year) d.month in
    if ltb last d.day then record d { day = last } else d

-- The days of buttons 5 and 6.
unfoldable pub turn_day : Bool → ℕ → ℕ → ℕ
turn_day up last day =
    if up
    then (if ltb last (day + 1) then 1 else day + 1)
    else if ltb last (day - 1)
    then 1
    else if leb day 1
    then last
    else day - 1

-- sysManage::GroupButtonClickSlot
unfoldable pub group_button_click : ℕ → LogDate → LogDate
unfolding clamp_day turn_day get_max_day
group_button_click index d =
    if index == 1
    then (if leb d.year 1970 then d else clamp_day (record d { year = d.year - 1 }))
    else if index == 2
    then (if leb 2100 d.year then d else clamp_day (record d { year = d.year + 1 }))
    else if index == 3
    then clamp_day (record d { month = if leb d.month 1 then 12 else d.month - 1 })
    else if index == 4
    then clamp_day (record d { month = if leb 12 d.month then 1 else d.month + 1 })
    else if index == 5 || index == 6
    then record d { day = turn_day (index == 6) (get_max_day (pos d.year) d.month) d.day }
    else d

-- The labels of the time dialog, and idayNum[1].
pub record Time : Type 0 where
  pub year : ℤ
  pub month : ℕ
  pub day : ℕ
  pub hour : ℕ
  pub min : ℕ
  pub sec : ℕ
  pub february : ℕ

-- The six pairs of buttons.
pub data Part : Type 0 where
  of_year of_month of_day of_hour of_min of_sec : Part

-- A number one up or down, from one end of its range to the other.
unfoldable pub turn : ℕ → ℕ → Bool → ℕ → ℕ
turn low high up n =
    if up
    then (if ltb high (n + 1) then low else n + 1)
    else if ltb n (low + 1)
    then high
    else n - 1

-- idayNum
abbrev pub day_num : ℕ → List ℕ
day_num february = 31 ∷ february ∷ 31 ∷ 30 ∷ 31 ∷ 30 ∷ 31 ∷ 31 ∷ 30 ∷ 31 ∷ 30 ∷ 31 ∷ []

-- idayNum[mon-1]; `none` outside the array.
unfoldable pub days_of : ℕ → ℕ → Option ℕ
days_of february zero = none
days_of february (suc m) = get_elem? (day_num february) m

-- The test for a leap year at the end of timeset::stButtonClick.
abbrev pub is_leap_too : ℤ → Bool
is_leap_too y = if divides 100 y then divides 400 y else divides 4 y

-- What the button changes.
unfoldable pub change : Part → Bool → Time → Option Time
unfolding turn days_of
change of_year up t =
    let y = if up then t.year +ℤ pos 1 else t.year -ℤ pos 1 in
    some (record t { year = y; february = if is_leap y then 29 else 28 })
change of_month up t = some (record t { month = turn 1 12 up t.month })
change of_day up t = elim (days_of t.february t.month) [
  | none ↦ none
  | some last ↦ some (record t { day = turn 1 last up t.day })
]
change of_hour up t = some (record t { hour = turn 0 23 up t.hour })
change of_min up t = some (record t { min = turn 0 59 up t.min })
change of_sec up t = some (record t { sec = turn 0 59 up t.sec })

-- The check of a day of February.
unfoldable pub clamp_february : Time → Time
clamp_february t =
    let last = if is_leap_too t.year then 29 else 28 in
    if t.month == 2 && ltb last t.day then record t { day = last } else t

-- timeset::stButtonClick
unfoldable pub st_button_click : Part → Bool → Time → Option Time
unfolding change clamp_february
st_button_click part up t = elim (change part up t) [
  | none ↦ none
  | some u ↦ some (clamp_february u)
]
