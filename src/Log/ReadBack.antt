-- ===== src/Log/ReadBack.antt =====
-- What LOG_ReadLog of log/log.c reads of the lines that LOG_WriteLog wrote.
use mathlib.Core.Option
use cctvmonitor.Base.{
  ltb, ◌+◌, false, ltb-false_of_le, ℕ, suc, ◌-◌, ◌/◌, ◌%◌, ◌<◌, ◌≡◌, refl, ap, ◌∙◌, true, false,
  some, List, [], ◌∷◌, ◌++◌, ◌==◌, if◌then◌else◌, length, take, drop, Bytes, arith, digits_value,
  strsep, strncpy, c_string_lem, take_all, length-append,
}
use cctvmonitor.Base.Int.{pos}
use cctvmonitor.Base.Decimal.{atoi}
use cctvmonitor.Log.{
  Time, Clock, two, log_time, parse_time, parse_hours, Entry, log_event, log_line, cut, is_type,
  same_day, read_entries,
}
use cctvmonitor.Log.Line.{IsPlain, log_line-text}

-- A clock as `localtime_r` fills it in.
pub record IsClock (t : Clock) : Type 0 where
  pub year_four : t.year < 10000
  pub month_two : t.month < 100
  pub day_two : t.day < 100
  pub hour_two : t.hour < 100
  pub minute_two : t.minute < 100
  pub second_two : t.second < 100

-- The clock's time as LOG_ReadLog gives it.
abbrev pub time_of : Clock → Time
time_of t = record {
  year = pos t.year;
  month = pos t.month;
  day = pos t.day;
  hour = pos t.hour;
  minute = pos t.minute;
  second = pos t.second;
}

-- Two digits, and what stops them.
atoi-two : (n : ℕ) → n < 100 → atoi (two n) ≡ pos n
unfolding atoi digits_value
atoi-two n h = ground arith

atoi-two_space : (n : ℕ) (s : Bytes) → n < 100 → atoi (two n ++ 32 ∷ s) ≡ pos n
unfolding atoi digits_value
atoi-two_space n s h = ground arith

atoi-four : (n : ℕ) → n < 10000 → atoi (two (n / 100) ++ two (n % 100)) ≡ pos n
unfolding atoi digits_value
atoi-four n h = ground arith

strsep-date :
    (a b m d : ℕ) (rest : Bytes)
    → strsep 32 (two a ++ (two b ++ (two m ++ (two d ++ 32 ∷ rest))))
      ≡ (two a ++ (two b ++ (two m ++ two d)), some rest)
unfolding strsep
strsep-date a b m d rest = ground arith

strsep-colon :
    (n : ℕ) (rest : Bytes) → n < 100 → strsep b':' (two n ++ b':' ∷ rest) ≡ (two n, some rest)
unfolding strsep
strsep-colon n rest h = ground arith

parse_time_of :
    (old : Time) (s d rest : Bytes)
    → strsep 32 s ≡ (d, some rest)
    → parse_time old s
      ≡ parse_hours
          (record old {
            year = atoi (take 4 d);
            month = atoi (take 2 (drop 4 d));
            day = atoi (take 2 (drop 6 d));
          })
          rest
unfolding parse_time
parse_time_of old s d rest e = ground (arith, e)

parse_hours_of :
    (t : Time) (s h s2 m s3 : Bytes)
    → strsep b':' s ≡ (h, some s2)
    → strsep b':' s2 ≡ (m, some s3)
    → parse_hours t s ≡ record t { hour = atoi h; minute = atoi m; second = atoi s3 }
unfolding parse_hours
parse_hours_of t s h s2 m s3 e e2 = ground (arith, e, e2)

-- The time of an entry reads back as it was written, whatever was read before and whatever
-- description follows: for a year of four digits and the other numbers below 100.
pub parse_time-log_time :
    (old : Time) (t : Clock) (desc : Bytes)
    → IsClock t
    → parse_time old (log_time t ++ 32 ∷ 32 ∷ desc) ≡ time_of t
unfolding log_time
parse_time-log_time old t desc c =
    let tail = two t.second ++ 32 ∷ 32 ∷ desc in
    let minutes = two t.minute ++ b':' ∷ tail in
    let hours = two t.hour ++ b':' ∷ minutes in
    parse_time_of old (log_time t ++ 32 ∷ 32 ∷ desc)
      (two (t.year / 100) ++ (two (t.year % 100) ++ (two t.month ++ two t.day))) hours
      (strsep-date (t.year / 100) (t.year % 100) t.month t.day hours)
    ∙ parse_hours_of _ hours (two t.hour) minutes (two t.minute) tail
        (strsep-colon t.hour minutes c.hour_two) (strsep-colon t.minute tail c.minute_two)
    ∙ ground (
      arith,
      atoi-four t.year c.year_four,
      atoi-two t.month c.month_two,
      atoi-two t.day c.day_two,
      atoi-two t.hour c.hour_two,
      atoi-two t.minute c.minute_two,
      atoi-two_space t.second (32 ∷ desc) c.second_two,
    )

-- The mark and the time of a line, and its description.
front : Clock → ℕ → Bytes → Bytes
front t type desc = (if type == log_event then b'e' else b's') ∷ (log_time t ++ (32 ∷ 32 ∷ desc))

log_line-front :
    (t : Clock) (type : ℕ) (desc : Bytes)
    → IsPlain desc
    → log_line t type desc ≡ front t type desc ++ 13 ∷ b'\n' ∷ []
unfolding log_line front log_time
log_line-front t type desc plain =
    rw
      (take_all 235 (desc ++ 13 ∷ b'\n' ∷ [])
        (omega (arith, length-append desc (13 ∷ b'\n' ∷ []), plain.short)))
      refl

take_front : (xs ys : Bytes) → take (length xs) (xs ++ ys) ≡ xs
take_front [] ys = refl
take_front (x ∷ xs) ys = ap (◌∷◌ x) (take_front xs ys)

cut-log_line :
    (t : Clock) (type : ℕ) (desc : Bytes)
    → IsPlain desc
    → cut (log_line t type desc) ≡ some (front t type desc)
unfolding cut
cut-log_line t type desc plain =
    let line = log_line t type desc in
    let x = front t type desc in
    let e = log_line-front t type desc plain in
    let size : length line ≡ length x + 2 =
      omega (arith, ap length e, length-append x (13 ∷ b'\n' ∷ [])) in
    let long : ltb (length line) 2 ≡ false = ltb-false_of_le (length line) 2 (omega arith) in
    let n : length line - 2 ≡ length x = omega arith in
    let whole = c_string_lem line (log_line-text t type desc plain).0 in
    rw (whole, long, n) (ap some (ap (take (length x)) e ∙ take_front x (13 ∷ b'\n' ∷ [])))

-- What LOG_ReadLog stores of a line of type 0 or 1: the time, and the description behind one of the
-- two spaces in front of it, cut or filled up to 128 bytes.
abbrev pub stored : Clock → Bytes → Entry
stored t desc = record { log_time_of = time_of t; log_text = strncpy [] (32 ∷ desc) 128 }

marked :
    (t : Clock) (type : ℕ) (desc : Bytes) → type < 2 → is_type type (log_line t type desc) ≡ true
unfolding log_line
marked t type desc h = ground arith

read_line :
    (room : ℕ) (old day : Time) (type : ℕ) (l s : Bytes) (ls : List Bytes)
    → is_type type l ≡ true
    → cut l ≡ some s
    → read_entries (suc room) old day type (l ∷ ls) ≡ (
        let t1 = parse_time old (drop 1 s) in
        if same_day t1 day
        then Option.map
            (◌∷◌ (record { log_time_of = t1; log_text = strncpy [] (drop 19 s) 128 }))
            (read_entries room t1 day type ls)
        else read_entries (suc room) t1 day type ls)
unfolding read_entries
read_line room old day type l s ls h e = rw (h, e) refl

-- LOG_ReadLog, when it comes to a line that LOG_WriteLog wrote for an entry of the type it looks for
-- (0 or 1), stores exactly that entry if the day is the one asked for, and passes over it otherwise.
-- The description is plain, the year has four digits and the other numbers of the time are below 100.
pub read_entries-log_line :
    (room : ℕ) (old day : Time) (t : Clock) (type : ℕ) (desc : Bytes) (ls : List Bytes)
    → IsClock t
    → IsPlain desc
    → type < 2
    → read_entries (suc room) old day type (log_line t type desc ∷ ls) ≡ (
        if same_day (time_of t) day
        then Option.map (◌∷◌ (stored t desc)) (read_entries room (time_of t) day type ls)
        else read_entries (suc room) (time_of t) day type ls)
read_entries-log_line room old day t type desc ls c plain h =
    let s = front t type desc in
    let parsed : parse_time old (drop 1 s) ≡ time_of t =
      unfold front in parse_time-log_time old t desc c in
    let text : drop 19 s ≡ 32 ∷ desc = unfold front log_time in refl in
    read_line room old day type (log_line t type desc) s ls (marked t type desc h)
      (cut-log_line t type desc plain)
    ∙ ap
        (λ t1.
          if same_day t1 day
          then Option.map (◌∷◌ (record { log_time_of = t1; log_text = strncpy [] (drop 19 s) 128 }))
              (read_entries room t1 day type ls)
          else read_entries (suc room) t1 day type ls)
        parsed
    ∙ ap
        (λ x.
          if same_day (time_of t) day
          then Option.map (◌∷◌ (record { log_time_of = time_of t; log_text = strncpy [] x 128 }))
              (read_entries room (time_of t) day type ls)
          else read_entries (suc room) (time_of t) day type ls)
        text
