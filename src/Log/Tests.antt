-- ===== src/Log/Tests.antt =====
-- The event log of log/log.c at a concrete entry.
use mathlib.Core.Option
use cctvmonitor.Base.{
  none, ◌≡◌, refl, true, some, List, [], ◌∷◌, if◌then◌else◌, Bytes, codes, arith,
}
use cctvmonitor.Log.{Log, Clock, log_line, read_entries, same_day}
use cctvmonitor.Log.Line.{IsPlain}
use cctvmonitor.Log.Run.{Write}
use cctvmonitor.Log.ReadBack.{IsClock, time_of, stored, read_entries-log_line}

abbrev now : Clock
now = record { year = 2018; month = 7; day = 2; hour = 9; minute = 5; second = 30 }

abbrev text : Bytes
text = codes "set noise flag  1"

abbrev empty_log : Log
empty_log = record {
  path = codes "l";
  log_count = 0;
  sync_flag = 0;
  files = record { read = λ p. some []; writable = λ p. true };
}

text-IsPlain : IsPlain text
text-IsPlain = record { short = omega arith; no_nul = ground arith; no_line = ground arith }

now-IsClock : IsClock now
now-IsClock = record {
  year_four = omega arith;
  month_two = omega arith;
  day_two = omega arith;
  hour_two = omega arith;
  minute_two = omega arith;
  second_two = omega arith;
}

abbrev two_writes : List Write
two_writes =
    record { clock = now; type = 1; desc = text } ∷ record { clock = now; type = 0; desc = [] } ∷ []

log_line-now : log_line now 1 text ≡ codes "e20180702 09:05:30  set noise flag  1\r\n"
unfolding log_line
log_line-now = refl

read_entries-log_line_example :
    read_entries 2 (time_of now) (time_of now) 1 (log_line now 1 text ∷ []) ≡ (
      if same_day (time_of now) (time_of now)
      then Option.map (◌∷◌ (stored now text)) (read_entries 1 (time_of now) (time_of now) 1 [])
      else read_entries 2 (time_of now) (time_of now) 1 [])
read_entries-log_line_example =
    read_entries-log_line 1 (time_of now) (time_of now) now 1 text [] now-IsClock text-IsPlain
      (omega arith)

-- A last line of one byte: the NUL would be put in front of acBuf.
read_entries-one_byte : read_entries 2 (time_of now) (time_of now) 1 (codes "e" ∷ []) ≡ none
unfolding read_entries
read_entries-one_byte = refl
