-- ===== src/Log.antt =====
-- The event log, log/log.c: one line for each entry in a file that keeps at most 11000 of them.
pub mod Keep
pub mod Line
pub mod ReadBack
pub mod Run
mod Tests
use cctvmonitor.Base.{
  ℕ, zero, suc, ◌+◌, ◌-◌, ◌/◌, ◌%◌, ◌≡◌, Bool, true, false, not, ◌&&◌, ◌||◌, Option, none, some,
  List, [], ◌∷◌, ◌++◌, map, ◌==◌, ltb, if◌then◌else◌, length, take, drop, get_or, Bytes, codes,
  c_string, strncpy, strsep,
}
use mathlib.Core.Option
use cctvmonitor.Base.Int.{ℤ, pos, negsuc, eq_ℤ, failure, success}
use cctvmonitor.Base.Decimal.{atoi}
use cctvmonitor.Config.{Files, lines, concat, write_file, copy_file}

-- `T_LOG_TIME_INFO` without its unused field.
pub record Time : Type 0 where
  pub year : ℤ
  pub month : ℤ
  pub day : ℤ
  pub hour : ℤ
  pub minute : ℤ
  pub second : ℤ

-- The local time as `localtime_r` gives it: a year of four digits, the others below 100.
pub record Clock : Type 0 where
  pub year : ℕ
  pub month : ℕ
  pub day : ℕ
  pub hour : ℕ
  pub minute : ℕ
  pub second : ℕ

-- g_acLogPath, g_iLogCount, g_iSyncFlag and the files.
pub record Log : Type 0 where
  pub path : Bytes
  pub log_count : ℕ
  pub sync_flag : ℕ
  pub files : Files

-- LOG_Init: the lines that are there are counted. A file that is not there is made, where the directory
-- is there or can be made.
unfoldable pub log_init : Log → ℤ × Log
unfolding lines write_file
log_init g = elim (g.files.read g.path) [
  | some s ↦ (success, record g { log_count = g.log_count + length (lines s) })
  | none ↦
      if g.files.writable g.path
      then (success, record g { files = write_file g.files g.path [] })
      else (failure, g)
]

-- LOG_TYPE_SYS, LOG_TYPE_EVENT
abbrev pub log_sys : ℕ
log_sys = 0

abbrev pub log_event : ℕ
log_event = 1

-- `%02d`
abbrev pub two : ℕ → Bytes
two n = (b'0' + n / 10) ∷ (b'0' + n % 10) ∷ []

-- `"%4d%02d%02d %02d:%02d:%02d"`
unfoldable pub log_time : Clock → Bytes
log_time t =
    two (t.year / 100)
    ++ (two (t.year % 100)
        ++ (two t.month
            ++ (two t.day ++ b' ' ∷ (two t.hour ++ b':' ∷ (two t.minute ++ b':' ∷ two t.second)))))

-- The line of an entry; all but events are marked as of the system.
unfoldable pub log_line : Clock → ℕ → Bytes → Bytes
unfolding log_time
log_line t type desc = take 255 (
    (if type == log_event then b'e' else b's')
    ∷ (log_time t ++ (32 ∷ 32 ∷ (desc ++ 13 ∷ b'\n' ∷ []))))

-- MAX_LOG_NUMBER + 1000
abbrev pub most : ℕ
most = 11000

-- The branch of LOG_WriteLog that adds to the file, which `fopen(…, "ab")` makes where there is none.
unfoldable pub append_line : Log → Bytes → ℤ × Log
unfolding write_file
append_line g line =
    if g.files.writable g.path
    then (
      success,
      record g {
        files =
            write_file g.files g.path
              (elim (g.files.read g.path) [ none ↦ [] | some s ↦ s ] ++ line);
        log_count = suc g.log_count;
        sync_flag = suc g.sync_flag;
      },
    )
    else (failure, g)

-- `snprintf(acTmpName, sizeof(acTmpName), "%s~", g_acLogPath)`
unfoldable pub log_tmp_name : Bytes → Bytes
log_tmp_name path = take 127 (path ++ b'~' ∷ [])

-- The branch that leaves the oldest 1000 lines out.
unfoldable pub rotate : Log → Bytes → ℤ × Log
unfolding lines concat write_file copy_file log_tmp_name
rotate g line = elim (g.files.read g.path) [
  | none ↦ (failure, g)
  | some s ↦
      if g.files.writable (log_tmp_name g.path)
      then (
        success,
        record g {
          files =
              (copy_file
                (write_file g.files (log_tmp_name g.path)
                  (concat (map c_string (drop 1000 (lines s))) ++ line))
                g.path (log_tmp_name g.path)).1;
          log_count = suc (g.log_count - 1000);
          sync_flag = suc g.sync_flag;
        },
      )
      else (failure, g)
]

-- LOG_WriteLog of a description with its NUL cut off.
unfoldable pub write_log : Log → Clock → ℕ → Bytes → ℤ × Log
unfolding log_line append_line rotate
write_log g t type desc =
    if ltb g.log_count most
    then append_line g (log_line t type desc)
    else rotate g (log_line t type desc)

-- The part of ParseTimeFromLog behind the first space.
unfoldable pub parse_hours : Time → Bytes → Time
unfolding atoi strsep
parse_hours t s =
    let (h, rest) = strsep b':' s in
    elim rest [
      | none ↦ record t { hour = atoi h }
      | some s2 ↦
          (let (m, rest2) = strsep b':' s2 in
            elim rest2 [
              | none ↦ record t { hour = atoi h; minute = atoi m }
              | some s3 ↦ record t { hour = atoi h; minute = atoi m; second = atoi s3 }
            ])
    ]

-- ParseTimeFromLog; a part that is not there leaves the field as it was.
unfoldable pub parse_time : Time → Bytes → Time
unfolding parse_hours atoi strsep
parse_time t s =
    let (d, rest) = strsep b' ' s in
    let t1 = record t {
      year = atoi (take 4 d);
      month = atoi (take 2 (drop 4 d));
      day = atoi (take 2 (drop 6 d));
    } in
    elim rest [ none ↦ t1 | some s2 ↦ parse_hours t1 s2 ]

-- CompareTime: the same day.
unfoldable pub same_day : Time → Time → Bool
same_day a b = eq_ℤ a.year b.year && (eq_ℤ a.month b.month && eq_ℤ a.day b.day)

-- `T_MSG_LOG_INFO`
pub record Entry : Type 0 where
  pub log_time_of : Time
  pub log_text : Bytes

abbrev pub is_type : ℕ → Bytes → Bool
is_type type l =
    (type == log_event && get_or l 0 0 == b'e') || (type == log_sys && get_or l 0 0 == b's')

-- The text of a line without its last two bytes, CR and LF; `none` is a NUL put in front of acBuf.
unfoldable pub cut : Bytes → Option Bytes
unfolding c_string
cut l =
    if ltb (length (c_string l)) 2 then none else some (take (length (c_string l) - 2) (c_string l))

-- The loop of LOG_ReadLog with room for `room` entries; `t` is what tTime holds.
unfoldable pub read_entries : ℕ → Time → Time → ℕ → List Bytes → Option (List Entry)
unfolding parse_time same_day cut strncpy
read_entries zero t day type ls = some []
read_entries (suc room) t day type [] = some []
read_entries (suc room) t day type (l ∷ ls) =
    let skipped = read_entries (suc room) t day type ls in
    if not (is_type type l) then skipped else elim (cut l) [
      | none ↦ none
      | some s ↦
          (let t1 = parse_time t (drop 1 s) in
            let other = read_entries (suc room) t1 day type ls in
            let later = read_entries room t1 day type ls in
            let taken : Entry = record {
              log_time_of = t1;
              log_text = strncpy [] (drop 19 s) 128;
            } in
            if same_day t1 day then Option.map (◌∷◌ taken) later else other)
    ]

-- LOG_ReadLog: the entries stored, whose number it returns; tTime starts with what the stack held.
unfoldable pub read_log : Log → Time → Time → ℕ → Option (List Entry)
unfolding lines read_entries
read_log g t day type = elim (g.files.read g.path) [
  | none ↦ some []
  | some s ↦ read_entries 10000 t day type (lines s)
]

-- LOG_FsyncFile; the file can be opened for writing if it exists.
unfoldable pub fsync_file : Log → ℤ × Log
fsync_file g = if g.sync_flag == 0 then (success, g) else elim (g.files.read g.path) [
  | none ↦ (failure, g)
  | some s ↦ (success, record g { sync_flag = 0 })
]
