-- ===== src/State/Init/Tables.antt =====
-- The tables of state/state.c that say which camera belongs to a sensor: ReadWarnRelate.
use cctvmonitor.Base.{
  ℕ, zero, suc, ◌+◌, ◌/◌, ◌%◌, Option, none, some, ◌++◌, if◌then◌else◌, Bytes, codes, c_string,
  replicate, set,
}
use cctvmonitor.Base.Int.{ℤ, pos, ◌-ℤ◌, index?, is_positive}
use cctvmonitor.Base.Decimal.{decimal, atoi}
use cctvmonitor.Config.{Files, read_param}

-- `"%s/%s"` of g_acConfigFileDir and g_acCCTVConfigFile
abbrev pub cctv_path : Bytes
cctv_path = codes "/home/data/CCTVConfig.ini"

-- A value of that file as text, read into `n` bytes that are cleared first.
unfoldable pub text_value : Files → Option Bytes → Bytes → ℕ → ℤ × Bytes
unfolding read_param c_string
text_value fs group key n =
    let r = read_param fs cctv_path group key (replicate n 0) in (r.0, c_string r.1)

abbrev pub pecu_key : ℕ → Bytes
pecu_key i = codes "PECU" ++ decimal (i + 1)

abbrev pub fire_key : ℕ → Bytes
fire_key i = codes "FIRE" ++ decimal (i + 1)

-- The door `i % 8` of the carriage `i / 8`.
abbrev pub door_key : ℕ → Bytes
door_key i = codes "DOOR" ++ decimal (i / 8 + 1) ++ decimal (i % 8 + 1)

-- Cameras are counted from 1 in the file, and one that is not there is 0xff.
unfoldable pub table_entry : ℕ → Bytes → ℕ
unfolding atoi ◌-ℤ◌
table_entry video_num s = elim (index? (atoi s -ℤ pos 1) video_num) [ none ↦ 0xff | some k ↦ k ]

-- The loop of ReadWarnRelate over `n` entries from number `i` on.
unfoldable pub read_table : Files → ℕ → Bytes → (ℕ → Bytes) → ℕ → ℕ → Bytes → Bytes
unfolding text_value table_entry
read_table fs video_num group key zero i table = table
read_table fs video_num group key (suc n) i table =
    let (r, s) = text_value fs (some group) (key i) 256 in
    read_table fs video_num group key n (suc i)
      (if is_positive r then set table i (table_entry video_num s) else table)
