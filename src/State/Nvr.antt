-- ===== src/State/Nvr.antt =====
-- The NVRs: state/state.c from GetNvrVideoNum to GetFileDownProgress. A disk number of the protocol is
-- a byte and a disk size a 16-bit pattern.
use cctvmonitor.Base.{
  ℕ, ◌*◌, ◌/◌, not, Option, none, some, List, [], ◌∷◌, ◌++◌, ◌==◌, ltb, if◌then◌else◌, get_or,
  update, Bytes, codes, c_string, strncpy, bit_and, bit_or, ◌^◌,
}
use cctvmonitor.Base.Int.{ℤ, pos, negsuc, ltb_ℤ, index?, failure, success, signed16}
use cctvmonitor.Base.Decimal.{decimal}
use cctvmonitor.State.{DiskState, NvrState, State, no_nvr, FileSearchState, FileDownState}

-- The NVR at an index below 6.
abbrev pub nvr : State → ℕ → NvrState
nvr st i = get_or st.nvrs i no_nvr

abbrev pub update_nvr : State → ℕ → (NvrState → NvrState) → State
update_nvr st i f = record st { nvrs = update st.nvrs i f }

unfoldable pub get_nvr_video_num : State → ℤ → ℤ
get_nvr_video_num st i = elim (index? i 6) [ none ↦ failure | some k ↦ (nvr st k).nvr_video_num ]

-- GetNvrVideoIdx; the number read before the check is not used where the check fails.
unfoldable pub get_nvr_video_idx : State → ℤ → ℤ → ℤ
get_nvr_video_idx st i (negsuc j) = failure
get_nvr_video_idx st i (pos j) = elim (index? i 6) [
  | none ↦ failure
  | some k ↦
      if ltb_ℤ (pos j) (nvr st k).nvr_video_num
      then pos (get_or (nvr st k).video_idx j 0)
      else failure
]

unfoldable pub set_nvr_ip_addr : State → ℤ → Bytes → ℤ × State
set_nvr_ip_addr st i s = elim (index? i 6) [
  | none ↦ (failure, st)
  | some k ↦ (success, update_nvr st k (λ n. record n { ip = strncpy n.ip s 16 }))
]

-- GetNvrIpAddr; `strncpy` reads up to a NUL of the field.
unfoldable pub get_nvr_ip_addr : State → ℤ → Bytes → ℤ × Bytes
get_nvr_ip_addr st i dst = elim (index? i 6) [
  | none ↦ (failure, dst)
  | some k ↦ (success, strncpy dst (c_string (nvr st k).ip) 16)
]

-- GetAllNvrInfo; `sizeof(g_atNVRState)` is six packed records of 43 bytes, and the comparison with it
-- takes a negative length as a large one.
unfoldable pub get_all_nvr_info : State → ℤ → Option (List NvrState)
get_all_nvr_info st (negsuc n) = some st.nvrs
get_all_nvr_info st (pos n) = if ltb n (6 * 43) then none else some st.nvrs

-- `((iValue&0xff)<<8)|((iValue&0xff00)>>8)`
unfoldable pub swap_bytes : ℕ → ℕ
swap_bytes w = bit_or (bit_and w 255 * 2 ^ 8) (bit_and w 65280 / 2 ^ 8)

-- The descriptions that SetNvrDiskState passes to LOG_WriteLog.
unfoldable pub disk_log : DiskState → DiskState → List Bytes
disk_log old new =
    (if old.disk_num == new.disk_num
      then []
      else (codes "disk num from " ++ decimal old.disk_num ++ codes " to " ++ decimal new.disk_num)
        ∷ [])
    ++ (if old.lost_warn == new.lost_warn then [] else codes "disk lost warn" ∷ [])
    ++ (if old.size_warn == new.size_warn then [] else codes "disk size warn" ∷ [])

-- SetNvrDiskState; the log lines come last.
unfoldable pub set_nvr_disk_state : State → ℤ → DiskState → ℤ × State × List Bytes
unfolding swap_bytes disk_log
set_nvr_disk_state st i d = elim (index? i 6) [
  | none ↦ (failure, st, [])
  | some k ↦ (
    success,
    update_nvr st k (λ n. record n {
      disk = record d { total_size = swap_bytes d.total_size; use_size = swap_bytes d.use_size };
    }),
    disk_log (nvr st k).disk d,
  )
]

unfoldable pub get_nvr_disk_state : State → ℤ → Option DiskState
get_nvr_disk_state st i = elim (index? i 6) [ none ↦ none | some k ↦ some (nvr st k).disk ]

unfoldable pub get_nvr_disk_num : State → ℤ → ℤ
get_nvr_disk_num st i = elim (index? i 6) [ none ↦ pos 0 | some k ↦ pos (nvr st k).disk.disk_num ]

unfoldable pub get_nvr_disk_total_size : State → ℤ → ℤ
get_nvr_disk_total_size st i = elim (index? i 6) [
  | none ↦ pos 0
  | some k ↦ signed16 (nvr st k).disk.total_size
]

unfoldable pub get_nvr_disk_used_size : State → ℤ → ℤ
get_nvr_disk_used_size st i = elim (index? i 6) [
  | none ↦ pos 0
  | some k ↦ signed16 (nvr st k).disk.use_size
]

-- 1 for a lost disk, 2 for one that is nearly full.
unfoldable pub get_nvr_disk_warn_state : State → ℤ → ℤ
get_nvr_disk_warn_state st i = elim (index? i 6) [
  | none ↦ failure
  | some k ↦
      if not ((nvr st k).disk.lost_warn == 0)
      then pos 1
      else if not ((nvr st k).disk.size_warn == 0)
      then pos 2
      else pos 0
]

unfoldable pub set_file_search_state : State → FileSearchState → State
set_file_search_state st s = record st { file_search = s }

unfoldable pub get_file_search_state : State → FileSearchState
get_file_search_state st = st.file_search

unfoldable pub set_file_down_state : State → FileDownState → State
set_file_down_state st s = record st { file_down = s }

unfoldable pub get_file_down_state : State → FileDownState
get_file_down_state st = st.file_down

unfoldable pub set_file_down_progress : State → ℤ → State
set_file_down_progress st p = record st { file_progress = p }

unfoldable pub get_file_down_progress : State → ℤ
get_file_down_progress st = st.file_progress
