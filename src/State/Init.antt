-- ===== src/State/Init.antt =====
-- Start-up: state/state.c, AddUserPasswordToRtsp to ParseVideoRele, STATE_Init, and the single values
-- read from files, GetDevDispMode to GetCycTime.
pub mod Ipc
pub mod Tables
pub mod InUse
pub mod Pairs
use cctvmonitor.Base.{
  ℕ, zero, suc, ◌+◌, ◌*◌, ◌/◌, ◌%◌, ◌≡◌, Bool, true, false, not, ◌&&◌, ◌||◌, Option, none, some,
  List, [], ◌∷◌, ◌++◌, ◌==◌, ltb, leb, if◌then◌else◌, length, Bytes, codes, c_string, replicate,
  set, get_or, update,
}
use cctvmonitor.Base.Int.{ℤ, pos, negsuc, ◌-ℤ◌, index?, is_positive, failure, success}
use cctvmonitor.Base.Decimal.{decimal, atoi}
use cctvmonitor.Config.{read_param}
use cctvmonitor.State.{State, IpcInfo, NvrState, no_ipc, no_nvr, no_warn, down_idle, video_ch_max}
use cctvmonitor.State.Audio.{read_broadcast_info}
use cctvmonitor.State.Device.{get_device_carriage_no}
use cctvmonitor.State.Nvr.{nvr, update_nvr, set_nvr_ip_addr}
use cctvmonitor.State.Init.Ipc.{parse_ipc_info}
use cctvmonitor.State.Init.Tables.{cctv_path, text_value, read_table, pecu_key, fire_key, door_key}

-- ReadWarnRelate: the cameras of the PECUs, the fire sensors and the doors.
unfoldable pub read_warn_relate : State → ℤ × State
unfolding read_table
read_warn_relate st = (
  success,
  record st {
    pecu_video =
        read_table st.files st.video_num (codes "[PECUCONFIG]") pecu_key 24 0 st.pecu_video;
    fire_video = read_table st.files st.video_num (codes "[FIRECONFIG]") fire_key 6 0 st.fire_video;
    door_video =
        read_table st.files st.video_num (codes "[DOORCONFIG]") door_key 48 0 st.door_video;
  },
)

-- The addresses of the NVRs from number `i` on.
unfoldable pub read_nvr_ips : ℕ → ℕ → State → State
unfolding text_value set_nvr_ip_addr
read_nvr_ips zero i st = st
read_nvr_ips (suc n) i st =
    let r =
      text_value st.files (some (codes "[NVRIPAddr]")) (codes "NVRIP" ++ decimal (i + 1)) 256 in
    read_nvr_ips n (suc i) (if is_positive r.0 then (set_nvr_ip_addr st (pos i) r.1).1 else st)

-- The camera `i` is noted at both NVRs of its pair ("互为冗余"); `none` is a write behind acVideoIdx.
unfoldable pub add_video : State → ℕ → ℤ → Option State
add_video st i (negsuc n) = none
add_video st i (pos n) =
    let first = n / 2 * 2 in
    elim (index? (nvr st first).nvr_video_num 12) [
      | none ↦ none
      | some k ↦
          (let f = λ (v : NvrState). record v {
            video_idx = set v.video_idx k i;
            nvr_video_num = pos (k + 1);
          } in
            some (update_nvr (update_nvr st first f) (first + 1) f))
    ]

-- The cameras from number `i` on, `n` of them; -1 at the first whose line is refused.
unfoldable pub read_ipcs : Bytes → Bytes → ℕ → ℕ → State → Option (ℤ × State)
unfolding text_value parse_ipc_info add_video
read_ipcs user password zero i st = some (success, st)
read_ipcs user password (suc n) i st =
    let (r, s) =
      text_value st.files (some (codes "[IPCINFO]")) (codes "IPC" ++ decimal (i + 1)) 256 in
    let (ret, ipc) = parse_ipc_info s (get_or st.cams i no_ipc) user password in
    let st1 = record st { cams = update st.cams i (λ c. ipc) } in
    elim ret [
      | pos zero ↦ elim (add_video st1 i ipc.nvr_no) [
        | none ↦ none
        | some st2 ↦ read_ipcs user password n (suc i) st2
      ]
      | _ ↦ some (failure, st1)
    ]

-- 28 and 32 cameras are the numbers there are.
abbrev pub ipc_num : ℤ → ℕ
ipc_num (pos n) = if n == 28 then 28 else 32
ipc_num (negsuc n) = 32

-- ReadNvrAndIpc. `none` is also a user or a password of sixteen characters or more: acUser and acPassword
-- have sixteen bytes, and a text that fills them has no NUL there.
unfoldable pub read_nvr_and_ipc : State → Option (ℤ × State)
unfolding read_nvr_ips read_ipcs text_value atoi
read_nvr_and_ipc st =
    let st1 = read_nvr_ips 6 0 st in
    let user = (text_value st.files (some (codes "[IPCACCOUNT]")) (codes "USER") 16).1 in
    let password = (text_value st.files (some (codes "[IPCACCOUNT]")) (codes "PASSWORD") 16).1 in
    let r = text_value st.files (some (codes "[IPCINFO]")) (codes "IPCNUM") 256 in
    let n = ipc_num (atoi r.1) in
    let read = read_ipcs user password n 0 (record st1 { video_num = n }) in
    if ltb (length user) 16 && ltb (length password) 16
    then (if is_positive r.0 then read else some (success, st1))
    else none

unfoldable pub parse_video_rele : State → Option (ℤ × State)
unfolding read_nvr_and_ipc read_warn_relate
parse_video_rele st = elim (read_nvr_and_ipc st) [
  | none ↦ none
  | some (pos zero, st1) ↦ some (read_warn_relate st1)
  | some (r, st1) ↦ some (r, st1)
]

-- What STATE_Init sets before it reads the files.
unfoldable pub cleared : Bytes → State → State
unfolding get_device_carriage_no
cleared eth st =
    let (car, st1) = get_device_carriage_no eth st in
    record st1 {
      file_down = down_idle;
      video_num = 0;
      settings = record {
        monitor_flag = negsuc 0;
        noise_flag = negsuc 0;
        lcd_volume = negsuc 0;
        driver_volume = negsuc 0;
        carriage_volume = negsuc 0;
        map_brightness = negsuc 0;
      };
      video_source = pos 0x13;
      pecu_warn = 0;
      pecu_first = negsuc 0;
      res_state = 0;
      res_progress = 0;
      master_flag = if car == 1 then pos 1 else pos 0;
      warns = replicate 6 no_warn;
      nvrs = replicate 6 no_nvr;
      pecu_video = replicate 24 0xff;
      fire_video = replicate 6 0xff;
      door_video = replicate 48 0xff;
      cams = replicate video_ch_max no_ipc;
    }

unfoldable pub state_init : Bytes → State → Option (ℤ × State)
unfolding cleared read_broadcast_info parse_video_rele
state_init eth st = elim (read_broadcast_info (cleared eth st)) [
  | none ↦ none
  | some (r, st1) ↦ parse_video_rele st1
]

-- GetDevDispMode
unfoldable pub get_dev_disp_mode : State → ℤ
unfolding read_param atoi c_string
get_dev_disp_mode st =
    let r =
      read_param st.files (codes "/mnt/mmc/dhmi/displayconfig.ini") (some (codes "[DisplayConfig]"))
        (codes "DisplayMode") (replicate 8 0) in
    if is_positive r.0 then in_one_to_three (atoi (c_string r.1)) else pos 1
  where
    in_one_to_three : ℤ → ℤ
    in_one_to_three (pos n) = if leb 1 n && leb n 3 then pos n else pos 1
    in_one_to_three (negsuc n) = pos 1

-- GetTestEnableFlg: the result, and what is stored at `pcFlg`.
unfoldable pub get_test_enable_flg : State → ℤ × Option ℕ
unfolding read_param atoi c_string
get_test_enable_flg st =
    let r =
      read_param st.files (codes "/mnt/confs/SysRunConf.ini") none (codes "TestDemoRunFlg")
        (replicate 128 0) in
    elim r.0 [ negsuc n ↦ (failure, none) | pos n ↦ (success, some (flag (atoi (c_string r.1)))) ]
  where
    flag : ℤ → ℕ
    flag (pos n) = if n == 1 then 1 else 0
    flag (negsuc n) = 0

-- GetCycTime
unfoldable pub get_cyc_time : State → ℤ
unfolding read_param atoi c_string
get_cyc_time st =
    let r =
      read_param st.files cctv_path (some (codes "[CYCTIME]")) (codes "time") (replicate 24 0) in
    if is_positive r.0
    then (let v = atoi (c_string r.1) in if is_positive v then v else pos 30)
    else pos 30
