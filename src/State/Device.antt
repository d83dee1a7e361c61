-- ===== src/State/Device.antt =====
-- The address of the device and its carriage: state/state.c, GetDeviceIp, GetDeviceCarriageNo and
-- the run directory. The text of eth1's address, which `ioctl` and `inet_ntoa` give, is the
-- argument `eth`.
use cctvmonitor.Base.{
  ℕ, none, some, ◌==◌, if◌then◌else◌, Bytes, c_string, strncpy, strsep, get_or, replicate, length,
}
use cctvmonitor.Base.Int.{ℤ, pos, eq_ℤ, success}
use cctvmonitor.Base.Decimal.{atoi}
use cctvmonitor.State.{State}

-- GetDeviceIp: the caller's buffer and the state; the text is kept after the first call.
unfoldable pub get_device_ip : Bytes → State → Bytes → ℕ → Bytes × State
get_device_ip eth st dst len =
    if get_or st.ip_addr 0 0 == 0
    then (let dst' = strncpy dst eth len in
        (dst', record st { ip_addr = strncpy st.ip_addr (c_string dst') 16 }))
    else (strncpy dst (c_string st.ip_addr) (length (c_string st.ip_addr)), st)

-- The third number of `sscanf(acIp, "%d.%d.%d.%d", …)`, for a dotted address.
unfoldable pub third_part : Bytes → ℤ
unfolding atoi strsep
third_part s = elim (strsep b'.' s).1 [
  | none ↦ pos 0
  | some t ↦ elim (strsep b'.' t).1 [ none ↦ pos 0 | some u ↦ atoi (strsep b'.' u).0 ]
]

-- GetDeviceCarriageNo: carriage 1 is the one in subnet 21.
unfoldable pub get_device_carriage_no : Bytes → State → ℕ × State
unfolding get_device_ip third_part
get_device_carriage_no eth st =
    let (ip, st') = get_device_ip eth st (replicate 32 0) 16 in
    (if eq_ℤ (third_part (c_string ip)) (pos 21) then 1 else 6, st')

unfoldable pub set_cctv_run_dir : State → Bytes → ℕ → ℤ × State
set_cctv_run_dir st s len = (success, record st { run_dir = strncpy (replicate 256 0) s len })

unfoldable pub get_cctv_run_dir : State → Bytes → ℕ → ℤ × Bytes
get_cctv_run_dir st dst len = (success, strncpy dst (c_string st.run_dir) len)
