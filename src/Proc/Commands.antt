-- ===== src/Proc/Commands.antt =====
-- The commands of pmsg/pmsgproc.c, StartNoiseMonitor to SendHeartInfo. Sending and logging are
-- events in their order; what `SendMultcastPacket` returns is the argument `sent`.
pub mod Accepted
use cctvmonitor.Base.{
  ℕ, ◌+◌, ◌/◌, ◌%◌, ◌-◌, ◌≡◌, Bool, true, false, not, List, [], ◌∷◌, ◌++◌, ◌==◌, if◌then◌else◌,
  Bytes, codes, bit_xor, length, get_or, replicate,
}
use cctvmonitor.Base.Int.{ℤ, pos, negsuc, eq_ℤ, is_positive}
use cctvmonitor.Base.Decimal.{decimal, print_int}
use cctvmonitor.State.{State}
use cctvmonitor.State.Audio.{get_ascu_master_slave_flag}
use cctvmonitor.State.Device.{get_device_ip}
use cctvmonitor.Proc.Crc.{get_crc8}

-- The groups and ports: 225.0.0.10:8888, 224.0.0.88:12080, 10.255.255.255:7000, 225.0.0.100:12306 and
-- 224.0.0.88:12090.
pub data Channel : Type 0 where
  system video lcd_screen dynamic_map heart : Channel

-- `rejoined`: the socket of a channel is closed, opened again and put into its group.
pub data Event : Type 0 where
  sent : Channel → Bytes → Event
  logged : Bytes → Event
  rejoined : Channel → Event

-- `T_CARRIAGE_SPEAKER_VOL`
pub record SpeakerVol : Type 0 where
  pub value_train : ℕ
  pub value : Bytes
  pub value_monitor : Bytes
  pub ascu_mute : Bytes

abbrev pub vol_bytes : SpeakerVol → Bytes
vol_bytes v = v.value_train ∷ (v.value ++ v.value_monitor ++ v.ascu_mute)

-- An `int` passed as a `char`.
unfoldable pub low_byte : ℤ → ℕ
low_byte (pos n) = n % 256
low_byte (negsuc n) = 255 - n % 256

abbrev pub is_master : State → Bool
is_master st = not (eq_ℤ (get_ascu_master_slave_flag st) (pos 0))

-- The frame of function 0x0700 + `fn` that carries the bytes `bs`.
unfoldable pub system_frame : ℕ → Bytes → Bytes
unfolding get_crc8
system_frame fn bs =
    0xFA
    ∷ 0x00
    ∷ 0x10
    ∷ 0xFF
    ∷ fn
    ∷ 0x07
    ∷ length bs % 256
    ∷ length bs / 256 % 256
    ∷ get_crc8 bs
    ∷ (bs ++ 0xFC ∷ [])

unfoldable pub start_noise_monitor : State → ℕ → List Event
unfolding system_frame decimal get_ascu_master_slave_flag
start_noise_monitor st f =
    if is_master st
    then logged (codes "set noise flag  " ++ decimal f) ∷ sent system (system_frame 1 (f ∷ [])) ∷ []
    else []

unfoldable pub adjust_carriage_speaker_volume : State → SpeakerVol → List Event
unfolding system_frame decimal get_ascu_master_slave_flag
adjust_carriage_speaker_volume st v =
    if is_master st
    then logged (
        codes "monitor vol:"
        ++ decimal (get_or v.value_monitor 0 0)
        ++ codes " train vol:"
        ++ decimal v.value_train)
      ∷ sent system (system_frame 2 (vol_bytes v))
      ∷ []
    else []

-- SwitchVideoSrc; the log line is composed and not written.
unfoldable pub switch_video_src : State → ℕ → ℕ → List Event
unfolding get_ascu_master_slave_flag
switch_video_src st src type =
    if is_master st
    then sent video (0xB0 ∷ 0xFB ∷ 0x1 ∷ 0x2 ∷ bit_xor src type ∷ src ∷ type ∷ 0xE0 ∷ []) ∷ []
    else []

unfoldable pub get_video_src_mode : List Event
get_video_src_mode = sent video (0xB0 ∷ 0xFB ∷ 0x2 ∷ 0 ∷ 0 ∷ 0xE0 ∷ []) ∷ []

-- AdjustLcdVolume: what it returns, and the events. A socket that is not there is opened first; that
-- it can be is assumed.
unfoldable pub adjust_lcd_volume : State → ℤ → ℤ → ℤ × List Event
unfolding low_byte get_ascu_master_slave_flag
adjust_lcd_volume st ret volume =
    if is_master st then (ret, sent lcd_screen (0 ∷ low_byte volume ∷ []) ∷ []) else (pos 0, [])

unfoldable pub adjust_dynamic_map_brightness : State → ℕ → List Event
unfolding decimal get_ascu_master_slave_flag
adjust_dynamic_map_brightness st v =
    if is_master st
    then logged (codes "set dynamic map brightness  " ++ decimal v)
      ∷ sent dynamic_map (0x9F ∷ 0xA0 ∷ 0x10 ∷ 0 ∷ 1 ∷ 0 ∷ 0 ∷ v ∷ 0xEF ∷ 0xEF ∷ [])
      ∷ []
    else []

unfoldable pub send_heart_info : Bytes → State → State × List Event
unfolding get_device_ip
send_heart_info eth st =
    let (ip, st') = get_device_ip eth st (replicate 16 0) 16 in
    (st', sent heart (0xc0 ∷ 0xf0 ∷ ip) ∷ [])
