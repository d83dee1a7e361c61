-- ===== src/State/Audio.antt =====
-- The sound settings, which BroadcastInfoConfig.ini keeps, and the single flags: state/state.c,
-- ReadBrodCastInfo, SetASCUMasterSlaveFlag to GetVideoSource, SetResUpdateState to GetDisplayState.
pub mod Keys
pub mod Parts
pub mod Whole
pub mod Survive
use cctvmonitor.Base.{
  ℕ, ◌+◌, ◌≡◌, Bool, true, false, ◌&&◌, Option, none, some, List, [], ◌∷◌, ◌++◌, leb, ltb,
  if◌then◌else◌, length, Bytes, codes, c_string, replicate, take,
}
use cctvmonitor.Base.Int.{ℤ, pos, negsuc, eq_ℤ, is_positive, failure, success}
use cctvmonitor.Base.Decimal.{print_int, atoi}
use cctvmonitor.Config.{Files, modify_param, read_param}
use cctvmonitor.State.{State, Settings}

-- `g_iMoniEnable`, `g_iNoiseEnable`, `g_iLcdVolum`, `g_iDriverRoonSpeakerVol`,
-- `g_iCarriageSpeakVolum`, `g_iDynamicMapBrightness`, in the order that ReadBrodCastInfo has.
pub data Setting : Type 0 where
  monitor noise lcd driver carriage_speaker map_bright : Setting

-- `"%s/%s"` of g_acConfigFileDir and g_acBroadcastConfFile
abbrev pub broadcast_path : Bytes
broadcast_path = codes "/home/data/BroadcastInfoConfig.ini"

abbrev pub broadcast_group : Bytes
broadcast_group = codes "[BroadcastInfo]"

abbrev pub key : Setting → Bytes
key monitor = codes "DriverMonitorFlag"
key noise = codes "NoiseMonitorFlag"
key lcd = codes "LcdVolume"
key driver = codes "DriverRoomVolume"
key carriage_speaker = codes "CarriageVolume"
key map_bright = codes "DynamicMapBright"

-- What ReadBrodCastInfo takes where the file has no value, and the largest value in range.
abbrev pub default_value : Setting → ℕ
default_value monitor = 1
default_value noise = 1
default_value lcd = 60
default_value driver = 3
default_value carriage_speaker = 5
default_value map_bright = 60

abbrev pub largest : Setting → ℕ
largest monitor = 1
largest noise = 1
largest lcd = 100
largest driver = 5
largest carriage_speaker = 10
largest map_bright = 100

-- GetDriverRoomMonitorFlag and its like.
unfoldable pub get_setting : Setting → State → ℤ
get_setting monitor st = st.settings.monitor_flag
get_setting noise st = st.settings.noise_flag
get_setting lcd st = st.settings.lcd_volume
get_setting driver st = st.settings.driver_volume
get_setting carriage_speaker st = st.settings.carriage_volume
get_setting map_bright st = st.settings.map_brightness

abbrev pub changed : Setting → Settings → ℤ → Settings
changed monitor s v = record s { monitor_flag = v }
changed noise s v = record s { noise_flag = v }
changed lcd s v = record s { lcd_volume = v }
changed driver s v = record s { driver_volume = v }
changed carriage_speaker s v = record s { carriage_volume = v }
changed map_bright s v = record s { map_brightness = v }

unfoldable pub put_setting : Setting → State → ℤ → State
put_setting k st v = record st { settings = changed k st.settings v }

-- SetDriverRoomMonitorFlag and its like: a value that is new is written to the file as well, and a
-- failure to write is not told. `none` is a number of eight characters or more, which `sprintf` writes
-- behind the eight bytes of acParseStr.
unfoldable pub set_setting : Setting → State → ℤ → Option (ℤ × State)
unfolding get_setting put_setting modify_param print_int
set_setting k st v =
    if eq_ℤ (get_setting k st) v
    then some (success, st)
    else if ltb (length (print_int v)) 8
    then some (
      success,
      put_setting k
          (record st {
            files = (modify_param st.files broadcast_path broadcast_group (key k) (print_int v)).1;
          })
          v,
    )
    else none

abbrev pub in_range : Setting → ℤ → Bool
in_range k (pos n) = leb n (largest k)
in_range k (negsuc n) = false

-- The value that ReadBrodCastInfo takes from a result of ReadParam.
unfoldable pub value_read : Setting → ℤ × Bytes → ℤ
unfolding atoi c_string
value_read k (r, buf) = if is_positive r then atoi (c_string buf) else pos (default_value k)

-- One of the six parts of ReadBrodCastInfo: the range is checked for the direct assignment alone.
unfoldable pub read_setting : Setting → State → Option State
unfolding read_param put_setting set_setting value_read
read_setting k st =
    let result =
      read_param st.files broadcast_path (some broadcast_group) (key k) (replicate 256 0) in
    let v = value_read k result in
    let st1 = if is_positive result.0 && in_range k v then put_setting k st v else st in
    elim (set_setting k st1 v) [ none ↦ none | some (r, st2) ↦ some st2 ]

-- The parts of ReadBrodCastInfo, one after another.
unfoldable pub read_settings : List Setting → State → Option State
unfolding read_setting
read_settings [] st = some st
read_settings (k ∷ ks) st = elim (read_setting k st) [
  | none ↦ none
  | some st1 ↦ read_settings ks st1
]

abbrev pub all_settings : List Setting
all_settings = monitor ∷ noise ∷ lcd ∷ driver ∷ carriage_speaker ∷ map_bright ∷ []

unfoldable pub read_broadcast_info : State → Option (ℤ × State)
unfolding read_settings
read_broadcast_info st = elim (read_settings all_settings st) [
  | none ↦ none
  | some st1 ↦ some (success, st1)
]

unfoldable pub set_ascu_master_slave_flag : State → ℤ → State
set_ascu_master_slave_flag st f = record st { master_flag = f }

unfoldable pub get_ascu_master_slave_flag : State → ℤ
get_ascu_master_slave_flag st = st.master_flag

unfoldable pub set_video_source : State → ℤ → State
set_video_source st t = record st { video_source = t }

unfoldable pub get_video_source : State → ℤ
get_video_source st = st.video_source

unfoldable pub set_res_update_state : State → ℕ → ℕ → State
set_res_update_state st s p = record st { res_state = s; res_progress = p }

unfoldable pub get_res_update_state : State → ℕ × ℕ
get_res_update_state st = (st.res_state, st.res_progress)

unfoldable pub set_display_state : State → ℤ → State
set_display_state st s = record st { disp_state = s }

unfoldable pub get_display_state : State → ℤ
get_display_state st = st.disp_state
