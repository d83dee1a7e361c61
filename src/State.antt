-- ===== src/State.antt =====
-- The shared state of state/state.c: its structures and globals, and the operations on them in the
-- children. A file-static array is a list of its length; a `char` of the target is unsigned.
pub mod Video
pub mod Nvr
pub mod Warn
pub mod Audio
pub mod Device
pub mod Init
pub mod Sample
mod Tests
use cctvmonitor.Base.{
  ℕ, List, Bytes, Bool, true, false, Option, none, some, ◌∷◌, [], codes, ◌++◌, replicate, ◌≡◌, ◌≤◌,
  length,
}
use cctvmonitor.Base.Int.{ℤ, pos, negsuc}
use cctvmonitor.Config.{Files}

-- `T_DISK_STATE`; the sizes are 16-bit patterns.
pub record DiskState : Type 0 where
  pub disk_num : ℕ
  pub total_size : ℕ
  pub use_size : ℕ
  pub lost_warn : ℕ
  pub size_warn : ℕ

-- `T_NVR_STATE`
pub record NvrState : Type 0 where
  pub connect_state : ℤ
  pub ip : Bytes
  pub disk : DiskState
  pub nvr_video_num : ℤ
  pub video_idx : Bytes

-- `T_CARRIAGE_WARN_INFO`
pub record CarriageWarn : Type 0 where
  pub fire_warn : ℕ
  pub door_warn : ℕ
  pub door_clip_warn : ℕ

-- `T_IPC_INFO`
pub record IpcInfo : Type 0 where
  pub nvr_no : ℤ
  pub ui_group : ℤ
  pub ui_pos : ℤ
  pub rtsp_addr : Bytes
  pub img_index : ℤ
  pub online_state : ℤ
  pub warn_state : ℤ
  pub main_rtsp_addr : Bytes

pub data FileSearchState : Type 0 where
  search_idle searching search_finish : FileSearchState

pub data FileDownState : Type 0 where
  down_idle downing down_succ down_fail : FileDownState

-- The sound settings, which BroadcastInfoConfig.ini holds too.
pub record Settings : Type 0 where
  pub monitor_flag : ℤ
  pub noise_flag : ℤ
  pub lcd_volume : ℤ
  pub driver_volume : ℤ
  pub carriage_volume : ℤ
  pub map_brightness : ℤ

-- The globals.
pub record State : Type 0 where
  pub files : Files
  pub nvr_handles : List ℕ
  pub nvrs : List NvrState
  pub file_search : FileSearchState
  pub file_down : FileDownState
  pub file_progress : ℤ
  pub video_num : ℕ
  pub master_flag : ℤ
  pub settings : Settings
  pub video_source : ℤ
  pub pecu_warn : ℕ
  pub pecu_first : ℤ
  pub warns : List CarriageWarn
  pub pecu_video : Bytes
  pub fire_video : Bytes
  pub door_video : Bytes
  pub res_state : ℕ
  pub res_progress : ℕ
  pub run_dir : Bytes
  pub disp_state : ℤ
  pub ip_addr : Bytes
  pub cams : List IpcInfo

-- VIDEO_CH_MAX_SIZE, MAX_SERVER_NUM
abbrev pub video_ch_max : ℕ
video_ch_max = 32

abbrev pub max_server_num : ℕ
max_server_num = 6

abbrev pub no_disk : DiskState
no_disk = record { disk_num = 0; total_size = 0; use_size = 0; lost_warn = 0; size_warn = 0 }

abbrev pub no_nvr : NvrState
no_nvr = record {
  connect_state = pos 0;
  ip = replicate 16 0;
  disk = no_disk;
  nvr_video_num = pos 0;
  video_idx = replicate 12 0;
}

abbrev pub no_warn : CarriageWarn
no_warn = record { fire_warn = 0; door_warn = 0; door_clip_warn = 0 }

abbrev pub no_ipc : IpcInfo
no_ipc = record {
  nvr_no = negsuc 0;
  ui_group = negsuc 0;
  ui_pos = negsuc 0;
  rtsp_addr = replicate 256 0;
  img_index = negsuc 0;
  online_state = pos 0;
  warn_state = pos 0;
  main_rtsp_addr = replicate 256 0;
}

-- The arrays have their lengths, and no more cameras are in use than there are.
pub record IsValid (st : State) : Type 0 where
  pub handles_length : length st.nvr_handles ≡ max_server_num
  pub nvrs_length : length st.nvrs ≡ 6
  pub warns_length : length st.warns ≡ 6
  pub cams_length : length st.cams ≡ video_ch_max
  pub pecu_length : length st.pecu_video ≡ 24
  pub fire_length : length st.fire_video ≡ 6
  pub door_length : length st.door_video ≡ 48
  pub video_num_le : st.video_num ≤ video_ch_max
