-- ===== src/State/Sample.antt =====
-- A state of state/state.c with two cameras, for the tests.
use cctvmonitor.Base.{ℕ, refl, true, some, ◌∷◌, Bytes, codes, replicate, arith}
use cctvmonitor.Base.Int.{pos, negsuc}
use cctvmonitor.State.{State, IpcInfo, no_ipc, no_nvr, no_warn, IsValid, search_idle, down_idle}

abbrev pub camera : ℕ → IpcInfo
camera p = record no_ipc { nvr_no = pos 0; ui_group = pos 2; ui_pos = pos p; img_index = pos 1 }

abbrev pub ini : Bytes
ini = codes "[BroadcastInfo]\nLcdVolume=60\n"

abbrev pub sample : State
sample = record {
  files = record { read = λ p. some ini; writable = λ p. true };
  nvr_handles = replicate 6 0;
  nvrs = replicate 6 no_nvr;
  file_search = search_idle;
  file_down = down_idle;
  file_progress = pos 0;
  video_num = 2;
  master_flag = pos 1;
  settings = record {
    monitor_flag = pos 1;
    noise_flag = pos 1;
    lcd_volume = pos 60;
    driver_volume = pos 3;
    carriage_volume = pos 5;
    map_brightness = pos 60;
  };
  video_source = pos 0x13;
  pecu_warn = 0;
  pecu_first = negsuc 0;
  warns = replicate 6 no_warn;
  pecu_video = 1 ∷ replicate 23 0xff;
  fire_video = replicate 6 0xff;
  door_video = replicate 48 0xff;
  res_state = 0;
  res_progress = 0;
  run_dir = replicate 256 0;
  disp_state = pos 0;
  ip_addr = replicate 16 0;
  cams = camera 0 ∷ camera 1 ∷ replicate 30 no_ipc;
}

pub sample-IsValid : IsValid sample
sample-IsValid = record {
  handles_length = refl;
  nvrs_length = refl;
  warns_length = refl;
  cams_length = refl;
  pecu_length = refl;
  fire_length = refl;
  door_length = refl;
  video_num_le = omega arith;
}
