-- ===== src/State/Tests.antt =====
-- The shared state of state/state.c at a concrete state.
use cctvmonitor.Base.{
  ◌==◌, if◌then◌else◌, false, starts_with, bytes_eq, ◌≡◌, refl, ap, none, some, arith, length,
  codes, replicate,
}
use cctvmonitor.Base.Int.{ℤ, pos, success, failure}
use cctvmonitor.Config.{entry, tmp_name, read_param}
use cctvmonitor.Config.RoundTrip.{CanModify}
use cctvmonitor.State.{State, no_ipc}
use cctvmonitor.State.Sample.{sample, ini, sample-IsValid}
use cctvmonitor.State.Video.{get_video_idx_accord_btn_pose}
use cctvmonitor.State.Video.Laws.{Answers, get_video_idx_accord_btn_pose-Answers}
use cctvmonitor.State.Warn.{get_pecu_video_index, get_fire_warn_video_idx, get_door_warn_video_idx}
use cctvmonitor.State.Audio.{
  Setting, monitor, noise, lcd, driver, carriage_speaker, map_bright, get_setting, set_setting,
  broadcast_path, read_broadcast_info, value_read,
}
use cctvmonitor.State.Audio.Keys.{place}
use cctvmonitor.State.Audio.Parts.{file_value, IsShort}
use cctvmonitor.State.Audio.Survive.{restarted, read_broadcast_info-set_setting}
use cctvmonitor.Base.Decimal.{print_int}
use cctvmonitor.State.Init.{read_warn_relate, state_init}
use cctvmonitor.State.Init.Pairs.{IfDone, state_init-Paired}
use cctvmonitor.State.Init.InUse.{InUse, read_warn_relate-InUse}
use cctvmonitor.State.Init.Ipc.{parse_ipc_info}
use cctvmonitor.State.Init.Ipc.InRange.{InRange, parse_ipc_info-InRange}

get_video_idx_accord_btn_pose-Answers_example :
    Answers sample 2 1 (get_video_idx_accord_btn_pose sample (pos 2) (pos 1))
get_video_idx_accord_btn_pose-Answers_example =
    get_video_idx_accord_btn_pose-Answers sample 2 1 sample-IsValid (omega arith) (omega arith)

get_video_idx_accord_btn_pose_of : get_video_idx_accord_btn_pose sample (pos 2) (pos 1) ≡ pos 1
unfolding get_video_idx_accord_btn_pose
get_video_idx_accord_btn_pose_of = refl

can : CanModify sample.files broadcast_path ini
unfolding tmp_name
can = record {
  readable = refl;
  path_writable = refl;
  tmp_writable = refl;
  apart = λ e. absurd (ground (arith, ap length e));
}

others-IsShort :
    (j : Setting) → (place lcd == place j) ≡ false → IsShort (file_value j sample.files)
unfolding value_read print_int read_param starts_with
others-IsShort monitor h = omega arith
others-IsShort noise h = omega arith
others-IsShort lcd h = absurd (cc)
others-IsShort driver h = omega arith
others-IsShort carriage_speaker h = omega arith
others-IsShort map_bright h = omega arith

read_broadcast_info-set_setting_example :
    (st1 : State) × (st2 : State) × (set_setting lcd sample (pos 45) ≡ some (success, st1))
    × (read_broadcast_info (restarted st1) ≡ some (success, st2))
    × ((j : Setting)
        → get_setting j st2 ≡ (if place lcd == place j then pos 45 else file_value j sample.files))
unfolding get_setting
read_broadcast_info-set_setting_example =
    read_broadcast_info-set_setting lcd sample 45 ini can (ground arith) refl (ground arith)
      (omega arith) others-IsShort

-- A number of eight characters does not fit.
set_setting-long : set_setting lcd sample (pos 12345678) ≡ none
unfolding set_setting get_setting print_int
set_setting-long = refl

abbrev fresh : State
fresh = record sample { pecu_video = replicate 24 0xff }

read_warn_relate-InUse_example :
    let st' = (read_warn_relate fresh).1 in
    InUse (get_pecu_video_index st' (pos 3)) 2
    × InUse (get_fire_warn_video_idx st' 1) 2
    × InUse (get_door_warn_video_idx st' 1 (pos 3)) 2
read_warn_relate-InUse_example =
    read_warn_relate-InUse fresh 1 (pos 3)
      (record { pecu_none = refl; fire_none = refl; door_none = refl }) (omega arith)

parse_ipc_info-InRange_example :
    InRange (parse_ipc_info (codes "1+2+3+4+rtsp://10.0.0.9/a") no_ipc (codes "u") (codes "p")).1
unfolding parse_ipc_info
parse_ipc_info-InRange_example =
    parse_ipc_info-InRange (codes "1+2+3+4+rtsp://10.0.0.9/a") no_ipc (codes "u") (codes "p") refl

state_init-Paired_example : IfDone (state_init (codes "10.1.21.4") sample)
state_init-Paired_example = state_init-Paired (codes "10.1.21.4") sample

-- A start without the camera file comes to its end.
state_init-result :
    (let r : ℤ = elim (state_init (codes "10.1.21.4") sample) [
      | none ↦ failure
      | some (r, st) ↦ r
    ] in
      r ≡ success)
unfolding state_init bytes_eq entry
state_init-result = refl
