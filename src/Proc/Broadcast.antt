-- ===== src/Proc/Broadcast.antt =====
-- The messages received, pmsg/pmsgproc.c: ParseBroadcastSysData and ParseVideoSourceData. The buffer
-- has 1024 bytes, the message and NULs.
pub mod Pecu
use cctvmonitor.Base.{
  ℕ, zero, suc, ◌+◌, ◌-◌, ◌*◌, ◌/◌, ◌%◌, ◌≡◌, Bool, true, false, not, ◌&&◌, ◌||◌, List, [], ◌∷◌,
  ◌++◌, ◌==◌, ltb, leb, if◌then◌else◌, Bytes, get_or, take, drop, replicate, length,
}
use cctvmonitor.Base.Int.{ℤ, pos, negsuc, failure, success}
use cctvmonitor.Base.Bits.{or_bit}
use cctvmonitor.State.{State}
use cctvmonitor.State.Warn.{
  get_pecu_video_index, set_pecu_first_warn_video_idx, set_pecu_warn_info, set_fire_warn_info,
  set_door_warn_info, set_all_door_clip_info,
}
use cctvmonitor.State.Audio.{
  set_ascu_master_slave_flag, get_setting, carriage_speaker, set_video_source,
}
use cctvmonitor.State.Device.{get_device_carriage_no}
use cctvmonitor.Proc.Commands.{
  Event, SpeakerVol, low_byte, adjust_carriage_speaker_volume, start_noise_monitor,
}

-- `if(iVideoIndex>=0 && iNextWarnIndex <0)`
abbrev pub first_video : ℤ → ℤ → ℤ
first_video (pos n) i = pos n
first_video (negsuc n) (pos i) = pos i
first_video (negsuc n) (negsuc i) = negsuc n

-- A PECU's address sets its bit, and stands for its camera (-1 for none); other bytes do not count.
abbrev pub is_pecu : ℕ → Bool
is_pecu v = ltb 19 v && ltb v 44

abbrev pub pecu_bit : ℕ → ℕ → ℕ
pecu_bit bits v = if is_pecu v then or_bit bits (v - 20) else bits

abbrev pub camera_of : State → ℕ → ℤ
camera_of st v = if is_pecu v then get_pecu_video_index st (pos (v - 20)) else negsuc 0

-- The loop over the PECU addresses: the bits of the alarms, and the first camera found (-1 for none).
unfoldable pub pecu_from : State → ℕ → ℤ → Bytes → ℕ × ℤ
unfolding get_pecu_video_index or_bit
pecu_from st bits next [] = (bits, next)
pecu_from st bits next (v ∷ vs) =
    pecu_from st (pecu_bit bits v) (first_video next (camera_of st v)) vs

unfoldable pub on_pecu : State → Bytes → State
unfolding pecu_from set_pecu_warn_info set_pecu_first_warn_video_idx
on_pecu st vs =
    let (bits, next) = pecu_from st 0 (negsuc 0) vs in
    set_pecu_warn_info (set_pecu_first_warn_video_idx st next) bits

-- `carfires` and `zudang1_car`, bit fields of a carriage's first byte.
abbrev pub carfires : ℕ → ℕ
carfires b = b / 4 % 2

abbrev pub zudang1_car : ℕ → ℕ
zudang1_car b = b / 8 % 16

-- The fire and door warnings of the carriages from number `i` on, two bytes for each.
unfoldable pub warn_from : ℕ → ℕ → State → Bytes → State
unfolding set_fire_warn_info set_door_warn_info
warn_from zero i st bs = st
warn_from (suc n) i st bs =
    warn_from n (suc i)
      (set_door_warn_info (set_fire_warn_info st i (carfires (get_or bs 0 0))).1 i
        (get_or bs 1 0)).1
      (drop 2 bs)

-- The message 0x1800; the last four bytes are those of the carriages 4, 3, 6 and 5.
unfoldable pub on_fire_door : State → Bytes → State
unfolding warn_from set_all_door_clip_info
on_fire_door st bs =
    let at = λ (i : ℕ). get_or bs i 0 in
    (set_all_door_clip_info (warn_from 6 0 st bs) (
      (zudang1_car (at 0) + 16 * zudang1_car (at 2))
      ∷ (zudang1_car (at 4) + 16 * zudang1_car (at 6))
      ∷ at 13
      ∷ at 12
      ∷ at 15
      ∷ at 14
      ∷ [])).1

-- What the first key message makes the master send: every carriage at the stored volume.
unfoldable pub first_volume : State → List Event
unfolding get_setting low_byte adjust_carriage_speaker_volume start_noise_monitor
first_volume st =
    let v = low_byte (get_setting carriage_speaker st) in
    adjust_carriage_speaker_volume st (record {
      value_train = v;
      value = replicate 6 v;
      value_monitor = 0xff ∷ 0xff ∷ [];
      ascu_mute = 0 ∷ 0 ∷ [];
    })
    ++ start_noise_monitor st 1

-- The message 0x300; `sent_first` is g_iHaveSendFirstVol.
unfoldable pub on_key : Bytes → State → Bool → ℕ → ℕ → State × Bool × List Event
unfolding get_device_carriage_no set_ascu_master_slave_flag first_volume
on_key eth st sent_first src master =
    let (car, st1) = get_device_carriage_no eth st in
    if car == 1 && src == 4 || car == 6 && src == 5
    then (if master == 1
        then (let st2 = set_ascu_master_slave_flag st1 (pos 1) in
            (st2, true, if sent_first then [] else first_volume st2))
        else (set_ascu_master_slave_flag st1 (pos 0), sent_first, []))
    else (st1, sent_first, [])

-- What a message leaves: the result, the state, g_iHaveSendFirstVol and the events.
pub record Handled : Type 0 where
  pub result : ℤ
  pub state : State
  pub sent_first : Bool
  pub events : List Event

-- ParseBroadcastSysData; `buf` is the 1024 bytes of the buffer and `len` the bytes received.
unfoldable pub parse_broadcast_sys_data : Bytes → State → Bool → Bytes → ℕ → Handled
unfolding on_pecu on_fire_door on_key
parse_broadcast_sys_data eth st sent_first buf len =
    let at = λ (i : ℕ). get_or buf i 0 in
    let cmd = 256 * at 5 + at 4 in
    let rel = 256 * at 7 + at 6 in
    let same : Handled = record {
      result = success;
      state = st;
      sent_first = sent_first;
      events = [];
    } in
    if not (at 0 == 0xFA) || not (len == rel + 10)
    then record same { result = failure }
    else if cmd == 0x500
    then record same { state = on_pecu st (take rel (drop 9 buf)) }
    else if cmd == 0x1800
    then record same { state = on_fire_door st (drop 9 buf) }
    else if cmd == 0x300
    then (let (st', first', es) = on_key eth st sent_first (at 2) (at 10) in
        record { result = success; state = st'; sent_first = first'; events = es })
    else same

-- ParseVideoSourceData: the result 1 is an answer for this carriage.
unfoldable pub parse_video_source_data : Bytes → State → Bytes → ℤ × State
unfolding get_device_carriage_no set_video_source
parse_video_source_data eth st buf =
    let at = λ (i : ℕ). get_or buf i 0 in
    if not (at 0 == 0xB0) || not (at 1 == 0xFB)
    then (failure, st)
    else if not (at 2 == 0x82)
    then (success, st)
    else (let (car, st') = get_device_carriage_no eth st in
        if car == 6 && at 5 == 2 || car == 1 && at 5 == 1
        then (
          pos 1,
          set_video_source st'
              (if at 6 == 0x21 then pos 0x11 else if at 6 == 0x22 then pos 0x12 else pos 0x13),
        )
        else (success, st'))
