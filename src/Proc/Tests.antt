-- ===== src/Proc/Tests.antt =====
-- The multicast services of pmsg/pmsgproc.c at concrete messages.
use cctvmonitor.Base.{ℕ, ◌≡◌, ◌≢◌, ◌<◌, ◌^◌, ◌⊎◌, refl, true, false, [], ◌∷◌, ◌++◌, arith, codes}
use cctvmonitor.Base.Int.{pos, failure}
use cctvmonitor.Base.Bits.{test_bit}
use cctvmonitor.State.Sample.{sample}
use cctvmonitor.State.Warn.{get_pecu_warn_info, get_pecu_first_warn_video_idx}
use cctvmonitor.Proc.Crc.{get_crc8, crc8_entry}
use cctvmonitor.Proc.Crc.Poly.{poly_from, get_crc8-poly, get_crc8_detects}
use cctvmonitor.Proc.Broadcast.{on_pecu}
use cctvmonitor.Proc.Broadcast.Pecu.{alarms, HasNoCamera, FirstCamera, on_pecu_lem}
use cctvmonitor.Proc.Thread.{Thread, nothing, from_video, started, rounds}
use cctvmonitor.Proc.Thread.Bounds.{InBounds, rounds-InBounds}
use cctvmonitor.Proc.Thread.Heartbeat.{
  has, is_heartbeat, is_system_rejoin, rounds_beat, rounds_rejoin,
}

get_crc8-poly_example : get_crc8 (1 ∷ 200 ∷ []) ≡ poly_from 0 (1 ∷ 200 ∷ [])
get_crc8-poly_example = get_crc8-poly (1 ∷ 200 ∷ []) (ground arith)

get_crc8_detects_example : get_crc8 ((1 ∷ []) ++ 200 ∷ 3 ∷ []) ≢ get_crc8 ((1 ∷ []) ++ 201 ∷ 3 ∷ [])
get_crc8_detects_example =
    get_crc8_detects (1 ∷ []) (3 ∷ []) 200 201 (ground arith) (ground arith) (omega arith)
      (omega arith) (omega arith)

-- The check value of this CRC for the digits 1 to 9.
get_crc8_digits : get_crc8 (codes "123456789") ≡ 0xa2
unfolding get_crc8 crc8_entry
get_crc8_digits = refl

on_pecu_lem_example :
    (test_bit (get_pecu_warn_info (on_pecu sample (0 ∷ 21 ∷ 20 ∷ []))) 1
      ≡ alarms (0 ∷ 21 ∷ 20 ∷ []) 1)
    × (get_pecu_warn_info (on_pecu sample (0 ∷ 21 ∷ 20 ∷ [])) < 2 ^ 24)
    × (((get_pecu_first_warn_video_idx (on_pecu sample (0 ∷ 21 ∷ 20 ∷ [])) ≡ failure)
          × HasNoCamera sample (0 ∷ 21 ∷ 20 ∷ []))
        ⊎ ((k : ℕ) × (get_pecu_first_warn_video_idx (on_pecu sample (0 ∷ 21 ∷ 20 ∷ [])) ≡ pos k)
            × FirstCamera sample (0 ∷ 21 ∷ 20 ∷ []) k))
on_pecu_lem_example = on_pecu_lem sample (0 ∷ 21 ∷ 20 ∷ []) 1 (omega arith)

rounds-InBounds_example :
    InBounds
      (rounds
        (codes "10.1.21.4")
        ((nothing, pos 2) ∷ (from_video [] 0, pos 2) ∷ [])
        (started sample false)).0
rounds-InBounds_example =
    rounds-InBounds (codes "10.1.21.4") ((nothing, pos 2) ∷ (from_video [] 0, pos 2) ∷ []) sample
      false

abbrev beating : Thread
beating = record (started sample false) { heart_count = 1199 }

rounds_beat_example :
    has is_heartbeat
      (rounds (codes "10.1.21.4") ((nothing, pos 2) ∷ (nothing, pos 2) ∷ []) beating).1
    ≡ true
rounds_beat_example =
    rounds_beat (codes "10.1.21.4") ((nothing, pos 2) ∷ (nothing, pos 2) ∷ []) beating (omega arith)
      (omega arith)

abbrev silent : Thread
silent = record (started sample false) { sys_recv_count = 3999 }

rounds_rejoin_example :
    has is_system_rejoin
      (rounds (codes "10.1.21.4") ((nothing, pos 2) ∷ (from_video [] 0, pos 2) ∷ []) silent).1
    ≡ true
rounds_rejoin_example =
    rounds_rejoin (codes "10.1.21.4") ((nothing, pos 2) ∷ (from_video [] 0, pos 2) ∷ []) silent
      (ground arith) (omega arith) (omega arith)
