-- ===== src/Proc/Thread/Bounds.antt =====
-- The counters of MultcastRecvThread stay small.
use cctvmonitor.Base.{◌≤◌, Bool, List, [], ◌∷◌, ltb, Bytes, arith, if_both}
use cctvmonitor.Base.Int.{ℤ, pos, eq_ℤ}
use cctvmonitor.State.{State}
use cctvmonitor.Proc.Broadcast.{parse_video_source_data}
use cctvmonitor.Proc.Commands.{Event}
use cctvmonitor.Proc.Thread.{
  Thread, Received, nothing, from_system, from_video, started, receive, rejoin, update_lcd, poll,
  round, rounds,
}

-- The bounds between rounds.
pub record InBounds (t : Thread) : Type 0 where
  pub sys_le : t.sys_recv_count ≤ 4000
  pub video_le : t.video_recv_count ≤ 6000
  pub lcd_le : t.lcd_volume_count ≤ 4000
  pub source_le : t.video_source_count ≤ 3000
  pub heart_le : t.heart_count ≤ 1200

receive-InBounds :
    (eth : Bytes) (t : Thread) (r : Received) → InBounds t → InBounds (receive eth t r).0
unfolding receive
receive-InBounds eth t nothing b = b
receive-InBounds eth t (from_system buf len) b =
    if_both {A = Thread × List Event} (λ p. InBounds p.0) (ltb 0 len)
      (record {
        sys_le = omega arith;
        video_le = b.video_le;
        lcd_le = b.lcd_le;
        source_le = b.source_le;
        heart_le = b.heart_le;
      })
      b
receive-InBounds eth t (from_video buf len) b = record {
  sys_le = b.sys_le;
  video_le =
      if_both (λ n. n ≤ 6000) (eq_ℤ (parse_video_source_data eth t.state buf).0 (pos 1))
        (omega arith) b.video_le;
  lcd_le = b.lcd_le;
  source_le = b.source_le;
  heart_le = b.heart_le;
}

rejoin-InBounds : (t : Thread) → InBounds t → InBounds (rejoin t).0
unfolding rejoin
rejoin-InBounds t b = record {
  sys_le = ground (arith, b.sys_le);
  video_le = ground (arith, b.video_le);
  lcd_le = b.lcd_le;
  source_le = b.source_le;
  heart_le = b.heart_le;
}

update_lcd-InBounds : (ret : ℤ) (t : Thread) → InBounds t → InBounds (update_lcd ret t).0
unfolding update_lcd
update_lcd-InBounds ret t b = record {
  sys_le = b.sys_le;
  video_le = b.video_le;
  lcd_le = ground (arith, b.lcd_le);
  source_le = b.source_le;
  heart_le = b.heart_le;
}

poll-InBounds : (eth : Bytes) (t : Thread) → InBounds t → InBounds (poll eth t).0
unfolding poll
poll-InBounds eth t b = record {
  sys_le = b.sys_le;
  video_le = b.video_le;
  lcd_le = b.lcd_le;
  source_le = ground (arith, b.source_le);
  heart_le = ground (arith, b.heart_le);
}

round-InBounds :
    (eth : Bytes) (ret : ℤ) (r : Received) (t : Thread)
    → InBounds t
    → InBounds (round eth ret r t).0
unfolding round
round-InBounds eth ret r t b =
    poll-InBounds eth _ (update_lcd-InBounds ret _ (rejoin-InBounds _ (receive-InBounds eth t r b)))

rounds-from :
    (eth : Bytes) (rs : List (Received × ℤ)) (t : Thread)
    → InBounds t
    → InBounds (rounds eth rs t).0
unfolding rounds
rounds-from eth [] t b = b
rounds-from eth ((r, ret) ∷ rs) t b = rounds-from eth rs _ (round-InBounds eth ret r t b)

-- However many rounds the thread runs, whatever it receives and whatever its sends return, the
-- counters stay within 4000, 6000, 4000, 3000 and 1200, from where they start.
pub rounds-InBounds :
    (eth : Bytes) (rs : List (Received × ℤ)) (st : State) (first : Bool)
    → InBounds (rounds eth rs (started st first)).0
rounds-InBounds eth rs st first = rounds-from eth rs (started st first) (record {
  sys_le = omega arith;
  video_le = omega arith;
  lcd_le = omega arith;
  source_le = omega arith;
  heart_le = omega arith;
})
