-- ===== src/Proc/Thread.antt =====
-- The thread MultcastRecvThread of pmsg/pmsgproc.c: one round of its loop.
pub mod Bounds
pub mod Heartbeat
use cctvmonitor.Base.{
  ℕ, zero, suc, ◌+◌, ◌%◌, ◌≡◌, Bool, true, false, not, ◌&&◌, List, [], ◌∷◌, ◌++◌, ◌==◌, ltb,
  if◌then◌else◌, Bytes, codes,
}
use cctvmonitor.Base.Int.{ℤ, pos, negsuc, eq_ℤ, is_positive}
use cctvmonitor.Base.Decimal.{print_int}
use cctvmonitor.State.{State}
use cctvmonitor.State.Audio.{get_setting, lcd}
use cctvmonitor.Proc.Commands.{
  Event, system, video, logged, rejoined, adjust_lcd_volume, get_video_src_mode, send_heart_info,
}
use cctvmonitor.Proc.Broadcast.{Handled, parse_broadcast_sys_data, parse_video_source_data}

-- The locals of the thread, with the state and g_iHaveSendFirstVol.
pub record Thread : Type 0 where
  pub state : State
  pub sent_first : Bool
  pub sys_recv_count : ℕ
  pub video_recv_count : ℕ
  pub old_lcd_volume : ℤ
  pub lcd_volume_count : ℕ
  pub video_source_count : ℕ
  pub heart_count : ℕ

-- What `select` and `recvfrom` bring: the 1024 bytes of the buffer and the number received.
pub data Received : Type 0 where
  nothing : Received
  from_system from_video : Bytes → ℕ → Received

abbrev pub started : State → Bool → Thread
started st first = record {
  state = st;
  sent_first = first;
  sys_recv_count = 0;
  video_recv_count = 0;
  old_lcd_volume = negsuc 0;
  lcd_volume_count = 1;
  video_source_count = 1;
  heart_count = 0;
}

-- The part of a round under `select`.
unfoldable pub receive : Bytes → Thread → Received → Thread × List Event
unfolding parse_broadcast_sys_data parse_video_source_data
receive eth t nothing = (t, [])
receive eth t (from_system buf len) =
    if ltb 0 len
    then (let h = parse_broadcast_sys_data eth t.state t.sent_first buf len in
        (record t { state = h.state; sent_first = h.sent_first; sys_recv_count = 0 }, h.events))
    else (t, [])
receive eth t (from_video buf len) =
    let (r, st) = parse_video_source_data eth t.state buf in
    (
      record t { state = st; video_recv_count = if eq_ℤ r (pos 1) then 0 else t.video_recv_count },
      [],
    )

-- A socket that brought nothing for long is opened again.
unfoldable pub rejoin : Thread → Thread × List Event
rejoin t =
    let s = suc t.sys_recv_count in
    let v = suc t.video_recv_count in
    (
      record t {
        sys_recv_count = (if ltb 4000 s then 0 else s);
        video_recv_count = (if ltb 6000 v then 0 else v);
      },
      (if ltb 4000 s then rejoined system ∷ [] else [])
          ++ (if ltb 6000 v then rejoined video ∷ [] else []),
    )

-- The LCD volume is sent when it changes and every 4000 rounds; `ret` is what the sends return.
unfoldable pub update_lcd : ℤ → Thread → Thread × List Event
unfolding adjust_lcd_volume get_setting print_int
update_lcd ret t =
    let new = get_setting lcd t.state in
    let (r, es) = adjust_lcd_volume t.state ret new in
    let is_new = not (eq_ℤ new t.old_lcd_volume) in
    let told =
      if is_new && (not (eq_ℤ new (pos 1)) && is_positive r)
      then logged (
          codes "lcd volume changed from "
          ++ print_int t.old_lcd_volume
          ++ codes " to "
          ++ print_int new)
        ∷ []
      else [] in
    let count = if is_new then 1 else t.lcd_volume_count in
    let due = count % 4000 == 0 in
    (
      record t { old_lcd_volume = new; lcd_volume_count = suc (if due then 0 else count) },
      (if is_new then es else []) ++ told ++ (if due then es else []),
    )

-- The video source is asked for every 3000 rounds, and the heartbeat is sent every 1200.
unfoldable pub poll : Bytes → Thread → Thread × List Event
unfolding get_video_src_mode send_heart_info
poll eth t =
    let ask = t.video_source_count % 3000 == 0 in
    let beat = t.heart_count % 1200 == 0 in
    let (st, es) = send_heart_info eth t.state in
    (
      record t {
        state = (if beat then st else t.state);
        video_source_count = suc (if ask then 0 else t.video_source_count);
        heart_count = suc (if beat then 0 else t.heart_count);
      },
      (if ask then get_video_src_mode else []) ++ (if beat then es else []),
    )

-- A round of the loop.
unfoldable pub round : Bytes → ℤ → Received → Thread → Thread × List Event
unfolding receive rejoin update_lcd poll
round eth ret r t =
    let (t1, e1) = receive eth t r in
    let (t2, e2) = rejoin t1 in
    let (t3, e3) = update_lcd ret t2 in let (t4, e4) = poll eth t3 in (t4, e1 ++ e2 ++ e3 ++ e4)

-- Rounds, each with what is received and what the sends return.
unfoldable pub rounds : Bytes → List (Received × ℤ) → Thread → Thread × List Event
unfolding round
rounds eth [] t = (t, [])
rounds eth ((r, ret) ∷ rs) t =
    let (t1, e1) = round eth ret r t in let (t2, e2) = rounds eth rs t1 in (t2, e1 ++ e2)
