-- ===== src/Proc/Thread/Heartbeat.antt =====
-- MultcastRecvThread keeps sending the heartbeat, and opens the sockets again that bring nothing.
use cctvmonitor.Base.{
  suc, ◌+◌, ◌%◌, ◌≡◌, ◌≤◌, ◌<◌, ◌⊎◌, inl, inr, refl, Bool, true, false, ◌||◌, List, [], ◌∷◌, ◌++◌,
  ltb, if◌then◌else◌, Bytes, arith, Bool-cases, if_both, ◌==◌, length,
}
use cctvmonitor.Base.Int.{ℤ}
use cctvmonitor.Proc.Commands.{
  Event, sent, heart, rejoined, system, video, send_heart_info, get_video_src_mode,
}
use cctvmonitor.Proc.Thread.{
  Thread, Received, nothing, from_system, from_video, receive, rejoin, update_lcd, poll, round,
  rounds,
}

abbrev pub has : (Event → Bool) → List Event → Bool
has p [] = false
has p (e ∷ es) = p e || has p es

has-append : (p : Event → Bool) (es fs : List Event) → has p (es ++ fs) ≡ (has p es || has p fs)
has-append p [] fs = refl
has-append p (e ∷ es) fs = ground (arith, has-append p es fs)

has-left : (p : Event → Bool) (es fs : List Event) → has p es ≡ true → has p (es ++ fs) ≡ true
has-left p es fs h = ground (arith, has-append p es fs, h)

has-right : (p : Event → Bool) (es fs : List Event) → has p fs ≡ true → has p (es ++ fs) ≡ true
has-right p es fs h = ground (arith, has-append p es fs, h)

abbrev pub is_heartbeat : Event → Bool
is_heartbeat (sent heart bs) = true
is_heartbeat _ = false

abbrev pub is_system_rejoin : Event → Bool
is_system_rejoin (rejoined system) = true
is_system_rejoin _ = false

poll_beats :
    (eth : Bytes) (t : Thread)
    → t.heart_count ≤ 1200
    → (has is_heartbeat (poll eth t).1 ≡ true)
      ⊎ ((poll eth t).0.heart_count ≡ suc t.heart_count) × (t.heart_count < 1200)
unfolding poll send_heart_info
poll_beats eth t h = elim (Bool-cases (t.heart_count % 1200 == 0)) [
  | inl y ↦ inl (
      has-right is_heartbeat (if t.video_source_count % 3000 == 0 then get_video_src_mode else [])
        (if t.heart_count % 1200 == 0 then (send_heart_info eth t.state).1 else [])
        (ground (arith, y)))
  | inr n ↦ inr (ground (arith, n), ground (arith, n))
]

heart-receive :
    (eth : Bytes) (r : Received) (t : Thread) → (receive eth t r).0.heart_count ≡ t.heart_count
unfolding receive
heart-receive eth nothing t = refl
heart-receive eth (from_system buf len) t =
    if_both {A = Thread × List Event} (λ p. p.0.heart_count ≡ t.heart_count) (ltb 0 len) refl refl
heart-receive eth (from_video buf len) t = refl

heart_before_poll :
    (eth : Bytes) (ret : ℤ) (r : Received) (t : Thread)
    → (update_lcd ret (rejoin (receive eth t r).0).0).0.heart_count ≡ t.heart_count
unfolding update_lcd rejoin
heart_before_poll eth ret r t = heart-receive eth r t

round_beats :
    (eth : Bytes) (ret : ℤ) (r : Received) (t : Thread)
    → t.heart_count ≤ 1200
    → (has is_heartbeat (round eth ret r t).1 ≡ true)
      ⊎ ((round eth ret r t).0.heart_count ≡ suc t.heart_count) × (t.heart_count < 1200)
unfolding round
round_beats eth ret r t h =
    let e = heart_before_poll eth ret r t in
    let p1 = receive eth t r in
    let p2 = rejoin p1.0 in
    let p3 = update_lcd ret p2.0 in
    let p4 = poll eth p3.0 in
    elim (poll_beats eth (update_lcd ret (rejoin (receive eth t r).0).0).0 (omega (arith, e))) [
      | inl y ↦ inl (has-right is_heartbeat (p1.1 ++ p2.1 ++ p3.1) p4.1 y)
      | inr (a, b) ↦ inr (omega (arith, a, e), omega (arith, b, e))
    ]

-- The thread sends the heartbeat in any run of rounds that, with the count it has, is longer than
-- 1200, whatever it receives meanwhile and whatever its other sends return.
pub rounds_beat :
    (eth : Bytes) (rs : List (Received × ℤ)) (t : Thread)
    → t.heart_count ≤ 1200
    → 1200 < length rs + t.heart_count
    → has is_heartbeat (rounds eth rs t).1 ≡ true
unfolding rounds
rounds_beat eth [] t h l = absurd (omega arith)
rounds_beat eth ((r, ret) ∷ rs) t h l = elim (round_beats eth ret r t h) [
  | inl y ↦ has-left is_heartbeat (round eth ret r t).1 (rounds eth rs (round eth ret r t).0).1 y
  | inr (a, b) ↦
      has-right is_heartbeat (round eth ret r t).1 (rounds eth rs (round eth ret r t).0).1
        (rounds_beat eth rs (round eth ret r t).0 (omega arith) (omega arith))
]

-- Nothing comes from the broadcast system.
abbrev pub IsSilent : List (Received × ℤ) → Type 0
IsSilent [] = Unit {0}
IsSilent ((from_system buf len, ret) ∷ rs) = ⊥
IsSilent ((r, ret) ∷ rs) = IsSilent rs

sys_after_rejoin :
    (t : Thread)
    → t.sys_recv_count ≤ 4000
    → (has is_system_rejoin (rejoin t).1 ≡ true)
      ⊎ ((rejoin t).0.sys_recv_count ≡ suc t.sys_recv_count) × (t.sys_recv_count < 4000)
unfolding rejoin
sys_after_rejoin t h =
    let s = suc t.sys_recv_count in
    let v = suc t.video_recv_count in
    elim (Bool-cases (ltb 4000 s)) [
      | inl y ↦ inl (
          has-left is_system_rejoin (if ltb 4000 s then rejoined system ∷ [] else [])
            (if ltb 6000 v then rejoined video ∷ [] else []) (ground (arith, y)))
      | inr n ↦ inr (ground (arith, n), ground (arith, n))
    ]

sys_after_silence :
    (eth : Bytes) (r : Received) (ret : ℤ) (t : Thread)
    → IsSilent ((r, ret) ∷ [])
    → (receive eth t r).0.sys_recv_count ≡ t.sys_recv_count
unfolding receive
sys_after_silence eth nothing ret t q = refl
sys_after_silence eth (from_system buf len) ret t q = absurd q
sys_after_silence eth (from_video buf len) ret t q = refl

sys_behind_rejoin :
    (eth : Bytes) (ret : ℤ) (r : Received) (t : Thread)
    → (round eth ret r t).0.sys_recv_count ≡ (rejoin (receive eth t r).0).0.sys_recv_count
unfolding round update_lcd poll
sys_behind_rejoin eth ret r t = refl

round_rejoins :
    (eth : Bytes) (ret : ℤ) (r : Received) (t : Thread)
    → IsSilent ((r, ret) ∷ [])
    → t.sys_recv_count ≤ 4000
    → (has is_system_rejoin (round eth ret r t).1 ≡ true)
      ⊎ ((round eth ret r t).0.sys_recv_count ≡ suc t.sys_recv_count) × (t.sys_recv_count < 4000)
unfolding round
round_rejoins eth ret r t q h =
    let e = sys_after_silence eth r ret t q in
    let p1 = receive eth t r in
    let p2 = rejoin p1.0 in
    let p3 = update_lcd ret p2.0 in
    let p4 = poll eth p3.0 in
    elim (sys_after_rejoin p1.0 (omega (arith, e))) [
      | inl y ↦ inl (
          has-left is_system_rejoin (p1.1 ++ p2.1 ++ p3.1) p4.1 (
            has-left is_system_rejoin (p1.1 ++ p2.1) p3.1 (has-right is_system_rejoin p1.1 p2.1 y)))
      | inr (a, b) ↦ inr (omega (arith, sys_behind_rejoin eth ret r t, a, e), omega (arith, b, e))
    ]

IsSilent-head :
    (r : Received) (ret : ℤ) (rs : List (Received × ℤ))
    → IsSilent ((r, ret) ∷ rs)
    → IsSilent ((r, ret) ∷ []) × IsSilent rs
IsSilent-head nothing ret rs q = (tt, q)
IsSilent-head (from_system buf len) ret rs q = absurd q
IsSilent-head (from_video buf len) ret rs q = (tt, q)

-- When the broadcast system is silent for a run of rounds that, with the count the thread has, is
-- longer than 4000, the thread closes its socket and joins the group again.
pub rounds_rejoin :
    (eth : Bytes) (rs : List (Received × ℤ)) (t : Thread)
    → IsSilent rs
    → t.sys_recv_count ≤ 4000
    → 4000 < length rs + t.sys_recv_count
    → has is_system_rejoin (rounds eth rs t).1 ≡ true
unfolding rounds
rounds_rejoin eth [] t q h l = absurd (omega arith)
rounds_rejoin eth ((r, ret) ∷ rs) t q h l =
    let (q1, q2) = IsSilent-head r ret rs q in
    let p = round eth ret r t in
    elim (round_rejoins eth ret r t q1 h) [
      | inl y ↦ has-left is_system_rejoin p.1 (rounds eth rs p.0).1 y
      | inr (a, b) ↦
          has-right is_system_rejoin p.1 (rounds eth rs p.0).1
            (rounds_rejoin eth rs p.0 q2 (omega arith) (omega arith))
    ]
