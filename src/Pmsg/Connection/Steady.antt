-- ===== src/Pmsg/Connection/Steady.antt =====
-- What holds of a connection between the rounds of CliProcessThread.
use cctvmonitor.Base.{
  ℕ, suc, ◌≡◌, ◌≤◌, refl, Bool, false, Option, none, some, List, [], ◌∷◌, ◌==◌, ltb, if◌then◌else◌,
  Bytes, arith, length, if_both, if_both_of, not, ◌⊎◌, inl, inr,
}
use cctvmonitor.Base.Int.{ℤ, is_positive}
use cctvmonitor.Pmsg.Frame.Receive.{feed-leave-le}
use cctvmonitor.Pmsg.Connection.{
  Conn, Event, Input, created, disconnect, connect, receive, beat, count, round, rounds,
  send_pmsg_data,
}

-- The status and the descriptor tell the thread's socket, the count of silent rounds is at most 1000,
-- and the bytes kept leave room in the 10240 of the receive buffer.
pub record IsSteady (c : Conn) : Type 0 where
  pub status : c.connect_status ≡ (if is_positive c.socket then 1 else 0)
  pub descriptor : (is_positive c.socket ≡ false) ⊎ (c.sockfd ≡ c.socket)
  pub heart_le : c.heart_count ≤ 1000
  pub leave_le : length c.leave ≤ 1028

disconnect-IsSteady :
    (c : Conn) → c.heart_count ≤ 1000 → length c.leave ≤ 1028 → IsSteady (disconnect c).0
unfolding disconnect
disconnect-IsSteady c h l = record {
  status = refl;
  descriptor = inl refl;
  heart_le = h;
  leave_le = l;
}

connect-IsSteady : (c : Conn) (fd : ℤ) → IsSteady c → IsSteady (connect c fd).0
unfolding connect
connect-IsSteady c fd s =
    if_both_of P (is_positive c.socket) (λ y. s)
      (λ n.
        if_both_of P (is_positive fd)
          (λ z. record {
            status = ground (arith, z);
            descriptor = inr refl;
            heart_le = s.heart_le;
            leave_le = s.leave_le;
          })
          (λ z. record {
            status = ground (arith, z);
            descriptor = inl z;
            heart_le = s.heart_le;
            leave_le = s.leave_le;
          }))
  where
    P : Conn × List Event → Type 0
    P p = IsSteady p.0

module _ (malloc : ℕ → Bool) (handle : ℕ) where
  receive-IsSteady :
      (c : Conn) (chunk : Option Bytes) → IsSteady c → IsSteady (receive malloc handle c chunk).1
  unfolding receive
  receive-IsSteady c none s = s
  receive-IsSteady c (some []) s =
      disconnect-IsSteady (record c { heart_count = 0 }) (omega arith) s.leave_le
  receive-IsSteady c (some (b ∷ bs)) s = record {
    status = s.status;
    descriptor = s.descriptor;
    heart_le = omega arith;
    leave_le = feed-leave-le malloc handle c.leave (b ∷ bs);
  }

beat-IsSteady : (c : Conn) (now : ℕ) (ret : ℤ) → IsSteady c → IsSteady (beat c now ret).0
unfolding beat
beat-IsSteady c now ret s = if_both P (now == c.old_time) s (
    if_both P (is_positive (send_pmsg_data (some c) 0x51 [] ret).0)
      (record {
        status = s.status;
        descriptor = s.descriptor;
        heart_le = s.heart_le;
        leave_le = s.leave_le;
      })
      (with_time (disconnect-IsSteady c s.heart_le s.leave_le)))
  where
    P : Conn × List Event → Type 0
    P p = IsSteady p.0

    with_time :
        IsSteady (disconnect c).0
        → IsSteady (record (disconnect c).0 { heart_count = 0; old_time = now })
    with_time d = record {
      status = d.status;
      descriptor = d.descriptor;
      heart_le = omega arith;
      leave_le = d.leave_le;
    }

count-IsSteady : (c : Conn) → IsSteady c → IsSteady (count c).0
unfolding count disconnect
count-IsSteady c s =
    if_both_of P (ltb 1000 (suc c.heart_count))
      (λ y. record {
        status = refl;
        descriptor = inl refl;
        heart_le = omega arith;
        leave_le = s.leave_le;
      })
      (λ n. record {
        status = s.status;
        descriptor = s.descriptor;
        heart_le = ground (arith, n);
        leave_le = s.leave_le;
      })
  where
    P : Conn × List Event → Type 0
    P p = IsSteady p.0

module _ (malloc : ℕ → Bool) (handle : ℕ) where
  round-IsSteady : (c : Conn) (i : Input) → IsSteady c → IsSteady (round malloc handle c i).0
  unfolding round
  round-IsSteady c i s =
      let s1 = connect-IsSteady c i.connects s in
      let s2 = receive-IsSteady malloc handle (connect c i.connects).0 i.chunk s1 in
      let s3 =
        beat-IsSteady (receive malloc handle (connect c i.connects).0 i.chunk).1 i.second
          i.send_result s2 in
      let s4 =
        count-IsSteady
          (beat (receive malloc handle (connect c i.connects).0 i.chunk).1 i.second i.send_result).0
          s3 in
      if_both P (not (is_positive (connect c i.connects).0.socket)) s1
        (if_both P (receive malloc handle (connect c i.connects).0 i.chunk).0 s2 s4)
    where
      P : Conn × List Event → Type 0
      P p = IsSteady p.0

  rounds-from : (is : List Input) (c : Conn) → IsSteady c → IsSteady (rounds malloc handle c is).0
  unfolding rounds
  rounds-from [] c s = s
  rounds-from (i ∷ is) c s = rounds-from is (round malloc handle c i).0 (round-IsSteady c i s)

  -- From its creation on, whatever the sockets, the clock and `malloc` do, the status of a connection
  -- and its descriptor tell the thread's socket, at most 1000 silent rounds are counted, and at most
  -- 1028 bytes are kept for the next `recv`.
  pub rounds-IsSteady :
      (ip : Bytes) (is : List Input) → IsSteady (rounds malloc handle (created ip) is).0
  rounds-IsSteady ip is = rounds-from is (created ip) (record {
    status = refl;
    descriptor = inl refl;
    heart_le = omega arith;
    leave_le = omega arith;
  })
