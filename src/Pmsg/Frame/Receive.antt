-- ===== src/Pmsg/Frame/Receive.antt =====
-- What the receive loop of CliProcessThread delivers, however the bytes were cut by `recv`.
use mathlib.Core.List.{flatten}
use cctvmonitor.Base.{
  ℕ, zero, suc, ◌+◌, ◌*◌, ◌≤◌, ◌<◌, ◌≡◌, refl, sym, ap, ◌∙◌, inl, inr, Bool, true, Option, none,
  some, List, [], ◌∷◌, ◌++◌, arith, length, Bytes, append_assoc, append-nil, length-append,
  length-drop,
}
use cctvmonitor.Pmsg.Frame.{
  Packet, encode, Round, keep, reset, took, take_message, round, Scan, scan, feed,
}
use cctvmonitor.Pmsg.Frame.Stream.{
  Msg, packet_of, packets_of, stream, AllFit, Settled, scan-stream, round-encode, length-encode,
  feed_all,
}

packets_of-append :
    (handle : ℕ) (ms ns : List Msg)
    → packets_of handle (ms ++ ns) ≡ packets_of handle ms ++ packets_of handle ns
unfolding packets_of packet_of
packets_of-append handle [] ns = refl
packets_of-append handle (m ∷ ms) ns = ground (arith, packets_of-append handle ms ns)

-- The length of what `recv` can leave behind.
round_keep-le :
    (malloc : ℕ → Bool) (handle : ℕ) (p : Bytes) → round malloc handle p ≡ keep → length p ≤ 1028
unfolding round take_message
round_keep-le malloc handle (h ∷ t ∷ l ∷ k ∷ b ∷ bs) e = ground arith
round_keep-le malloc handle _ e = omega arith

round_took-lt :
    (malloc : ℕ → Bool) (handle : ℕ) (p r : Bytes) (o : Option Packet)
    → round malloc handle p ≡ took o r
    → length r < length p
unfolding round take_message
round_took-lt malloc handle (h ∷ t ∷ l ∷ k ∷ b ∷ bs) r o e =
    ground (arith, length-drop (l * 256 + k) bs)
round_took-lt malloc handle _ r o e = absurd (cc)

module _ (malloc : ℕ → Bool) (handle : ℕ) where
  scan-leave-le_round :
      (x : Round) (fuel b : ℕ) (p : Bytes)
      → round malloc handle (b ∷ p) ≡ x
      → ((r : Bytes) → length r < length (b ∷ p) → length (scan malloc handle fuel r).leave ≤ 1028)
      → length (scan malloc handle (suc fuel) (b ∷ p)).leave ≤ 1028
  unfolding scan
  scan-leave-le_round keep fuel b p e later = rw (e, scan) (round_keep-le malloc handle (b ∷ p) e)
  scan-leave-le_round reset fuel b p e later = rw (e, scan) (omega arith)
  scan-leave-le_round (took none r) fuel b p e later =
      rw (e, scan) (later r (round_took-lt malloc handle (b ∷ p) r none e))
  scan-leave-le_round (took (some k) r) fuel b p e later =
      rw (e, scan) (later r (round_took-lt malloc handle (b ∷ p) r (some k) e))

  scan-leave-le :
      (fuel : ℕ) (p : Bytes) → length p ≤ fuel → length (scan malloc handle fuel p).leave ≤ 1028
  unfolding scan
  scan-leave-le fuel [] h = omega arith
  scan-leave-le zero (b ∷ p) h = absurd (omega arith)
  scan-leave-le (suc fuel) (b ∷ p) h =
      scan-leave-le_round (round malloc handle (b ∷ p)) fuel b p refl
        (λ r lt. scan-leave-le fuel r (omega arith))

  -- Whatever was received, the bytes kept for the next `recv` are at most 1028 of the 10240 of the
  -- receive buffer, so that `iBufLen - iPreLeaveLen - 1` leaves room for a whole message.
  pub feed-leave-le : (leave chunk : Bytes) → length (feed malloc handle leave chunk).leave ≤ 1028
  unfolding feed
  feed-leave-le leave chunk = scan-leave-le (length (leave ++ chunk)) (leave ++ chunk) (omega arith)

module _ (malloc : ℕ → Bool) (handle : ℕ) (served : (n : ℕ) → n ≤ 1035 → malloc n ≡ true) where
  Settled-stream :
      (ms : List Msg) (l : Bytes) → AllFit ms → Settled malloc handle l → l ≡ stream ms → ms ≡ []
  unfolding stream
  Settled-stream [] l f st e = refl
  Settled-stream (m ∷ ms) l f (inl empty) e = absurd (
      omega (
        arith,
        ap length (sym empty ∙ e),
        length-append (encode m.0 m.1) (stream ms),
        length-encode m.0 m.1,
      ))
  Settled-stream (m ∷ ms) l f (inr kept) e =
      cc (
        kept,
        ap (round malloc handle) e,
        round-encode malloc handle served m.0 m.1 (stream ms) f.0,
      )

  feed_all-stream :
      (cs : List Bytes) (ms : List Msg) (l : Bytes)
      → AllFit ms
      → Settled malloc handle l
      → l ++ flatten cs ≡ stream ms
      → feed_all malloc handle l cs ≡ record { packets = packets_of handle ms; leave = [] }
  unfolding feed_all feed packets_of stream flatten
  feed_all-stream [] ms l f st e =
      let whole : l ≡ stream ms = sym (append-nil l) ∙ e in
      ground (arith, whole, Settled-stream ms l f st whole)
  feed_all-stream (c ∷ cs) ms l f st e =
      let bs = l ++ c in
      let r =
        scan-stream malloc handle served (length bs) ms bs (flatten cs) f (omega arith)
          (append_assoc l c (flatten cs) ∙ e) in
      let later =
        feed_all-stream cs r.rest (scan malloc handle (length bs) bs).leave r.fits r.settled
          r.left in
      rw (later, r.read)
        (ap {B = Scan} (λ ps. record { packets = ps; leave = [] })
          (sym (packets_of-append handle r.done r.rest) ∙ ap (packets_of handle) (sym r.splits)))

  -- The messages sent by PMSG_SendPmsgData, in whatever pieces `recv` returns their bytes, become
  -- exactly their packets, in order and heartbeats left out, and no byte is left over; provided
  -- that each message has at most 1019 bytes of data and that no allocation of up to 1035 bytes
  -- fails.
  pub feed_all-send :
      (ms : List Msg) (cs : List Bytes)
      → AllFit ms
      → flatten cs ≡ stream ms
      → feed_all malloc handle [] cs ≡ record { packets = packets_of handle ms; leave = [] }
  feed_all-send ms cs f e = feed_all-stream cs ms [] f (inl refl) e
