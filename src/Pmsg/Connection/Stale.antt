-- ===== src/Pmsg/Connection/Stale.antt =====
-- The bytes that CliProcessThread of pmsg/pmsgcli.c keeps over the end of a connection.
use mathlib.Core.List.{flatten}
use cctvmonitor.Base.{
  ℕ, ◌≡◌, ◌≤◌, ◌<◌, refl, ap, ◌∙◌, Bool, true, some, [], ◌∷◌, Bytes, arith, length, map,
}
use cctvmonitor.Base.Int.{ℤ}
use cctvmonitor.Pmsg.Frame.{encode, feed, scan, round, msg_head}
use cctvmonitor.Pmsg.Frame.Stream.{feed_all, packets_of, stream, length-encode, packet_of}
use cctvmonitor.Pmsg.Frame.Receive.{feed_all-send}
use cctvmonitor.Pmsg.Connection.{Conn, queued, created, disconnect, connect, receive}

module _ (malloc : ℕ → Bool) (handle : ℕ) where
  -- A frame behind one stray start byte reads as a message that is too long.
  feed_behind_start :
      (cmd : ℕ) (bs : Bytes)
      → 5 ≤ cmd
      → feed malloc handle (0xff ∷ []) (encode cmd bs) ≡ record { packets = []; leave = [] }
  unfolding feed scan round encode msg_head
  feed_behind_start cmd bs h = ground arith

  -- A message that comes whole to a client with nothing kept.
  feed_fresh :
      (served : (n : ℕ) → n ≤ 1035 → malloc n ≡ true) (cmd : ℕ) (bs : Bytes)
      → 5 ≤ cmd
      → length bs ≤ 1019
      → (feed malloc handle [] (encode cmd bs)).packets
        ≡ record { handle = handle; cmd = cmd; msg = bs } ∷ []
  unfolding feed_all packets_of packet_of stream flatten
  feed_fresh served cmd bs h l =
      let whole =
        feed_all-send malloc handle served ((cmd, bs) ∷ []) (encode cmd bs ∷ []) (l, tt) (refl) in
      ground (arith, whole)

  receive_bytes :
      (c : Conn) (m : Bytes)
      → 0 < length m
      → (receive malloc handle c (some m)).2 ≡ map queued (feed malloc handle c.leave m).packets
  unfolding receive
  receive_bytes c [] h = absurd (omega arith)
  receive_bytes c (b ∷ m) h = refl

  leave-connect : (c : Conn) (fd : ℤ) → (connect c fd).0.leave ≡ c.leave
  unfolding connect
  leave-connect c fd = ground arith

  -- One byte of a message kept at the end of a connection makes the client lose the first message of
  -- the next one, which a new client takes: messages of the types 5 and up, at most 1019 bytes of
  -- data, and no allocation of up to 1035 bytes that fails.
  pub receive-disconnect :
      (served : (n : ℕ) → n ≤ 1035 → malloc n ≡ true) (c : Conn) (fd : ℤ) (ip : Bytes) (cmd : ℕ)
      (bs : Bytes)
      → c.leave ≡ 0xff ∷ []
      → 5 ≤ cmd
      → cmd < 256
      → length bs ≤ 1019
      → ((receive malloc handle (connect (disconnect c).0 fd).0 (some (encode cmd bs))).2 ≡ [])
        × ((receive malloc handle (connect (created ip) fd).0 (some (encode cmd bs))).2
            ≡ queued (record { handle = handle; cmd = cmd; msg = bs }) ∷ [])
  unfolding disconnect
  receive-disconnect served c fd ip cmd bs left h k l =
      let more : 0 < length (encode cmd bs) = omega (arith, length-encode cmd bs) in
      let at_end = (connect (disconnect c).0 fd).0 in
      let at_start = (connect (created ip) fd).0 in
      (
        receive_bytes at_end (encode cmd bs) more
            ∙ ap (λ s. map queued (feed malloc handle s (encode cmd bs)).packets)
                (leave-connect (disconnect c).0 fd ∙ left)
            ∙ ap (λ s. map queued s.packets) (feed_behind_start cmd bs h),
        receive_bytes at_start (encode cmd bs) more
            ∙ ap (λ s. map queued (feed malloc handle s (encode cmd bs)).packets)
                (leave-connect (created ip) fd)
            ∙ ap (map queued) (feed_fresh served cmd bs h l),
      )
