-- ===== src/Pmsg/Tests.antt =====
-- The message client of pmsg/pmsgcli.c at concrete messages.
use mathlib.Core.List.{flatten}
use cctvmonitor.Base.{ℕ, ◌≡◌, ◌≤◌, refl, Bool, true, some, List, [], ◌∷◌, leb, Bytes, arith, codes}
use cctvmonitor.Base.Int.{pos, negsuc}
use cctvmonitor.Pmsg.Frame.{encode, feed, clamp_data, msg_head, frame_ecc, get_msg_data_ecc}
use cctvmonitor.Pmsg.Frame.Stream.{feed_all, packets_of, stream, Msg}
use cctvmonitor.Pmsg.Frame.Receive.{feed_all-send}
use cctvmonitor.Pmsg.Connection.{Conn, Input, created, connect, disconnect, receive, rounds, queued}
use cctvmonitor.Pmsg.Connection.Steady.{IsSteady, rounds-IsSteady}
use cctvmonitor.Pmsg.Connection.Stale.{receive-disconnect}

abbrev up_to_1035 : ℕ → Bool
up_to_1035 n = leb n 1035

up_to_1035_serves : (n : ℕ) → n ≤ 1035 → up_to_1035 n ≡ true
up_to_1035_serves n h = ground arith

-- A status request with two bytes, a heartbeat, a message without data.
abbrev messages : List Msg
messages = (0x57, 1 ∷ 2 ∷ []) ∷ (0x01, []) ∷ (0x16, []) ∷ []

-- Their bytes, as `recv` may cut them.
abbrev pieces : List Bytes
pieces =
    (0xff ∷ 0x57 ∷ 0 ∷ [])
    ∷ (2 ∷ 1 ∷ 2 ∷ 0xa9 ∷ 0xff ∷ [])
    ∷ (0x01 ∷ 0 ∷ 0 ∷ 0xfe ∷ 0xff ∷ 0x16 ∷ 0 ∷ 0 ∷ 0xe9 ∷ [])
    ∷ []

feed_all-send_example :
    feed_all up_to_1035 7 [] pieces ≡ record { packets = packets_of 7 messages; leave = [] }
unfolding stream encode clamp_data msg_head frame_ecc get_msg_data_ecc flatten
feed_all-send_example =
    feed_all-send up_to_1035 7 up_to_1035_serves messages pieces (ground arith) refl

feed_all-pieces :
    (feed_all up_to_1035 7 [] pieces).packets
    ≡ record { handle = 7; cmd = 0x57; msg = 1 ∷ 2 ∷ [] }
      ∷ record { handle = 7; cmd = 0x16; msg = [] }
      ∷ []
unfolding feed_all feed frame_ecc
feed_all-pieces = refl

-- The connection is made, receives a part of a message, and is lost.
abbrev inputs : List Input
inputs =
    record { connects = pos 5; chunk = some (0xff ∷ []); second = 1; send_result = pos 5 }
    ∷ record { connects = pos 5; chunk = some []; second = 1; send_result = pos 5 }
    ∷ []

rounds-IsSteady_example : IsSteady (rounds up_to_1035 7 (created (codes "10.0.0.1")) inputs).0
rounds-IsSteady_example = rounds-IsSteady up_to_1035 7 (codes "10.0.0.1") inputs

abbrev lost : Conn
lost = record (created (codes "10.0.0.1")) { socket = negsuc 0; leave = 0xff ∷ [] }

rounds_lose : (rounds up_to_1035 7 (created (codes "10.0.0.1")) inputs).0.leave ≡ 0xff ∷ []
unfolding rounds
rounds_lose = refl

receive-disconnect_example :
    ((receive up_to_1035 7 (connect (disconnect lost).0 (pos 6)).0 (some (encode 0x57 (1 ∷ [])))).2
      ≡ [])
    × ((receive up_to_1035 7
          (connect (created (codes "10.0.0.1")) (pos 6)).0
          (some (encode 0x57 (1 ∷ [])))).2
        ≡ queued (record { handle = 7; cmd = 0x57; msg = 1 ∷ [] }) ∷ [])
receive-disconnect_example =
    receive-disconnect up_to_1035 7 up_to_1035_serves lost (pos 6) (codes "10.0.0.1") 0x57 (1 ∷ [])
      refl (omega arith) (omega arith) (omega arith)
