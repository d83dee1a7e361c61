-- ===== src/Pmsg/Connection.antt =====
-- A connection of pmsg/pmsgcli.c: the loop of CliProcessThread around the frames, and the calls on a
-- handle. The sockets are outside: what they return is given to each round.
pub mod Steady
pub mod Stale
use cctvmonitor.Base.{
  ℕ, zero, suc, ◌+◌, ◌≡◌, Bool, true, false, not, Option, none, some, List, [], ◌∷◌, ◌++◌, ◌==◌,
  ltb, if◌then◌else◌, Bytes, codes, map, length,
}
use cctvmonitor.Base.Int.{ℤ, pos, negsuc, eq_ℤ, is_positive}
use cctvmonitor.Queue.{Queue, Heap, get, create, destroy}
use cctvmonitor.Pmsg.Frame.{Packet, Scan, encode, feed}

-- `T_PMSG_CONN_INFO` with the locals of the thread: `leave` is the bytes of pcLeaveBuf that
-- iPreLeaveLen counts. The packets stand in the queue that the events fill.
pub record Conn : Type 0 where
  pub socket : ℤ
  pub sockfd : ℤ
  pub connect_status : ℕ
  pub ip : Bytes
  pub leave : Bytes
  pub heart_count : ℕ
  pub old_time : ℕ

-- `queued` is a call of PutNodeToPmsgQueue.
pub data Event : Type 0 where
  logged sent : Bytes → Event
  queued : Packet → Event
  closed : ℤ → Event

-- What a round meets: the result of CreateTcpSocket, the bytes of `recv` (`none` where `select`
-- reports none, no bytes for an end or an error), the second, and the result of `send`.
pub record Input : Type 0 where
  pub connects : ℤ
  pub chunk : Option Bytes
  pub second : ℕ
  pub send_result : ℤ

-- As PMSG_CreateConnect leaves it for its thread.
abbrev pub created : Bytes → Conn
created ip = record {
  socket = pos 0;
  sockfd = pos 0;
  connect_status = 0;
  ip = ip;
  leave = [];
  heart_count = 0;
  old_time = 0;
}

-- The connection is closed and logged, in three places of the loop.
unfoldable pub disconnect : Conn → Conn × List Event
disconnect c = (
  record c { socket = negsuc 0; sockfd = negsuc 0; connect_status = 0 },
  closed c.socket ∷ logged (codes "server " ++ c.ip ++ codes " disconnected") ∷ [],
)

-- The top of the loop; the socket that is not there is made.
unfoldable pub connect : Conn → ℤ → Conn × List Event
connect c fd =
    if is_positive c.socket
    then (c, [])
    else if is_positive fd
    then (
      record c { socket = fd; sockfd = fd; connect_status = 1 },
      logged (codes "server " ++ c.ip ++ codes " connected") ∷ [],
    )
    else (record c { socket = fd; connect_status = 0 }, [])

-- PMSG_SendPmsgData, for data of a length that is not negative; `ret` is what `send` returns.
unfoldable pub send_pmsg_data : Option Conn → ℕ → Bytes → ℤ → ℤ × List Event
unfolding encode
send_pmsg_data none cmd bs ret = (negsuc 0, [])
send_pmsg_data (some c) cmd bs ret =
    if c.connect_status == 1 then (ret, sent (encode cmd bs) ∷ []) else (negsuc 0, [])

-- PMSG_SendRawData; `none` is a `NULL` pointer.
unfoldable pub send_raw_data : Option Conn → Option Bytes → ℤ → ℤ × List Event
send_raw_data (some c) (some (b ∷ bs)) ret =
    if c.connect_status == 1 then (ret, sent (b ∷ bs) ∷ []) else (negsuc 0, [])
send_raw_data c bs ret = (negsuc 0, [])

unfoldable pub get_connect_status : Option Conn → ℤ
get_connect_status none = negsuc 0
get_connect_status (some c) = pos c.connect_status

-- PMSG_GetDataFromPmsgQueue on the queue of a handle; the outer `none` is a fault of the heap. The Boolean says whether
-- `ptPkt` is not `NULL`.
unfoldable pub get_data_from_pmsg_queue :
    Option (Queue Packet) → Bool → Option (ℤ × Option Packet × Option (Queue Packet))
unfolding get
get_data_from_pmsg_queue none out = some (negsuc 0, none, none)
get_data_from_pmsg_queue (some q) out = elim (get (some q) out) [
  | none ↦ none
  | some (r, p, q') ↦ if eq_ℤ r (pos 0) then some (negsuc 0, p, q') else some (pos 0, p, q')
]

-- PMSG_DestroyConnect, when the thread has ended: the packets that are left are given back with the queue;
-- what DestroyPmsgQueue returns is not looked at. `none` in the argument is a `NULL` handle.
unfoldable pub destroy_connect :
    ℕ → Option (Option (Queue Packet)) → Option (ℤ × Option (Heap Packet))
unfolding destroy
destroy_connect fuel none = some (negsuc 0, none)
destroy_connect fuel (some q) = elim (destroy fuel q) [
  | none ↦ none
  | some (r, h) ↦ some (pos 0, h)
]

-- CLI_SERV_MSG_TYPE_HEART
abbrev pub cli_heart : ℕ
cli_heart = 0x51

-- The part of a round under `select`; the flag tells that the round ends here (`continue`).
unfoldable pub receive : (ℕ → Bool) → ℕ → Conn → Option Bytes → Bool × Conn × List Event
unfolding feed disconnect
receive malloc handle c none = (false, c, [])
receive malloc handle c (some []) =
    let (c1, es) = disconnect (record c { heart_count = 0 }) in (true, c1, es)
receive malloc handle c (some (b ∷ bs)) =
    let s = feed malloc handle c.leave (b ∷ bs) in
    (false, record c { heart_count = 0; leave = s.leave }, map queued s.packets)

-- The heartbeat at the turn of a second.
unfoldable pub beat : Conn → ℕ → ℤ → Conn × List Event
unfolding send_pmsg_data disconnect
beat c now ret =
    let (r, es) = send_pmsg_data (some c) cli_heart [] ret in
    let (c1, ds) = disconnect c in
    if now == c.old_time
    then (c, [])
    else if is_positive r
    then (record c { old_time = now }, es)
    else (record c1 { heart_count = 0; old_time = now }, es ++ ds)

-- 1000 rounds without a byte end the connection.
unfoldable pub count : Conn → Conn × List Event
unfolding disconnect
count c =
    let c1 = record c { heart_count = suc c.heart_count } in
    let (c2, ds) = disconnect c1 in
    if ltb 1000 c1.heart_count then (record c2 { heart_count = 0 }, ds) else (c1, [])

-- A round of the loop.
unfoldable pub round : (ℕ → Bool) → ℕ → Conn → Input → Conn × List Event
unfolding connect receive beat count
round malloc handle c i =
    let (c1, e1) = connect c i.connects in
    let (ends, c2, e2) = receive malloc handle c1 i.chunk in
    let (c3, e3) = beat c2 i.second i.send_result in
    let (c4, e4) = count c3 in
    if not (is_positive c1.socket)
    then (c1, e1)
    else if ends
    then (c2, e1 ++ e2)
    else (c4, e1 ++ e2 ++ e3 ++ e4)

unfoldable pub rounds : (ℕ → Bool) → ℕ → Conn → List Input → Conn × List Event
unfolding round
rounds malloc handle c [] = (c, [])
rounds malloc handle c (i ∷ is) =
    let (c1, e1) = round malloc handle c i in
    let (c2, e2) = rounds malloc handle c1 is in (c2, e1 ++ e2)
