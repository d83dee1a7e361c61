-- ===== src/Pmsg/Frame.antt =====
-- Message frames of pmsg/pmsgcli.c: the check byte, the frame that PMSG_SendPmsgData builds, and
-- the loop of CliProcessThread that takes frames out of the received bytes.
pub mod Stream
pub mod Receive
use cctvmonitor.Base.{
  ℕ, zero, suc, ◌+◌, ◌-◌, ◌*◌, ◌/◌, ◌%◌, ◌≤◌, ◌<◌, ◌≡◌, refl, Bool, true, false, not, ◌&&◌, Option,
  none, some, List, [], ◌∷◌, ◌++◌, arith, ltb, leb, ◌==◌, if◌then◌else◌, length, take, drop, get_or,
  Bytes, bit_xor,
}

-- `T_PMSG_PACKET`: `iMsgDataLen` is the length of the data.
pub record Packet : Type 0 where
  pub handle : ℕ
  pub cmd : ℕ
  pub msg : Bytes

abbrev pub msg_start_flag : ℕ
msg_start_flag = 0xff

-- SERV_CLI_MSG_TYPE_HEART
abbrev pub serv_heart : ℕ
serv_heart = 0x01

-- The loop of GetMsgDataEcc from the check byte reached.
unfoldable pub ecc_from : ℕ → Bytes → ℕ
ecc_from acc [] = acc
ecc_from acc (b ∷ bs) = ecc_from (bit_xor acc b) bs

unfoldable pub get_msg_data_ecc : Bytes → ℕ
unfolding ecc_from
get_msg_data_ecc bs = ecc_from 0 bs

-- The data that fits a message: `if (iDataLen > (1024 - 5)) iDataLen = 1024 - 5;`
unfoldable pub clamp_data : Bytes → Bytes
clamp_data bs = if ltb 1019 (length bs) then take 1019 bs else bs

-- The head in memory: `htons` leaves the high byte first.
unfoldable pub msg_head : ℕ → ℕ → Bytes
msg_head cmd len = msg_start_flag ∷ cmd ∷ len / 256 % 256 ∷ len % 256 ∷ []

-- The check byte of a head and its data; the data's part is skipped when there is none.
unfoldable pub frame_ecc : Bytes → Bytes → ℕ
unfolding get_msg_data_ecc
frame_ecc head [] = get_msg_data_ecc head
frame_ecc head (b ∷ bs) = bit_xor (get_msg_data_ecc head) (get_msg_data_ecc (b ∷ bs))

-- The bytes that PMSG_SendPmsgData hands to `send`.
unfoldable pub encode : ℕ → Bytes → Bytes
unfolding clamp_data msg_head
encode cmd bs =
    let sent = clamp_data bs in
    let head = msg_head cmd (length sent) in head ++ (sent ++ frame_ecc head sent ∷ [])

-- What one round of the loop does with the bytes left: keep them for the next `recv`, drop them,
-- or take one message, which a heartbeat makes no packet of.
pub data Round : Type 0 where
  keep : Round
  reset : Round
  took : Option Packet → Bytes → Round

-- A message whose bytes are all there; `body` is the data, the check byte and what follows.
unfoldable pub take_message : (ℕ → Bool) → ℕ → Bytes → ℕ → ℕ → Bytes → Round
take_message malloc handle head cmd len body =
    if cmd == serv_heart
    then took none (drop (len + 1) body)
    else if not (get_or body len 0 == frame_ecc head (take len body))
    then reset
    else if malloc (len + 16)
    then took (some (record { handle = handle; cmd = cmd; msg = take len body }))
        (drop (len + 1) body)
    else reset

-- `malloc` says which sizes it serves.
unfoldable pub round : (ℕ → Bool) → ℕ → Bytes → Round
unfolding take_message
round malloc handle (h ∷ t ∷ l ∷ k ∷ b ∷ bs) =
    if not (h == msg_start_flag)
    then reset
    else if ltb 1024 (l * 256 + k)
    then reset
    else if leb (l * 256 + k) (length bs)
    then take_message malloc handle (h ∷ t ∷ l ∷ k ∷ []) t (l * 256 + k) (b ∷ bs)
    else keep
round malloc handle _ = keep

-- The packets of a scan in order, and the bytes left for the next `recv`.
pub record Scan : Type 0 where
  pub packets : List Packet
  pub leave : Bytes

abbrev pub prepend : Option Packet → Scan → Scan
prepend none s = s
prepend (some p) s = record s { packets = p ∷ s.packets }

-- `while (iLeaveLen > 0)`; each round but the last takes five bytes or more.
unfoldable pub scan : (ℕ → Bool) → ℕ → ℕ → Bytes → Scan
unfolding round
scan malloc handle fuel [] = record { packets = []; leave = [] }
scan malloc handle zero (b ∷ bs) = record { packets = []; leave = b ∷ bs }
scan malloc handle (suc fuel) (b ∷ bs) = elim (round malloc handle (b ∷ bs)) [
  | keep ↦ record { packets = []; leave = b ∷ bs }
  | reset ↦ record { packets = []; leave = [] }
  | took p rest ↦ prepend p (scan malloc handle fuel rest)
]

-- One `recv`: the bytes left over stand in front of those received.
unfoldable pub feed : (ℕ → Bool) → ℕ → Bytes → Bytes → Scan
unfolding scan
feed malloc handle leave chunk = let bs = leave ++ chunk in scan malloc handle (length bs) bs
