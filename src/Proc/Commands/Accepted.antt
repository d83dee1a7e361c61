-- ===== src/Proc/Commands/Accepted.antt =====
-- The frames that pmsg/pmsgproc.c sends, read by its own parser.
use cctvmonitor.Base.{ℕ, ◌+◌, ◌≡◌, ◌<◌, Bool, [], ◌∷◌, ◌++◌, Bytes, arith, length, length-append}
use cctvmonitor.Base.Int.{success}
use cctvmonitor.State.{State}
use cctvmonitor.Proc.Commands.{system_frame}
use cctvmonitor.Proc.Broadcast.{parse_broadcast_sys_data}

length-system_frame : (fn : ℕ) (bs : Bytes) → length (system_frame fn bs) ≡ length bs + 10
unfolding system_frame
length-system_frame fn bs = omega (arith, length-append bs (0xFC ∷ []))

-- A frame of the functions 0x0700 to 0x07FF, which the device sends to the group it listens to, is
-- taken as well formed when it comes back, and changes nothing and makes nothing be sent. Its data is
-- below 65536 bytes.
parse_broadcast_sys_data-system_frame :
    (eth : Bytes) (st : State) (first : Bool) (fn : ℕ) (bs rest : Bytes)
    → fn < 256
    → length bs < 65536
    → parse_broadcast_sys_data eth st first
        (system_frame fn bs ++ rest)
        (length (system_frame fn bs))
      ≡ record { result = success; state = st; sent_first = first; events = [] }
unfolding parse_broadcast_sys_data system_frame
parse_broadcast_sys_data-system_frame eth st first fn bs rest h l =
    ground (arith, length-append bs (0xFC ∷ []))
