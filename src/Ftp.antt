-- ===== src/Ftp.antt =====
-- The control connection of the FTP client in ftp/ftpApi.c: commands, replies and the calls made of
-- them. What `send`, `select` with `recv`, and `connect` return is given in order; an answer that is not
-- given is an error or a time-out. `none` is a read or write outside a buffer.
pub mod Reply
pub mod Passive
pub mod Session
pub mod Download
pub mod Upload
pub mod Dirs
pub mod Client
mod Tests
use cctvmonitor.Base.{
  ℕ, zero, suc, ◌+◌, ◌-◌, ◌*◌, ◌≤◌, Bool, true, false, ◌&&◌, ◌||◌, Option, none, some, List, [],
  ◌∷◌, ◌++◌, ◌==◌, ltb, leb, if◌then◌else◌, length, take, drop, Bytes, codes, c_string, strstr,
}
pub use cctvmonitor.Base.Int.{is_negative}
use cctvmonitor.Base.Int.{ℤ, pos, negsuc, is_positive}
use cctvmonitor.Gb2312.{Table, utf_8_to_gb2312}

-- What a call of `send` returns: a number of bytes, or -1 with `errno` EWOULDBLOCK or another. FTP_SendCmd
-- looks at `errno` after a 0 too, which here is never EWOULDBLOCK then.
pub data Sent : Type 0 where
  wrote : ℕ → Sent
  would_block failed : Sent

-- The sockets of `T_FTP_CONNECTION_INFO`, what the calls to come return, and the bytes sent so far.
-- `none` for `recv` is a time-out, no bytes the end or an error of the connection. `dialled` is where
-- the data sockets were connected to: the address as text, and the port.
pub record Net : Type 0 where
  pub client_socket : ℤ
  pub data_socket : ℤ
  pub sends : List Sent
  pub recvs : List (Option Bytes)
  pub wire : Bytes
  pub dialled : List (Bytes × ℕ)

-- FTP_ERROR_E
abbrev pub connect_sever_err : ℤ
connect_sever_err = negsuc 1

abbrev pub recv_err : ℤ
recv_err = negsuc 2

abbrev pub recv_45_err : ℤ
recv_45_err = negsuc 3

abbrev pub send_cmd_err : ℤ
send_cmd_err = negsuc 4

abbrev pub send_user_err : ℤ
send_user_err = negsuc 5

abbrev pub usr_pwd_err : ℤ
usr_pwd_err = negsuc 7

abbrev pub unsuport_type : ℤ
unsuport_type = negsuc 8

abbrev pub open_data_err : ℤ
open_data_err = negsuc 9

abbrev pub err_else : ℤ
err_else = negsuc 10

abbrev pub M : Type 0 → Type 0
M A = Net → Option (A × Net)

abbrev pub return : {A : Type 0} → A → M A
return a w = some (a, w)

abbrev pub fault : {A : Type 0} → M A
fault w = none

infixl 5 ◌>>=◌
abbrev pub ◌>>=◌ : {A B : Type 0} → M A → (A → M B) → M B
◌>>=◌ m f w = elim (m w) [ none ↦ none | some (a, w') ↦ f a w' ]

-- A step whose negative result is returned.
abbrev pub checked : M ℤ → M ℤ → M ℤ
checked m rest = m >>= λ r. if is_negative r then return r else rest

-- The loop of FTP_SendCmd: the waits left, the bytes left, and the answers. The result, the bytes left
-- at the end, and the answers to come. A list of answers that ends is a connection that fails then.
unfoldable pub send_from : ℕ → Bytes → List Sent → ℤ × Bytes × List Sent
send_from waits [] rs = (pos 0, [], rs)
send_from waits (b ∷ bs) [] = (err_else, b ∷ bs, [])
send_from waits (b ∷ bs) (wrote zero ∷ rs) = (err_else, b ∷ bs, rs)
send_from waits (b ∷ bs) (wrote (suc n) ∷ rs) = send_from waits (drop n bs) rs
send_from zero (b ∷ bs) (would_block ∷ rs) = (err_else, b ∷ bs, rs)
send_from (suc waits) (b ∷ bs) (would_block ∷ rs) = send_from waits (b ∷ bs) rs
send_from waits (b ∷ bs) (failed ∷ rs) = (err_else, b ∷ bs, rs)

-- `maxtime`, in steps of 1000.
abbrev pub max_waits : ℕ
max_waits = 10000

-- FTP_SendCmd
unfoldable pub send_cmd : Bytes → M ℤ
unfolding send_from
send_cmd [] w = some (send_cmd_err, w)
send_cmd (b ∷ bs) w =
    let (r, left, rs) = send_from max_waits (b ∷ bs) w.sends in
    some
      (r, record w { sends = rs; wire = w.wire ++ take (length (b ∷ bs) - length left) (b ∷ bs) })

-- The result for a text received.
unfoldable pub judge : Bytes → Bytes → ℤ
unfolding strstr
judge text c = elim (strstr text c) [
  | some s ↦ pos 0
  | none ↦ elim (strstr text (codes "45")) [ some s ↦ recv_45_err | none ↦ recv_err ]
]

-- The result and the text where `recv` gave these bytes. A NUL is put behind them, which is outside the
-- buffer when that is full.
unfoldable pub reply_of : ℕ → Bytes → Bytes → Option (ℤ × Bytes)
unfolding judge c_string
reply_of buflen c got =
    if ltb (length got) buflen then some (judge (c_string got) c, c_string got) else none

-- FTP_RecvResponse on a buffer of `buflen` zeros: the result and the text in the buffer.
unfoldable pub recv_response : ℕ → Bytes → M (ℤ × Bytes)
unfolding reply_of
recv_response buflen c w =
    if is_positive w.client_socket
    then elim w.recvs [
      | [] ↦ some ((recv_err, []), w)
      | none ∷ rs ↦ some ((recv_err, []), record w { recvs = rs })
      | some [] ∷ rs ↦ some ((recv_err, []), record w { recvs = rs })
      | some (b ∷ bs) ∷ rs ↦ elim (reply_of buflen c (take buflen (b ∷ bs))) [
        | none ↦ none
        | some r ↦ some (r, record w { recvs = rs })
      ]
    ]
    else some ((recv_err, []), w)

-- FTP_CmdCtrl
unfoldable pub cmd_ctrl : Bytes → Bytes → M ℤ
unfolding send_cmd recv_response
cmd_ctrl cmd c = checked (send_cmd cmd) (recv_response 1024 c >>= λ r. return r.0)

-- A name in GB2312, in a buffer of `size` bytes; here the `malloc` of UTF_8ToGB2312 succeeds, where a
-- failure would give the empty name.
unfoldable pub converted : Table → Bytes → ℕ → M Bytes
unfolding utf_8_to_gb2312 c_string
converted t name size w = elim (utf_8_to_gb2312 true t (name ++ 0 ∷ []) (length name) size) [
  | none ↦ none
  | some (n, buf) ↦ some (c_string buf, w)
]

-- `sprintf` into a buffer of `size` bytes.
abbrev pub printed : ℕ → Bytes → M Bytes
printed size text w = if ltb (length text) size then some (text, w) else none

abbrev pub crlf : Bytes
crlf = 13 ∷ 10 ∷ []
