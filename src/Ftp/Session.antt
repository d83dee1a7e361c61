-- ===== src/Ftp/Session.antt =====
-- The calls of ftp/ftpApi.c that log in, ask for a size, set up a transfer and open its data connection.
pub mod Size
use cctvmonitor.Base.{
  ℕ, zero, suc, ◌+◌, ◌-◌, ◌*◌, ◌%◌, ◌^◌, Bool, true, false, ◌&&◌, ◌||◌, Option, none, some, List,
  [], ◌∷◌, ◌++◌, ◌==◌, ltb, leb, if◌then◌else◌, length, take, drop, map, Bytes, codes, strstr,
  bytes_eq, digits_value,
}
use cctvmonitor.Base.Int.{ℤ, pos, negsuc, pos_part, neg_part, is_positive}
use cctvmonitor.Base.Decimal.{decimal_from, is_space}
use cctvmonitor.Gb2312.{Table}
use cctvmonitor.Ftp.{
  Net, M, return, fault, ◌>>=◌, checked, is_negative, send_cmd, recv_response, cmd_ctrl, converted,
  printed, crlf, connect_sever_err, send_user_err, usr_pwd_err, unsuport_type, open_data_err,
}
use cctvmonitor.Ftp.Passive.{explain_227}

-- FTP_CloseClientDataSocket
abbrev pub close_data : Net → Net
close_data w = if is_positive w.data_socket then record w { data_socket = pos 0 } else w

-- FTP_CloseClientCmdSocket
abbrev pub close_cmd : Net → Net
close_cmd w = if is_positive w.client_socket then record w { client_socket = pos 0 } else w

-- FTP_SetStartOffset
unfoldable pub set_start_offset : ℕ → M ℤ
unfolding send_cmd recv_response decimal_from strstr
set_start_offset offset = checked (send_cmd (codes "REST " ++ (decimal_from 20 offset ++ crlf))) (do
  r ← recv_response 1024 (codes "350")
  if is_negative r.0
      then elim (strstr r.1 (codes "150")) [ none ↦ return r.0 | some s ↦ return (pos 0) ]
      else return (pos 0))

-- The letter of a transfer type.
abbrev pub type_letter : ℤ → Option ℕ
type_letter (pos n) =
    if n == 0 then some b'I' else if n == 1 then some b'A' else if n == 2 then some b'E' else none
type_letter (negsuc n) = none

-- FTP_SetTransferType
unfoldable pub set_transfer_type : ℤ → M ℤ
unfolding cmd_ctrl
set_transfer_type type = elim (type_letter type) [
  | none ↦ return unsuport_type
  | some c ↦ cmd_ctrl (codes "TYPE " ++ c ∷ crlf) (codes "200")
]

abbrev pub wrap16 : ℤ → ℕ
wrap16 (pos n) = n % 2 ^ 16
wrap16 (negsuc n) = 2 ^ 16 - 1 - n % 2 ^ 16

-- The data socket is closed, made anew and connected; `created` and `connects` are what the socket calls
-- return, and the port is an `unsigned short`.
abbrev pub dial : ℤ → Bytes × ℤ → Net → Net
dial created (ip, port) w = record w {
  data_socket = created;
  dialled = (ip, wrap16 port) ∷ w.dialled;
}

-- The reply to PASV taken apart.
abbrev pub explained : Bytes → M (Bytes × ℤ)
explained text w = elim (explain_227 text) [ none ↦ none | some a ↦ some (a, w) ]

-- FTP_OpenDataConntion; the mode PORT opens nothing.
unfoldable pub open_data_connection : ℤ → ℤ → ℤ → M ℤ
unfolding send_cmd recv_response explain_227
open_data_connection mode created connects = elim mode [
  | negsuc n ↦ return (pos 0)
  | pos m ↦
      if m == 1
      then (do
        s ← send_cmd (codes "PASV" ++ crlf)
        if is_negative s then return (negsuc 0) else (do
          r ← recv_response 1024 (codes "227")
          if is_negative r.0 then return (negsuc 0) else (do
            a ← explained r.1
            _ ← (λ w. some (pos 0, dial created a w))
            if is_negative connects then return open_data_err else return (pos 0))))
      else return (pos 0)
]

-- FTP_Quit
unfoldable pub quit : M ℤ
unfolding cmd_ctrl
quit = cmd_ctrl (codes "QUIT" ++ crlf) (codes "221")

abbrev pub lower : ℕ → ℕ
lower c = if leb b'A' c && leb c b'Z' then c + 32 else c

-- The password sent; `outlen` is what the conversion of the name gave.
abbrev pub password : ℕ → Bytes → Bytes → Bytes
password outlen username userpwd =
    if outlen == 9
      && (bytes_eq (map lower (take 9 username)) (codes "anonymous") && length userpwd == 0)
    then codes "123456"
    else userpwd

-- An unsuccessful end of FTP_ServerLogin.
abbrev pub refused : ℤ → M ℤ
refused e = quit >>= λ _. return e

-- FTP_ServerLogin; `connects` says whether `connect` succeeds or is in progress. The length that the
-- conversion gives is that of the name in GB2312.
unfoldable pub server_login : Table → Bool → Bytes → Bytes → M ℤ
unfolding converted send_cmd recv_response cmd_ctrl quit strstr bytes_eq
server_login t connects uname pword =
    if connects
    then (do
      g ← recv_response 1024 (codes "220")
      if is_negative g.0 then return connect_sever_err else (do
        tmp ← printed 128 uname
        pwd ← printed 128 (if ltb 0 (length uname) then pword else codes "anon")
        username ← converted t tmp 128
        user ← printed 128 (codes "USER " ++ (username ++ crlf))
        s ← send_cmd user
        if is_negative s then refused send_user_err else (do
          r ← recv_response 1024 (codes "331")
          if is_negative r.0
              then elim (strstr r.1 (codes "230")) [
                | none ↦ refused send_user_err
                | some s ↦ return (pos 0)
              ]
              else (do
                pass ←
                    printed 128 (codes "PASS " ++ (password (length username) username pwd ++ crlf))
                p ← cmd_ctrl pass (codes "230")
                if is_negative p then refused usr_pwd_err else return (pos 0)))))
    else return connect_sever_err

-- `strtoul` of a text of spaces and digits.
unfoldable pub strtoul : Bytes → ℕ
unfolding digits_value
strtoul [] = 0
strtoul (c ∷ s) = if is_space c then strtoul s else digits_value 0 (c ∷ s)

-- The size in a reply: the length of the text less 6 is copied from behind "213 ", into 128 bytes.
unfoldable pub size_of : Bytes → Option ℕ
unfolding strstr strtoul
size_of text = elim (strstr text (codes "213 ")) [
  | none ↦ some 0
  | some s ↦
      if leb 6 (length text) && ltb (length text - 6) 128
      then some (strtoul (take (length text - 6) (drop 4 s)))
      else none
]

-- FTP_GetFileSize: the result and the size.
unfoldable pub get_file_size : Table → Bytes → M (ℤ × ℕ)
get_file_size t path = do
  name ← converted t path 256
  cmd ← printed 256 (codes "SIZE " ++ (name ++ crlf))
  s ← send_cmd cmd
  if is_negative s then return (s, 0) else (do
    r ← recv_response 1024 (codes "213")
    if is_negative r.0
        then return (r.0, 0)
        else (λ w. elim (size_of r.1) [ none ↦ none | some n ↦ some ((pos 0, n), w) ]))
