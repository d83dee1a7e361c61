-- ===== src/Ftp/Upload.antt =====
-- FTP_UploadDataSendThread of ftp/ftpApi.c. What the files and the sockets do is given for each round.
pub mod Whole
use cctvmonitor.Base.{
  ℕ, zero, suc, ◌+◌, ◌*◌, ◌/◌, ◌%◌, ◌^◌, Bool, true, false, not, ◌&&◌, Option, none, some, List, [],
  ◌∷◌, ◌++◌, ◌==◌, ltb, if◌then◌else◌, length, take, drop, Bytes, codes,
}
use cctvmonitor.Base.Int.{ℤ, pos, negsuc, is_positive, pos_part}
use cctvmonitor.Gb2312.{Table}
use cctvmonitor.Ftp.{
  Net, M, return, ◌>>=◌, is_negative, recv_response, cmd_ctrl, converted, printed, crlf,
}
use cctvmonitor.Ftp.Session.{close_data, set_start_offset, set_transfer_type, open_data_connection}
use cctvmonitor.Ftp.Download.{Packet, After, next, ended, inside}

-- A round of the loop over the file: whether the thread is to run, and what `send` returns.
pub record Block : Type 0 where
  pub running : Bool
  pub result : ℤ

-- llFileSize, iValue, and the bytes that `send` took.
pub record Local : Type 0 where
  pub file_size : ℕ
  pub value : ℕ
  pub sent : Bytes

-- The loop over the file, of which `rest` is not read yet; it is left by its condition, at the end of the
-- file or at a `send` that fails. The Boolean says whether it is left.
unfoldable pub send_blocks : List Block → Bytes → Local → Bool × Local
send_blocks [] rest l = (false, l)
send_blocks (u ∷ us) [] l = (true, l)
send_blocks (u ∷ us) (b ∷ bs) l =
    let block = take 4096 (b ∷ bs) in
    let l1 = record l { file_size = l.file_size + length block } in
    let l2 = record l1 { sent = l.sent ++ take (pos_part u.result) block } in
    let more = send_blocks us (drop 4096 (b ∷ bs)) l2 in
    if not u.running then (true, l) else if is_positive u.result then more else (true, l1)

-- The commands in front of the data; a negative result ends the thread.
unfoldable pub prepare : Table → ℤ → ℤ → ℕ → ℤ → ℤ → Bytes → M ℤ
prepare t type mode offset created connects dst = do
  ty ← set_transfer_type type
  if is_negative ty then return ty else (do
    d ← open_data_connection mode created connects
    if is_negative d then return d else (do
      o ← (if ltb 0 offset then set_start_offset offset else return (pos 0))
      if is_negative o then return o else (do
        name ← converted t dst 256
        cmd ← printed 256 (codes "STOR " ++ (name ++ crlf))
        cmd_ctrl cmd (codes "150"))))

-- What a round of the thread meets: the packet of the queue, the content of its file if that opens.
pub record Round : Type 0 where
  pub running : Bool
  pub packet : Option Packet
  pub content : Option Bytes
  pub created : ℤ
  pub connects : ℤ
  pub blocks : List Block

-- FTP_UPLOAD_CMD
abbrev pub upload_cmd : ℕ
upload_cmd = 2

-- The end of a round: where all is read, the value is 1, the data socket closes, and the server is to say
-- 226 into a buffer of 256 bytes.
unfoldable pub check : ℕ → Local → M (After × Local)
check total l =
    if l.file_size * 100 % 2 ^ 64 / total == 100
    then (do
      _ ← (λ w. some (pos 0, close_data w))
      _ ← recv_response 256 (codes "226")
      return (next, record l { value = 1 }))
    else return (next, l)

unfoldable pub transfer : Table → ℤ → ℤ → ℕ → ℕ → Round → Packet → Bytes → Local → M (After × Local)
unfolding send_blocks check
transfer t type mode offset total r p content l = do
  e ← prepare t type mode offset r.created r.connects p.dst_file_name
  if is_negative e
      then return (ended, record l { value = 0 })
      else (let (left, l1) = send_blocks r.blocks content l in
          if left then check total l1 else return (inside, l1))

-- A round of the thread: at its end the callback is called with the value.
unfoldable pub round : Table → ℤ → ℤ → ℕ → ℕ → Round → Local → M (After × Local)
unfolding transfer check
round t type mode offset total r l =
    if not (r.running && ltb l.file_size total) then return (ended, l) else elim r.packet [
      | none ↦ check total l
      | some p ↦
          if p.cmd_type == upload_cmd && not (length p.src_file_name == 0)
          then elim r.content [
            | none ↦ return (next, l)
            | some content ↦ transfer t type mode offset total r p content l
          ]
          else return (next, l)
    ]

-- The thread; where it has ended, the value is what the callback is given.
unfoldable pub upload : Table → ℤ → ℤ → ℕ → ℕ → List Round → Local → M (After × Local)
unfolding round
upload t type mode offset total [] l = return (next, l)
upload t type mode offset total (r ∷ rs) l = do
  x ← round t type mode offset total r l
  elim x.0 [ next ↦ upload t type mode offset total rs x.1 | ended ↦ return x | inside ↦ return x ]
