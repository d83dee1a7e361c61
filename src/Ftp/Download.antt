-- ===== src/Ftp/Download.antt =====
-- FTP_DownloadDataRecvThread of ftp/ftpApi.c. What the USB stick, the sockets and the files do is given
-- for each round.
pub mod Count
pub mod Progress
pub mod Silent
use cctvmonitor.Base.{
  ℕ, zero, suc, ◌+◌, ◌-◌, ◌*◌, ◌/◌, ◌%◌, ◌^◌, min, Bool, true, false, not, ◌&&◌, ◌||◌, Option, none,
  some, List, [], ◌∷◌, ◌++◌, ◌==◌, ltb, leb, if◌then◌else◌, length, take, Bytes, codes,
}
use cctvmonitor.Base.Int.{ℤ, pos, negsuc, eq_ℤ}
use cctvmonitor.Gb2312.{Table}
use cctvmonitor.Ftp.{
  Net, M, return, fault, ◌>>=◌, is_negative, send_cmd, recv_response, cmd_ctrl, converted, printed,
  crlf,
}
use cctvmonitor.Ftp.Passive.{explain_227}
use cctvmonitor.Ftp.Session.{close_data, dial, explained}

-- `T_FTP_PACKET`
pub record Packet : Type 0 where
  pub cmd_type : ℕ
  pub src_file_name : Bytes
  pub dst_file_name : Bytes

-- What a round of the transfer meets: whether the thread is to run, whether the stick is there (find_usbDev),
-- what `select` and `recv` bring (`none` for a time-out, no bytes for the end, `broken` for an error), what
-- `fwrite` returns, and whether the stick is there after a failed write.
pub data Arrival : Type 0 where
  silence broken : Arrival
  bytes : Bytes → Arrival

pub record Turn : Type 0 where
  pub running : Bool
  pub usb : Bool
  pub arrival : Arrival
  pub written : ℕ
  pub usb_after : Bool

-- The locals iPos, iFileSize and trytimes, what the file was given, and the calls of the callback.
pub record Local : Type 0 where
  pub progress : ℤ
  pub file_size : ℕ
  pub trytimes : ℕ
  pub file : Bytes
  pub reports : List ℤ

-- Whether the loop goes on, and where it ends: by its condition, by `break`, or with a server that has
-- closed the data connection.
pub data Phase : Type 0 where
  going stopped broke closed : Phase

-- iRecvSize: the bytes asked for; the difference is an `unsigned long long`.
unfoldable pub recv_size : ℕ → ℕ → ℕ
recv_size total got =
    let left = (total + 2 ^ 64 - got) % 2 ^ 64 in if leb 4096 left then 4096 else left

-- iPos after a write.
unfoldable pub percent : ℕ → ℕ → ℕ
percent total got = got * 100 % 2 ^ 64 / total

-- The part of a round behind a successful write.
unfoldable pub report : ℕ → Local → Phase × Local
unfolding percent
report total l =
    if ltb 0 total
    then (let p = percent total l.file_size in
        let l1 = record l { progress = pos p } in
        if ltb 0 p
        then (if p == 100
            then (Phase.broke, l1)
            else (Phase.going, record l1 { reports = l.reports ++ pos p ∷ [] }))
        else (Phase.going, l1))
    else (Phase.going, l)

-- The part of a round behind `recv` of some bytes.
unfoldable pub store : ℕ → Turn → Bytes → Local → Phase × Local
unfolding report
store total u got l =
    let n = min u.written (length got) in
    if n == 0
    then (Phase.broke, record l { progress = if u.usb_after then negsuc 1 else negsuc 0 })
    else report total (record l { file_size = l.file_size + n; file = l.file ++ take n got })

-- A round of the loop over the data; `total` is DownloadFileSize.
unfoldable pub turn : ℕ → Turn → Local → Phase × Local
unfolding recv_size store
turn total u l =
    if not u.running
    then (Phase.stopped, l)
    else if not u.usb
    then (Phase.broke, record l { progress = negsuc 0 })
    else elim u.arrival [
      | silence ↦
          if ltb 3 l.trytimes
          then (Phase.broke, record l { progress = negsuc 2; trytimes = suc l.trytimes })
          else (Phase.going, record l { trytimes = suc l.trytimes })
      | broken ↦ (Phase.broke, record l { progress = negsuc 2; trytimes = 0 })
      | bytes bs ↦
          let got = take (recv_size total l.file_size) bs in
          let l1 = record l { trytimes = 0 } in
          if length got == 0 then (Phase.closed, l1) else store total u got l1
    ]

unfoldable pub turns : ℕ → List Turn → Local → Phase × Local
unfolding turn
turns total [] l = (Phase.going, l)
turns total (u ∷ us) l =
    let (p, l1) = turn total u l in
    elim p [
      | going ↦ turns total us l1
      | stopped ↦ (Phase.stopped, l1)
      | broke ↦ (Phase.broke, l1)
      | closed ↦ (Phase.closed, l1)
    ]

-- The commands in front of the data: TYPE, PASV, the data connection and RETR. A negative result is one
-- of the ways to FAIL; `created` and `connects` are what the calls for the data socket return.
unfoldable pub prepare : Table → Bytes → ℤ → ℤ → M ℤ
prepare t src created connects = do
  ty ← cmd_ctrl (codes "TYPE I" ++ crlf) (codes "200")
  if is_negative ty then return ty else (do
    s ← send_cmd (codes "PASV" ++ crlf)
    if is_negative s then return s else (do
      r ← recv_response 1024 (codes "227")
      if is_negative r.0 then return r.0 else (do
        a ← explained r.1
        _ ← (λ w. some (pos 0, dial created a (close_data w)))
        if is_negative created || is_negative connects then return (negsuc 2) else (do
          name ← converted t src 256
          cmd ← printed 256 (codes "RETR " ++ (name ++ crlf))
          c ← send_cmd cmd
          if is_negative c
              then return c
              else (do e ← recv_response 1024 (codes "150"); return e.0)))))

-- What a round of the thread meets: `packet` is what the queue gives, `opens` whether the file opens.
pub record Round : Type 0 where
  pub running : Bool
  pub usb : Bool
  pub packet : Option Packet
  pub opens : Bool
  pub created : ℤ
  pub connects : ℤ
  pub turns : List Turn

-- Whether the thread goes on, has ended, or is inside the loop over the data.
pub data After : Type 0 where
  next ended inside : After

-- FTP_DOWNLOAD_CMD
abbrev pub download_cmd : ℕ
download_cmd = 1

-- The codes that end the thread: 100, and below 0.
abbrev pub is_final : ℤ → Bool
is_final (pos n) = n == 100
is_final (negsuc n) = true

-- What stands behind FAIL.
unfoldable pub finish : Local → Local
finish l =
    if eq_ℤ l.progress (pos 100)
      || (eq_ℤ l.progress (negsuc 0) || (eq_ℤ l.progress (negsuc 1) || eq_ℤ l.progress (negsuc 2)))
    then record l { reports = l.reports ++ l.progress ∷ [] }
    else l

-- Behind the loop over the data the file is closed.
abbrev pub leave : Local → After × Local
leave l = if is_final l.progress then (After.ended, finish l) else (After.next, l)

-- The end of the data: the server is to say 226, and the socket is closed in any case.
unfoldable pub confirm : M ℤ
unfolding recv_response
confirm = do r ← recv_response 1024 (codes "226"); (λ w. some (r.0, close_data w))

-- The transfer of a file whose name is set and opens.
unfoldable pub transfer : Table → ℕ → Round → Packet → Local → M (After × Local)
unfolding turns
transfer t total r p l = do
  e ← prepare t p.src_file_name r.created r.connects
  if is_negative e
      then return (After.ended, finish (record l { progress = negsuc 2 }))
      else (let (phase, l1) = turns total r.turns l in
          elim phase [
            | going ↦ return (After.inside, l1)
            | stopped ↦ return (leave l1)
            | broke ↦ return (leave l1)
            | closed ↦ confirm >>= λ _. return (leave l1)
          ])

-- A round of the thread.
unfoldable pub round : Table → ℕ → Round → Local → M (After × Local)
unfolding transfer
round t total r l =
    if not r.running
    then return (After.ended, finish l)
    else if not r.usb
    then return (After.ended, finish (record l { progress = negsuc 0 }))
    else elim r.packet [
      | none ↦ return (After.next, l)
      | some p ↦
          if p.cmd_type == download_cmd && (not (length p.dst_file_name == 0) && r.opens)
          then transfer t total r p l
          else return (After.next, l)
    ]

-- The thread.
unfoldable pub download : Table → ℕ → List Round → Local → M (After × Local)
unfolding round
download t total [] l = return (After.next, l)
download t total (r ∷ rs) l = do
  x ← round t total r l
  elim x.0 [ next ↦ download t total rs x.1 | ended ↦ return x | inside ↦ return x ]

abbrev pub started : Local
started = record { progress = pos 0; file_size = 0; trytimes = 0; file = []; reports = [] }
