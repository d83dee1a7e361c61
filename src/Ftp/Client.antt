-- ===== src/Ftp/Client.antt =====
-- The connection that the operator interface opens, and the queue of files to copy: FTP_CreateConnect,
-- FTP_DestoryConnect, FTP_AddDownLoadFile, FTP_AddUpLoadFile, FTP_FileDownLoad and FTP_FileUpLoad of
-- ftp/ftpApi.c. The two threads are in Ftp/Download and Ftp/Upload.
pub mod Queued
pub mod Closed
use cctvmonitor.Base.{
  ℕ, zero, ◌+◌, ◌%◌, ◌^◌, Bool, true, false, not, ◌&&◌, ◌||◌, Option, none, some, List, [], ◌∷◌,
  ltb, if◌then◌else◌, length, Bytes, codes,
}
use cctvmonitor.Base.Int.{ℤ, pos, negsuc, eq_ℤ}
use cctvmonitor.Gb2312.{Table}
use cctvmonitor.Queue.{Queue, Heap, create, put, destroy}
use cctvmonitor.Ftp.{Net, M, is_negative, Sent, err_else}
use cctvmonitor.Ftp.Session.{close_data, close_cmd, quit, server_login, get_file_size}
use cctvmonitor.Ftp.Download.{Packet}
use cctvmonitor.Ftp.Upload.{upload_cmd}
use cctvmonitor.Ftp.Dirs.{check_dir_and_make_dir}

-- `T_FTP_CONNECTION_INFO`. A queue that could not be allocated is `none`; `thread` says whether ThreadId
-- is not 0.
pub record Client : Type 0 where
  pub net : Net
  pub download_file_size : ℕ
  pub mode : ℤ
  pub upload_type : ℤ
  pub upload_file_offset : ℕ
  pub upload_local_file_size : ℕ
  pub thread_run_flag : Bool
  pub thread : Bool
  pub queue : Option (Queue Packet)

-- What the system answers to FTP_CreateConnect: whether the two `malloc`s succeed, the control socket,
-- whether `connect` does, the heap, and what `send` and `recv` return.
pub record Start : Type 0 where
  pub malloc : Bool
  pub socket : ℤ
  pub connects : Bool
  pub sends : List Sent
  pub recvs : List (Option Bytes)
  pub malloc_queue : Bool
  pub heap : Heap Packet

abbrev pub at_start : Start → Net
at_start s = record {
  client_socket = s.socket;
  data_socket = pos 0;
  sends = s.sends;
  recvs = s.recvs;
  wire = [];
  dialled = [];
}

-- A connection that has logged in.
abbrev pub logged_in : Start → Net → Client
logged_in s w = record {
  net = w;
  download_file_size = 0;
  mode = pos 0;
  upload_type = pos 0;
  upload_file_offset = 0;
  upload_local_file_size = 0;
  thread_run_flag = false;
  thread = false;
  queue = if s.malloc_queue then some (create s.heap) else none;
}

-- FTP_CreateConnect: the handle, 0 for `none`, and what stands of the sockets.
unfoldable pub create_connect : Table → Option Bytes → ℤ → Start → Option (Option Client × Net)
create_connect t none port s = some (none, record (at_start s) { client_socket = pos 0 })
create_connect t (some ip) port s =
    if eq_ℤ port (pos 0)
    then some (none, record (at_start s) { client_socket = pos 0 })
    else if not (s.malloc && not (is_negative s.socket))
    then some (none, record (at_start s) { client_socket = pos 0 })
    else elim (server_login t s.connects (codes "admin") (codes "12345") (at_start s)) [
      | none ↦ none
      | some (r, w) ↦ if is_negative r then some (none, w) else some (some (logged_in s w), w)
    ]

-- The last part of the two ways to close: the sockets.
abbrev pub close : Net → Net
close w = close_data (close_cmd w)

-- What is left when a connection has been closed: the result, the sockets, and the heap of the queue.
pub record Gone : Type 0 where
  pub result : ℤ
  pub net : Net
  pub heap : Option (Heap Packet)

-- FTP_DestoryConnect2; `fuel` is for the loop over the queue. The thread has been waited for.
unfoldable pub destroy_connect2 : ℕ → Option Client → Option (ℤ × Option Gone)
destroy_connect2 fuel none = some (negsuc 0, none)
destroy_connect2 fuel (some c) = elim (destroy fuel c.queue) [
  | none ↦ none
  | some (r, h) ↦ some (pos 0, some (record { result = r; net = close c.net; heap = h }))
]

-- FTP_DestoryConnect, which also sends QUIT.
unfoldable pub destroy_connect : ℕ → Option Client → Option (ℤ × Option Gone)
destroy_connect fuel none = some (negsuc 0, none)
destroy_connect fuel (some c) = elim (destroy fuel c.queue) [
  | none ↦ none
  | some (r, h) ↦ elim (quit c.net) [
    | none ↦ none
    | some (q, w) ↦ some (pos 0, some (record { result = r; net = close w; heap = h }))
  ]
]

abbrev pub download_cmd : ℕ
download_cmd = 1

-- The names are copied into 256 bytes each, and end there with a NUL.
abbrev pub fit : Bytes → Bytes → Bool
fit src dst = ltb (length src) 256 && ltb (length dst) 256

-- A packet is put in the queue; `fresh` is what `malloc` returned. The result is not looked at.
unfoldable pub queue_file : ℕ → Packet → Client → Option (ℤ × Option Client)
queue_file fresh p c =
    if fit p.src_file_name p.dst_file_name
    then elim (put fresh c.queue (some p)) [
      | none ↦ none
      | some (r, q) ↦ some (pos 0, some (record c { queue = q }))
    ]
    else none

-- FTP_AddDownLoadFile; the size is 0 where the server does not tell it.
unfoldable pub add_download_file :
    Table → ℕ → Option Client → Option Bytes → Option Bytes → Option (ℤ × Option Client)
add_download_file t fresh (some c) (some src) (some dst) = elim (get_file_size t src c.net) [
  | none ↦ none
  | some ((r, size), w) ↦
      queue_file fresh
        (record { cmd_type = download_cmd; src_file_name = src; dst_file_name = dst })
        (record c { net = w; download_file_size = (c.download_file_size + size) % 2 ^ 64 })
]
add_download_file t fresh c src dst = some (err_else, c)

-- The part of FTP_AddUpLoadFile behind the directories; `content` is the local file, if it opens.
unfoldable pub add_upload_opened :
    Table → ℕ → Client → Bytes → Bytes → ℤ → ℤ → Option Bytes → Option (ℤ × Option Client)
add_upload_opened t fresh c src dst type mode none = some (err_else, some c)
add_upload_opened t fresh c src dst type mode (some content) = elim (get_file_size t dst c.net) [
  | none ↦ none
  | some ((r, size), w) ↦
      queue_file fresh (record { cmd_type = upload_cmd; src_file_name = src; dst_file_name = dst })
        (record c {
          net = w;
          upload_local_file_size = (c.upload_local_file_size + length content) % 2 ^ 64;
          upload_type = type;
          mode = mode;
          upload_file_offset = size;
        })
]

-- FTP_AddUpLoadFile
unfoldable pub add_upload_file :
    Table
    → ℕ
    → Option Client
    → Option Bytes
    → Option Bytes
    → ℤ
    → ℤ
    → Option Bytes
    → Option (ℤ × Option Client)
add_upload_file t fresh (some c) (some src) (some dst) type mode content =
    elim (check_dir_and_make_dir t (some dst) c.net) [
      | none ↦ none
      | some (r, w) ↦
          if is_negative r
          then some (err_else, some (record c { net = w }))
          else add_upload_opened t fresh (record c { net = w }) src dst type mode content
    ]
add_upload_file t fresh c src dst type mode content = some (err_else, c)

-- FTP_FileDownLoad and FTP_FileUpLoad: `created` is what `pthread_create` returns. Only the first resets
-- ThreadId before.
unfoldable pub file_download : ℤ → Option Client → ℤ × Option Client
file_download created none = (err_else, none)
file_download created (some c) =
    let c1 = record c { thread_run_flag = true; thread = eq_ℤ created (pos 0) } in
    (if is_negative created then err_else else pos 0, some c1)

unfoldable pub file_upload : ℤ → Option Client → ℤ × Option Client
file_upload created none = (err_else, none)
file_upload created (some c) =
    let c1 = record c { thread_run_flag = true; thread = c.thread || eq_ℤ created (pos 0) } in
    (if is_negative created then err_else else pos 0, some c1)
