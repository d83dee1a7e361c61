-- ===== src/Ftp/Client/Queued.antt =====
-- What FTP_AddDownLoadFile of ftp/ftpApi.c leaves in the queue of files.
use cctvmonitor.Base.{
  ℕ, ◌+◌, ◌%◌, ◌^◌, ◌≤◌, ◌<◌, ◌≡◌, ◌≢◌, refl, ap, ◌∙◌, true, Option, none, some, List, [], ◌∷◌,
  ◌++◌, length, Bytes, Lacks, arith,
}
use cctvmonitor.Base.Int.{pos, is_positive}
use cctvmonitor.Gb2312.{Table}
use cctvmonitor.Gb2312.Bounds.{AllAscii}
use cctvmonitor.Queue.{Queue, put}
use cctvmonitor.Queue.Chain.{Holds}
use cctvmonitor.Queue.Fifo.{put-Holds}
use cctvmonitor.Ftp.{Net, Sent, wrote}
use cctvmonitor.Ftp.Download.{Packet}
use cctvmonitor.Ftp.Session.{get_file_size}
use cctvmonitor.Ftp.Session.Size.{get_file_size-reply, size_reply}
use cctvmonitor.Ftp.Client.{Client, fit, download_cmd, queue_file, add_download_file}

abbrev pub download_of : Bytes → Bytes → Packet
download_of src dst = record { cmd_type = download_cmd; src_file_name = src; dst_file_name = dst }

add_download_file_steps :
    (t : Table) (c : Client) (fresh : ℕ) (src dst : Bytes) (n : ℕ) (w : Net) (q : Queue Packet)
    → fit src dst ≡ true
    → get_file_size t src c.net ≡ some ((pos 0, n), w)
    → put fresh c.queue (some (download_of src dst)) ≡ some (pos 0, some q)
    → add_download_file t fresh (some c) (some src) (some dst)
      ≡ some (
        pos 0,
        some (record c {
          net = w;
          download_file_size = (c.download_file_size + n) % 2 ^ 64;
          queue = some q;
        }),
      )
unfolding add_download_file queue_file
add_download_file_steps t c fresh src dst n w q f e g =
    rw (e, f, g, add_download_file, queue_file) refl

-- FTP_AddDownLoadFile, where the server tells the size of an ASCII path of at most 248 bytes, returns 0,
-- adds that size to the bytes to copy, and leaves the file in the queue behind all that were there; the
-- local name is below 256 bytes, the size below 10^10, `malloc` gives a free address, and one call of
-- `send` takes the command.
pub add_download_file-Holds :
    (t : Table) (c : Client) (q : Queue Packet) (cs : List (ℕ × Packet)) (fresh : ℕ)
    (src dst : Bytes) (n k : ℕ) (ss : List Sent) (rs : List (Option Bytes))
    → c.queue ≡ some q
    → Holds q cs
    → fresh ≢ 0
    → q.heap fresh ≡ none
    → AllAscii src × Lacks 0 src
    → length src ≤ 248
    → length dst < 256
    → n < 10 ^ 10
    → is_positive c.net.client_socket ≡ true
    → length src + 7 ≤ k
    → c.net.sends ≡ wrote k ∷ ss
    → c.net.recvs ≡ some (size_reply n) ∷ rs
    → (c' : Client) × (q' : Queue Packet) × (add_download_file t fresh
          (some c)
          (some src)
          (some dst)
        ≡ some (pos 0, some c'))
      × (c'.queue ≡ some q')
      × Holds q' (cs ++ (fresh, download_of src dst) ∷ [])
      × (c'.download_file_size ≡ (c.download_file_size + n) % 2 ^ 64)
add_download_file-Holds t c q cs fresh src dst n k ss rs at holds ne free plain short short_dst h p
      m s r =
    let e = put-Holds q fresh (download_of src dst) cs holds ne free in
    let size = get_file_size-reply t src n k c.net ss rs plain.0 plain.1 short h p m s r in
    let fits : fit src dst ≡ true = ground arith in
    let queued = ap (λ o. put fresh o (some (download_of src dst))) at ∙ e.returned in
    (
      _,
      e.after,
      add_download_file_steps t c fresh src dst n _ e.after fits size queued,
      refl,
      e.holds,
      refl,
    )
