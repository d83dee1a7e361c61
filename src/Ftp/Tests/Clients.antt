-- ===== src/Ftp/Tests/Clients.antt =====
-- A connection of the FTP client of ftp/ftpApi.c, and the directories it makes.
use cctvmonitor.Base.{◌≡◌, refl, true, false, none, some, [], ◌∷◌, codes, arith}
use cctvmonitor.Base.Int.{pos, is_positive}
use cctvmonitor.Base.Decimal.{decimal}
use cctvmonitor.Queue.{Queue, Heap, create}
use cctvmonitor.Queue.Destroy.{AllFreed}
use cctvmonitor.Ftp.{Net, Sent, wrote, crlf}
use cctvmonitor.Ftp.Download.{Packet}
use cctvmonitor.Ftp.Session.Size.{size_reply}
use cctvmonitor.Ftp.Dirs.{
  file_dir, get_file_name, position_str, visit, says, check_dir_and_make_dir,
}
use cctvmonitor.Ftp.Client.{Client, Start, add_download_file, destroy_connect, create_connect}
use cctvmonitor.Ftp.Client.Queued.{download_of, add_download_file-Holds}
use cctvmonitor.Ftp.Client.Closed.{destroy_connect-closed}
use cctvmonitor.Queue.Chain.{Holds}

abbrev asked : Net
asked = record {
  client_socket = pos 3;
  data_socket = pos 4;
  sends = wrote 100 ∷ wrote 100 ∷ wrote 100 ∷ [];
  recvs = some (codes "550 no\r\n") ∷ some (codes "250 ok\r\n") ∷ some (codes "257 ok\r\n") ∷ [];
  wire = [];
  dialled = [];
}

abbrev making : Net
making = record asked { sends = wrote 11 ∷ wrote 7 ∷ wrote 9 ∷ [] }

-- The first round has no directory: where the server answers 550 to it, the NUL is put in front of the
-- buffer.
visit-first : visit [] (codes "/rec/a.mp4") 0 asked ≡ none
unfolding visit cctvmonitor.Ftp.converted cctvmonitor.Ftp.Dirs.new_name
visit-first = refl

-- The name of the file stands in its path: the path is cut there.
file_dir-cut : file_dir (codes "/rec1/1") ≡ some (codes "/rec")
unfolding file_dir
file_dir-cut = refl

file_dir-plain : file_dir (codes "/rec/a.mp4") ≡ some (codes "/rec/")
unfolding file_dir
file_dir-plain = refl

abbrev client : Client
client = record {
  net = record asked { recvs = some (size_reply 70000) ∷ [] };
  download_file_size = 30;
  mode = pos 0;
  upload_type = pos 0;
  upload_file_offset = 0;
  upload_local_file_size = 0;
  thread_run_flag = false;
  thread = false;
  queue = some (create (λ p. none));
}

add_download_file-Holds_example :
    (c' : Client) × (q' : Queue Packet) × (add_download_file [] 8
        (some client)
        (some (codes "/a.mp4"))
        (some (codes "/mnt/a.mp4"))
      ≡ some (pos 0, some c'))
    × (c'.queue ≡ some q')
    × Holds q' ((8, download_of (codes "/a.mp4") (codes "/mnt/a.mp4")) ∷ [])
    × (c'.download_file_size ≡ 70030)
add_download_file-Holds_example =
    add_download_file-Holds [] client (create (λ p. none)) [] 8 (codes "/a.mp4")
      (codes "/mnt/a.mp4") 70000 100 (wrote 100 ∷ wrote 100 ∷ []) [] refl (ground arith)
      (ground arith) refl (ground arith) (omega arith) (omega arith) (omega arith) refl
      (omega arith) refl refl

destroy_connect-closed_example :
    (w : Net) × (h : Heap Packet) × (destroy_connect 1 (some client)
      ≡ some (pos 0, some (record { result = pos 0; net = w; heap = some h })))
    × (is_positive w.client_socket ≡ false)
    × (is_positive w.data_socket ≡ false)
    × AllFreed h []
unfolding decimal
destroy_connect-closed_example =
    destroy_connect-closed client (create (λ p. none)) [] 1 refl (ground arith) (omega arith)
      (ground arith)

-- A log-in that the server refuses: the handle is 0, and the control socket is not closed.
abbrev refused_start : Start
refused_start = record {
  malloc = true;
  socket = pos 3;
  connects = true;
  sends = [];
  recvs = some (codes "421 busy\r\n") ∷ [];
  malloc_queue = true;
  heap = λ p. none;
}

create_connect-leaks :
    create_connect [] (some (codes "10.0.0.1")) (pos 21) refused_start
    ≡ some (
      none,
      record {
        client_socket = pos 3;
        data_socket = pos 0;
        sends = [];
        recvs = [];
        wire = [];
        dialled = [];
      },
    )
unfolding create_connect cctvmonitor.Ftp.Session.server_login
create_connect-leaks = refl
