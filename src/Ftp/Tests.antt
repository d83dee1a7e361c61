-- ===== src/Ftp/Tests.antt =====
-- The FTP client of ftp/ftpApi.c on concrete replies and commands.
mod Transfers
mod Clients
use cctvmonitor.Base.{
  ℕ, ◌+◌, ◌*◌, ◌≡◌, ◌↔◌, refl, ap, map, true, none, some, List, [], ◌∷◌, ◌++◌, if◌then◌else◌, Bytes,
  codes, arith, strstr, replicate, length-replicate,
}
use cctvmonitor.Base.Int.{ℤ, pos, ◌+ℤ◌, ◌*ℤ◌}
use cctvmonitor.Base.Decimal.{decimal}
use cctvmonitor.Ftp.{
  Net, Sent, wrote, would_block, failed, send_cmd, crlf, recv_response, recv_45_err, err_else,
}
use cctvmonitor.Ftp.Reply.{send_cmd-Leaves}
use cctvmonitor.Ftp.Passive.{displace_char, explain_227}
use cctvmonitor.Ftp.Passive.Explain.{dot, displace_char-dots, joined, reply_227, explain_227-reply}
use cctvmonitor.Ftp.Session.{get_file_size, server_login}
use cctvmonitor.Ftp.Session.Size.{size_reply, get_file_size-reply}

explain_227-reply_example :
    explain_227 (reply_227 (codes "227 Entering ") (codes "\r\n") 192 168 1 20 4 1)
    ≡ some (joined b'.' (decimal 192) (decimal 168) (decimal 1) (decimal 20), pos (4 * 256 + 1))
unfolding strstr decimal
explain_227-reply_example =
    explain_227-reply (codes "227 Entering ") (codes "\r\n") 192 168 1 20 4 1 (ground arith)
      (ground arith) (omega arith) refl

explain_227-text :
    explain_227 (codes "227 Entering (192,168,1,20,4,1)\r\n")
    ≡ some (codes "192.168.1.20", pos 1025)
unfolding explain_227 ◌+ℤ◌ ◌*ℤ◌
explain_227-text = refl

-- The port's text stands in the address too: the address is cut there.
explain_227-cut : explain_227 (codes "227 (10,0,0,1,0,1)") ≡ some (codes "10.0", pos 1)
unfolding explain_227 ◌+ℤ◌ ◌*ℤ◌
explain_227-cut = refl

abbrev idle : Net
idle = record {
  client_socket = pos 3;
  data_socket = pos 0;
  sends = wrote 2 ∷ would_block ∷ failed ∷ [];
  recvs = some (codes "213 70000\r\n") ∷ [];
  wire = [];
  dialled = [];
}

-- A connection that takes two bytes and is blocked from then on.
abbrev blocked : Net
blocked = record idle { sends = wrote 2 ∷ replicate 10004 would_block }

send_cmd-Leaves_example :
    (r : ℤ) × (w' : Net) × (left : Bytes) × (send_cmd
        (codes "QUIT")
        (record blocked { sends = blocked.sends ++ failed ∷ [] })
      ≡ some (r, record w' { sends = w'.sends ++ failed ∷ [] }))
    × (send_cmd (codes "QUIT") blocked ≡ some (r, w'))
    × (w'.wire ++ left ≡ codes "QUIT")
    × ((r ≡ pos 0) ↔ (left ≡ []))
send_cmd-Leaves_example =
    send_cmd-Leaves (codes "QUIT") blocked (failed ∷ []) (λ e. absurd (ground (arith, e)))
      (omega (arith, length-replicate {A = Sent} 10004 would_block))

abbrev ready : Net
ready = record idle { sends = wrote 100 ∷ [] }

get_file_size-reply_example :
    get_file_size [] (codes "/a.mp4") ready
    ≡ some (
      (pos 0, 70000),
      record ready { sends = []; recvs = []; wire = codes "SIZE " ++ (codes "/a.mp4" ++ crlf) },
    )
unfolding decimal
get_file_size-reply_example =
    get_file_size-reply [] (codes "/a.mp4") 70000 100 ready [] [] (omega arith) (ground arith)
      (omega arith) (omega arith) refl (omega arith) refl refl

-- A whole login.
abbrev greeted : Net
greeted = record idle {
  sends = wrote 100 ∷ wrote 100 ∷ [];
  recvs = some (codes "220 hi\r\n") ∷ some (codes "331 more\r\n") ∷ some (codes "230 in\r\n") ∷ [];
}

server_login-run :
    server_login [] true (codes "admin") (codes "12345") greeted
    ≡ some (
      pos 0,
      record greeted { sends = []; recvs = []; wire = codes "USER admin\r\nPASS 12345\r\n" },
    )
unfolding server_login
server_login-run = refl
