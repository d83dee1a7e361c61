-- ===== src/Ftp/Tests/Transfers.antt =====
-- The transfers of ftp/ftpApi.c in concrete runs.
use cctvmonitor.Base.{◌≡◌, refl, true, some, List, [], ◌∷◌, codes, arith}
use cctvmonitor.Base.Int.{ℤ, pos, negsuc, ◌+ℤ◌, ◌*ℤ◌}
use cctvmonitor.Ftp.{Net, wrote, cmd_ctrl, converted}
use cctvmonitor.Ftp.Passive.{explain_227}
use cctvmonitor.Ftp.Session.{close_data}
use cctvmonitor.Ftp.Download
use cctvmonitor.Ftp.Download.{
  Packet, Turn, silence, bytes, Round, After, next, ended, broke, closed, turns, leave, finish,
  download, started, prepare,
}
use cctvmonitor.Ftp.Download.Progress.{IsDone, download-IsDone}
use cctvmonitor.Ftp.Download.Silent.{IsSilent, leave-turns_silent}
use cctvmonitor.Ftp.Upload
use cctvmonitor.Ftp.Upload.{Block, send_blocks, check}
use cctvmonitor.Ftp.Upload.Whole.{send_blocks_whole, check-send_blocks}

abbrev server : Net
server = record {
  client_socket = pos 3;
  data_socket = pos 0;
  sends = wrote 100 ∷ wrote 100 ∷ wrote 100 ∷ [];
  recvs = some (codes "200") ∷ some (codes "227 (1,2,3,4,5,6)") ∷ some (codes "150") ∷ [];
  wire = [];
  dialled = [];
}

abbrev three_bytes : Turn
three_bytes = record {
  running = true;
  usb = true;
  arrival = bytes (codes "abc");
  written = 3;
  usb_after = true;
}

abbrev one_file : Round
one_file = record {
  running = true;
  usb = true;
  packet = some (record { cmd_type = 1; src_file_name = codes "/a"; dst_file_name = codes "b" });
  opens = true;
  created = pos 4;
  connects = pos 0;
  turns = three_bytes ∷ [];
}

abbrev all_there : Download.Local
all_there = record {
  progress = pos 100;
  file_size = 3;
  trytimes = 0;
  file = codes "abc";
  reports = pos 100 ∷ [];
}

abbrev after : Net
after = record {
  client_socket = pos 3;
  data_socket = pos 4;
  sends = [];
  recvs = [];
  wire = codes "TYPE I\r\nPASV\r\nRETR /a\r\n";
  dialled = (codes "1.2.3.4", 1286) ∷ [];
}

download-run : download [] 3 (one_file ∷ []) started server ≡ some ((ended, all_there), after)
unfolding download prepare cmd_ctrl explain_227 converted finish ◌+ℤ◌ ◌*ℤ◌
download-run = refl

download-IsDone_example : IsDone 3 all_there
download-IsDone_example =
    download-IsDone [] 3 (one_file ∷ []) server after all_there (omega arith) download-run

abbrev nothing : Turn
nothing = record three_bytes { arrival = silence }

abbrev five : List Turn
five = nothing ∷ nothing ∷ nothing ∷ nothing ∷ nothing ∷ []

leave-turns_silent_example :
    ((turns 3 five started).0 ≡ broke)
    × ((leave (turns 3 five started).1).0 ≡ ended)
    × ((leave (turns 3 five started).1).1.reports ≡ negsuc 2 ∷ [])
leave-turns_silent_example =
    let s : IsSilent nothing = record { running = refl; usb = refl; nothing = refl } in
    leave-turns_silent 3 five started (s, (s, (s, (s, (s, tt))))) (omega arith) (omega arith)

-- The server closes the data connection before a byte has come: nothing is reported, and the thread goes
-- on to the next file.
leave-turns_early :
    (turns 3 (record three_bytes { arrival = bytes [] } ∷ []) started ≡ (closed, started))
    × (leave started ≡ (next, started))
unfolding turns
leave-turns_early = (refl, refl)

abbrev block : ℤ → Block
block result = record { running = true; result = result }

abbrev fresh : Upload.Local
fresh = record { file_size = 0; value = 0; sent = [] }

send_blocks_whole_example :
    send_blocks (block (pos 3) ∷ block (pos 4096) ∷ []) (codes "abc") fresh
    ≡ (true, record fresh { file_size = 3; sent = codes "abc" })
send_blocks_whole_example =
    send_blocks_whole (block (pos 3) ∷ block (pos 4096) ∷ []) (codes "abc") fresh (refl, refl, tt)
      (omega arith)

check-send_blocks_example :
    (send_blocks (block (negsuc 0) ∷ []) (codes "abc") fresh
      ≡ (true, record fresh { file_size = 3 }))
    × (check 3 (record fresh { file_size = 3 }) after
        ≡ some ((next, record fresh { file_size = 3; value = 1 }), close_data after))
check-send_blocks_example =
    check-send_blocks 3 (block (negsuc 0)) [] (codes "abc") fresh after refl refl (omega arith)
      (omega arith) (omega arith) (omega arith) refl
