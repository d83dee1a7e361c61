-- ===== src/Ftp/Upload/Whole.antt =====
-- What the upload thread of ftp/ftpApi.c sends of a file, and what it reports.
use native.Mathlib.Nat.{mul-div_right}
use cctvmonitor.Base.{
  ℕ, ◌+◌, ◌*◌, ◌/◌, ◌%◌, ◌^◌, ◌≤◌, ◌<◌, ◌≡◌, refl, sym, ap, ◌∙◌, Bool, true, false, some, List, [],
  ◌∷◌, ◌++◌, ◌==◌, length, length-take, length-drop, take, drop, take_all, take-append-drop,
  append_assoc, append-nil, Bytes, codes, arith, if_both,
}
use cctvmonitor.Base.Int.{pos, is_positive, pos_part}
use cctvmonitor.Ftp.Upload.{Block, Local, send_blocks, check}
use cctvmonitor.Ftp.{Net, recv_response, recv_err, ◌>>=◌}
use cctvmonitor.Ftp.Session.{close_data}
use cctvmonitor.Ftp.Download.{next}

-- The thread is to run, and every call of `send` returns the number of bytes of its block: 4096, and what
-- is left for the last.
abbrev pub AllTaken : List Block → Bytes → Type 0
AllTaken [] rest = Unit {0}
AllTaken (u ∷ us) [] = Unit {0}
AllTaken (u ∷ us) (b ∷ bs) =
    (u.running ≡ true)
    × (u.result ≡ pos (length (take 4096 (b ∷ bs))))
    × AllTaken us (drop 4096 (b ∷ bs))

same_local :
    (l : Local) {n m : ℕ} {s t : Bytes}
    → n ≡ m
    → s ≡ t
    → ◌≡◌ {A = Bool × Local}
        (true, record l { file_size = n; sent = s })
        (true, record l { file_size = m; sent = t })
same_local l e f = rw (e, f) refl

-- While the thread is to run and each `send` returns the number of bytes of its block, the loop over the file, with a round for
-- each 4096 bytes begun and one more, sends exactly the file and counts its bytes.
pub send_blocks_whole :
    (us : List Block) (rest : Bytes) (l : Local)
    → AllTaken us rest
    → length rest + 4096 ≤ length us * 4096
    → send_blocks us rest l
      ≡ (true, record l { file_size = l.file_size + length rest; sent = l.sent ++ rest })
unfolding send_blocks
send_blocks_whole [] rest l h k = absurd (omega arith)
send_blocks_whole (u ∷ us) [] l h k = same_local l (omega arith) (sym (append-nil l.sent))
send_blocks_whole (u ∷ us) (b ∷ bs) l h k =
    let x = b ∷ bs in
    let block = take 4096 x in
    let l2 = record l {
      file_size = l.file_size + length block;
      sent = l.sent ++ take (pos_part u.result) block;
    } in
    let n : length block + length (drop 4096 x) ≡ length x =
      omega (arith, length-take 4096 x, length-drop 4096 x) in
    let all : take (pos_part u.result) block ≡ block =
      take_all (pos_part u.result) block (rw h.1 (omega arith)) in
    let taken : is_positive u.result ≡ true = rw h.1 (ground (arith, length-take 4096 x)) in
    let bytes : (l.sent ++ take (pos_part u.result) block) ++ drop 4096 x ≡ l.sent ++ x =
      ap (λ s. (l.sent ++ s) ++ drop 4096 x) all
      ∙ append_assoc l.sent block (drop 4096 x)
      ∙ ap (λ s. l.sent ++ s) (take-append-drop 4096 x) in
    rw (h.0, taken)
      (send_blocks_whole us (drop 4096 x) l2 h.2 (omega (arith, length-drop 4096 x))
        ∙ same_local l (omega (arith, n)) bytes)

all_percent : (total : ℕ) → 0 < total → total * 100 < 2 ^ 64 → total * 100 % 2 ^ 64 / total ≡ 100
all_percent total p small =
    let m : total * 100 % 2 ^ 64 ≡ total * 100 = omega arith in rw m (mul-div_right 100 p)

no_reply_lem :
    (n : ℕ) (c : Bytes) (w : Net) → w.recvs ≡ [] → recv_response n c w ≡ some ((recv_err, []), w)
unfolding recv_response
no_reply_lem n c w e = ground (arith, e)

-- After a file of at most 4096 bytes, the last of what is to be sent, of which `send` took nothing and
-- for which the server sends no reply, the thread's value is 1, success: the bytes are counted where
-- they are read. For a total below 2^64 / 100.
pub check-send_blocks :
    (total : ℕ) (u : Block) (us : List Block) (content : Bytes) (l : Local) (w : Net)
    → u.running ≡ true
    → is_positive u.result ≡ false
    → 0 < length content
    → length content ≤ 4096
    → l.file_size + length content ≡ total
    → total * 100 < 2 ^ 64
    → w.recvs ≡ []
    → (send_blocks (u ∷ us) content l ≡ (true, record l { file_size = total }))
      × (check total (record l { file_size = total }) w
          ≡ some ((next, record l { file_size = total; value = 1 }), close_data w))
check-send_blocks total u us [] l w run lost some_bytes short whole small no_reply =
    absurd (omega arith)
check-send_blocks total u us (b ∷ bs) l w run lost some_bytes short whole small no_reply =
    let n : l.file_size + length (take 4096 (b ∷ bs)) ≡ total =
      omega (arith, length-take 4096 (b ∷ bs)) in
    let after_close : (close_data w).recvs ≡ [] =
      if_both (λ (v : Net). v.recvs ≡ []) (is_positive w.data_socket) no_reply no_reply in
    let percent = all_percent total (omega arith) small in
    let all : (total * 100 % 2 ^ 64 / total == 100) ≡ true = ground (arith, percent) in
    (
      unfold send_blocks in rw (run, lost) (ap (λ k. (true, record l { file_size = k })) n),
      unfold check in
          rw (all, no_reply_lem 256 (codes "226") (close_data w) after_close, ◌>>=◌, check) refl,
    )
