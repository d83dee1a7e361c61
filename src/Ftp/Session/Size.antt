-- ===== src/Ftp/Session/Size.antt =====
-- FTP_GetFileSize of ftp/ftpApi.c with a server that answers.
use cctvmonitor.Base.{
  ℕ, zero, suc, ◌+◌, ◌-◌, ◌≤◌, ◌<◌, ◌^◌, ◌≡◌, refl, ap, ◌∙◌, true, Option, none, some, List, [],
  ◌∷◌, ◌++◌, length, length-append, take, take-length, drop_all, take_all, drop, Bytes, codes,
  append_assoc, arith, ltb, leb, lt→ltb, c_string, c_string_lem, c_string-append, strstr,
  digits_value, Lacks, Lacks-append, overwrite, replicate,
}
use cctvmonitor.Base.Int.{ℤ, pos, is_positive}
use cctvmonitor.Base.Decimal.{
  decimal, decimal-AllDigits, AllDigits, length-decimal, value-decimal, Lacks-decimal,
}
use cctvmonitor.Gb2312.{Table}
use cctvmonitor.Gb2312.Bounds.{AllAscii, utf_8_to_gb2312-ascii}
use cctvmonitor.Ftp.{
  Sent, wrote, Net, ◌>>=◌, send_from, send_cmd, recv_response, judge, reply_of, max_waits,
  recv_45_err, recv_err, converted, crlf,
}
use cctvmonitor.Ftp.Session.{strtoul, size_of, get_file_size}

strtoul-digits : (s : Bytes) → AllDigits s → strtoul s ≡ digits_value 0 s
unfolding strtoul digits_value
strtoul-digits [] h = refl
strtoul-digits (c ∷ s) h = ground (arith, h.0, h.1)

abbrev pub size_reply : ℕ → Bytes
size_reply n = codes "213 " ++ (decimal n ++ crlf)

size_of-reply : (n : ℕ) → n < 10 ^ 10 → size_of (size_reply n) ≡ some n
size_of-reply n h =
    let found : strstr (size_reply n) (codes "213 ") ≡ some (size_reply n) =
      unfold strstr in refl in
    let le = length-decimal n in
    let long : length (size_reply n) ≡ length (decimal n) + 6 =
      omega (arith, length-append (decimal n) crlf) in
    let less : length (decimal n) + 6 - 6 ≡ length (decimal n) = omega arith in
    let enough : leb 6 (length (decimal n) + 6) ≡ true = ground arith in
    let room : ltb (length (decimal n)) 128 ≡ true = ground arith in
    unfold size_of in
    rw
      (
        long,
        less,
        enough,
        room,
        take-length (decimal n) crlf,
        strtoul-digits (decimal n) (decimal-AllDigits n),
        value-decimal n h,
      )
      refl

pub converted_ascii :
    (t : Table) (s : Bytes) (size : ℕ) (w : Net)
    → AllAscii s
    → Lacks 0 s
    → length s < size
    → converted t s size w ≡ some (s, w)
converted_ascii t s size w h text l =
    let text' : c_string (overwrite (replicate size 0) (s ++ 0 ∷ [])) ≡ s =
      unfold overwrite in
      ap c_string (append_assoc s (0 ∷ []) (drop (length (s ++ 0 ∷ [])) (replicate size 0)))
      ∙ c_string-append s (drop (length (s ++ 0 ∷ [])) (replicate size 0)) text in
    unfold converted in
    ap (λ (o : Option (ℕ × Bytes)). elim o [ none ↦ none | some (n, buf) ↦ some (c_string buf, w) ])
      (utf_8_to_gb2312-ascii t s (0 ∷ []) size h)
    ∙ rw (lt→ltb (length s) size l, text') refl

taken_at_once :
    (b : ℕ) (bs : Bytes) (k : ℕ) (rs : List Sent)
    → length (b ∷ bs) ≤ k
    → send_from max_waits (b ∷ bs) (wrote k ∷ rs) ≡ (pos 0, [], rs)
unfolding send_from
taken_at_once b bs zero rs h = absurd (omega arith)
taken_at_once b bs (suc k) rs h = ap (λ s. send_from max_waits s rs) (drop_all k bs (omega arith))

-- One call of `send` that takes everything.
send_cmd_at_once :
    (cmd : Bytes) (w : Net) (k : ℕ) (rs : List Sent)
    → 0 < length cmd
    → length cmd ≤ k
    → w.sends ≡ wrote k ∷ rs
    → send_cmd cmd w ≡ some (pos 0, record w { sends = rs; wire = w.wire ++ cmd })
unfolding send_cmd
send_cmd_at_once [] w k rs ne h e = absurd (omega arith)
send_cmd_at_once (b ∷ bs) w k rs ne h e =
    let done : send_from max_waits (b ∷ bs) w.sends ≡ (pos 0, [], rs) =
      ap (send_from max_waits (b ∷ bs)) e ∙ taken_at_once b bs k rs h in
    rw done (
      ap (λ s. some (pos 0, record w { sends = rs; wire = w.wire ++ s }))
        (take_all (suc (length bs) - 0) (b ∷ bs) (omega arith)))

reply_of_coded :
    (c reply after : Bytes)
    → length reply < 1024
    → Lacks 0 reply
    → strstr reply c ≡ some after
    → reply_of 1024 c reply ≡ some (pos 0, reply)
reply_of_coded c reply after h l f =
    let good : judge reply c ≡ pos 0 =
      unfold judge in
      ap
        (λ (o : Option Bytes). elim o [
          | some s ↦ pos 0
          | none ↦ elim (strstr reply (codes "45")) [ some s ↦ recv_45_err | none ↦ recv_err ]
        ])
        f in
    unfold reply_of in rw (lt→ltb (length reply) 1024 h, c_string_lem reply l, good) refl

-- A reply that has the code, and fits the buffer.
recv_response_coded :
    (c reply after : Bytes) (w : Net) (rs : List (Option Bytes))
    → is_positive w.client_socket ≡ true
    → w.recvs ≡ some reply ∷ rs
    → 0 < length reply
    → length reply < 1024
    → Lacks 0 reply
    → strstr reply c ≡ some after
    → recv_response 1024 c w ≡ some ((pos 0, reply), record w { recvs = rs })
recv_response_coded c [] after w rs p e ne h l f = absurd (omega arith)
recv_response_coded c (b ∷ bs) after w rs p e ne h l f =
    let r = reply_of_coded c (b ∷ bs) after h l f in
    let whole : take 1024 (b ∷ bs) ≡ b ∷ bs = take_all 1024 (b ∷ bs) (omega arith) in
    unfold recv_response in
    rw (p, e)
      (ap
        (λ (o : Option (ℤ × Bytes)). elim o [
          | none ↦ none
          | some q ↦ some (q, record w { recvs = rs })
        ])
        (ap (reply_of 1024 c) whole ∙ r))

-- FTP_GetFileSize of an ASCII path of at most 248 bytes gets the size that the server's reply "213 n"
-- gives, for a size below 10^10, and has sent exactly the command SIZE with the path; the control socket
-- is open, one call of `send` takes the command, and `recv` brings the reply.
pub get_file_size-reply :
    (t : Table) (path : Bytes) (n k : ℕ) (w : Net) (rs : List Sent) (qs : List (Option Bytes))
    → AllAscii path
    → Lacks 0 path
    → length path ≤ 248
    → n < 10 ^ 10
    → is_positive w.client_socket ≡ true
    → length path + 7 ≤ k
    → w.sends ≡ wrote k ∷ rs
    → w.recvs ≡ some (size_reply n) ∷ qs
    → get_file_size t path w
      ≡ some (
        (pos 0, n),
        record w { sends = rs; recvs = qs; wire = w.wire ++ (codes "SIZE " ++ (path ++ crlf)) },
      )
get_file_size-reply t path n k w rs qs ascii text short h connected m s r =
    let cmd = codes "SIZE " ++ (path ++ crlf) in
    let long : length cmd ≡ length path + 7 = omega (arith, length-append path crlf) in
    let w1 = record w { sends = rs; wire = w.wire ++ cmd } in
    let sent = send_cmd_at_once cmd w k rs (omega arith) (omega arith) s in
    let name = converted_ascii t path 256 w ascii text (omega arith) in
    let fits : ltb (length cmd) 256 ≡ true = ground arith in
    let reply : recv_response 1024 (codes "213") w1
        ≡ some ((pos 0, size_reply n), record w1 { recvs = qs }) =
      recv_response_coded (codes "213") (size_reply n) (size_reply n) w1 qs connected r
        (omega arith) (omega (arith, length-append (decimal n) crlf, length-decimal n))
        (Lacks-append 0 (codes "213 ") (decimal n ++ crlf) (omega arith)
          (Lacks-append 0 (decimal n) crlf (Lacks-decimal 0 n (omega arith)) (omega arith)))
        (unfold strstr in refl) in
    let parsed : size_of (size_reply n) ≡ some n = size_of-reply n h in
    unfold get_file_size in rw (name, fits, sent, reply, parsed, ◌>>=◌, get_file_size) refl
