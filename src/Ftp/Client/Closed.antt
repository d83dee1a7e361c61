-- ===== src/Ftp/Client/Closed.antt =====
-- How FTP_DestoryConnect of ftp/ftpApi.c leaves the sockets and the queue.
use cctvmonitor.Base.{
  ℕ, ◌≡◌, ◌<◌, refl, sym, ap, subst, ◌∙◌, ◌≢◌, Bool, true, false, Option, none, some, List, [], ◌∷◌,
  ◌++◌, length, take, length-take, Bytes, codes, ◌-◌, if◌then◌else◌, arith,
}
use cctvmonitor.Base.Int.{ℤ, pos, is_positive}
use cctvmonitor.Queue.{Queue, Heap, destroy}
use cctvmonitor.Queue.Chain.{Holds}
use cctvmonitor.Queue.Destroy.{AllFreed, destroy_frees_all}
use cctvmonitor.Ftp.{
  M, return, send_from, max_waits, Net, ◌>>=◌, is_negative, send_cmd, reply_of, recv_response,
  cmd_ctrl, crlf,
}
use cctvmonitor.Ftp.Session.{quit}
use cctvmonitor.Ftp.Download.{Packet}
use cctvmonitor.Ftp.Client.{Client, close, destroy_connect}

-- Each answer of `recv` leaves room for the NUL in 1024 bytes.
abbrev pub AreShort : List (Option Bytes) → Type 0
AreShort [] = Unit {0}
AreShort (none ∷ rs) = AreShort rs
AreShort (some bs ∷ rs) = (length bs < 1024) × AreShort rs

some_of : {A : Type 0} (o : Option A) → o ≢ none → (a : A) × (o ≡ some a)
some_of none ne = absurd (ne refl)
some_of (some a) ne = (a, refl)

reply_of-some : (c bs : Bytes) → length bs < 1024 → reply_of 1024 c (take 1024 bs) ≢ none
unfolding reply_of
reply_of-some c bs h = ground (arith, length-take 1024 bs)

recv_from-some :
    (c : Bytes) (w : Net) (rs : List (Option Bytes))
    → w.recvs ≡ rs
    → AreShort rs
    → recv_response 1024 c w ≢ none
unfolding recv_response
recv_from-some c w [] e h = ground (arith, e)
recv_from-some c w (none ∷ rs) e h = ground (arith, e)
recv_from-some c w (some [] ∷ rs) e h = ground (arith, e)
recv_from-some c w (some (b ∷ bs) ∷ rs) e h = ground (arith, e, reply_of-some c (b ∷ bs) h.0)

either-some :
    (test : Bool) (m n : M ℤ) (w : Net) → m w ≢ none → n w ≢ none → (if test then m else n) w ≢ none
either-some true m n w h g = h
either-some false m n w h g = g

bind-some :
    {A B : Type 0} (m : M A) (f : A → M B) (w : Net)
    → m w ≢ none
    → ((a : A) (w' : Net) → f a w' ≢ none)
    → (m >>= f) w ≢ none
bind-some {A = A} m f w h g =
    let ((a, w'), e) = some_of (m w) h in
    subst (λ (o : Option (A × Net)). elim o [ none ↦ none | some (a, w') ↦ f a w' ] ≢ none) (sym e)
      (g a w')

cmd_ctrl-some : (b : ℕ) (bs c : Bytes) (w : Net) → AreShort w.recvs → cmd_ctrl (b ∷ bs) c w ≢ none
unfolding cmd_ctrl send_cmd
cmd_ctrl-some b bs c w h =
    let (r, left, rs) = send_from max_waits (b ∷ bs) w.sends in
    let w1 = record w {
      sends = rs;
      wire = w.wire ++ take (length (b ∷ bs) - length left) (b ∷ bs);
    } in
    either-some (is_negative r) (return r) (recv_response 1024 c >>= λ r. return r.0) w1 (λ e. cc)
      (bind-some (recv_response 1024 c) (λ r. return r.0) w1 (recv_from-some c w1 w.recvs refl h)
        (λ a w' e. cc))

quit-some : (w : Net) → AreShort w.recvs → quit w ≢ none
unfolding quit
quit-some w h = cmd_ctrl-some b'Q' (codes "UIT" ++ crlf) (codes "221") w h

-- No socket stays open.
close-closed :
    (w : Net)
    → (is_positive (close w).client_socket ≡ false) × (is_positive (close w).data_socket ≡ false)
close-closed w = ground arith

destroy_connect_steps :
    (c : Client) (fuel : ℕ) (h : Heap Packet) (r : ℤ) (w : Net)
    → destroy fuel c.queue ≡ some (pos 0, some h)
    → quit c.net ≡ some (r, w)
    → destroy_connect fuel (some c)
      ≡ some (pos 0, some (record { result = pos 0; net = close w; heap = some h }))
unfolding destroy_connect
destroy_connect_steps c fuel h r w e f = rw (e, f, destroy_connect) refl

-- FTP_DestoryConnect of a connection returns 0 with both its sockets closed and every packet of its
-- queue given back, whatever `send` takes and the server answers to QUIT, if each answer is below 1024
-- bytes; the loop over the queue takes one round more than there are packets.
pub destroy_connect-closed :
    (c : Client) (q : Queue Packet) (cs : List (ℕ × Packet)) (fuel : ℕ)
    → c.queue ≡ some q
    → Holds q cs
    → length cs < fuel
    → AreShort c.net.recvs
    → (w : Net) × (h : Heap Packet) × (destroy_connect fuel (some c)
        ≡ some (pos 0, some (record { result = pos 0; net = w; heap = some h })))
      × (is_positive w.client_socket ≡ false)
      × (is_positive w.data_socket ≡ false)
      × AllFreed h cs
destroy_connect-closed c q cs fuel at holds lt short =
    let (h, freed, all) = destroy_frees_all q cs fuel holds lt in
    let ((r, w), left) = some_of (quit c.net) (quit-some c.net short) in
    let (a, b) = close-closed w in
    (close w, h, destroy_connect_steps c fuel h r w (ap (destroy fuel) at ∙ freed) left, a, b, all)
