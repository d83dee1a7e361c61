-- ===== src/Pmsg/Frame/Stream.antt =====
-- Reading back what PMSG_SendPmsgData sends.
use cctvmonitor.Base.{
  ℕ, zero, suc, ◌+◌, ◌*◌, ◌/◌, ◌%◌, ◌≤◌, ◌<◌, ◌≡◌, refl, ap, ◌∙◌, ◌⊎◌, inl, inr, Bool, true, Option,
  none, some, List, [], ◌∷◌, ◌++◌, arith, ◌==◌, if◌then◌else◌, length, take, drop, get_or, Bytes,
  append_assoc, length-append, ltb-false_of_le, append_split, dec_lt,
}
use cctvmonitor.Pmsg.Frame.{
  Packet, msg_start_flag, serv_heart, clamp_data, msg_head, frame_ecc, encode, keep, took,
  take_message, round, Scan, prepend, scan, feed,
}

-- A message with its command.
abbrev pub Msg : Type 0
Msg = ℕ × Bytes

-- The packet that a message makes; a heartbeat makes none.
unfoldable pub packet_of : ℕ → Msg → Option Packet
packet_of handle (cmd, bs) =
    if cmd == serv_heart then none else some (record { handle = handle; cmd = cmd; msg = bs })

unfoldable pub packets_of : ℕ → List Msg → List Packet
unfolding packet_of
packets_of handle [] = []
packets_of handle (m ∷ ms) =
    (prepend (packet_of handle m) (record { packets = packets_of handle ms; leave = [] })).packets

-- The bytes of the messages sent one after another.
unfoldable pub stream : List Msg → Bytes
stream [] = []
stream (m ∷ ms) = encode m.0 m.1 ++ stream ms

-- Messages that PMSG_SendPmsgData does not cut.
abbrev pub AllFit : List Msg → Type 0
AllFit [] = Unit {0}
AllFit (m ∷ ms) = (length m.1 ≤ 1019) × AllFit ms

take-length : (bs rest : Bytes) → take (length bs) (bs ++ rest) ≡ bs
take-length [] rest = refl
take-length (b ∷ bs) rest = ap (◌∷◌ b) (take-length bs rest)

drop_past : (bs : Bytes) (e : ℕ) (rest : Bytes) → drop (suc (length bs)) (bs ++ e ∷ rest) ≡ rest
drop_past [] e rest = refl
drop_past (b ∷ bs) e rest = drop_past bs e rest

get_or-length : (bs : Bytes) (e : ℕ) (rest : Bytes) → get_or (bs ++ e ∷ rest) (length bs) 0 ≡ e
get_or-length [] e rest = refl
get_or-length (b ∷ bs) e rest = get_or-length bs e rest

clamp_data_lem : (bs : Bytes) → length bs ≤ 1019 → clamp_data bs ≡ bs
unfolding clamp_data
clamp_data_lem bs h = rw (ltb-false_of_le 1019 (length bs) h)

pub length-encode : (cmd : ℕ) (bs : Bytes) → length (encode cmd bs) ≡ length (clamp_data bs) + 5
unfolding encode msg_head
length-encode cmd bs = omega (
  arith,
  length-append (clamp_data bs)
      (frame_ecc (msg_head cmd (length (clamp_data bs))) (clamp_data bs) ∷ []),
)

module _ (malloc : ℕ → Bool) (handle : ℕ) where
  -- The scans of a sequence of `recv`s, each on the bytes that the one before it left.
  unfoldable pub feed_all : Bytes → List Bytes → Scan
  feed_all l [] = record { packets = []; leave = l }
  feed_all l (c ∷ cs) =
      let s = feed malloc handle l c in
      let t = feed_all s.leave cs in record { packets = s.packets ++ t.packets; leave = t.leave }

  -- The bytes that a scan leaves hold no whole message.
  abbrev pub Settled : Bytes → Type 0
  Settled l = (l ≡ []) ⊎ (round malloc handle l ≡ keep)

module _ (malloc : ℕ → Bool) (handle : ℕ) (served : (n : ℕ) → n ≤ 1035 → malloc n ≡ true) where
  take_message_lem :
      (head : Bytes) (cmd : ℕ) (bs rest : Bytes)
      → length bs ≤ 1019
      → take_message malloc handle head cmd (length bs) (bs ++ frame_ecc head bs ∷ rest)
        ≡ took (packet_of handle (cmd, bs)) rest
  unfolding take_message packet_of
  take_message_lem head cmd bs rest h =
      let e : ℕ = frame_ecc head bs in
      ground (
        arith,
        take-length bs (frame_ecc head bs ∷ rest),
        get_or-length bs (frame_ecc head bs) rest,
        drop_past bs (frame_ecc head bs) rest,
        served (length bs + 16),
      )

  round_whole :
      (cmd hi lo : ℕ) (bs rest : Bytes)
      → hi * 256 + lo ≡ length bs
      → length bs ≤ 1019
      → let head = msg_start_flag ∷ cmd ∷ hi ∷ lo ∷ [] in
        round malloc handle (head ++ (bs ++ frame_ecc head bs ∷ rest))
        ≡ took (packet_of handle (cmd, bs)) rest
  unfolding round
  round_whole cmd hi lo [] rest e h =
      let head : Bytes = msg_start_flag ∷ cmd ∷ hi ∷ lo ∷ [] in
      ground (arith, take_message_lem head cmd [] rest)
  round_whole cmd hi lo (b ∷ bs) rest e h =
      let head : Bytes = msg_start_flag ∷ cmd ∷ hi ∷ lo ∷ [] in
      ground (
        arith,
        take_message_lem head cmd (b ∷ bs) rest,
        length-append bs (frame_ecc head (b ∷ bs) ∷ rest),
      )

  -- The first round takes the first message, whole.
  pub round-encode :
      (cmd : ℕ) (bs rest : Bytes)
      → length bs ≤ 1019
      → round malloc handle (encode cmd bs ++ rest) ≡ took (packet_of handle (cmd, bs)) rest
  unfolding encode msg_head
  round-encode cmd bs rest h =
      rw (clamp_data_lem bs h, append_assoc)
        (round_whole cmd (length bs / 256 % 256) (length bs % 256) bs rest (omega arith) h)

  -- A proper part of a message at the front is kept.
  round-part :
      (p q : Bytes) (cmd hi lo : ℕ) (body rest : Bytes)
      → hi * 256 + lo ≤ 1024
      → p ++ q ≡ msg_start_flag ∷ cmd ∷ hi ∷ lo ∷ (body ++ rest)
      → length p < length body + 4
      → length body ≡ hi * 256 + lo + 1
      → round malloc handle p ≡ keep
  unfolding round
  round-part (h ∷ t ∷ l ∷ k ∷ b ∷ bs) q cmd hi lo body rest hm e lt le = ground arith
  round-part _ q cmd hi lo body rest hm e lt le = refl

  -- A scan of `p`, with `q` still to come, has read the messages `done` of `ms`.
  pub record Reads (ms : List Msg) (q : Bytes) (s : Scan) : Type 0 where
    pub done : List Msg
    pub rest : List Msg
    pub splits : ms ≡ done ++ rest
    pub fits : AllFit rest
    pub read : s.packets ≡ packets_of handle done
    pub left : s.leave ++ q ≡ stream rest
    pub settled : Settled malloc handle s.leave

  Reads-nil :
      (ms : List Msg) (l q : Bytes)
      → AllFit ms
      → l ++ q ≡ stream ms
      → Settled malloc handle l
      → Reads ms q (record { packets = []; leave = l })
  unfolding packets_of
  Reads-nil ms l q f e st = record {
    done = [];
    rest = ms;
    splits = refl;
    fits = f;
    read = refl;
    left = e;
    settled = st;
  }

  Reads-cons :
      (m : Msg) {ms : List Msg} {q : Bytes} {s : Scan}
      → Reads ms q s
      → Reads (m ∷ ms) q (prepend (packet_of handle m) s)
  unfolding packets_of packet_of
  Reads-cons m r = record {
    done = m ∷ r.done;
    rest = r.rest;
    splits = cc r.splits;
    fits = r.fits;
    read = ground (arith, r.read);
    left = ground (arith, r.left);
    settled = ground (arith, r.settled);
  }

  round-encode_part :
      (p q : Bytes) (m : Msg) (rest : Bytes)
      → length m.1 ≤ 1019
      → p ++ q ≡ encode m.0 m.1 ++ rest
      → length p < length (encode m.0 m.1)
      → round malloc handle p ≡ keep
  unfolding encode msg_head
  round-encode_part p q (cmd, bs) rest h e lt =
      let head : Bytes = msg_head cmd (length bs) in
      let body : Bytes = bs ++ frame_ecc head bs ∷ [] in
      round-part p q cmd (length bs / 256 % 256) (length bs % 256) body rest (omega arith)
        (rw (clamp_data_lem bs h) at e) (omega (arith, rw (clamp_data_lem bs h) at lt))
        (omega (arith, length-append bs (frame_ecc head bs ∷ [])))

  scan_took :
      (fuel b : ℕ) (p r : Bytes) (o : Option Packet)
      → round malloc handle (b ∷ p) ≡ took o r
      → scan malloc handle (suc fuel) (b ∷ p) ≡ prepend o (scan malloc handle fuel r)
  unfolding scan
  scan_took fuel b p r o e = rw (e, scan)

  scan_keep :
      (fuel b : ℕ) (p : Bytes)
      → round malloc handle (b ∷ p) ≡ keep
      → scan malloc handle (suc fuel) (b ∷ p) ≡ record { packets = []; leave = b ∷ p }
  unfolding scan
  scan_keep fuel b p e = rw (e, scan)

  scan-stream_whole :
      (fuel : ℕ) (m : Msg) (ms : List Msg) (b : ℕ) (p q : Bytes)
      → AllFit (m ∷ ms)
      → (b ∷ p) ++ q ≡ stream (m ∷ ms)
      → (r : Bytes) × (b ∷ p ≡ encode m.0 m.1 ++ r) × (r ++ q ≡ stream ms)
      → ((r : Bytes)
          → b ∷ p ≡ encode m.0 m.1 ++ r
          → r ++ q ≡ stream ms
          → Reads ms q (scan malloc handle fuel r))
      → Reads (m ∷ ms) q (scan malloc handle (suc fuel) (b ∷ p))
  scan-stream_whole fuel m ms b p q f e (r, e1, e2) later =
      rw
        (scan_took fuel b p r (packet_of handle m)
          (ap (round malloc handle) e1 ∙ round-encode m.0 m.1 r f.0))
        (Reads-cons m (later r e1 e2))

  pub scan-stream :
      (fuel : ℕ) (ms : List Msg) (p q : Bytes)
      → AllFit ms
      → length p ≤ fuel
      → p ++ q ≡ stream ms
      → Reads ms q (scan malloc handle fuel p)
  unfolding stream scan
  scan-stream fuel ms [] q f h e = Reads-nil ms [] q f e (inl refl)
  scan-stream fuel [] (b ∷ p) q f h e = absurd (cc)
  scan-stream zero (m ∷ ms) (b ∷ p) q f h e = absurd (omega arith)
  scan-stream (suc fuel) (m ∷ ms) (b ∷ p) q f h e =
      elim (dec_lt (suc (length p)) (length (encode m.0 m.1))) [
        | yes short ↦
            rw (scan_keep fuel b p (round-encode_part (b ∷ p) q m (stream ms) f.0 e short)) (
              Reads-nil (m ∷ ms) (b ∷ p) q f e
                (inr (round-encode_part (b ∷ p) q m (stream ms) f.0 e short)))
        | no long ↦
            scan-stream_whole fuel m ms b p q f e
              (append_split (b ∷ p) q (encode m.0 m.1) (stream ms) e (omega arith))
              (λ r e1 e2.
                scan-stream fuel ms r q f.1
                  (omega
                    (arith, ap length e1, length-append (encode m.0 m.1) r, length-encode m.0 m.1))
                  e2)
      ]
