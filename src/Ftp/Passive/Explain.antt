-- ===== src/Ftp/Passive/Explain.antt =====
-- What FTP_Explain227Cmd of ftp/ftpApi.c makes of a reply.
use cctvmonitor.Base.{
  ℕ, zero, suc, ◌+◌, ◌-◌, ◌*◌, ◌≤◌, ◌<◌, ◌≡◌, ◌≢◌, refl, sym, ap, ◌∙◌, Bool, Option, none, some, [],
  ◌∷◌, ◌++◌, ◌==◌, ltb, leb, if◌then◌else◌, length, length-append, take-length, take, Bytes, strsep,
  strsep-append, strstr, strstr-append, map, Lacks, Lacks-append, arith, append_assoc, if_both_of,
  lt→ltb,
}
use cctvmonitor.Base.Int.{pos, ◌+ℤ◌, ◌*ℤ◌}
use cctvmonitor.Base.Decimal.{atoi, decimal, atoi-decimal, length-decimal_three, Lacks-decimal}
use cctvmonitor.Ftp.Passive.{
  displace_from, displace_char, behind_commas, finish, locate, split_227, within, explain_227,
}

abbrev pub dot : ℕ → ℕ
dot b = if b == b',' then b'.' else b

commas : Bytes → ℕ
commas [] = 0
commas (b ∷ s) = if b == b',' then suc (commas s) else commas s

commas-le : (s : Bytes) → commas s ≤ length s
unfolding commas
commas-le [] = omega arith
commas-le (b ∷ s) = ground (arith, commas-le s)

no_comma : (s : Bytes) → commas s ≤ 0 → map dot s ≡ s
unfolding commas
no_comma [] h = refl
no_comma (b ∷ s) h = ground (arith, no_comma s)

-- What the first comma splits a text into.
abbrev Splits : Bytes → Bytes × Option Bytes → Type 0
Splits dir (front, none) = (map dot dir ≡ dir)
Splits dir (front, some s) =
    (map dot (front ++ b'.' ∷ s) ≡ map dot dir) × (suc (commas (front ++ b'.' ∷ s)) ≡ commas dir)

Splits-cons :
    (b : ℕ) (s : Bytes) (r : Bytes × Option Bytes)
    → (b == b',') ≡ Bool.false
    → Splits s r
    → Splits (b ∷ s) (b ∷ r.0, r.1)
unfolding commas
Splits-cons b s (front, none) e h = rw e (ap (◌∷◌ b) h)
Splits-cons b s (front, some r) e h = (ap (◌∷◌ (dot b)) h.0, rw e (omega (arith, h.1)))

Splits-strsep : (dir : Bytes) → Splits dir (strsep b',' dir)
unfolding strsep commas
Splits-strsep [] = refl
Splits-strsep (b ∷ s) =
    if_both_of (Splits (b ∷ s)) (b == b',') (λ e. (rw e refl, rw e refl))
      (λ e. Splits-cons b s (strsep b',' s) e (Splits-strsep s))

-- Enough rounds leave no comma.
displace_from-dots : (n : ℕ) (dir : Bytes) → commas dir ≤ n → displace_from n dir ≡ map dot dir
unfolding displace_from
displace_from-dots zero dir h = sym (no_comma dir h)
displace_from-dots (suc n) dir h = step (strsep b',' dir) (Splits-strsep dir) (displace_from-dots n)
  where
    step :
        (r : Bytes × Option Bytes)
        → Splits dir r
        → ((d : Bytes) → commas d ≤ n → displace_from n d ≡ map dot d)
        → (elim r.1 [ none ↦ dir | some s ↦ displace_from n (r.0 ++ b'.' ∷ s) ]) ≡ map dot dir
    step (front, none) k more = sym k
    step (front, some s) k more = more (front ++ b'.' ∷ s) (omega (arith, k.1)) ∙ k.0

-- displace_char, which in each round makes the first comma a dot, ends with every comma a dot and
-- nothing else changed.
pub displace_char-dots : (dir : Bytes) → displace_char dir ≡ map dot dir
unfolding displace_char
displace_char-dots dir = displace_from-dots (length dir) dir (commas-le dir)

-- Four numbers with a separator.
abbrev pub joined : ℕ → Bytes → Bytes → Bytes → Bytes → Bytes
joined sep a b c d = a ++ sep ∷ (b ++ sep ∷ (c ++ sep ∷ d))

map-dot : (s : Bytes) → Lacks b',' s → map dot s ≡ s
map-dot [] h = refl
map-dot (b ∷ s) h = ground (arith, h.0, map-dot s h.1)

map-dot-append : (s t : Bytes) → Lacks b',' s → map dot (s ++ b',' ∷ t) ≡ s ++ b'.' ∷ map dot t
map-dot-append [] t h = refl
map-dot-append (b ∷ s) t h = ground (arith, h.0, map-dot-append s t h.1)

behind_comma :
    (n : ℕ) (s t : Bytes) → Lacks b',' s → behind_commas (suc n) (s ++ b',' ∷ t) ≡ behind_commas n t
unfolding behind_commas
behind_comma n s t h =
    ap (λ (r : Bytes × Option Bytes). elim r.1 [ none ↦ none | some q ↦ behind_commas n q ])
      (strsep-append b',' s t h)

module _ (a b c d high low : Bytes) (la : Lacks b',' a) (lb : Lacks b',' b) (lc : Lacks b',' c)
    (ld : Lacks b',' d) (lh : Lacks b',' high) where
  abbrev port : Bytes
  port = high ++ b',' ∷ low

  abbrev inside : Bytes
  inside = joined b',' a b c (d ++ b',' ∷ port)

  abbrev address : Bytes
  address = joined b',' a b c d

  behind_four : behind_commas 4 inside ≡ some port
  behind_four =
      behind_comma 3 a (b ++ b',' ∷ (c ++ b',' ∷ (d ++ b',' ∷ port))) la
      ∙ behind_comma 2 b (c ++ b',' ∷ (d ++ b',' ∷ port)) lb
      ∙ behind_comma 1 c (d ++ b',' ∷ port) lc
      ∙ behind_comma 0 d port ld
      ∙ unfold behind_commas in refl

  inside-append : inside ≡ address ++ b',' ∷ port
  inside-append =
      rw
        (
          append_assoc a (b',' ∷ (b ++ b',' ∷ (c ++ b',' ∷ d))) (b',' ∷ port),
          append_assoc b (b',' ∷ (c ++ b',' ∷ d)) (b',' ∷ port),
          append_assoc c (b',' ∷ d) (b',' ∷ port),
        )
        refl

  displaced : displace_char address ≡ joined b'.' a b c d
  displaced =
      displace_char-dots address
      ∙ rw
          (
            map-dot-append a (b ++ b',' ∷ (c ++ b',' ∷ d)) la,
            map-dot-append b (c ++ b',' ∷ d) lb,
            map-dot-append c d lc,
            map-dot d ld,
          )
          refl

  split_227_lem :
      length high < 10
      → length low < 10
      → strstr inside port ≡ some port
      → split_227 inside ≡ some (joined b'.' a b c d, atoi high *ℤ pos 256 +ℤ atoi low)
  split_227_lem h l first =
      let at : length inside - length port ≡ length address + 1 =
        omega (arith, ap length inside-append, length-append address (b',' ∷ port)) in
      let front : take (length address) inside ≡ address =
        ap (take (length address)) inside-append ∙ take-length address (b',' ∷ port) in
      let less : length address + 1 - 1 ≡ length address = omega arith in
      let some_address : ltb 0 (length address + 1) ≡ Bool.true = ground arith in
      unfold split_227 in
      ap (λ (o : Option Bytes). elim o [ none ↦ none | some p ↦ locate inside p ]) behind_four
      ∙ ap
          (λ (o : Option Bytes). elim o [
            | none ↦ none
            | some f ↦ finish inside (length inside - length f) (strsep b',' port)
          ])
          first
      ∙ ap (finish inside (length inside - length port)) (strsep-append b',' high low lh)
      ∙ unfold finish in
        rw (at, some_address, lt→ltb (length high) 10 h, lt→ltb (length low) 10 l, less, front)
          (ap (λ x. some (x, atoi high *ℤ pos 256 +ℤ atoi low)) displaced)

-- The text between the parentheses is what is split.
explain_227-split :
    (pre str post : Bytes)
    → Lacks b'(' pre
    → Lacks b')' pre
    → Lacks b')' str
    → length str < 60
    → explain_227 (pre ++ b'(' ∷ (str ++ b')' ∷ post)) ≡ split_227 str
explain_227-split pre str post l r l' h =
    let begin = b'(' ∷ (str ++ b')' ∷ post) in
    let reply = pre ++ begin in
    let regroup : reply ≡ (pre ++ b'(' ∷ str) ++ b')' ∷ post =
      sym (append_assoc pre (b'(' ∷ str) (b')' ∷ post)) in
    let opened : strstr reply (b'(' ∷ []) ≡ some begin =
      strstr-append b'(' pre (str ++ b')' ∷ post) l in
    let closed : strstr reply (b')' ∷ []) ≡ some (b')' ∷ post) = rw regroup (
      strstr-append b')' (pre ++ b'(' ∷ str) post
        (Lacks-append b')' pre (b'(' ∷ str) r (omega arith, l'))) in
    let between : length begin - suc (length post) ≡ length str + 1 =
      omega (arith, length-append str (b')' ∷ post)) in
    let inner : take (length str + 1 - 1) (str ++ b')' ∷ post) ≡ str =
      let less : length str + 1 - 1 ≡ length str = omega arith in
      rw less (take-length str (b')' ∷ post)) in
    let after : ltb (suc (length post)) (length begin) ≡ Bool.true =
      lt→ltb _ _ (omega (arith, length-append str (b')' ∷ post))) in
    let fits : leb (length str + 1) 60 ≡ Bool.true = ground arith in
    unfold explain_227 in
    ap
      (λ (o : Option Bytes). elim o [
        | none ↦ none
        | some begin ↦ elim (strstr reply (b')' ∷ [])) [ none ↦ none | some end ↦ within begin end ]
      ])
      opened
    ∙ ap (λ (o : Option Bytes). elim o [ none ↦ none | some end ↦ within begin end ]) closed
    ∙ unfold within in rw (after, between, fits) (ap split_227 inner)

-- The reply `227 … (a,b,c,d,p,q)…`: the text in front has no parenthesis.
abbrev pub reply_227 : Bytes → Bytes → ℕ → ℕ → ℕ → ℕ → ℕ → ℕ → Bytes
reply_227 pre post a b c d p q =
    pre
    ++ b'('
      ∷ (joined b',' (decimal a) (decimal b) (decimal c)
            (decimal d ++ b',' ∷ (decimal p ++ b',' ∷ decimal q))
          ++ b')' ∷ post)

Lacks-joined :
    (x sep : ℕ) (a b c d : Bytes)
    → sep ≢ x
    → Lacks x a
    → Lacks x b
    → Lacks x c
    → Lacks x d
    → Lacks x (joined sep a b c d)
Lacks-joined x sep a b c d ne la lb lc ld =
    Lacks-append x a _ la (ne, Lacks-append x b _ lb (ne, Lacks-append x c _ lc (ne, ld)))

length-joined :
    (sep : ℕ) (a b c d : Bytes)
    → length (joined sep a b c d) ≡ length a + length b + length c + length d + 3
length-joined sep a b c d = omega (
  arith,
  length-append a (sep ∷ (b ++ sep ∷ (c ++ sep ∷ d))),
  length-append b (sep ∷ (c ++ sep ∷ d)),
  length-append c (sep ∷ d),
)

port_number : (p q : ℕ) → pos p *ℤ pos 256 +ℤ pos q ≡ pos (p * 256 + q)
unfolding ◌*ℤ◌ ◌+ℤ◌
port_number p q = ground arith

-- Where the overlapping `strcpy` of its loop moves the text as `memmove` would, FTP_Explain227Cmd gives the dotted address and the port p * 256 + q of a reply whose six numbers are
-- below 256 and whose text in front has no parenthesis, if the port's text `p,q` does not occur in the
-- list of numbers before its place.
pub explain_227-reply :
    (pre post : Bytes) (a b c d p q : ℕ)
    → Lacks b'(' pre
    → Lacks b')' pre
    → (a < 256) × (b < 256) × (c < 256) × (d < 256) × (p < 256) × (q < 256)
    → strstr
        (joined b','
          (decimal a)
          (decimal b)
          (decimal c)
          (decimal d ++ b',' ∷ (decimal p ++ b',' ∷ decimal q)))
        (decimal p ++ b',' ∷ decimal q)
      ≡ some (decimal p ++ b',' ∷ decimal q)
    → explain_227 (reply_227 pre post a b c d p q)
      ≡ some (joined b'.' (decimal a) (decimal b) (decimal c) (decimal d), pos (p * 256 + q))
explain_227-reply pre post a b c d p q l r (ha, hb, hc, hd, hp, hq) first =
    let last = decimal p ++ b',' ∷ decimal q in
    let tail = decimal d ++ b',' ∷ last in
    let three = λ (n : ℕ) (h : n < 256). length-decimal_three n (omega arith) in
    let free = λ (n : ℕ). Lacks-decimal b',' n (omega arith) in
    let close = λ (n : ℕ). Lacks-decimal b')' n (omega arith) in
    let nine : (n : ℕ) → n < 256 → length (decimal n) < 10 = λ n h. omega (arith, three n h) in
    let ne : ◌≢◌ {A = ℕ} b',' b')' = omega arith in
    let whole : Lacks b')' (joined b',' (decimal a) (decimal b) (decimal c) tail) =
      Lacks-joined b')' b',' (decimal a) (decimal b) (decimal c) tail ne (close a) (close b)
        (close c)
        (Lacks-append b')' (decimal d) (b',' ∷ last) (close d)
          (ne, Lacks-append b')' (decimal p) (b',' ∷ decimal q) (close p) (ne, close q))) in
    let short : length (joined b',' (decimal a) (decimal b) (decimal c) tail) < 60 = omega (
      arith,
      length-joined b',' (decimal a) (decimal b) (decimal c) tail,
      length-append (decimal d) (b',' ∷ last),
      length-append (decimal p) (b',' ∷ decimal q),
      three a ha,
      three b hb,
      three c hc,
      three d hd,
      three p hp,
      three q hq,
    ) in
    explain_227-split pre (joined b',' (decimal a) (decimal b) (decimal c) tail) post l r whole
      short
    ∙ split_227_lem (decimal a) (decimal b) (decimal c) (decimal d) (decimal p) (decimal q) (free a)
        (free b) (free c) (free d) (free p) (nine p hp) (nine q hq) first
    ∙ ap (λ n. some (joined b'.' (decimal a) (decimal b) (decimal c) (decimal d), n))
        (rw (atoi-decimal p (omega arith), atoi-decimal q (omega arith)) (port_number p q))
