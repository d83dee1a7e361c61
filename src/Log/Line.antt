-- ===== src/Log/Line.antt =====
-- A line of the event log of log/log.c is one line of text.
use cctvmonitor.Base.{
  ℕ, ◌≤◌, ◌<◌, ◌≡◌, ◌≢◌, ◌/◌, ◌%◌, refl, sym, subst, [], ◌∷◌, ◌++◌, ◌==◌, if◌then◌else◌, length,
  Bytes, Lacks, Lacks-append, arith, take_all, length-append, append_assoc, if_both,
}
use cctvmonitor.Config.Lines.{IsLine, IsLine-of}
use cctvmonitor.Config.Edit.{AllText}
use cctvmonitor.Log.{Clock, log_event, log_time, log_line, two}

-- A description without NUL and newline that fits its 128 bytes.
pub record IsPlain (desc : Bytes) : Type 0 where
  pub short : length desc ≤ 127
  pub no_nul : Lacks 0 desc
  pub no_line : Lacks b'\n' desc

Lacks-two : (x n : ℕ) (s : Bytes) → x < 32 → Lacks x s → Lacks x (two n ++ s)
Lacks-two x n s h k = (omega arith, (omega arith, k))

module _ (t : Clock) (type : ℕ) (desc : Bytes) (plain : IsPlain desc) where
  -- The line but for its newline.
  body : Bytes
  body = (if type == log_event then b'e' else b's') ∷ (log_time t ++ (32 ∷ 32 ∷ (desc ++ 13 ∷ [])))

  Lacks-time : (x : ℕ) → x < 32 → Lacks x (log_time t)
  unfolding log_time
  Lacks-time x h =
      let seconds : Bytes = b':' ∷ two t.second in
      let minutes : Bytes = b':' ∷ (two t.minute ++ seconds) in
      let hours : Bytes = b' ' ∷ (two t.hour ++ minutes) in
      let days : Bytes = two t.day ++ hours in
      let months : Bytes = two t.month ++ days in
      Lacks-two x (t.year / 100) (two (t.year % 100) ++ months) h (
        Lacks-two x (t.year % 100) months h (
          Lacks-two x t.month days h (
            Lacks-two x t.day hours h (
              omega arith,
              Lacks-two x t.hour minutes h (
                omega arith,
                Lacks-two x t.minute seconds h (omega arith, Lacks-two x t.second [] h tt),
              ),
            ))))

  Lacks-body : (x : ℕ) → x < 13 → Lacks x desc → Lacks x body
  unfolding body
  Lacks-body x h d = (
    if_both (λ c. c ≢ x) (type == log_event) (omega arith) (omega arith),
    Lacks-append x (log_time t) _ (Lacks-time x (omega arith))
        (omega arith, (omega arith, Lacks-append x desc _ d (omega arith, tt))),
  )

  length-body : length body ≤ 148
  unfolding body log_time
  length-body = omega (arith, length-append desc (13 ∷ []), plain.short)

  log_line-body : log_line t type desc ≡ body ++ b'\n' ∷ []
  unfolding log_line body
  log_line-body =
      rw
        (
          take_all 235 (desc ++ 13 ∷ b'\n' ∷ [])
              (omega (arith, length-append desc (13 ∷ b'\n' ∷ []), plain.short)),
          append_assoc desc (13 ∷ []) (b'\n' ∷ []),
        )
        refl

  pub log_line-IsLine : IsLine (log_line t type desc)
  log_line-IsLine =
      subst IsLine (sym log_line-body)
        (IsLine-of body (Lacks-body b'\n' (omega arith) plain.no_line) (omega (arith, length-body)))

  pub log_line-text : AllText (log_line t type desc ∷ [])
  log_line-text = (
    subst (Lacks 0) (sym log_line-body) (
        Lacks-append 0 body (b'\n' ∷ []) (Lacks-body 0 (omega arith) plain.no_nul)
          (omega arith, tt)),
    tt,
  )
