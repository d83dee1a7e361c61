-- ===== src/Ftp/Download/Silent.antt =====
-- A download of ftp/ftpApi.c whose data does not come.
use cctvmonitor.Base.{
  ℕ, suc, ◌+◌, ◌≤◌, ◌≡◌, refl, sym, ap, subst, ◌∙◌, true, List, [], ◌∷◌, ◌++◌, ltb, if◌then◌else◌,
  length, arith, dec_lt, lt→ltb, ltb-false_of_le,
}
use cctvmonitor.Base.Int.{ℤ, negsuc}
use cctvmonitor.Ftp.Download.{
  Turn, silence, Local, Phase, going, stopped, broke, closed, turn, turns, ended, leave, finish,
}

-- The thread is to run, the stick is there, and `select` brings nothing.
pub record IsSilent (u : Turn) : Type 0 where
  pub running : u.running ≡ true
  pub usb : u.usb ≡ true
  pub nothing : u.arrival ≡ silence

abbrev pub AllSilent : List Turn → Type 0
AllSilent [] = Unit {0}
AllSilent (u ∷ us) = IsSilent u × AllSilent us

turn_silent :
    (total : ℕ) (u : Turn) (l : Local)
    → IsSilent u
    → turn total u l ≡ (
        if ltb 3 l.trytimes
        then (broke, record l { progress = negsuc 2; trytimes = suc l.trytimes })
        else (going, record l { trytimes = suc l.trytimes }))
unfolding turn
turn_silent total u l s = rw (s.running, s.usb, s.nothing) refl

turns_step :
    (total : ℕ) (u : Turn) (us : List Turn) (l : Local) (r : Phase × Local)
    → turn total u l ≡ r
    → turns total (u ∷ us) l ≡ elim r.0 [
      | going ↦ turns total us r.1
      | stopped ↦ (stopped, r.1)
      | broke ↦ (broke, r.1)
      | closed ↦ (closed, r.1)
    ]
unfolding turns
turns_step total u us l r e =
    ap
      (λ (x : Phase × Local). elim x.0 as (λ y. Phase × Local) [
        | going ↦ turns total us x.1
        | stopped ↦ (stopped, x.1)
        | broke ↦ (broke, x.1)
        | closed ↦ (closed, x.1)
      ])
      e

-- The end of a transfer with a failure, and nothing more reported.
abbrev Fails : List ℤ → Phase × Local → Type 0
Fails reports (p, l) = (p ≡ broke) × (l.progress ≡ negsuc 2) × (l.reports ≡ reports)

turns_silent :
    (total : ℕ) (us : List Turn) (l : Local)
    → AllSilent us
    → 5 ≤ length us + l.trytimes
    → 1 ≤ length us
    → Fails l.reports (turns total us l)
turns_silent total [] l s h k = absurd (omega arith)
turns_silent total (u ∷ us) l s h k = elim (dec_lt 3 l.trytimes) [
  | Dec.yes late ↦
      let l1 = record l { progress = negsuc 2; trytimes = suc l.trytimes } in
      let step : turn total u l ≡ (broke, l1) =
        turn_silent total u l s.0
        ∙ ap (λ b. if b then (broke, l1) else (going, record l { trytimes = suc l.trytimes }))
            (lt→ltb 3 l.trytimes late) in
      subst (Fails l.reports) (sym (turns_step total u us l (broke, l1) step)) (refl, refl, refl)
  | Dec.no early ↦
      let l1 = record l { trytimes = suc l.trytimes } in
      let step : turn total u l ≡ (going, l1) =
        turn_silent total u l s.0
        ∙ ap
            (λ b.
              if b
              then (broke, record l { progress = negsuc 2; trytimes = suc l.trytimes })
              else (going, l1))
            (ltb-false_of_le 3 l.trytimes (omega arith)) in
      subst (Fails l.reports) (sym (turns_step total u us l (going, l1) step))
        (turns_silent total us l1 s.1 (omega arith) (omega arith))
]

-- A server that sends nothing for so many rounds of the loop over the data that, with the time-outs it
-- has counted, they are at least five makes the thread leave the loop, report -3 and nothing else, and
-- end.
pub leave-turns_silent :
    (total : ℕ) (us : List Turn) (l : Local)
    → AllSilent us
    → 5 ≤ length us + l.trytimes
    → 1 ≤ length us
    → ((turns total us l).0 ≡ broke)
      × ((leave (turns total us l).1).0 ≡ ended)
      × ((leave (turns total us l).1).1.reports ≡ l.reports ++ negsuc 2 ∷ [])
unfolding finish
leave-turns_silent total us l s h k =
    let (broken_off, failed, same) = turns_silent total us l s h k in
    (broken_off, rw failed refl, rw (failed, same) refl)
