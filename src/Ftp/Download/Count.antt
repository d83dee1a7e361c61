-- ===== src/Ftp/Download/Count.antt =====
-- What a transfer of the download thread of ftp/ftpApi.c keeps: the bytes are counted, and the progress
-- is the part of the total that they are.
use native.Mathlib.Nat.{div-le_of_le-mul, le-div_iff_mul-le}
use cctvmonitor.Base.{
  ℕ, suc, ◌+◌, ◌-◌, ◌*◌, ◌%◌, ◌^◌, ◌≤◌, ◌<◌, ◌≡◌, min, not, List, [], ◌∷◌, ◌++◌, ◌==◌, ltb,
  if◌then◌else◌, length, length-append, length-take, take, Bytes, arith, if_both, if_both_of,
}
use cctvmonitor.Base.Int.{ℤ, pos, negsuc}
use cctvmonitor.Ftp.Download.{
  Turn, silence, broken, bytes, Local, Phase, going, stopped, broke, closed, recv_size, percent,
  report, store, turn, turns,
}

-- A progress that is reported on the way.
abbrev pub Early : ℤ → Type 0
Early (pos k) = (1 ≤ k) × (k < 100)
Early (negsuc k) = ⊥

abbrev pub AllEarly : List ℤ → Type 0
AllEarly [] = Unit {0}
AllEarly (r ∷ rs) = Early r × AllEarly rs

AllEarly-append : (rs : List ℤ) (r : ℤ) → AllEarly rs → Early r → AllEarly (rs ++ r ∷ [])
AllEarly-append [] r h k = (k, tt)
AllEarly-append (q ∷ rs) r h k = (h.0, AllEarly-append rs r h.1 k)

-- The progress while there is more to come, and at an end: 100 with all bytes, or a failure.
abbrev pub Below : ℤ → Type 0
Below (pos k) = k < 100
Below (negsuc k) = ⊥

abbrev pub Ends : ℕ → ℕ → ℤ → Type 0
Ends total got (pos k) = (k ≡ 100) × (got ≡ total)
Ends total got (negsuc k) = k ≤ 2

-- The bytes in the files are counted and no more than the total.
pub record Counted (total : ℕ) (l : Local) : Type 0 where
  pub stored : length l.file ≡ l.file_size
  pub within : l.file_size ≤ total
  pub early : AllEarly l.reports

abbrev pub InPhase : ℕ → Phase × Local → Type 0
InPhase total (going, l) = Counted total l × Below l.progress
InPhase total (stopped, l) = Counted total l × Below l.progress
InPhase total (broke, l) = Counted total l × Ends total l.file_size l.progress
InPhase total (closed, l) = Counted total l × Below l.progress

module _ (total : ℕ) (small : total * 100 < 2 ^ 64) where
  percent_facts :
      (got : ℕ)
      → 0 < total
      → got ≤ total
      → (percent total got ≤ 100) × (percent total got ≡ 100 → got ≡ total)
  unfolding percent
  percent_facts got p h =
      let m : got * 100 % 2 ^ 64 ≡ got * 100 = omega arith in
      rw m (
        div-le_of_le-mul total {m = got * 100} {n = 100} (omega arith),
        λ e.
            let le =
              (le-div_iff_mul-le {k = total} {x = 100} {y = got * 100} p).0 (omega (arith, e)) in
            omega arith,
      )

  recv_size-le : (got : ℕ) → got ≤ total → recv_size total got ≤ total - got
  unfolding recv_size
  recv_size-le got h = ground arith

  report-InPhase : (l : Local) → Counted total l → Below l.progress → InPhase total (report total l)
  unfolding report
  report-InPhase l c b =
      let p = percent total l.file_size in
      if_both_of (InPhase total) (ltb 0 total)
        (λ some_total.
          let (le, all) = percent_facts l.file_size (ground (arith, some_total)) c.within in
          if_both_of (InPhase total) (ltb 0 p)
            (λ positive.
              if_both_of (InPhase total) (p == 100)
                (λ e. (
                  record { stored = c.stored; within = c.within; early = c.early },
                  (ground (arith, e), all (ground (arith, e))),
                ))
                (λ e. (
                  record {
                    stored = c.stored;
                    within = c.within;
                    early =
                        AllEarly-append l.reports (pos p) c.early
                          (ground (arith, positive), ground (arith, le, e));
                  },
                  ground (arith, le, e),
                )))
            (λ none_yet. (
              record { stored = c.stored; within = c.within; early = c.early },
              ground (arith, none_yet),
            )))
        (λ e. (c, b))

  store-InPhase :
      (u : Turn) (got : Bytes) (l : Local)
      → Counted total l
      → Below l.progress
      → length got ≤ total - l.file_size
      → InPhase total (store total u got l)
  unfolding store
  store-InPhase u got l c b h =
      let n = min u.written (length got) in
      let le : n ≤ length got = omega arith in
      let kept : length (take n got) ≡ n = omega (arith, length-take n got) in
      if_both (InPhase total) (n == 0)
        (
          record { stored = c.stored; within = c.within; early = c.early },
          if_both (Ends total l.file_size) u.usb_after (omega arith) (omega arith),
        )
        (report-InPhase (record l { file_size = l.file_size + n; file = l.file ++ take n got })
          (record {
            stored = omega (arith, length-append l.file (take n got), kept, c.stored);
            within = omega (arith, c.within, h, le);
            early = c.early;
          })
          b)

  turn-InPhase :
      (u : Turn) (l : Local) → Counted total l → Below l.progress → InPhase total (turn total u l)
  unfolding turn
  turn-InPhase u l c b =
      let same : (q : ℤ) (n : ℕ) → Counted total (record l { progress = q; trytimes = n }) =
        λ q n. record { stored = c.stored; within = c.within; early = c.early } in
      if_both (InPhase total) (not u.running) (c, b)
        (if_both (InPhase total) (not u.usb) (same (negsuc 0) l.trytimes, omega arith)
          (elim u.arrival
            as (λ a. InPhase total (elim a [
              | silence ↦
                  if ltb 3 l.trytimes
                  then (broke, record l { progress = negsuc 2; trytimes = suc l.trytimes })
                  else (going, record l { trytimes = suc l.trytimes })
              | broken ↦ (broke, record l { progress = negsuc 2; trytimes = 0 })
              | bytes bs ↦
                  if length (take (recv_size total l.file_size) bs) == 0
                  then (closed, record l { trytimes = 0 })
                  else store total u (take (recv_size total l.file_size) bs)
                      (record l { trytimes = 0 })
            ])) [
              | silence ↦
                  if_both (InPhase total) (ltb 3 l.trytimes)
                    (same (negsuc 2) (suc l.trytimes), omega arith)
                    (same l.progress (suc l.trytimes), b)
              | broken ↦ (same (negsuc 2) 0, omega arith)
              | bytes bs ↦
                  let got = take (recv_size total l.file_size) bs in
                  if_both (InPhase total) (length got == 0) (same l.progress 0, b)
                    (store-InPhase u got (record l { trytimes = 0 }) (same l.progress 0) b
                      (omega (
                        arith,
                        length-take (recv_size total l.file_size) bs,
                        recv_size-le l.file_size c.within,
                      )))
            ]))

  pub turns-InPhase :
      (us : List Turn) (l : Local)
      → Counted total l
      → Below l.progress
      → InPhase total (turns total us l)
  unfolding turns
  turns-InPhase [] l c b = (c, b)
  turns-InPhase (u ∷ us) l c b = step (turn total u l) (turn-InPhase u l c b) (turns-InPhase us)
    where
      step :
          (r : Phase × Local)
          → InPhase total r
          → ((k : Local) → Counted total k → Below k.progress → InPhase total (turns total us k))
          → InPhase total (elim r.0 [
            | going ↦ turns total us r.1
            | stopped ↦ (stopped, r.1)
            | broke ↦ (broke, r.1)
            | closed ↦ (closed, r.1)
          ])
      step (going, k) h more = more k h.0 h.1
      step (stopped, k) h more = h
      step (broke, k) h more = h
      step (closed, k) h more = h
