-- ===== src/Ftp/Download/Progress.antt =====
-- What the download thread of ftp/ftpApi.c tells its callback.
use cctvmonitor.Base.{
  ℕ, ◌*◌, ◌^◌, ◌≤◌, ◌<◌, ◌≡◌, ◌⊎◌, inl, inr, refl, sym, subst, Bool, true, false, not, ◌&&◌, ◌||◌,
  Option, none, some, List, [], ◌∷◌, ◌++◌, ◌==◌, if◌then◌else◌, length, arith, if_both,
}
use cctvmonitor.Base.Int.{ℤ, pos, negsuc, eq_ℤ}
use cctvmonitor.Gb2312.{Table}
use cctvmonitor.Ftp.{Net, M, return, ◌>>=◌, is_negative}
use cctvmonitor.Ftp.Download.Count.{AllEarly, Below, Ends, Counted, InPhase, turns-InPhase}
use cctvmonitor.Ftp.Download.{
  Local, Phase, going, stopped, broke, closed, turns, Round, After, next, ended, inside, Packet,
  prepare, download_cmd, is_final, finish, leave, confirm, transfer, round, download, started,
}

-- At the end of the thread: the reports are some on the way, and at most one that tells the end.
pub record IsDone (total : ℕ) (l : Local) : Type 0 where
  pub stored : length l.file ≡ l.file_size
  pub within : l.file_size ≤ total
  pub front : List ℤ
  pub early : AllEarly front
  pub last :
      (l.reports ≡ front) ⊎ ((r : ℤ) × (l.reports ≡ front ++ r ∷ []) × Ends total l.file_size r)

not_final : (q : ℤ) → Below q → is_final q ≡ false
not_final (pos n) h = ground arith
not_final (negsuc n) h = elim h [ ]

final_of : (total got : ℕ) (q : ℤ) → Ends total got q → is_final q ≡ true
final_of total got (pos n) h = ground (arith, h.0)
final_of total got (negsuc n) h = refl

abbrev is_reported : ℤ → Bool
is_reported q = eq_ℤ q (pos 100) || (eq_ℤ q (negsuc 0) || (eq_ℤ q (negsuc 1) || eq_ℤ q (negsuc 2)))

not_reported : (q : ℤ) → Below q → is_reported q ≡ false
not_reported (pos n) h = ground arith
not_reported (negsuc n) h = elim h [ ]

finish-IsDone :
    (total : ℕ) (l : Local)
    → Counted total l
    → Ends total l.file_size l.progress
    → IsDone total (finish l)
unfolding finish
finish-IsDone total l c e =
    if_both (IsDone total) (is_reported l.progress)
      (record {
        stored = c.stored;
        within = c.within;
        front = l.reports;
        early = c.early;
        last = inr (l.progress, refl, e);
      })
      (record {
        stored = c.stored;
        within = c.within;
        front = l.reports;
        early = c.early;
        last = inl refl;
      })

-- What a round leaves.
abbrev Outcome : ℕ → After × Local → Type 0
Outcome total (next, l) = Counted total l × Below l.progress
Outcome total (inside, l) = Counted total l × Below l.progress
Outcome total (ended, l) = IsDone total l

finish_quiet :
    (total : ℕ) (l : Local) → Counted total l → Below l.progress → IsDone total (finish l)
unfolding finish
finish_quiet total l c b = rw (not_reported l.progress b) (record {
  stored = c.stored;
  within = c.within;
  front = l.reports;
  early = c.early;
  last = inl refl;
})

leave_more : (total : ℕ) (l : Local) → Counted total l → Below l.progress → Outcome total (leave l)
leave_more total l c b =
    subst (λ x. Outcome total (if x then (ended, finish l) else (next, l)))
      (sym (not_final l.progress b)) (c, b)

leave_end :
    (total : ℕ) (l : Local)
    → Counted total l
    → Ends total l.file_size l.progress
    → Outcome total (leave l)
leave_end total l c e =
    subst (λ x. Outcome total (if x then (ended, finish l) else (next, l)))
      (sym (final_of total l.file_size l.progress e)) (finish-IsDone total l c e)

-- What holds of every result that is not a fault.
abbrev Always : {A : Type 0} → (A → Type 0) → Option (A × Net) → Type 0
Always P none = Unit {0}
Always P (some (a, w)) = P a

Always-bind :
    {A B : Type 0} (P : B → Type 0) (m : M A) (f : A → M B) (w : Net)
    → ((a : A) (v : Net) → Always P (f a v))
    → Always P ((m >>= f) w)
Always-bind {A} P m f w h = step (m w)
  where
    step : (o : Option (A × Net)) → Always P (elim o [ none ↦ none | some (a, v) ↦ f a v ])
    step none = tt
    step (some (a, v)) = h a v

module _ (t : Table) (total : ℕ) (small : total * 100 < 2 ^ 64) where
  failed_early :
      (l : Local) (k : ℕ)
      → Counted total l
      → k ≤ 2
      → IsDone total (finish (record l { progress = negsuc k }))
  failed_early l k c h =
      finish-IsDone total (record l { progress = negsuc k })
        (record { stored = c.stored; within = c.within; early = c.early }) h

  transfer-Outcome :
      (r : Round) (p : Packet) (l : Local) (w : Net)
      → Counted total l
      → Below l.progress
      → Always (Outcome total) (transfer t total r p l w)
  unfolding transfer
  transfer-Outcome r p l w c b =
      Always-bind (Outcome total) (prepare t p.src_file_name r.created r.connects) _ w (λ e v.
        if_both (λ (m : M (After × Local)). Always (Outcome total) (m v)) (is_negative e)
          (failed_early l 2 c (omega arith))
          (step v (turns total r.turns l) (turns-InPhase total small r.turns l c b)))
    where
      step :
          (v : Net) (x : Phase × Local)
          → InPhase total x
          → Always (Outcome total) (
              (elim x.0 as (λ y. M (After × Local)) [
                | going ↦ return (inside, x.1)
                | stopped ↦ return (leave x.1)
                | broke ↦ return (leave x.1)
                | closed ↦ confirm >>= λ _. return (leave x.1)
              ])
                v)
      step v (going, k) h = h
      step v (stopped, k) h = leave_more total k h.0 h.1
      step v (broke, k) h = leave_end total k h.0 h.1
      step v (closed, k) h =
          Always-bind (Outcome total) confirm (λ _. return (leave k)) v
            (λ a u. leave_more total k h.0 h.1)

  round-Outcome :
      (r : Round) (l : Local) (w : Net)
      → Counted total l
      → Below l.progress
      → Always (Outcome total) (round t total r l w)
  unfolding round
  round-Outcome r l w c b =
      if_both (λ (m : M (After × Local)). Always (Outcome total) (m w)) (not r.running)
        (finish_quiet total l c b)
        (if_both (λ (m : M (After × Local)). Always (Outcome total) (m w)) (not r.usb)
          (failed_early l 0 c (omega arith))
          (elim r.packet
            as (λ o. Always (Outcome total) (
              (elim o as (λ y. M (After × Local)) [
                | none ↦ return (next, l)
                | some p ↦
                    if p.cmd_type == download_cmd && (not (length p.dst_file_name == 0) && r.opens)
                    then transfer t total r p l
                    else return (next, l)
              ])
                w)) [
                  | none ↦ (c, b)
                  | some p ↦
                      if_both (λ (m : M (After × Local)). Always (Outcome total) (m w))
                        (p.cmd_type == download_cmd
                          && (not (length p.dst_file_name == 0) && r.opens))
                        (transfer-Outcome r p l w c b) (c, b)
                ]))

  download-Outcome :
      (rs : List Round) (l : Local) (w : Net)
      → Counted total l
      → Below l.progress
      → Always (Outcome total) (download t total rs l w)
  unfolding download
  download-Outcome [] l w c b = (c, b)
  download-Outcome (r ∷ rs) l w c b =
      step (round t total r l w) (round-Outcome r l w c b) (download-Outcome rs)
    where
      step :
          (o : Option ((After × Local) × Net))
          → Always (Outcome total) o
          → ((k : Local) (v : Net)
              → Counted total k
              → Below k.progress
              → Always (Outcome total) (download t total rs k v))
          → Always (Outcome total) (elim o [
            | none ↦ none
            | some (x, v) ↦
                (elim x.0 as (λ y. M (After × Local)) [
                  | next ↦ download t total rs x.1
                  | ended ↦ return x
                  | inside ↦ return x
                ])
                  v
          ])
      step none h more = tt
      step (some ((next, k), v)) h more = more k v h.0 h.1
      step (some ((ended, k), v)) h more = h
      step (some ((inside, k), v)) h more = h

-- However the stick, the files, the sockets and the server behave, when the download thread has ended it
-- has told its callback percentages from 1 to 99 and at most one value after them: 100, and then the
-- files were given exactly the total of bytes, or -1, -2 or -3; never more than the total is stored. For
-- a total below 2^64 / 100, and unless a buffer was overrun.
pub download-IsDone :
    (t : Table) (total : ℕ) (rs : List Round) (w w' : Net) (l : Local)
    → total * 100 < 2 ^ 64
    → download t total rs started w ≡ some ((After.ended, l), w')
    → IsDone total l
download-IsDone t total rs w w' l small e = subst (Always (Outcome total)) e (
    download-Outcome t total small rs started w
      (record { stored = refl; within = omega arith; early = tt }) (omega arith))
