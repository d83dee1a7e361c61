-- ===== src/Base/Passes.antt =====
-- Tests of every number under a bound, by evaluation.
use cctvmonitor.Base.{ℕ, zero, suc, ◌<◌, ◌≡◌, subst, dec_lt, Bool, true, ◌&&◌, arith}

-- A test passed by each number under a bound, to be run once and read at any of them.
unfoldable pub passes : ℕ → (ℕ → Bool) → Bool
passes zero test = true
passes (suc bound) test = passes bound test && test bound

pub passes_at :
    (bound : ℕ) (test : ℕ → Bool) (i : ℕ) → passes bound test ≡ true → i < bound → test i ≡ true
unfolding passes
passes_at zero test i e l = absurd (omega arith)
passes_at (suc bound) test i e l = elim (dec_lt i bound) [
  | Dec.yes k ↦ passes_at bound test i (ground (arith, e)) k
  | Dec.no k ↦
      let same : bound ≡ i = omega arith in subst (λ j. test j ≡ true) same (ground (arith, e))
]
