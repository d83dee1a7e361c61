-- ===== src/Queue/Tests.antt =====
-- The packet queue at concrete packets.
use cctvmonitor.Base.{ℕ, ◌≡◌, refl, none, some, List, [], ◌∷◌, arith, ◌==◌, if◌then◌else◌}
use cctvmonitor.Base.Int.{pos, negsuc, ◌+ℤ◌, ◌-ℤ◌}
use cctvmonitor.Queue.{Queue, create, put, get}
use cctvmonitor.Queue.Chain.{Holds}
use cctvmonitor.Queue.Fifo.{Op, enqueue, dequeue, run, fifo_run, run-fifo_run}

abbrev empty : Queue ℕ
empty = create (λ p. none)

-- Address 8 is used again after its node is freed, and one `malloc` fails.
abbrev script : List (Op ℕ)
script =
    enqueue 8 70
    ∷ enqueue 16 71
    ∷ dequeue
    ∷ enqueue 8 72
    ∷ enqueue 0 73
    ∷ dequeue
    ∷ dequeue
    ∷ dequeue
    ∷ []

run-fifo_run_example : run empty script ≡ some (fifo_run [] script)
unfolding put get ◌+ℤ◌ ◌-ℤ◌
run-fifo_run_example = run-fifo_run script empty [] (ground arith) (ground arith)

fifo_run-script :
    fifo_run [] script
    ≡ (pos 0, none)
      ∷ (pos 0, none)
      ∷ (pos 1, some 70)
      ∷ (pos 0, none)
      ∷ (negsuc 0, none)
      ∷ (pos 1, some 71)
      ∷ (pos 1, some 72)
      ∷ (pos 0, none)
      ∷ []
unfolding fifo_run
fifo_run-script = refl

abbrev two_nodes : Queue ℕ
two_nodes = record {
  heap = λ p.
      if p == 8
      then some (record { pkt = 70; next = 16 })
      else if p == 16
      then some (record { pkt = 71; next = 0 })
      else none;
  first = 8;
  last = 16;
  pkt_count = pos 2;
}

two_nodes-Holds : Holds two_nodes ((8, 70) ∷ (16, 71) ∷ [])
two_nodes-Holds = ground arith
