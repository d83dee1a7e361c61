-- ===== src/Queue/Destroy.antt =====
-- DestroyPmsgQueue gives back every node of the queue and touches nothing else.
use cctvmonitor.Base.{ℕ, zero, suc, ◌<◌, ◌≡◌, refl, ◌∙◌, none, some, List, [], ◌∷◌, length, arith}
use cctvmonitor.Base.Int.{pos}
use cctvmonitor.Queue.{Heap, Queue, write, free_nodes, destroy}
use cctvmonitor.Queue.Chain.{head_addr, IsAway, IsChain, Holds, IsChain-write}

module _ {A : Type 0} where
  -- The heap with the nodes of a chain given back.
  abbrev pub without : Heap A → List (ℕ × A) → Heap A
  without h [] = h
  without h ((a, x) ∷ cs) = without (write h a none) cs

  free_nodes-without :
      (fuel : ℕ) (cs : List (ℕ × A)) (h : Heap A)
      → length cs < fuel
      → IsChain h cs
      → free_nodes fuel h (head_addr cs) ≡ some (without h cs)
  unfolding free_nodes
  free_nodes-without zero cs h lt v = absurd (omega arith)
  free_nodes-without (suc fuel) [] h lt v = refl
  free_nodes-without (suc fuel) ((a, x) ∷ cs) h lt v = ground (
    arith,
    v.0,
    v.1,
    free_nodes-without fuel cs (write h a none) (omega arith) (IsChain-write h a none cs v.2 v.3),
  )

  without_away : (cs : List (ℕ × A)) (h : Heap A) (p : ℕ) → IsAway p cs → without h cs p ≡ h p
  unfolding write
  without_away [] h p w = refl
  without_away ((a, x) ∷ cs) h p w = without_away cs (write h a none) p w.1 ∙ ground (arith, w.0)

  -- At a node of the chain nothing is left.
  abbrev pub AllFreed : Heap A → List (ℕ × A) → Type 0
  AllFreed h [] = Unit {0}
  AllFreed h ((a, x) ∷ cs) = (h a ≡ none) × AllFreed h cs

  AllFreed-without : (cs : List (ℕ × A)) (h : Heap A) → IsChain h cs → AllFreed (without h cs) cs
  unfolding write
  AllFreed-without [] h v = tt
  AllFreed-without ((a, x) ∷ cs) h v = (
    without_away cs (write h a none) a v.2 ∙ ground arith,
    AllFreed-without cs (write h a none) (IsChain-write h a none cs v.2 v.3),
  )

  -- Of a queue that holds the packets `cs`, destroying it returns 0 within `length cs + 1` rounds;
  -- then no node of the queue is allocated, and any other address holds what it held.
  destroy_frees :
      (q : Queue A) (cs : List (ℕ × A)) (fuel p : ℕ)
      → Holds q cs
      → length cs < fuel
      → IsAway p cs
      → (h : Heap A) × (destroy fuel (some q) ≡ some (pos 0, some h))
        × AllFreed h cs
        × (h p ≡ q.heap p)
  unfolding destroy
  destroy_frees q cs fuel p v lt w = (
    without q.heap cs,
    ground (arith, v.first_is, free_nodes-without fuel cs q.heap lt v.chain),
    AllFreed-without cs q.heap v.chain,
    without_away cs q.heap p w,
  )

-- The same without an address outside the queue.
pub destroy_frees_all :
    {A : Type 0} (q : Queue A) (cs : List (ℕ × A)) (fuel : ℕ)
    → Holds q cs
    → length cs < fuel
    → (h : Heap A) × (destroy fuel (some q) ≡ some (pos 0, some h)) × AllFreed h cs
unfolding destroy
destroy_frees_all q cs fuel v lt = (
  without q.heap cs,
  ground (arith, v.first_is, free_nodes-without fuel cs q.heap lt v.chain),
  AllFreed-without cs q.heap v.chain,
)
