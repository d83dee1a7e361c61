-- ===== src/Queue/Chain.antt =====
-- The nodes of a queue as a list of addresses and packets, and how a write acts on them.
use cctvmonitor.Base.{ℕ, ◌≡◌, ◌≢◌, refl, Option, none, some, List, [], ◌∷◌, ◌++◌, length, arith}
use cctvmonitor.Base.Int.{pos}
use cctvmonitor.Queue.{Node, Heap, Queue, write}

module _ {A : Type 0} where
  abbrev pub head_addr : List (ℕ × A) → ℕ
  head_addr [] = 0
  head_addr ((a, x) ∷ cs) = a

  abbrev pub last_addr : List (ℕ × A) → ℕ
  last_addr [] = 0
  last_addr ((a, x) ∷ []) = a
  last_addr ((a, x) ∷ c ∷ cs) = last_addr (c ∷ cs)

  -- No node of the list stands at `p`.
  abbrev pub IsAway : ℕ → List (ℕ × A) → Type 0
  IsAway p [] = Unit {0}
  IsAway p ((a, x) ∷ cs) = (p ≢ a) × IsAway p cs

  -- The nodes stand in the heap, each links to the next, and their addresses differ.
  abbrev pub IsChain : Heap A → List (ℕ × A) → Type 0
  IsChain h [] = Unit {0}
  IsChain h ((a, x) ∷ cs) =
      (a ≢ 0) × (h a ≡ some (record { pkt = x; next = head_addr cs })) × IsAway a cs × IsChain h cs

  -- The queue holds these nodes.
  pub record Holds (q : Queue A) (cs : List (ℕ × A)) : Type 0 where
    pub first_is : q.first ≡ head_addr cs
    pub last_is : q.last ≡ last_addr cs
    pub count_is : q.pkt_count ≡ pos (length cs)
    pub chain : IsChain q.heap cs

  pub IsChain-write :
      (h : Heap A) (p : ℕ) (c : Option (Node A)) (cs : List (ℕ × A))
      → IsAway p cs
      → IsChain h cs
      → IsChain (write h p c) cs
  unfolding write
  IsChain-write h p c [] w v = tt
  IsChain-write h p c ((a, x) ∷ cs) w v =
      (v.0, ground (arith, v.1), v.2, IsChain-write h p c cs w.1 v.3)

  IsAway-append :
      (p a : ℕ) (x : A) (cs : List (ℕ × A)) → IsAway p cs → p ≢ a → IsAway p (cs ++ (a, x) ∷ [])
  IsAway-append p a x [] w ne = (ne, tt)
  IsAway-append p a x ((b, y) ∷ cs) w ne = (w.0, IsAway-append p a x cs w.1 ne)

  -- An address at which the heap has nothing is not in a chain.
  pub IsAway-of_free :
      (h : Heap A) (p : ℕ) (cs : List (ℕ × A)) → h p ≡ none → IsChain h cs → IsAway p cs
  IsAway-of_free h p [] e v = tt
  IsAway-of_free h p ((a, x) ∷ cs) e v = ((λ s. cc (e, v.1, s)), IsAway-of_free h p cs e v.3)

  pub last_addr_away :
      (p : ℕ) (c : ℕ × A) (cs : List (ℕ × A)) → IsAway p (c ∷ cs) → p ≢ last_addr (c ∷ cs)
  last_addr_away p (a, x) [] w = w.0
  last_addr_away p (a, x) (c ∷ cs) w = last_addr_away p c cs w.1

  pub last_addr-append : (cs : List (ℕ × A)) (a : ℕ) (x : A) → last_addr (cs ++ (a, x) ∷ []) ≡ a
  last_addr-append [] a x = refl
  last_addr-append (c ∷ []) a x = refl
  last_addr-append (c ∷ d ∷ cs) a x = last_addr-append (d ∷ cs) a x

  pub last_addr_ne_zero :
      (h : Heap A) (c : ℕ × A) (cs : List (ℕ × A)) → IsChain h (c ∷ cs) → last_addr (c ∷ cs) ≢ 0
  last_addr_ne_zero h (a, x) [] v = v.0
  last_addr_ne_zero h (a, x) (c ∷ cs) v = last_addr_ne_zero h c cs v.3

  -- The node that `last` points to.
  pub last_node :
      (h : Heap A) (c : ℕ × A) (cs : List (ℕ × A))
      → IsChain h (c ∷ cs)
      → (x : A) × (h (last_addr (c ∷ cs)) ≡ some (record { pkt = x; next = 0 }))
  last_node h (a, x) [] v = (x, v.1)
  last_node h (a, x) (c ∷ cs) v = last_node h c cs v.3

  -- The heap after the new node is linked behind the last.
  pub IsChain-linked :
      (h : Heap A) (p : ℕ) (x y : A) (c : ℕ × A) (cs : List (ℕ × A))
      → p ≢ 0
      → IsAway p (c ∷ cs)
      → h p ≡ some (record { pkt = x; next = 0 })
      → h (last_addr (c ∷ cs)) ≡ some (record { pkt = y; next = 0 })
      → IsChain h (c ∷ cs)
      → IsChain
          (write h (last_addr (c ∷ cs)) (some (record { pkt = y; next = p })))
          ((c ∷ cs) ++ (p, x) ∷ [])
  unfolding write
  IsChain-linked h p x y (a, z) [] ne w e l v =
      (v.0, ground (arith, v.1), ((λ s. w.0 (cc s)), tt), (ne, ground (arith, w.0, e), tt, tt))
  IsChain-linked h p x y (a, z) ((b, u) ∷ cs) ne w e l v = (
    v.0,
    ground (arith, v.1, last_addr_away a (b, u) cs v.2),
    IsAway-append a p x ((b, u) ∷ cs) v.2 (λ s. w.0 (cc s)),
    IsChain-linked h p x y (b, u) cs ne w.1 e l v.3,
  )
