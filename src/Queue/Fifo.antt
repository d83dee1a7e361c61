-- ===== src/Queue/Fifo.antt =====
-- The queue is a FIFO of its packets: what each call returns, and what a sequence of calls returns.
use cctvmonitor.Base.{
  ℕ, ◌+◌, ◌≡◌, ◌≢◌, refl, sym, ap, subst, true, false, Option, none, some, List, [], ◌∷◌, ◌++◌,
  ◌==◌, if◌then◌else◌, arith, length-append, ℕ_discrete,
}
use mathlib.Core.Option
use cctvmonitor.Base.Int.{ℤ, pos, negsuc, ◌+ℤ◌, ◌-ℤ◌}
use cctvmonitor.Queue.{Queue, write, set_next, link, put, unlink, get}
use cctvmonitor.Queue.Chain.{
  head_addr, last_addr, IsAway, Holds, IsChain-write, IsAway-of_free, last_addr-append,
  last_addr_ne_zero, last_addr_away, last_node, IsChain-linked,
}

count_grows : {n : ℤ} {k m : ℕ} → n ≡ pos k → m ≡ k + 1 → n +ℤ pos 1 ≡ pos m
unfolding ◌+ℤ◌
count_grows e f = ground arith

module _ {A : Type 0} where
  -- The new node, with nothing behind it.
  abbrev add_node : Queue A → ℕ → A → Queue A
  add_node q p x = record q { heap = write q.heap p (some (record { pkt = x; next = 0 })) }

  -- `link` where the queue has a last node.
  link_last :
      (q : Queue A) (p l : ℕ) (y : A)
      → q.last ≡ l
      → l ≢ 0
      → q.heap l ≡ some (record { pkt = y; next = 0 })
      → link q p ≡ some (record q { heap = write q.heap l (some (record { pkt = y; next = p })) })
  unfolding link set_next
  link_last q p l y e ne h = ground arith

  put_linked :
      (q q' : Queue A) (p : ℕ) (x : A)
      → p ≢ 0
      → link (add_node q p x) p ≡ some q'
      → put p (some q) (some x)
        ≡ some (pos 0, some (record q' { last = p; pkt_count = q'.pkt_count +ℤ pos 1 }))
  unfolding put
  put_linked q q' p x ne e = ground arith

  -- What a successful call of `put` leaves: 0, and the packet behind all others.
  pub record Enqueued (q : Queue A) (p : ℕ) (x : A) (cs : List (ℕ × A)) : Type 0 where
    pub after : Queue A
    pub returned : put p (some q) (some x) ≡ some (pos 0, some after)
    pub holds : Holds after (cs ++ (p, x) ∷ [])

  put-Holds_nonempty :
      (q : Queue A) (p : ℕ) (x y : A) (c : ℕ × A) (cs : List (ℕ × A))
      → Holds q (c ∷ cs)
      → p ≢ 0
      → IsAway p (c ∷ cs)
      → p ≢ last_addr (c ∷ cs)
      → q.heap (last_addr (c ∷ cs)) ≡ some (record { pkt = y; next = 0 })
      → Enqueued q p x (c ∷ cs)
  unfolding write
  put-Holds_nonempty q p x y c cs v ne away ne_last at_last =
      let l = last_addr (c ∷ cs) in
      let h = (add_node q p x).heap in
      let at_last' : h l ≡ some (record { pkt = y; next = 0 }) = ground (arith, at_last) in
      record {
        after = record q {
          heap = write h l (some (record { pkt = y; next = p }));
          last = p;
          pkt_count = q.pkt_count +ℤ pos 1;
        };
        returned =
            put_linked q (record q { heap = write h l (some (record { pkt = y; next = p })) }) p x
              ne
              (link_last (add_node q p x) p l y v.last_is (last_addr_ne_zero q.heap c cs v.chain)
                at_last');
        holds = record {
          first_is = v.first_is;
          last_is = sym (last_addr-append (c ∷ cs) p x);
          count_is = count_grows v.count_is (omega (arith, length-append (c ∷ cs) ((p, x) ∷ [])));
          chain =
              IsChain-linked h p x y c cs ne away (ground arith) at_last'
                (IsChain-write q.heap p _ (c ∷ cs) away v.chain);
        };
      }

  put-Holds_away :
      (q : Queue A) (p : ℕ) (x : A) (cs : List (ℕ × A))
      → Holds q cs
      → p ≢ 0
      → IsAway p cs
      → Enqueued q p x cs
  unfolding link ◌+ℤ◌ write
  put-Holds_away q p x [] v ne away = record {
    after = record q {
      heap = write q.heap p (some (record { pkt = x; next = 0 }));
      first = p;
      last = p;
      pkt_count = q.pkt_count +ℤ pos 1;
    };
    returned =
        put_linked q (record (add_node q p x) { first = p }) p x ne (ground (arith, v.last_is));
    holds = ground (arith, v.count_is);
  }
  put-Holds_away q p x (c ∷ cs) v ne away =
      let (y, at_last) = last_node q.heap c cs v.chain in
      put-Holds_nonempty q p x y c cs v ne away (last_addr_away p c cs away) at_last

  pub put-Holds :
      (q : Queue A) (p : ℕ) (x : A) (cs : List (ℕ × A))
      → Holds q cs
      → p ≢ 0
      → q.heap p ≡ none
      → Enqueued q p x cs
  put-Holds q p x cs v ne free =
      put-Holds_away q p x cs v ne (IsAway-of_free q.heap p cs free v.chain)

  unlink-Holds :
      (q : Queue A) (p : ℕ) (x : A) (cs : List (ℕ × A))
      → Holds q ((p, x) ∷ cs)
      → Holds (unlink q (record { pkt = x; next = head_addr cs })) cs
  unfolding unlink ◌-ℤ◌
  unlink-Holds q p x [] v = ground (arith, v.first_is, v.count_is)
  unlink-Holds q p x ((a, y) ∷ cs) v = record {
    first_is = refl;
    last_is = ground (arith, v.last_is, v.chain);
    count_is = ground (arith, v.count_is);
    chain =
        IsChain-write q.heap q.first none ((a, y) ∷ cs)
          (subst (λ b. IsAway b ((a, y) ∷ cs)) (sym v.first_is) v.chain.2) v.chain.3;
  }

  -- What `get` leaves of a queue that holds a packet.
  pub record Dequeued (q : Queue A) (x : A) (cs : List (ℕ × A)) : Type 0 where
    pub after : Queue A
    pub returned : get (some q) true ≡ some (pos 1, some x, some after)
    pub holds : Holds after cs

  pub get-Holds :
      (q : Queue A) (p : ℕ) (x : A) (cs : List (ℕ × A)) → Holds q ((p, x) ∷ cs) → Dequeued q x cs
  unfolding get ◌-ℤ◌
  get-Holds q p x cs v = record {
    after = unlink q (record { pkt = x; next = head_addr cs });
    returned = ground (arith, v.chain, v.first_is);
    holds = unlink-Holds q p x cs v;
  }

module _ (A : Type 0) where
  -- A call on the queue; `enqueue` carries what its `malloc` returns.
  pub data Op : Type 0 where
    enqueue : ℕ → A → Op
    dequeue : Op

  -- What a call returns, and the packet that it gives out.
  abbrev pub Reply : Type 0
  Reply = ℤ × Option A

module _ {A : Type 0} where
  -- The calls on a queue, one after another.
  unfoldable pub run : Queue A → List (Op A) → Option (List (Reply A))
  run q [] = some []
  run q (enqueue p x ∷ ops) = elim (put p (some q) (some x)) [
    | some (r, some q') ↦ Option.map (λ rs. (r, none) ∷ rs) (run q' ops)
    | _ ↦ none
  ]
  run q (dequeue ∷ ops) = elim (get (some q) true) [
    | some (r, o, some q') ↦ Option.map (λ rs. (r, o) ∷ rs) (run q' ops)
    | _ ↦ none
  ]

  -- The same calls on a list, where an item whose `malloc` fails is not stored.
  unfoldable pub fifo_run : List A → List (Op A) → List (Reply A)
  fifo_run xs [] = []
  fifo_run xs (enqueue p x ∷ ops) =
      if p == 0
      then (negsuc 0, none) ∷ fifo_run xs ops
      else (pos 0, none) ∷ fifo_run (xs ++ x ∷ []) ops
  fifo_run [] (dequeue ∷ ops) = (pos 0, none) ∷ fifo_run [] ops
  fifo_run (x ∷ xs) (dequeue ∷ ops) = (pos 1, some x) ∷ fifo_run xs ops

  -- `malloc` returns `NULL` or an address that it does not have in use. The addresses in use are those
  -- of the items that are in the list: an item is freed when it is taken out. Nothing here looks at the
  -- queue.
  abbrev pub Serves : List (ℕ × A) → List (Op A) → Type 0
  Serves cs [] = Unit {0}
  Serves cs (enqueue p x ∷ ops) =
      (p ≢ 0 → IsAway p cs) × Serves (if p == 0 then cs else cs ++ (p, x) ∷ []) ops
  Serves [] (dequeue ∷ ops) = Serves [] ops
  Serves (c ∷ cs) (dequeue ∷ ops) = Serves cs ops

  put_null :
      (q : Queue A) (p : ℕ) (x : A) → p ≡ 0 → put p (some q) (some x) ≡ some (negsuc 0, some q)
  unfolding put
  put_null q p x e = ground arith

  get_empty : (q : Queue A) → Holds q [] → get (some q) true ≡ some (pos 0, none, some q)
  unfolding get
  get_empty q v = ground (arith, v.first_is)

  abbrev pub items : List (ℕ × A) → List A
  items [] = []
  items ((a, x) ∷ cs) = x ∷ items cs

  items-append :
      (cs : List (ℕ × A)) (a : ℕ) (x : A) → items (cs ++ (a, x) ∷ []) ≡ items cs ++ x ∷ []
  items-append [] a x = refl
  items-append ((b, y) ∷ cs) a x = ap (◌∷◌ y) (items-append cs a x)

  -- A queue that holds some packets answers every sequence of calls as the list of those packets
  -- does: first in, first out, nothing lost, nothing twice. No call reads or writes through an
  -- address that holds no node. Each `malloc` returns `NULL` or an address that no packet in the queue
  -- has.
  pub run-fifo_run :
      (ops : List (Op A)) (q : Queue A) (cs : List (ℕ × A))
      → Holds q cs
      → Serves cs ops
      → run q ops ≡ some (fifo_run (items cs) ops)
  unfolding run fifo_run
  run-fifo_run [] q cs v s = refl
  run-fifo_run (enqueue p x ∷ ops) q cs v s = elim (ℕ_discrete p 0) [
    | yes null ↦
        let z = put_null q p x null in ground (arith, z, run-fifo_run ops q cs v (rw null at s.1))
    | no ne ↦
        let e = put-Holds_away q p x cs v ne (s.0 ne) in
        let other : (p == 0) ≡ false = ground (arith, ne) in
        let z = e.returned in
        ground (
          arith,
          z,
          run-fifo_run ops e.after (cs ++ (p, x) ∷ []) e.holds (rw other at s.1),
          items-append cs p x,
        )
  ]
  run-fifo_run (dequeue ∷ ops) q [] v s =
      let z = get_empty q v in ground (arith, z, run-fifo_run ops q [] v s)
  run-fifo_run (dequeue ∷ ops) q ((a, x) ∷ cs) v s =
      let d = get-Holds q a x cs v in
      let z = d.returned in ground (arith, z, run-fifo_run ops d.after cs d.holds s)
