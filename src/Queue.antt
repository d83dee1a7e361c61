-- ===== src/Queue.antt =====
-- The linked packet queue of pmsg/pmsgcli.c, which ftp/ftpApi.c repeats for its work items: nodes on
-- a heap, and a queue that points to the first and the last of them. A call holds the queue's mutex
-- from its first read to its last write, so each is one step. `none` is a fault: the use of an
-- address at which no node stands.
pub mod Chain
pub mod Fifo
pub mod Destroy
mod Tests
use cctvmonitor.Base.{
  ℕ, zero, suc, ◌≡◌, Bool, true, false, Option, none, some, List, [], ◌∷◌, ◌==◌, if◌then◌else◌,
}
use cctvmonitor.Base.Int.{ℤ, pos, negsuc, ◌+ℤ◌, ◌-ℤ◌}

module _ (A : Type 0) where
  -- `T_PMSG_PACKET_LIST`; the address 0 is `NULL`.
  pub record Node : Type 0 where
    pub pkt : A
    pub next : ℕ

  abbrev pub Heap : Type 0
  Heap = ℕ → Option Node

  -- `T_PMSG_QUEUE` with the heap that its nodes stand in.
  pub record Queue : Type 0 where
    pub heap : Heap
    pub first : ℕ
    pub last : ℕ
    pub pkt_count : ℤ

module _ {A : Type 0} where
  unfoldable pub write : Heap A → ℕ → Option (Node A) → Heap A
  write h p c a = if a == p then c else h a

  -- `p->next = q`
  unfoldable pub set_next : Heap A → ℕ → ℕ → Option (Heap A)
  unfolding write
  set_next h p q = elim (h p) [
    | none ↦ none
    | some n ↦ some (write h p (some (record n { next = q })))
  ]

  -- CreatePmsgQueue, where its `malloc` succeeds.
  abbrev pub create : Heap A → Queue A
  create h = record { heap = h; first = 0; last = 0; pkt_count = pos 0 }

  -- The link to the new node, from the last node or from the queue.
  unfoldable pub link : Queue A → ℕ → Option (Queue A)
  unfolding set_next
  link q fresh =
      if q.last == 0
      then some (record q { first = fresh })
      else elim (set_next q.heap q.last fresh) [
        | none ↦ none
        | some h ↦ some (record q { heap = h })
      ]

  -- PutNodeToPmsgQueue; `fresh` is what `malloc` returned. The result is -1 with nothing changed, or 0.
  unfoldable pub put : ℕ → Option (Queue A) → Option A → Option (ℤ × Option (Queue A))
  unfolding link write
  put fresh (some q) (some pkt) =
      if fresh == 0
      then some (negsuc 0, some q)
      else elim (link
          (record q { heap = write q.heap fresh (some (record { pkt = pkt; next = 0 })) }) fresh) [
            | none ↦ none
            | some q' ↦
                some (pos 0, some (record q' { last = fresh; pkt_count = q'.pkt_count +ℤ pos 1 }))
          ]
  put fresh q pkt = some (negsuc 0, q)

  -- The node `n` at the front is unlinked and freed.
  unfoldable pub unlink : Queue A → Node A → Queue A
  unfolding write
  unlink q n = record {
    heap = write q.heap q.first none;
    first = n.next;
    last = if n.next == 0 then 0 else q.last;
    pkt_count = q.pkt_count -ℤ pos 1;
  }

  -- GetNodeFromPmsgQueue: 1 and a packet, or 0. The Boolean says whether `ptPkt` is not `NULL`.
  unfoldable pub get : Option (Queue A) → Bool → Option (ℤ × Option A × Option (Queue A))
  unfolding unlink
  get (some q) true = if q.first == 0 then some (pos 0, none, some q) else elim (q.heap q.first) [
    | none ↦ none
    | some n ↦ some (pos 1, some n.pkt, some (unlink q n))
  ]
  get q out = some (pos 0, none, q)

  -- The loop of DestroyPmsgQueue over the nodes.
  unfoldable pub free_nodes : ℕ → Heap A → ℕ → Option (Heap A)
  unfolding write
  free_nodes zero h p = none
  free_nodes (suc fuel) h p =
      if p == 0
      then some h
      else elim (h p) [ none ↦ none | some n ↦ free_nodes fuel (write h p none) n.next ]

  -- DestroyPmsgQueue: -1 for a `NULL` queue; otherwise 0 and the heap without the nodes.
  unfoldable pub destroy : ℕ → Option (Queue A) → Option (ℤ × Option (Heap A))
  unfolding free_nodes
  destroy fuel none = some (negsuc 0, none)
  destroy fuel (some q) = elim (free_nodes fuel q.heap q.first) [
    | none ↦ none
    | some h ↦ some (pos 0, some h)
  ]
