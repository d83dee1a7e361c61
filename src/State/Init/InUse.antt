-- ===== src/State/Init/InUse.antt =====
-- What the sensors' tables of state/state.c hold after ReadWarnRelate.
use cctvmonitor.Base.{
  ℕ, zero, suc, ◌≡◌, ◌<◌, ◌≤◌, ◌⊎◌, inl, inr, refl, sym, ap, subst, true, false, none, some, [],
  ◌∷◌, ltb, if◌then◌else◌, Bytes, codes, arith, set, get_or, replicate, length, length-set,
  length-replicate, ◌∙◌, ◌+◌, ◌*◌, if_both, Bool-cases,
}
use cctvmonitor.Base.Int.{ℤ, pos, negsuc, ◌-ℤ◌, index?, failure, is_positive}
use cctvmonitor.Base.Decimal.{atoi}
use cctvmonitor.Config.{Files}
use cctvmonitor.State.{State}
use cctvmonitor.State.Warn.{
  get_pecu_video_index, get_fire_warn_video_idx, get_door_warn_video_idx, known_video,
}
use cctvmonitor.State.Init.{read_warn_relate}
use cctvmonitor.State.Init.Tables.{
  table_entry, read_table, text_value, pecu_key, fire_key, door_key,
}

-- An entry that is no camera, or a camera in use.
abbrev pub IsEntry : ℕ → ℕ → Type 0
IsEntry n v = (v ≡ 0xff) ⊎ (v < n)

abbrev pub AllEntries : ℕ → Bytes → Type 0
AllEntries n [] = Unit {0}
AllEntries n (v ∷ vs) = IsEntry n v × AllEntries n vs

indexed : (n i : ℕ) → ltb i n ≡ true → elim (index? (pos i) n) [ none ↦ 0xff | some k ↦ k ] ≡ i
indexed n i h = ground (arith, h)

not_indexed :
    (n i : ℕ)
    → ltb i n ≡ false
    → (let e : ℕ = elim (index? (pos i) n) [ none ↦ 0xff | some k ↦ k ] in e ≡ 0xff)
not_indexed n i h = ground (arith, h)

index_IsEntry : (n : ℕ) (v : ℤ) → IsEntry n (elim (index? v n) [ none ↦ 0xff | some k ↦ k ])
index_IsEntry n (negsuc i) = inl refl
index_IsEntry n (pos i) = elim (Bool-cases (ltb i n)) [
  | inl y ↦ subst (IsEntry n) (sym (indexed n i y)) (inr (ground (arith, y)))
  | inr z ↦ inl (not_indexed n i z)
]

table_entry-IsEntry : (n : ℕ) (s : Bytes) → IsEntry n (table_entry n s)
unfolding table_entry
table_entry-IsEntry n s = index_IsEntry n (atoi s -ℤ pos 1)

set-AllEntries :
    (n : ℕ) (vs : Bytes) (i v : ℕ) → AllEntries n vs → IsEntry n v → AllEntries n (set vs i v)
set-AllEntries n [] i v h k = tt
set-AllEntries n (w ∷ vs) zero v h k = (k, h.1)
set-AllEntries n (w ∷ vs) (suc i) v h k = (h.0, set-AllEntries n vs i v h.1 k)

read_table-AllEntries :
    (fs : Files) (n : ℕ) (group : Bytes) (key : ℕ → Bytes) (m i : ℕ) (vs : Bytes)
    → AllEntries n vs
    → AllEntries n (read_table fs n group key m i vs)
unfolding read_table
read_table-AllEntries fs n group key zero i vs h = h
read_table-AllEntries fs n group key (suc m) i vs h =
    read_table-AllEntries fs n group key m (suc i) _ (
      if_both (AllEntries n) (is_positive (text_value fs (some group) (key i) 256).0)
        (set-AllEntries n vs i _ h
          (table_entry-IsEntry n (text_value fs (some group) (key i) 256).1))
        h)

cleared_entries : (n m : ℕ) → AllEntries n (replicate m 0xff)
cleared_entries n zero = tt
cleared_entries n (suc m) = (inl refl, cleared_entries n m)

get-AllEntries :
    (n : ℕ) (vs : Bytes) (i : ℕ) → AllEntries n vs → i < length vs → IsEntry n (get_or vs i 0)
get-AllEntries n [] i h l = absurd (omega arith)
get-AllEntries n (v ∷ vs) zero h l = h.0
get-AllEntries n (v ∷ vs) (suc i) h l = get-AllEntries n vs i h.1 (omega arith)

length-read_table :
    (fs : Files) (n : ℕ) (group : Bytes) (key : ℕ → Bytes) (m i : ℕ) (vs : Bytes)
    → length (read_table fs n group key m i vs) ≡ length vs
unfolding read_table
length-read_table fs n group key zero i vs = refl
length-read_table fs n group key (suc m) i vs =
    length-read_table fs n group key m (suc i) _
    ∙ if_both {A = Bytes} (λ ws. length ws ≡ length vs)
        (is_positive (text_value fs (some group) (key i) 256).0)
        (length-set vs i (table_entry n (text_value fs (some group) (key i) 256).1)) refl

-- A table read anew from one that was cleared.
IsEntry-read :
    (fs : Files) (n : ℕ) (group : Bytes) (key : ℕ → Bytes) (m i : ℕ) (vs : Bytes)
    → vs ≡ replicate m 0xff
    → i < m
    → IsEntry n (get_or (read_table fs n group key m 0 vs) i 0)
IsEntry-read fs n group key m i vs e h =
    get-AllEntries n (read_table fs n group key m 0 vs) i
      (read_table-AllEntries fs n group key m 0 vs
        (subst (AllEntries n) (sym e) (cleared_entries n m)))
      (omega (
        arith,
        length-read_table fs n group key m 0 vs,
        ap length e,
        length-replicate {A = ℕ} m 0xff,
      ))

-- The sensors' tables as STATE_Init clears them.
pub record IsCleared (st : State) : Type 0 where
  pub pecu_none : st.pecu_video ≡ replicate 24 0xff
  pub fire_none : st.fire_video ≡ replicate 6 0xff
  pub door_none : st.door_video ≡ replicate 48 0xff

entry_lt : (n v k : ℕ) → IsEntry n v → n ≤ 32 → (if ltb n v then failure else pos v) ≡ pos k → k < n
entry_lt n v k (inl e) h q = ground arith
entry_lt n v k (inr l) h q = ground arith

indexed_of :
    (i m k : ℕ) (f : ℕ → ℤ)
    → (let r : ℤ = elim (index? (pos i) m) [ none ↦ failure | some j ↦ f j ] in r ≡ pos k)
    → (i < m) × (f i ≡ pos k)
indexed_of i m k f q = elim (Bool-cases (ltb i m)) [
  | inl y ↦ (ground (arith, y), ground (arith, y, q))
  | inr n ↦ absurd (ground (arith, n, q))
]

up_to_of : (c k : ℕ) (r : ℤ) → (if ltb 5 c then failure else r) ≡ pos k → (c < 6) × (r ≡ pos k)
up_to_of c k r q = elim (Bool-cases (ltb 5 c)) [
  | inl y ↦ absurd (ground (arith, y, q))
  | inr n ↦ (ground (arith, n), ground (arith, n, q))
]

-- The getter of a table that was read.
table_in_use :
    (fs : Files) (n : ℕ) (group : Bytes) (key : ℕ → Bytes) (m i k : ℕ) (vs : Bytes)
    → vs ≡ replicate m 0xff
    → n ≤ 32
    → i < m
    → (if ltb n (get_or (read_table fs n group key m 0 vs) i 0)
        then failure
        else pos (get_or (read_table fs n group key m 0 vs) i 0))
      ≡ pos k
    → k < n
table_in_use fs n group key m i k vs e h l q =
    entry_lt n (get_or (read_table fs n group key m 0 vs) i 0) k
      (IsEntry-read fs n group key m i vs e l) h q

indices_in_use :
    (st : State) (c : ℕ) (i : ℤ) (k : ℕ)
    → IsCleared st
    → st.video_num ≤ 32
    → let st' = (read_warn_relate st).1 in
      (get_pecu_video_index st' i ≡ pos k → k < st.video_num)
      × (get_fire_warn_video_idx st' c ≡ pos k → k < st.video_num)
      × (get_door_warn_video_idx st' c i ≡ pos k → k < st.video_num)
unfolding read_warn_relate get_pecu_video_index get_fire_warn_video_idx get_door_warn_video_idx
indices_in_use st c (pos i) k z h =
    let st' = (read_warn_relate st).1 in
    (
      λ q.
          let (l, e) = indexed_of i 24 k (λ j. known_video st' (get_or st'.pecu_video j 0)) q in
          table_in_use st.files st.video_num (codes "[PECUCONFIG]") pecu_key 24 i k st.pecu_video
            z.pecu_none h l e,
      λ q.
          let (l, e) = up_to_of c k (known_video st' (get_or st'.fire_video c 0)) q in
          table_in_use st.files st.video_num (codes "[FIRECONFIG]") fire_key 6 c k st.fire_video
            z.fire_none h l e,
      λ q.
          let (l, e) = up_to_of c k _ q in
          let (l', e') =
            indexed_of i 8 k (λ j. known_video st' (get_or st'.door_video (c * 8 + j) 0)) e in
          table_in_use st.files st.video_num (codes "[DOORCONFIG]") door_key 48 (c * 8 + i) k
            st.door_video z.door_none h (omega arith) e',
    )
indices_in_use st c (negsuc i) k z h =
    let st' = (read_warn_relate st).1 in
    (
      λ q. absurd (ground (arith, q)),
      λ q.
          let (l, e) = up_to_of c k (known_video st' (get_or st'.fire_video c 0)) q in
          table_in_use st.files st.video_num (codes "[FIRECONFIG]") fire_key 6 c k st.fire_video
            z.fire_none h l e,
      λ q. absurd (ground (arith, q)),
    )

-- No camera, or the index of one of the `n` in use.
abbrev pub InUse : ℤ → ℕ → Type 0
InUse (pos k) n = k < n
InUse (negsuc i) n = Unit {0}

InUse-of : (r : ℤ) (n : ℕ) → ((k : ℕ) → r ≡ pos k → k < n) → InUse r n
InUse-of (pos k) n h = h k refl
InUse-of (negsuc i) n h = tt

-- ReadWarnRelate fills the cleared tables so that every camera index that GetPecuVideoIndex,
-- GetFireWarnVideoIdx and GetDoorWarnVideoIdx give is that of a camera in use, though they let the
-- number of cameras itself pass. There are at most 32 cameras.
pub read_warn_relate-InUse :
    (st : State) (c : ℕ) (i : ℤ)
    → IsCleared st
    → st.video_num ≤ 32
    → let st' = (read_warn_relate st).1 in
      InUse (get_pecu_video_index st' i) st.video_num
      × InUse (get_fire_warn_video_idx st' c) st.video_num
      × InUse (get_door_warn_video_idx st' c i) st.video_num
read_warn_relate-InUse st c i z h =
    let st' = (read_warn_relate st).1 in
    (
      InUse-of (get_pecu_video_index st' i) st.video_num (λ k q. (indices_in_use st c i k z h).0 q),
      InUse-of (get_fire_warn_video_idx st' c) st.video_num
          (λ k q. (indices_in_use st c i k z h).1 q),
      InUse-of (get_door_warn_video_idx st' c i) st.video_num
          (λ k q. (indices_in_use st c i k z h).2 q),
    )
