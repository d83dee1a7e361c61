-- ===== src/Config/Other.antt =====
-- A change of one entry by ModifyParam of state/fileConfig.c leaves what ReadParam reads for another key.
use cctvmonitor.Base.{
  ℕ, suc, ◌≡◌, refl, ap, ◌∙◌, inl, inr, Bool, true, false, not, ◌&&◌, ◌||◌, Option, none, some,
  List, [], ◌∷◌, ◌++◌, ◌==◌, if◌then◌else◌, Bytes, arith, starts_with, c_string, c_string_lem,
  Bool-cases, if_both,
}
use cctvmonitor.Config.{
  Files, Edited, entry, group_line, modify_from, added, read_from, lines, modified, modify_param,
  read_param,
}
use cctvmonitor.Config.Edit.{AllText, Fits, starts_with_one, entry-key, group_line-group}
use cctvmonitor.Config.RoundTrip.{CanModify, modify_param_writes}
use cctvmonitor.Config.Written.{HasLines, lines-modified}

-- Neither of the two begins with the other.
pub record Apart (a b : Bytes) : Type 0 where
  pub left : starts_with a b ≡ false
  pub right : starts_with b a ≡ false

module _ (g k v j : Bytes) (fits : Fits g k v) (group : Apart g j) (key : Apart k j) where
  -- What is read for `j`.
  abbrev read_other : Bool → List Bytes → Option Bytes
  read_other found ls = read_from (some g) j found ls

  entry_group : starts_with (entry k v) g ≡ false
  entry_group =
      starts_with_one (entry k v) k g fits.key_apart fits.group_apart (entry-key g k v fits)

  entry_other : starts_with (entry k v) j ≡ false
  entry_other = starts_with_one (entry k v) k j key.left key.right (entry-key g k v fits)

  group_line_other : starts_with (group_line g) j ≡ false
  group_line_other =
      starts_with_one (group_line g) g j group.left group.right (group_line-group g k v fits)

  read_replaced :
      (l : Bytes) (ls ms : List Bytes)
      → starts_with l g ≡ false
      → starts_with l j ≡ false
      → ((found : Bool) → read_other found ms ≡ read_other found ls)
      → (found : Bool) → read_other found (entry k v ∷ ms) ≡ read_other found (l ∷ ls)
  unfolding read_from
  read_replaced l ls ms a b same true = ground (arith, entry_group, entry_other, same true)
  read_replaced l ls ms a b same false =
      ground (arith, entry_group, entry_other, same true, same false)

  read_kept :
      (l : Bytes) (ls ms : List Bytes)
      → ((found : Bool) → read_other found ms ≡ read_other found ls)
      → (found : Bool) → read_other found (l ∷ ms) ≡ read_other found (l ∷ ls)
  unfolding read_from
  read_kept l ls ms same found = rw (same _) refl

  read_modified_lines :
      (ls : List Bytes) (at : Bool) (n : ℕ)
      → AllText ls
      → (found : Bool) → read_other found (modify_from g k v at n ls).out ≡ read_other found ls
  unfolding modify_from
  read_modified_lines [] at n h found = refl
  read_modified_lines (l ∷ ls) at n h found =
      let is_entry = not (starts_with l g) && (at && starts_with l k) in
      let next = starts_with l g || (at && not is_entry) in
      let ms = (modify_from g k v next (if is_entry then suc n else n) ls).out in
      let rest : (found : Bool) → read_other found ms ≡ read_other found ls =
        read_modified_lines ls next (if is_entry then suc n else n) h.1 in
      elim (Bool-cases is_entry) [
        | inl e ↦
            let not_group : starts_with l g ≡ false = ground (arith, e) in
            let is_key : starts_with l k ≡ true = ground (arith, e) in
            ap (λ b. read_other found ((if b then entry k v else c_string l) ∷ ms)) e
            ∙ read_replaced l ls ms not_group (starts_with_one l k j key.left key.right is_key) rest
                found
        | inr e ↦
            ap (λ b. read_other found ((if b then entry k v else c_string l) ∷ ms)) e
            ∙ ap (λ c. read_other found (c ∷ ms)) (c_string_lem l h.0)
            ∙ read_kept l ls ms rest found
      ]

  read-append :
      (ls ms : List Bytes)
      → ((found : Bool) → read_other found ms ≡ none)
      → (found : Bool) → read_other found (ls ++ ms) ≡ read_other found ls
  unfolding read_from
  read-append [] ms h found = h found
  read-append (l ∷ ls) ms h found = read_kept l ls (ls ++ ms) (read-append ls ms h) found

  read_line :
      (l : Bytes) (ls : List Bytes)
      → starts_with l j ≡ false
      → ((found : Bool) → read_other found ls ≡ none)
      → (found : Bool) → read_other found (l ∷ ls) ≡ none
  unfolding read_from
  read_line l ls other h found = ground (arith, other, h true, h found, h false)

  read_added : (e : Edited) (found : Bool) → read_other found (added g k v e) ≡ none
  unfolding added
  read_added e found =
      let nothing : (b : Bool) → read_other b [] ≡ none = λ b. unfold read_from in refl in
      let one = read_line (entry k v) [] entry_other nothing in
      if_both (λ ls. read_other found ls ≡ none) (e.count == 0)
        (if_both (λ ls. read_other found ls ≡ none) e.found (one found)
          (read_line (group_line g) (entry k v ∷ []) group_line_other one found))
        (nothing found)

  pub read-modified_other :
      (s : Bytes)
      → HasLines s
      → read_other false (lines (modified g k v s)) ≡ read_other false (lines s)
  read-modified_other s h =
      let e = modify_from g k v false 0 (lines s) in
      ap (read_other false) (lines-modified g k v fits s h)
      ∙ read-append e.out (added g k v e) (read_added e) false
      ∙ read_modified_lines (lines s) false 0 h.text false

pub read_param-modify_other :
    (fs : Files) (path g k v j s dst : Bytes)
    → CanModify fs path s
    → HasLines s
    → Fits g k v
    → Apart g j
    → Apart k j
    → read_param (modify_param fs path g k v).1 path (some g) j dst
      ≡ read_param fs path (some g) j dst
unfolding read_param
read_param-modify_other fs path g k v j s dst can h fits group key = ground (
  arith,
  can.readable,
  (modify_param_writes fs path g k v s can).1,
  read-modified_other g k v j fits group key s h,
)
