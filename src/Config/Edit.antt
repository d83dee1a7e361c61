-- ===== src/Config/Edit.antt =====
-- What ReadParam finds in the lines that ModifyParam puts out.
use cctvmonitor.Base.{
  ℕ, suc, ◌+◌, ◌≤◌, ◌<◌, ◌≡◌, refl, ap, ◌∙◌, ◌⊎◌, inl, inr, Bool, true, false, not, ◌&&◌, ◌||◌,
  some, List, [], ◌∷◌, ◌++◌, length, Bytes, Lacks, Lacks-append, arith, length-append, take_all,
  starts_with, starts_with-append, c_string, c_string_lem, strsep, strsep-append, Bool-cases,
}
use cctvmonitor.Config.{Edited, entry, group_line, modify_from, added, read_from}

abbrev pub AllText : List Bytes → Type 0
AllText [] = Unit {0}
AllText (l ∷ ls) = Lacks 0 l × AllText ls

-- A text that begins with one of two strings, neither of which begins the other, does not begin
-- with the other.
pub starts_with_one :
    (l g k : Bytes)
    → starts_with g k ≡ false
    → starts_with k g ≡ false
    → starts_with l g ≡ true
    → starts_with l k ≡ false
unfolding starts_with
starts_with_one l [] k p q h = absurd (cc)
starts_with_one l (c ∷ g) [] p q h = absurd (cc)
starts_with_one [] (c ∷ g) (d ∷ k) p q h = absurd (cc)
starts_with_one (b ∷ l) (c ∷ g) (d ∷ k) p q h = ground (arith, starts_with_one l g k)

-- A group, a key and a value that can be written and read back.
pub record Fits (g k v : Bytes) : Type 0 where
  pub group_apart : starts_with g k ≡ false
  pub key_apart : starts_with k g ≡ false
  pub entry_short : length k + length v ≤ 253
  pub group_short : length g ≤ 254
  pub key_text : Lacks 0 k
  pub value_text : Lacks 0 v
  pub group_text : Lacks 0 g
  pub key_line : Lacks b'\n' k
  pub value_line : Lacks b'\n' v
  pub group_line : Lacks b'\n' g
  pub key_plain : Lacks b'=' k

module _ (g k v : Bytes) (fits : Fits g k v) where
  entry_body : Bytes
  entry_body = k ++ (b'=' ∷ (v ++ (b'\n' ∷ [])))

  pub entry_lem : entry k v ≡ k ++ (b'=' ∷ (v ++ (b'\n' ∷ [])))
  unfolding entry
  entry_lem = take_all 255 _ (
      omega (
        arith,
        length-append k (b'=' ∷ (v ++ (b'\n' ∷ []))),
        length-append v (b'\n' ∷ []),
        fits.entry_short,
      ))

  pub entry-Lacks : Lacks 0 (entry k v)
  entry-Lacks = rw entry_lem (
      Lacks-append 0 k _ fits.key_text
        ((omega arith), Lacks-append 0 v (b'\n' ∷ []) fits.value_text (omega arith)))

  pub entry-key : starts_with (entry k v) k ≡ true
  entry-key = rw entry_lem (starts_with-append k _)

  -- The value that ReadParam cuts out of the line.
  pub entry-strsep : (strsep b'=' (c_string (entry k v))).1 ≡ some (v ++ b'\n' ∷ [])
  entry-strsep =
      rw
        (
          c_string_lem (entry k v) entry-Lacks,
          entry_lem,
          strsep-append b'=' k (v ++ b'\n' ∷ []) fits.key_plain,
        )
        refl

  -- The lines `ls` of a file and the lines `t` behind them, read before and after the change.
  abbrev pub Outcome : Bool → ℕ → List Bytes → List Bytes → Type 0
  Outcome found n ls t =
      ((modify_from g k v found n ls).count ≡ n)
        × ((modify_from g k v found n ls).out ≡ ls)
        × (read_from (some g) k found (ls ++ t)
            ≡ read_from (some g) k (modify_from g k v found n ls).found t)
      ⊎ (n < (modify_from g k v found n ls).count)
        × (read_from (some g) k found ((modify_from g k v found n ls).out ++ t)
            ≡ some (v ++ b'\n' ∷ []))

  count-le : (ls : List Bytes) (found : Bool) (n : ℕ) → n ≤ (modify_from g k v found n ls).count
  unfolding modify_from
  count-le [] found n = omega arith
  count-le (l ∷ ls) found n =
      let is_entry = not (starts_with l g) && (found && starts_with l k) in
      let after = starts_with l g || (found && not is_entry) in
      ground (arith, count-le ls after n, count-le ls after (suc n))

  modify-Outcome_group :
      (l : Bytes) (ls : List Bytes) (found : Bool) (n : ℕ) (t : List Bytes)
      → AllText (l ∷ ls)
      → starts_with l g ≡ true
      → starts_with l k ≡ false
      → Outcome true n ls t
      → Outcome found n (l ∷ ls) t
  unfolding modify_from read_from
  modify-Outcome_group l ls true n t h a c ih = ground (arith, c_string_lem l h.0)
  modify-Outcome_group l ls false n t h a c ih = ground (arith, c_string_lem l h.0)

  modify-Outcome_line :
      (l : Bytes) (ls : List Bytes) (found : Bool) (n : ℕ) (t : List Bytes)
      → AllText (l ∷ ls)
      → starts_with l g ≡ false
      → Outcome true n ls t
      → Outcome false n ls t
      → Outcome found n (l ∷ ls) t
  unfolding modify_from read_from
  modify-Outcome_line l ls false n t h a yet not_yet = ground (arith, c_string_lem l h.0)
  modify-Outcome_line l ls true n t h a yet not_yet = elim (Bool-cases (starts_with l k)) [
    | inl is_entry ↦
        inr (ground (arith, count-le ls false (suc n)), ground (arith, entry-key, entry-strsep))
    | inr other ↦ ground (arith, c_string_lem l h.0)
  ]

  -- After ModifyParam has gone through the lines, either it changed none of them and ReadParam is
  -- as far in them as it, or ReadParam finds the new value.
  pub modify-Outcome :
      (ls : List Bytes) (found : Bool) (n : ℕ) (t : List Bytes) → AllText ls → Outcome found n ls t
  unfolding modify_from read_from
  modify-Outcome [] found n t h = inl (refl, refl, refl)
  modify-Outcome (l ∷ ls) found n t h = elim (Bool-cases (starts_with l g)) [
    | inl is_group ↦
        modify-Outcome_group l ls found n t h is_group
          (starts_with_one l g k fits.group_apart fits.key_apart is_group)
          (modify-Outcome ls true n t h.1)
    | inr other ↦
        modify-Outcome_line l ls found n t h other (modify-Outcome ls true n t h.1)
          (modify-Outcome ls false n t h.1)
  ]

  pub group_line_lem : group_line g ≡ g ++ b'\n' ∷ []
  unfolding group_line
  group_line_lem = take_all 255 _ (omega (arith, length-append g (b'\n' ∷ []), fits.group_short))

  read_entry : (t : List Bytes) → read_from (some g) k true (entry k v ∷ t) ≡ some (v ++ b'\n' ∷ [])
  unfolding read_from
  read_entry t = ground (arith, entry-key, entry-strsep)

  pub group_line-group : starts_with (group_line g) g ≡ true
  group_line-group = rw group_line_lem (starts_with-append g (b'\n' ∷ []))

  read_new_group :
      (t : List Bytes) → read_from (some g) k false (group_line g ∷ t) ≡ read_from (some g) k true t
  unfolding read_from
  read_new_group t = ground (arith, group_line-group)

  read_added :
      (e : Edited)
      → e.count ≡ 0
      → read_from (some g) k e.found (added g k v e) ≡ some (v ++ b'\n' ∷ [])
  unfolding added
  read_added e count = ground (arith, read_entry [], read_new_group (entry k v ∷ []))

  -- ReadParam finds the new value in the lines that ModifyParam puts out.
  pub read_from-modify :
      (ls : List Bytes)
      → AllText ls
      → let e = modify_from g k v false 0 ls in
        read_from (some g) k false (e.out ++ added g k v e) ≡ some (v ++ b'\n' ∷ [])
  read_from-modify ls h =
      let e = modify_from g k v false 0 ls in
      elim (modify-Outcome ls false 0 (added g k v e) h) [
        | inl (count, out, same) ↦
            ap (λ ms. read_from (some g) k false (ms ++ added g k v e)) out
            ∙ (same ∙ read_added e count)
        | inr (changed, r) ↦ r
      ]
