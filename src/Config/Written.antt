-- ===== src/Config/Written.antt =====
-- The lines of the file that ModifyParam of state/fileConfig.c writes.
use cctvmonitor.Base.{
  ℕ, suc, ◌≡◌, sym, Bool, true, false, not, ◌&&◌, ◌||◌, some, List, [], ◌∷◌, ◌++◌, ◌==◌,
  if◌then◌else◌, Bytes, starts_with, Lacks, Lacks-append, arith, append_assoc, length-append,
  c_string_lem, if_both, Lacks_split, subst,
}
use cctvmonitor.Config.{
  Edited, entry, group_line, modify_from, added, read_from, lines, concat, modified,
}
use cctvmonitor.Config.Lines.{
  ends_line, IsLine, AllLines, AllLines-lines, lines-concat, concat-lines, IsLine-of,
}
use cctvmonitor.Config.Edit.{
  AllText, Fits, entry_lem, entry-Lacks, group_line_lem, read_from-modify,
}

pub AllText-lines : (ls : List Bytes) → Lacks 0 (concat ls) → AllText ls
unfolding concat
AllText-lines [] h = tt
AllText-lines (l ∷ ls) h = let (p, q) = Lacks_split 0 l (concat ls) h in (p, AllText-lines ls q)

pub AllLines-append : (ls ms : List Bytes) → AllLines ls → AllLines ms → AllLines (ls ++ ms)
AllLines-append [] ms h k = k
AllLines-append (l ∷ ls) ms h k = (h.0, AllLines-append ls ms h.1 k)

AllText-append : (ls ms : List Bytes) → AllText ls → AllText ms → AllText (ls ++ ms)
AllText-append [] ms h k = k
AllText-append (l ∷ ls) ms h k = (h.0, AllText-append ls ms h.1 k)

-- The text of a file that `fgets` reads again as it was written, line by line, and that has no NUL.
pub record HasLines (s : Bytes) : Type 0 where
  pub whole : AllLines (lines s)
  pub text : AllText (lines s)

pub HasLines-of : (s : Bytes) → Lacks 0 s → ends_line s ≡ true → HasLines s
HasLines-of s h e = record {
  whole = AllLines-lines s e;
  text = AllText-lines (lines s) (subst (Lacks 0) (sym (concat-lines s)) h);
}

module _ (g k v : Bytes) (fits : Fits g k v) where
  entry-IsLine : IsLine (entry k v)
  entry-IsLine = rw (entry_lem g k v fits) (
      subst IsLine (append_assoc k (b'=' ∷ v) (b'\n' ∷ [])) (
        IsLine-of (k ++ b'=' ∷ v)
          (Lacks-append b'\n' k (b'=' ∷ v) fits.key_line ((omega arith), fits.value_line))
          (omega (arith, length-append k (b'=' ∷ v), fits.entry_short))))

  group_line-IsLine : IsLine (group_line g)
  group_line-IsLine =
      rw (group_line_lem g k v fits) (IsLine-of g fits.group_line (omega (arith, fits.group_short)))

  modify-AllLines :
      (ls : List Bytes) (found : Bool) (n : ℕ)
      → AllText ls
      → AllLines ls
      → AllLines (modify_from g k v found n ls).out
  unfolding modify_from
  modify-AllLines [] found n h a = tt
  modify-AllLines (l ∷ ls) found n h a =
      let is_entry = not (starts_with l g) && (found && starts_with l k) in
      (
        if_both IsLine is_entry entry-IsLine (subst IsLine (sym (c_string_lem l h.0)) a.0),
        modify-AllLines ls (starts_with l g || (found && not is_entry))
            (if is_entry then suc n else n) h.1 a.1,
      )

  added-AllLines : (e : Edited) → AllLines (added g k v e)
  unfolding added
  added-AllLines e =
      if_both AllLines (e.count == 0)
        (if_both AllLines e.found (entry-IsLine, tt) (group_line-IsLine, (entry-IsLine, tt))) tt

  out-AllLines :
      (s : Bytes)
      → HasLines s
      → let e = modify_from g k v false 0 (lines s) in AllLines (e.out ++ added g k v e)
  out-AllLines s h =
      let r = modify_from g k v false 0 (lines s) in
      AllLines-append r.out (added g k v r) (modify-AllLines (lines s) false 0 h.text h.whole)
        (added-AllLines r)

  modify-AllText :
      (ls : List Bytes) (found : Bool) (n : ℕ)
      → AllText ls
      → AllText (modify_from g k v found n ls).out
  unfolding modify_from
  modify-AllText [] found n h = tt
  modify-AllText (l ∷ ls) found n h =
      let is_entry = not (starts_with l g) && (found && starts_with l k) in
      (
        if_both (Lacks 0) is_entry (entry-Lacks g k v fits)
            (subst (Lacks 0) (sym (c_string_lem l h.0)) h.0),
        modify-AllText ls (starts_with l g || (found && not is_entry))
            (if is_entry then suc n else n) h.1,
      )

  added-AllText : (e : Edited) → AllText (added g k v e)
  unfolding added
  added-AllText e =
      let own : Lacks 0 (entry k v) = entry-Lacks g k v fits in
      let head : Lacks 0 (group_line g) =
        rw (group_line_lem g k v fits)
          (Lacks-append 0 g (b'\n' ∷ []) fits.group_text (omega arith)) in
      if_both AllText (e.count == 0) (if_both AllText e.found (own, tt) (head, (own, tt))) tt

  -- The lines of the file written.
  pub lines-modified :
      (s : Bytes)
      → HasLines s
      → let e = modify_from g k v false 0 (lines s) in
        lines (modified g k v s) ≡ e.out ++ added g k v e
  unfolding modified
  lines-modified s h =
      let r = modify_from g k v false 0 (lines s) in
      lines-concat (r.out ++ added g k v r) (out-AllLines s h)

  -- The file written is again one of lines.
  pub modified-HasLines : (s : Bytes) → HasLines s → HasLines (modified g k v s)
  modified-HasLines s h =
      let r = modify_from g k v false 0 (lines s) in
      let e = sym (lines-modified s h) in
      record {
        whole = subst AllLines e (out-AllLines s h);
        text = subst AllText e (
            AllText-append r.out (added g k v r) (modify-AllText (lines s) false 0 h.text)
              (added-AllText r));
      }

  -- ReadParam's loop over the file that ModifyParam wrote.
  pub read_modified :
      (s : Bytes)
      → HasLines s
      → read_from (some g) k false (lines (modified g k v s)) ≡ some (v ++ b'\n' ∷ [])
  read_modified s h = rw (lines-modified s h) (read_from-modify g k v fits (lines s) h.text)
