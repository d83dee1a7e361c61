-- ===== src/Config/Delete.antt =====
-- DeleteParam of state/fileConfig.c leaves out the lines that begin with a text.
use cctvmonitor.Base.{
  ◌≡◌, ◌≢◌, refl, sym, ap, subst, ◌∙◌, true, false, some, List, [], ◌∷◌, ◌++◌, if◌then◌else◌, Bytes,
  starts_with, Lacks, arith, c_string_lem, bytes_eq, bytes_eq_iff, take, if_both, Bool,
}
use cctvmonitor.Base.Int.{pos}
use cctvmonitor.Config.{Files, delete_from, delete_param, lines, concat, write_file, copy_file}
use cctvmonitor.Config.Lines.{ends_line, AllLines, AllLines-lines, lines-concat, concat-lines}
use cctvmonitor.Config.Edit.{AllText}
use cctvmonitor.Config.RoundTrip.{bytes_eq_apart}
use cctvmonitor.Config.Written.{AllText-lines}

-- The lines that do not begin with the text.
unfoldable pub without : Bytes → List Bytes → List Bytes
without v [] = []
without v (l ∷ ls) = let rest = without v ls in if starts_with l v then rest else l ∷ rest

concat-delete_from :
    (v : Bytes) (ls : List Bytes) → AllText ls → concat (delete_from v ls) ≡ concat (without v ls)
unfolding concat delete_from without
concat-delete_from v [] h = refl
concat-delete_from v (l ∷ ls) h =
    rw (concat-delete_from v ls h.1, c_string_lem l h.0) (kept_or_not (starts_with l v))
  where
    kept_or_not :
        (b : Bool)
        → (if b then [] else l) ++ concat (without v ls)
          ≡ concat (if b then without v ls else l ∷ without v ls)
    kept_or_not true = refl
    kept_or_not false = refl

without-AllLines : (v : Bytes) (ls : List Bytes) → AllLines ls → AllLines (without v ls)
unfolding without
without-AllLines v [] h = tt
without-AllLines v (l ∷ ls) h =
    let rest = without-AllLines v ls h.1 in if_both AllLines (starts_with l v) rest (h.0, rest)

delete_param_writes :
    (fs : Files) (path v s : Bytes)
    → fs.read path ≡ some s
    → fs.writable path ≡ true
    → fs.writable (take 255 (path ++ b'~' ∷ [])) ≡ true
    → path ≢ take 255 (path ++ b'~' ∷ [])
    → ((delete_param fs path v).0 ≡ pos 0)
      × ((delete_param fs path v).1.read path ≡ some (concat (delete_from v (lines s))))
unfolding delete_param write_file copy_file
delete_param_writes fs path v s r w t apart =
    let same : (p : Bytes) → bytes_eq p p ≡ true = λ p. (bytes_eq_iff p p).1 refl in
    let other = bytes_eq_apart path (take 255 (path ++ b'~' ∷ [])) apart in
    (
      ground (arith, r, t),
      ground (arith, r, w, t, other, same path, same (take 255 (path ++ b'~' ∷ []))),
    )

-- DeleteParam returns 0 and leaves in the file exactly the lines that do not begin with the text, in
-- their order, where a line longer than 255 bytes counts as several, of 255 bytes each and the rest. The
-- file and the one beside it can be opened and are not the same; its text has no NUL and is empty or ends
-- in a newline.
pub delete_param-without :
    (fs : Files) (path v s : Bytes)
    → fs.read path ≡ some s
    → fs.writable path ≡ true
    → fs.writable (take 255 (path ++ b'~' ∷ [])) ≡ true
    → path ≢ take 255 (path ++ b'~' ∷ [])
    → Lacks 0 s
    → ends_line s ≡ true
    → ((delete_param fs path v).0 ≡ pos 0)
      × ((delete_param fs path v).1.read path ≡ some (concat (without v (lines s))))
      × (lines (concat (without v (lines s))) ≡ without v (lines s))
delete_param-without fs path v s r w t apart h e =
    let (ok, read) = delete_param_writes fs path v s r w t apart in
    let text = AllText-lines (lines s) (subst (Lacks 0) (sym (concat-lines s)) h) in
    (
      ok,
      read ∙ ap some (concat-delete_from v (lines s) text),
      lines-concat (without v (lines s)) (without-AllLines v (lines s) (AllLines-lines s e)),
    )
