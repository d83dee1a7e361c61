-- ===== src/Log/Keep.antt =====
-- The event log of log/log.c keeps the newest lines, at most 11000 of them.
use cctvmonitor.Base.{
  ℕ, ◌≤◌, ◌≡◌, true, some, List, [], ◌∷◌, ◌++◌, ltb, if◌then◌else◌, length, drop, Bytes,
}
use cctvmonitor.Base.Int.{ℤ, success}
use cctvmonitor.Config.{concat}
use cctvmonitor.Config.Lines.{AllLines}
use cctvmonitor.Config.Edit.{AllText}
use cctvmonitor.Log.Line.{IsPlain}
use cctvmonitor.Log.{Log, Clock, log_line, most, log_tmp_name}

-- The log's file has these lines, and the count is theirs.
pub record Keeps (g : Log) (ls : List Bytes) : Type 0 where
  pub file : g.files.read g.path ≡ some (concat ls)
  pub whole : AllLines ls
  pub text : AllText ls
  pub counted : g.log_count ≡ length ls

-- The file and the one beside it can be written.
pub record CanWrite (g : Log) : Type 0 where
  pub path_writable : g.files.writable g.path ≡ true
  pub tmp_writable : g.files.writable (log_tmp_name g.path) ≡ true

module _ (t : Clock) (type : ℕ) (desc : Bytes) (plain : IsPlain desc) (g : Log) (ls : List Bytes)
    (keeps : Keeps g ls) (can : CanWrite g) where
  abbrev line : Bytes
  line = log_line t type desc

  abbrev rotated : List Bytes
  rotated = drop 1000 ls ++ line ∷ []

-- The lines behind an entry: all and the new one, or from the 1001st on where there are 11000.
abbrev pub kept : List Bytes → List Bytes
kept ls = if ltb (length ls) most then ls else drop 1000 ls

-- A result and the lines it leaves.
abbrev Written : ℤ × Log → List Bytes → Bytes → Type 0
Written r ks line = (r.0 ≡ success) × Keeps r.1 (ks ++ line ∷ []) × (r.1.log_count ≤ most)
