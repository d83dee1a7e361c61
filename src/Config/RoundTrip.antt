-- ===== src/Config/RoundTrip.antt =====
-- A value written by ModifyParam is the value that ReadParam reads.
use cctvmonitor.Base.{
  ℕ, suc, ◌+◌, ◌≡◌, ◌≢◌, refl, ap, ◌∙◌, true, false, some, [], ◌∷◌, ◌++◌, length, Bytes, Lacks,
  arith, replicate, drop-replicate, c_string-append, bytes_eq, bytes_eq_iff, overwrite, Bool-cases,
  inl, inr,
}
use cctvmonitor.Base.Int.{pos}
use cctvmonitor.Config.{
  Files, read_from, is_kept, trimmed, strstrim, lines, modified, tmp_name, write_file, copy_file,
  modify_param, read_param, value_length,
}
use cctvmonitor.Config.Lines.{ends_line}
use cctvmonitor.Config.Edit.{Fits}
use cctvmonitor.Config.Written.{HasLines, HasLines-of, read_modified}

-- Every byte is one that strstrim keeps.
abbrev pub AllKept : Bytes → Type 0
AllKept [] = Unit {0}
AllKept (b ∷ s) = (is_kept b ≡ true) × AllKept s

trimmed_line : (v : Bytes) → AllKept v → trimmed (v ++ b'\n' ∷ []) ≡ v
unfolding trimmed
trimmed_line [] h = refl
trimmed_line (b ∷ v) h = ground (arith, h.0, trimmed_line v h.1)

-- The file at `path` and the file beside it that ModifyParam writes first.
pub record CanModify (fs : Files) (path : Bytes) (s : Bytes) : Type 0 where
  pub readable : fs.read path ≡ some s
  pub path_writable : fs.writable path ≡ true
  pub tmp_writable : fs.writable (tmp_name path) ≡ true
  pub apart : path ≢ tmp_name path

pub bytes_eq_apart : (p q : Bytes) → p ≢ q → bytes_eq p q ≡ false
bytes_eq_apart p q ne = elim (Bool-cases (bytes_eq p q)) [
  | inl e ↦ absurd (ne ((bytes_eq_iff p q).0 e))
  | inr e ↦ e
]

bytes_eq_refl : (p : Bytes) → bytes_eq p p ≡ true
bytes_eq_refl p = (bytes_eq_iff p p).1 refl

-- ModifyParam returns 0 and leaves the changed text in the file.
pub modify_param_writes :
    (fs : Files) (path g k v s : Bytes)
    → CanModify fs path s
    → ((modify_param fs path g k v).0 ≡ pos 0)
      × ((modify_param fs path g k v).1.read path ≡ some (modified g k v s))
unfolding modify_param write_file copy_file
modify_param_writes fs path g k v s can = (
  ground (arith, can.readable, can.tmp_writable),
  ground (
    arith,
    can.readable,
    can.tmp_writable,
    can.path_writable,
    bytes_eq_apart path (tmp_name path) can.apart,
    bytes_eq_refl path,
    bytes_eq_refl (tmp_name path),
  ),
)

value_read :
    (v : Bytes) (m : ℕ)
    → Lacks 0 v
    → v ≢ []
    → value_length (v ++ replicate (suc m) 0) ≡ pos (length v)
unfolding value_length
value_read [] m h ne = absurd (ne refl)
value_read (b ∷ v) m h ne = rw (c_string-append (b ∷ v) (replicate m 0) h, value_length) refl

strstrim_value :
    (v : Bytes) (m : ℕ)
    → AllKept v
    → strstrim (v ++ b'\n' ∷ []) (replicate (length v + suc m) 0) ≡ v ++ replicate (suc m) 0
unfolding strstrim overwrite
strstrim_value v m h =
    rw (trimmed_line v h) (ap (λ t. v ++ t) (drop-replicate (length v) (suc m) 0))

read_param_of :
    (fs : Files) (path g k v t : Bytes) (m : ℕ)
    → fs.read path ≡ some t
    → read_from (some g) k false (lines t) ≡ some (v ++ b'\n' ∷ [])
    → AllKept v
    → Lacks 0 v
    → v ≢ []
    → read_param fs path (some g) k (replicate (length v + suc m) 0)
      ≡ (pos (length v), v ++ replicate (suc m) 0)
unfolding read_param
read_param_of fs path g k v t m readable found kept text ne =
    ground (arith, readable, found, strstrim_value v m kept, value_read v m text ne)

pub read_param-modify_lines :
    (fs : Files) (path g k v s : Bytes) (m : ℕ)
    → CanModify fs path s
    → HasLines s
    → Fits g k v
    → AllKept v
    → v ≢ []
    → read_param (modify_param fs path g k v).1 path (some g) k (replicate (length v + suc m) 0)
      ≡ (pos (length v), v ++ replicate (suc m) 0)
read_param-modify_lines fs path g k v s m can h fits kept ne =
    read_param_of (modify_param fs path g k v).1 path g k v (modified g k v s) m
      (modify_param_writes fs path g k v s can).1 (read_modified g k v fits s h) kept
      fits.value_text ne

-- ReadParam reads back the value that ModifyParam wrote under the same group and key: it returns
-- the length of the value and leaves its bytes in a buffer of NULs that has room for them. The
-- file and the one beside it can be opened; its text has no NUL and is empty or ends in a newline;
-- neither of group and key begins with the other, the key has no `=`, the new lines fit 255 bytes,
-- and the value is not empty and has no byte that strstrim drops.
pub read_param-modify_param :
    (fs : Files) (path g k v s : Bytes) (m : ℕ)
    → CanModify fs path s
    → Lacks 0 s
    → ends_line s ≡ true
    → Fits g k v
    → AllKept v
    → v ≢ []
    → read_param (modify_param fs path g k v).1 path (some g) k (replicate (length v + suc m) 0)
      ≡ (pos (length v), v ++ replicate (suc m) 0)
read_param-modify_param fs path g k v s m can text ended fits kept ne =
    read_param-modify_lines fs path g k v s m can (HasLines-of s text ended) fits kept ne

modify-writable :
    (fs : Files) (path g k v s p : Bytes)
    → CanModify fs path s
    → (modify_param fs path g k v).1.writable p ≡ fs.writable p
unfolding modify_param write_file copy_file
modify-writable fs path g k v s p can = ground (
  arith,
  can.readable,
  can.tmp_writable,
  can.path_writable,
  bytes_eq_apart path (tmp_name path) can.apart,
  bytes_eq_refl (tmp_name path),
)

-- The file stays one that ModifyParam can change.
pub modify_param-CanModify :
    (fs : Files) (path g k v s : Bytes)
    → CanModify fs path s
    → CanModify (modify_param fs path g k v).1 path (modified g k v s)
modify_param-CanModify fs path g k v s can = record {
  readable = (modify_param_writes fs path g k v s can).1;
  path_writable = modify-writable fs path g k v s path can ∙ can.path_writable;
  tmp_writable = modify-writable fs path g k v s (tmp_name path) can ∙ can.tmp_writable;
  apart = can.apart;
}
