-- ===== src/Ftp/Dirs.antt =====
-- The directories on the server, from ftp/ftpApi.c: get_file_name, make_cwd_comm, check_bracket_count,
-- get_position_str and FTP_CheckdirAndMakedir, which makes those of a path that are missing.
pub mod Path
pub mod Makes
use cctvmonitor.Base.{
  ℕ, zero, suc, ◌+◌, ◌-◌, ◌≡◌, refl, Bool, true, false, ◌&&◌, ◌||◌, Option, none, some, List, [],
  ◌∷◌, ◌++◌, ◌==◌, ltb, leb, if◌then◌else◌, length, take, drop, Bytes, codes, c_string, strsep,
  strstr,
}
use cctvmonitor.Base.Int.{ℤ, pos, negsuc, eq_ℤ}
use cctvmonitor.Gb2312.{Table}
use cctvmonitor.Ftp.{
  Net, M, return, ◌>>=◌, checked, is_negative, cmd_ctrl, converted, printed, crlf, Sent, wrote,
  would_block, failed, send_cmd_err, err_else,
}

-- `strrchr`: what is behind the last `c`.
unfoldable pub behind_last : ℕ → Bytes → Option Bytes
behind_last c [] = none
behind_last c (b ∷ s) = elim (behind_last c s) [
  | some t ↦ some t
  | none ↦ if b == c then some s else none
]

-- get_file_name
unfoldable pub get_file_name : Bytes → Bytes
unfolding behind_last
get_file_name s = elim (behind_last b'/' s) [ none ↦ s | some t ↦ t ]

-- tmpbuf of make_cwd_comm: the path in front of the first occurrence of its last part. The two buffers
-- have 128 bytes.
unfoldable pub file_dir : Bytes → Option Bytes
unfolding get_file_name strstr
file_dir s =
    let name = get_file_name s in
    let front =
      if length name == 0
      then s
      else elim (strstr s name) [ none ↦ s | some found ↦ take (length s - length found) s ] in
    if ltb (length name) 128 && ltb (length front) 128 then some front else none

abbrev pub lifted : {A : Type 0} → Option A → M A
lifted o w = elim o [ none ↦ none | some a ↦ some (a, w) ]

-- make_cwd_comm; the command has 256 bytes of room.
unfoldable pub make_cwd_comm : Table → Bytes → M Bytes
unfolding file_dir converted
make_cwd_comm t s = do
  front ← lifted (file_dir s)
  name ← converted t front 128
  printed 256 (codes "CWD " ++ (name ++ crlf))

-- check_bracket_count
unfoldable pub bracket_count : ℕ → Bytes → ℕ
bracket_count c [] = 0
bracket_count c (b ∷ s) = let n = bracket_count c s in if b == c then n + 1 else n

-- The loop of get_position_str: what is behind the `n`-th `c`. Its `strcpy`, from and to the same array,
-- is taken to move the text as `memmove` would.
unfoldable pub behind_nth : ℕ → ℕ → Bytes → Option Bytes
unfolding strsep
behind_nth c zero s = some s
behind_nth c (suc n) s = elim (strsep c s).1 [ none ↦ none | some r ↦ behind_nth c n r ]

-- get_position_str: the text up to the `n`-th `c`, that included; str_check has 100 bytes. A negative
-- `n` is as 0.
unfoldable pub position_str : ℕ → ℕ → Bytes → Option Bytes
unfolding behind_nth
position_str c n s =
    if ltb (length s) 100
    then elim (behind_nth c n s) [ none ↦ none | some r ↦ some (take (length s - length r) s) ]
    else none

-- A single call of `send`, of which only a negative result is looked at.
unfoldable pub raw_send : Bytes → M ℤ
raw_send cmd w = elim w.sends [
  | [] ↦ some (send_cmd_err, w)
  | wrote n ∷ rs ↦ some (pos 0, record w { sends = rs; wire = w.wire ++ take n cmd })
  | would_block ∷ rs ↦ some (send_cmd_err, record w { sends = rs })
  | failed ∷ rs ↦ some (send_cmd_err, record w { sends = rs })
]

-- A single call of `recv` into 100 bytes: the NUL is put at the length it returns, which is outside the
-- buffer for an error, -1, and for a full buffer.
unfoldable pub raw_recv : M Bytes
unfolding c_string
raw_recv w = elim w.recvs [
  | [] ↦ none
  | none ∷ rs ↦ none
  | some got ∷ rs ↦
      if ltb (length got) 100 then some (c_string got, record w { recvs = rs }) else none
]

-- CWD with a directory.
unfoldable pub change_dir : Table → Bytes → M ℤ
unfolding raw_send
change_dir t dir = do
  name ← converted t dir 256
  cmd ← printed 100 (codes "CWD " ++ (name ++ crlf))
  raw_send cmd

-- The part of `dir` behind `front`, less the slash at its end; for no bytes the NUL is put in front of
-- the buffer.
unfoldable pub new_name : Bytes → Bytes → Option Bytes
new_name front dir =
    let name = drop (length front) dir in
    if length name == 0 then none else some (take (length name - 1) name)

-- The directory is missing: it is made in the one in front of it.
unfoldable pub make_missing : Table → Bytes → Bytes → ℕ → M ℤ
make_missing t path dir n = do
  front ← lifted (position_str b'/' (n - 1) path)
  c ← change_dir t front
  if is_negative c then return c else (do
    _ ← raw_recv
    name ← lifted (new_name front dir)
    g ← converted t name 100
    cmd ← printed 100 (codes "MKD " ++ (g ++ crlf))
    m ← raw_send cmd
    if is_negative m then return m else (raw_recv >>= λ _. return (pos 0)))

abbrev pub says : Bytes → Bytes → Bool
says reply code = elim (strstr reply code) [ none ↦ false | some s ↦ true ]

-- What the reply to CWD is followed by.
unfoldable pub on_reply : Table → Bytes → Bytes → ℕ → Bytes → M ℤ
unfolding make_missing raw_send strstr
on_reply t path dir n reply =
    if says reply (codes "550") || says reply (codes "450")
    then make_missing t path dir n
    else if says reply (codes "521")
    then (raw_send (codes "NOOP \r\n") >>= λ _. return (pos 0))
    else return (pos 0)

-- A round of the loop over the slashes.
unfoldable pub visit : Table → Bytes → ℕ → M ℤ
unfolding position_str change_dir raw_recv on_reply
visit t path n = do
  dir ← lifted (position_str b'/' n path)
  c ← change_dir t dir
  if is_negative c then return c else (raw_recv >>= λ reply. on_reply t path dir n reply)

unfoldable pub visits : Table → Bytes → ℕ → ℕ → M ℤ
unfolding visit
visits t path zero n = return (pos 0)
visits t path (suc left) n = checked (visit t path n) (visits t path left (suc n))

-- A slash is put in front of a path that has none there.
unfoldable pub absolute : Bytes → Bytes
absolute [] = b'/' ∷ []
absolute (b ∷ s) = if b == b'/' then b ∷ s else b'/' ∷ b ∷ s

-- FTP_CheckdirAndMakedir
unfoldable pub check_dir_and_make_dir : Table → Option Bytes → M ℤ
unfolding absolute make_cwd_comm cmd_ctrl bracket_count visits
check_dir_and_make_dir t none = return err_else
check_dir_and_make_dir t (some dname) = do
  path ← printed 256 (absolute dname)
  cmd ← make_cwd_comm t path
  e ← cmd_ctrl cmd (codes "250")
  if eq_ℤ e (pos 0) then return (pos 0) else visits t path (bracket_count b'/' path + 1) 0
