-- ===== src/Config.antt =====
-- The configuration files, state/fileConfig.c: reading and changing one `key=value` line behind a
-- `[group]` line. Files are read by `fgets` into 256 bytes.
pub mod Lines
pub mod Delete
pub mod Edit
pub mod Written
pub mod RoundTrip
pub mod Other
mod Tests
use cctvmonitor.Base.{
  ℕ, zero, suc, ◌+◌, ◌≡◌, Bool, true, false, not, ◌&&◌, ◌||◌, Option, none, some, List, [], ◌∷◌,
  ◌++◌, ◌==◌, if◌then◌else◌, length, take, Bytes, codes, starts_with, c_string, overwrite, strsep,
  bytes_eq,
}
use cctvmonitor.Base.Int.{ℤ, pos, negsuc}

-- What `fgets` takes with room for `n` bytes, and what is left.
unfoldable pub fgets : ℕ → Bytes → Bytes × Bytes
fgets zero s = ([], s)
fgets (suc n) [] = ([], [])
fgets (suc n) (c ∷ s) = let (l, r) = fgets n s in if c == b'\n' then (c ∷ [], s) else (c ∷ l, r)

-- `while (fgets(acBuf, sizeof(acBuf), fp))`; each round takes a byte or more.
unfoldable pub lines_from : ℕ → Bytes → List Bytes
lines_from zero s = []
lines_from (suc n) [] = []
lines_from (suc n) (c ∷ s) = let (l, r) = fgets 255 (c ∷ s) in l ∷ lines_from n r

unfoldable pub lines : Bytes → List Bytes
unfolding lines_from fgets
lines s = lines_from (length s) s

-- strstrim keeps all but CR, LF and the byte 20.
abbrev pub is_kept : ℕ → Bool
is_kept c = not (c == 13) && (not (c == 10) && not (c == 20))

unfoldable pub trimmed : Bytes → Bytes
trimmed [] = []
trimmed (c ∷ s) = if is_kept c then c ∷ trimmed s else trimmed s

-- strstrim: no NUL is written behind the bytes kept.
unfoldable pub strstrim : Bytes → Bytes → Bytes
unfolding trimmed overwrite
strstrim src dst = overwrite dst (trimmed src)

-- The files by path, and the paths that `fopen(path, "wb")` can open.
pub record Files : Type 0 where
  pub read : Bytes → Option Bytes
  pub writable : Bytes → Bool

unfoldable pub write_file : Files → Bytes → Bytes → Files
write_file fs path s = record fs { read = λ p. if bytes_eq p path then some s else fs.read p }

-- CopyFile from one file to another: the number of bytes copied, or -1.
unfoldable pub copy_file : Files → Bytes → Bytes → ℤ × Files
unfolding write_file
copy_file fs dst src = elim (fs.read src) [
  | none ↦ (negsuc 0, fs)
  | some s ↦ if fs.writable dst then (pos (length s), write_file fs dst s) else (negsuc 0, fs)
]

-- The lines behind a change: whether the group was found last, how many lines were replaced, and
-- the lines put out.
pub record Edited : Type 0 where
  pub found : Bool
  pub count : ℕ
  pub out : List Bytes

-- `snprintf(acBuf, sizeof(acBuf), "%s=%s\n", pcKey, pcValue)`
unfoldable pub entry : Bytes → Bytes → Bytes
entry k v = take 255 (k ++ (b'=' ∷ (v ++ (b'\n' ∷ []))))

unfoldable pub group_line : Bytes → Bytes
group_line g = take 255 (g ++ (b'\n' ∷ []))

-- The loop of ModifyParam; `fputs` stops at a NUL.
unfoldable pub modify_from : Bytes → Bytes → Bytes → Bool → ℕ → List Bytes → Edited
modify_from g k v found count [] = record { found = found; count = count; out = [] }
modify_from g k v found count (l ∷ ls) =
    let is_group = starts_with l g in
    let is_entry = not is_group && (found && starts_with l k) in
    let e =
      modify_from g k v (is_group || (found && not is_entry))
        (if is_entry then suc count else count) ls in
    record e { out = (if is_entry then entry k v else c_string l) ∷ e.out }

-- "如果没有此项，则添加一项": an entry that was not there is added at the end.
unfoldable pub added : Bytes → Bytes → Bytes → Edited → List Bytes
added g k v e =
    if e.count == 0 then (if e.found then entry k v ∷ [] else group_line g ∷ entry k v ∷ []) else []

unfoldable pub concat : List Bytes → Bytes
concat [] = []
concat (l ∷ ls) = l ++ concat ls

unfoldable pub modified : Bytes → Bytes → Bytes → Bytes → Bytes
unfolding modify_from added concat lines
modified g k v s = let e = modify_from g k v false 0 (lines s) in concat (e.out ++ added g k v e)

-- The name of the file beside: `snprintf(acTmpName, sizeof(acTmpName)-1, "%s~", pcFileName)`.
unfoldable pub tmp_name : Bytes → Bytes
tmp_name path = take 254 (path ++ b'~' ∷ [])

-- ModifyParam. Where the name beside is cut to the path itself, `fopen(…, "wb")` empties the file before it
-- is read, and CopyFile empties it again behind what was written.
unfoldable pub modify_param : Files → Bytes → Bytes → Bytes → Bytes → ℤ × Files
unfolding modified tmp_name write_file copy_file
modify_param fs path g k v = elim (fs.read path) [
  | none ↦ (negsuc 0, fs)
  | some s ↦
      if fs.writable (tmp_name path)
      then (
        pos 0,
        if bytes_eq path (tmp_name path)
            then write_file fs path []
            else (copy_file (write_file fs (tmp_name path) (modified g k v s)) path
                (tmp_name path)).1,
      )
      else (negsuc 0, fs)
]

-- The loop of ReadParam: what stands behind the `=` of the line found; `none` where no line is
-- found or the line found has no `=`.
unfoldable pub read_from : Option Bytes → Bytes → Bool → List Bytes → Option Bytes
read_from g k found [] = none
read_from g k found (l ∷ ls) =
    let opens = not found && elim g [ none ↦ false | some p ↦ starts_with l p ] in
    let rest = read_from g k (found || opens) ls in
    if found && starts_with l k then (strsep b'=' (c_string l)).1 else rest

-- `strlen(pcValue)`, or -1 for an empty value.
unfoldable pub value_length : Bytes → ℤ
unfolding c_string
value_length dst = elim (c_string dst) [ [] ↦ negsuc 0 | b ∷ bs ↦ pos (length (b ∷ bs)) ]

-- ReadParam; `dst` is the buffer at `pcValue`. A `NULL` group counts as found.
unfoldable pub read_param : Files → Bytes → Option Bytes → Bytes → Bytes → ℤ × Bytes
unfolding read_from value_length strstrim lines strsep
read_param fs path g k dst = elim (fs.read path) [
  | none ↦ (negsuc 0, dst)
  | some s ↦ elim (read_from g k (elim g [ none ↦ true | some p ↦ false ]) (lines s)) [
    | none ↦ (negsuc 0, dst)
    | some v ↦ (value_length (strstrim v dst), strstrim v dst)
  ]
]

-- The loop of DeleteParam: a line that begins with the text is left out.
unfoldable pub delete_from : Bytes → List Bytes → List Bytes
delete_from v [] = []
delete_from v (l ∷ ls) = (if starts_with l v then [] else c_string l) ∷ delete_from v ls

-- DeleteParam; here the buffer for the name has room for one byte more. Where the name is cut to the path
-- itself, the file is emptied as by ModifyParam.
unfoldable pub delete_param : Files → Bytes → Bytes → ℤ × Files
unfolding delete_from concat lines write_file copy_file
delete_param fs path v =
    let tmp = take 255 (path ++ b'~' ∷ []) in
    elim (fs.read path) [
      | none ↦ (negsuc 0, fs)
      | some s ↦
          if fs.writable tmp
          then (
            pos 0,
            if bytes_eq path tmp
                then write_file fs path []
                else (copy_file (write_file fs tmp (concat (delete_from v (lines s)))) path tmp).1,
          )
          else (negsuc 0, fs)
    ]
