-- ===== src/State/Init/Ipc.antt =====
-- The line of a camera in CCTVConfig.ini: state/state.c, AddUserPasswordToRtsp and ParseIpcInfo.
pub mod InRange
use cctvmonitor.Base.{
  ℕ, zero, suc, ◌+◌, ◌≡◌, Bool, true, false, not, ◌||◌, Option, none, some, List, [], ◌∷◌, ◌++◌,
  ◌==◌, ltb, if◌then◌else◌, Bytes, codes, overwrite, strstr, drop, take,
}
use cctvmonitor.Base.Int.{ℤ, pos, negsuc, ◌-ℤ◌, index?, failure, success}
use cctvmonitor.Base.Decimal.{atoi}
use cctvmonitor.State.{IpcInfo}

-- The tokens of `strtok(s, "+")`: the pieces that are not empty.
abbrev pub to_front : ℕ → List Bytes → List Bytes
to_front c [] = (c ∷ []) ∷ []
to_front c (t ∷ ts) = (c ∷ t) ∷ ts

abbrev pub not_empty : List Bytes → List Bytes
not_empty [] = []
not_empty ([] ∷ ts) = not_empty ts
not_empty ((c ∷ t) ∷ ts) = (c ∷ t) ∷ not_empty ts

unfoldable pub pieces : Bytes → List Bytes
pieces [] = [] ∷ []
pieces (c ∷ s) = if c == b'+' then [] ∷ pieces s else to_front c (pieces s)

unfoldable pub tokens : Bytes → List Bytes
unfolding pieces
tokens s = not_empty (pieces s)

-- AddUserPasswordToRtsp; `dst` has 256 bytes, of which 254 and a NUL are used.
unfoldable pub add_user_password_to_rtsp : Bytes → Bytes → Bytes → Bytes → ℤ × Bytes
unfolding overwrite strstr
add_user_password_to_rtsp rtsp dst user password = elim (strstr rtsp (codes "://")) [
  | none ↦ (failure, dst)
  | some s ↦ (
    success,
    overwrite dst (take 254 (codes "rtsp://" ++ (account user password ++ drop 3 s)) ++ 0 ∷ []),
  )
]
  where
    account : Bytes → Bytes → Bytes
    account [] q = []
    account u [] = []
    account (a ∷ u) (b ∷ q) = (a ∷ u) ++ b':' ∷ ((b ∷ q) ++ b'@' ∷ [])

-- `iRet` after a field whose value is checked against `[0, n)`.
abbrev pub checked : ℤ → ℕ → ℤ → ℤ → ℤ
checked v n bad ret = elim (index? v n) [ none ↦ bad | some k ↦ ret ]

-- One field of the line; a value out of range is stored as well.
unfoldable pub parse_field : Bytes → Bytes → ℕ → Bytes → IpcInfo → ℤ → IpcInfo × ℤ
unfolding atoi ◌-ℤ◌ add_user_password_to_rtsp
parse_field user password i t c ret =
    let v = atoi t in
    let below = v -ℤ pos 1 in
    if i == 0
    then (record c { nvr_no = below }, checked below 6 (negsuc 0) ret)
    else if i == 1
    then (record c { ui_group = below }, checked below 8 (negsuc 1) ret)
    else if i == 2
    then (record c { ui_pos = below }, checked below 4 (negsuc 2) ret)
    else if i == 3
    then (record c { img_index = v }, checked below 32 (negsuc 3) ret)
    else if i == 4
    then (record c { rtsp_addr = (add_user_password_to_rtsp t c.rtsp_addr user password).1 }, ret)
    else if i == 5
    then (
      record c { main_rtsp_addr = (add_user_password_to_rtsp t c.main_rtsp_addr user password).1 },
      ret,
    )
    else (c, ret)

-- The loop of ParseIpcInfo from the field number `i` on: the number it ends at, what is stored, iRet.
unfoldable pub parse_fields : Bytes → Bytes → ℕ → List Bytes → IpcInfo → ℤ → ℕ × IpcInfo × ℤ
unfolding parse_field
parse_fields user password i [] c ret = (i, c, ret)
parse_fields user password i (t ∷ ts) c ret =
    let (c1, ret1) = parse_field user password i t c ret in
    let rest = parse_fields user password (suc i) ts c1 ret1 in
    if i == 5 then (i, c1, ret1) else rest

-- ParseIpcInfo
unfoldable pub parse_ipc_info : Bytes → IpcInfo → Bytes → Bytes → ℤ × IpcInfo
unfolding parse_fields tokens
parse_ipc_info s c user password =
    let (i, c1, ret) = parse_fields user password 0 (tokens s) c (pos 0) in
    elim ret [
      | negsuc n ↦ (failure, c1)
      | pos n ↦ if i == 4 || i == 5 then (success, c1) else (failure, c1)
    ]
