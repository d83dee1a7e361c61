-- ===== src/Ftp/Passive.antt =====
-- FTP_Explain227Cmd of ftp/ftpApi.c, which takes the address and the port out of the reply to PASV.
pub mod Explain
use cctvmonitor.Base.{
  ℕ, zero, suc, ◌+◌, ◌-◌, ◌*◌, ◌≤◌, ◌<◌, ◌≡◌, refl, ap, ◌∙◌, Bool, ◌&&◌, Option, none, some, [],
  ◌∷◌, ◌++◌, ◌==◌, ltb, leb, if◌then◌else◌, length, take, drop, Bytes, strsep, strstr, map,
}
use cctvmonitor.Base.Int.{ℤ, pos, ◌+ℤ◌, ◌*ℤ◌}
use cctvmonitor.Base.Decimal.{atoi}

-- The loop of displace_char, with the rounds left: the first comma becomes a dot.
unfoldable pub displace_from : ℕ → Bytes → Bytes
unfolding strsep
displace_from zero dir = dir
displace_from (suc n) dir =
    let (front, rest) = strsep b',' dir in
    elim rest [ none ↦ dir | some s ↦ displace_from n (front ++ b'.' ∷ s) ]

-- displace_char; a text has no more commas than bytes.
unfoldable pub displace_char : Bytes → Bytes
unfolding displace_from
displace_char dir = displace_from (length dir) dir

-- The loop over the commas: the text behind the `n`-th, which str_point holds. Each round moves the rest
-- to the front by `strcpy`, from and to the same array, which C leaves undefined: here the text arrives as
-- `memmove` would bring it.
unfoldable pub behind_commas : ℕ → Bytes → Option Bytes
unfolding strsep
behind_commas zero s = some s
behind_commas (suc n) s = elim (strsep b',' s).1 [ none ↦ none | some r ↦ behind_commas n r ]

-- str_ip2 from what stands in front of the port, at `at`, and the port from its two parts. `none` is a
-- use of a missing part or a write behind str_ip2, str_point_l or str_point_h.
unfoldable pub finish : Bytes → ℕ → Bytes × Option Bytes → Option (Bytes × ℤ)
unfolding displace_char atoi
finish str at (high, none) = none
finish str at (high, some low) =
    if ltb 0 at && (ltb (length high) 10 && ltb (length low) 10)
    then some (displace_char (take (at - 1) str), atoi high *ℤ pos 256 +ℤ atoi low)
    else none

-- The port is looked for in the whole text.
unfoldable pub locate : Bytes → Bytes → Option (Bytes × ℤ)
unfolding strstr strsep finish
locate str point = elim (strstr str point) [
  | none ↦ none
  | some found ↦ finish str (length str - length found) (strsep b',' point)
]

unfoldable pub split_227 : Bytes → Option (Bytes × ℤ)
unfolding behind_commas locate
split_227 str = elim (behind_commas 4 str) [ none ↦ none | some point ↦ locate str point ]

-- The text from the one parenthesis to the other, in a buffer of 60 bytes.
unfoldable pub within : Bytes → Bytes → Option (Bytes × ℤ)
unfolding split_227
within begin end =
    if ltb (length end) (length begin) && leb (length begin - length end) 60
    then split_227 (take (length begin - length end - 1) (drop 1 begin))
    else none

-- FTP_Explain227Cmd: the address as text, and the port.
unfoldable pub explain_227 : Bytes → Option (Bytes × ℤ)
unfolding within strstr
explain_227 s = elim (strstr s (b'(' ∷ [])) [
  | none ↦ none
  | some begin ↦ elim (strstr s (b')' ∷ [])) [ none ↦ none | some end ↦ within begin end ]
]
