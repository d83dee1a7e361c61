-- ===== src/State/Warn.antt =====
-- The warnings: state/state.c from GetPecuVideoIndex to GetAllDoorWarnInfo. A carriage number is a
-- `char`, a byte; a camera's index in the tables is a byte, 255 for none.
pub mod Laws
use cctvmonitor.Base.{
  ℕ, ◌+◌, ◌*◌, ◌≡◌, Bool, true, false, Option, none, some, List, [], ◌∷◌, ltb, leb, if◌then◌else◌,
  get_or, update, map, Bytes, length, replicate, ◌++◌, ◌-◌,
}
use cctvmonitor.Base.Int.{ℤ, pos, negsuc, index?, failure, success}
use cctvmonitor.State.{State, CarriageWarn, no_warn}

-- `iVideoIdx <0 || iVideoIdx >g_iVideoNum`
abbrev pub known_video : State → ℕ → ℤ
known_video st i = if ltb st.video_num i then failure else pos i

unfoldable pub get_pecu_video_index : State → ℤ → ℤ
get_pecu_video_index st i = elim (index? i 24) [
  | none ↦ failure
  | some k ↦ known_video st (get_or st.pecu_video k 0)
]

unfoldable pub set_pecu_warn_info : State → ℕ → State
set_pecu_warn_info st v = record st { pecu_warn = v }

unfoldable pub get_pecu_warn_info : State → ℕ
get_pecu_warn_info st = st.pecu_warn

unfoldable pub set_pecu_first_warn_video_idx : State → ℤ → State
set_pecu_first_warn_video_idx st i = record st { pecu_first = i }

unfoldable pub get_pecu_first_warn_video_idx : State → ℤ
get_pecu_first_warn_video_idx st = st.pecu_first

-- GetFireWarnVideoIdx; the table is read before the check of the number, and what is read is not used.
unfoldable pub get_fire_warn_video_idx : State → ℕ → ℤ
get_fire_warn_video_idx st c =
    if ltb 5 c then failure else known_video st (get_or st.fire_video c 0)

abbrev pub carriage : State → ℕ → CarriageWarn
carriage st c = get_or st.warns c no_warn

unfoldable pub set_fire_warn_info : State → ℕ → ℕ → ℤ × State
set_fire_warn_info st c w =
    if ltb 5 c
    then (failure, st)
    else (success, record st { warns = update st.warns c (λ r. record r { fire_warn = w }) })

unfoldable pub get_fire_warn_info : State → ℕ → Option ℕ
get_fire_warn_info st c = if ltb 5 c then none else some (carriage st c).fire_warn

-- The bytes of six carriages in a buffer of `len` bytes, the others cleared.
abbrev pub six_bytes : State → (CarriageWarn → ℕ) → ℕ → Option Bytes
six_bytes st f len =
    if ltb len 6
    then none
    else some (
        f (carriage st 0)
        ∷ f (carriage st 1)
        ∷ f (carriage st 2)
        ∷ f (carriage st 3)
        ∷ f (carriage st 4)
        ∷ f (carriage st 5)
        ∷ replicate (len - 6) 0)

unfoldable pub get_all_fire_warn_info : State → ℕ → Option Bytes
get_all_fire_warn_info st len = six_bytes st (λ r. r.fire_warn) len

-- The six assignments of SetAllDoorClipInfo, from carriage `c` on.
unfoldable pub set_clips : List CarriageWarn → Bytes → ℕ → List CarriageWarn
set_clips [] bs n = []
set_clips (r ∷ rs) bs n = record r { door_clip_warn = get_or bs n 0 } ∷ set_clips rs bs (n + 1)

unfoldable pub set_all_door_clip_info : State → Bytes → ℤ × State
unfolding set_clips
set_all_door_clip_info st bs =
    if ltb (length bs) 6
    then (failure, st)
    else (success, record st { warns = set_clips st.warns bs 0 })

unfoldable pub get_all_door_clip_info : State → ℕ → Option Bytes
get_all_door_clip_info st len = six_bytes st (λ r. r.door_clip_warn) len

unfoldable pub get_door_warn_video_idx : State → ℕ → ℤ → ℤ
get_door_warn_video_idx st c i = if ltb 5 c then failure else elim (index? i 8) [
  | none ↦ failure
  | some k ↦ known_video st (get_or st.door_video (c * 8 + k) 0)
]

unfoldable pub set_door_warn_info : State → ℕ → ℕ → ℤ × State
set_door_warn_info st c w =
    if ltb 5 c
    then (failure, st)
    else (success, record st { warns = update st.warns c (λ r. record r { door_warn = w }) })

unfoldable pub get_door_warn_info : State → ℕ → Option ℕ
get_door_warn_info st c = if ltb 5 c then none else some (carriage st c).door_warn

unfoldable pub get_all_door_warn_info : State → ℕ → Option Bytes
get_all_door_warn_info st len = six_bytes st (λ r. r.door_warn) len
