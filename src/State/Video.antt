-- ===== src/State/Video.antt =====
-- The cameras: state/state.c from GetVideoNum to GetVideoNvrNo, and the table of camera names.
pub mod Laws
use cctvmonitor.Base.{
  ℕ, zero, suc, ◌+◌, ◌≡◌, Bool, true, false, not, ◌&&◌, ◌||◌, Option, none, some, List, [], ◌∷◌,
  ◌++◌, ◌==◌, ltb, leb, if◌then◌else◌, length, take, get_or, update, set, Bytes, codes, c_string,
  strncpy, min,
}
use cctvmonitor.Base.Int.{ℤ, pos, negsuc, index?, eq_ℤ, failure, success}
use cctvmonitor.State.{IpcInfo, no_ipc, State, video_ch_max, max_server_num}

-- `g_atIpcNameMap`
abbrev pub ipc_names : List (ℕ × Bytes)
ipc_names =
    (1, codes "1F")
    ∷ (2, codes "1A")
    ∷ (3, codes "1B")
    ∷ (4, codes "1C")
    ∷ (5, codes "1D")
    ∷ (6, codes "2A")
    ∷ (7, codes "2B")
    ∷ (8, codes "2C")
    ∷ (9, codes "2D")
    ∷ (10, codes "3A")
    ∷ (11, codes "3B")
    ∷ (12, codes "3C")
    ∷ (13, codes "3D")
    ∷ (14, codes "4A")
    ∷ (15, codes "4B")
    ∷ (16, codes "4C")
    ∷ (17, codes "4D")
    ∷ (18, codes "5A")
    ∷ (19, codes "5B")
    ∷ (20, codes "5C")
    ∷ (21, codes "5D")
    ∷ (22, codes "6A")
    ∷ (23, codes "6B")
    ∷ (24, codes "6C")
    ∷ (25, codes "6D")
    ∷ (26, codes "6F")
    ∷ (27, codes "1E")
    ∷ (28, codes "6E")
    ∷ (29, codes "1G")
    ∷ (30, codes "6G")
    ∷ (31, codes "G1")
    ∷ (32, codes "G2")
    ∷ []

-- The loop of FindVideoNameAccordImgIdx.
unfoldable pub find_name : List (ℕ × Bytes) → ℕ → Option Bytes
find_name [] i = none
find_name ((j, name) ∷ ns) i = if j == i then some name else find_name ns i

-- FindVideoNameAccordImgIdx: the result, and the buffer for the name.
unfoldable pub find_video_name : ℤ → Bytes → ℕ → ℤ × Bytes
unfolding find_name
find_video_name (negsuc i) dst len = (failure, dst)
find_video_name (pos i) dst len =
    if ltb video_ch_max i || ltb i 1 then (failure, dst) else elim (find_name ipc_names i) [
      | none ↦ (failure, dst)
      | some name ↦ (success, strncpy dst name len)
    ]

unfoldable pub get_video_num : State → ℕ
get_video_num st = st.video_num

-- The camera at an index; one out of range is never asked for.
abbrev pub cam : State → ℕ → IpcInfo
cam st i = get_or st.cams i no_ipc

abbrev pub update_cam : State → ℕ → (IpcInfo → IpcInfo) → State
update_cam st i f = record st { cams = update st.cams i f }

unfoldable pub set_video_rtsp_url : State → ℤ → Bytes → ℕ → ℤ × State
set_video_rtsp_url st i url len = elim (index? i video_ch_max) [
  | none ↦ (failure, st)
  | some k ↦ (
    success,
    update_cam st k (λ c. record c { rtsp_addr = strncpy c.rtsp_addr url (min len 256) }),
  )
]

unfoldable pub get_video_rtsp_url : State → ℤ → Bytes → ℕ → ℤ × Bytes
get_video_rtsp_url st i dst len = elim (index? i st.video_num) [
  | none ↦ (failure, dst)
  | some k ↦
      if get_or (cam st k).rtsp_addr 0 0 == 0
      then (failure, dst)
      else (success, strncpy dst (c_string (cam st k).rtsp_addr) (min len 256))
]

-- The main stream, or the other one where no main stream is known.
unfoldable pub get_video_main_rtsp_url : State → ℤ → Bytes → ℕ → ℤ × Bytes
get_video_main_rtsp_url st i dst len = elim (index? i st.video_num) [
  | none ↦ (failure, dst)
  | some k ↦
      if not (get_or (cam st k).main_rtsp_addr 0 0 == 0)
      then (success, strncpy dst (c_string (cam st k).main_rtsp_addr) (min len 256))
      else if not (get_or (cam st k).rtsp_addr 0 0 == 0)
      then (success, strncpy dst (c_string (cam st k).rtsp_addr) (min len 256))
      else (failure, dst)
]

unfoldable pub set_video_online_state : State → ℤ → ℤ → ℤ × State
set_video_online_state st i s = elim (index? i video_ch_max) [
  | none ↦ (failure, st)
  | some k ↦ (success, update_cam st k (λ c. record c { online_state = s }))
]

unfoldable pub get_video_online_state : State → ℤ → ℤ
get_video_online_state st i = elim (index? i st.video_num) [
  | none ↦ failure
  | some k ↦ (cam st k).online_state
]

-- The loop of GetVideoIdxAccordBtnPose over the cameras from number `i` on, `n` of them in use.
unfoldable pub find_btn : ℕ → ℕ → List IpcInfo → ℤ → ℤ → ℤ
find_btn i zero cs group p = failure
find_btn i (suc n) [] group p = failure
find_btn i (suc n) (c ∷ cs) group p =
    if eq_ℤ c.ui_group group && eq_ℤ c.ui_pos p then pos i else find_btn (suc i) n cs group p

unfoldable pub get_video_idx_accord_btn_pose : State → ℤ → ℤ → ℤ
unfolding find_btn
get_video_idx_accord_btn_pose st group p = elim (index? group 8) [
  | none ↦ failure
  | some _ ↦ elim (index? p 4) [ none ↦ failure | some _ ↦ find_btn 0 st.video_num st.cams group p ]
]

-- The result, and what is stored at `pGroup` and `iPos`.
unfoldable pub get_btn_pose_accord_video_idx : State → ℤ → ℤ × ℤ × ℤ
get_btn_pose_accord_video_idx st i = elim (index? i st.video_num) [
  | none ↦ (failure, failure, failure)
  | some k ↦ (success, (cam st k).ui_group, (cam st k).ui_pos)
]

unfoldable pub get_video_name : State → ℤ → Bytes → ℕ → ℤ × Bytes
unfolding find_video_name
get_video_name st i dst len = elim (index? i st.video_num) [
  | none ↦ (failure, dst)
  | some k ↦ find_video_name (cam st k).img_index dst len
]

unfoldable pub set_video_warn_state : State → ℤ → ℤ → ℤ × State
set_video_warn_state st i s = elim (index? i video_ch_max) [
  | none ↦ (failure, st)
  | some k ↦ (success, update_cam st k (λ c. record c { warn_state = s }))
]

unfoldable pub get_video_warn_state : State → ℤ → ℤ
get_video_warn_state st i = elim (index? i st.video_num) [
  | none ↦ failure
  | some k ↦ (cam st k).warn_state
]

unfoldable pub get_video_img_idx : State → ℤ → ℤ
get_video_img_idx st i = elim (index? i st.video_num) [
  | none ↦ failure
  | some k ↦ (cam st k).img_index
]

unfoldable pub get_video_nvr_no : State → ℤ → ℤ
get_video_nvr_no st i = elim (index? i st.video_num) [ none ↦ failure | some k ↦ (cam st k).nvr_no ]

-- STATE_GetNvrServerPmsgHandle; `none` is a read behind the end of the array.
unfoldable pub get_nvr_server_handle : State → ℤ → Option ℕ
get_nvr_server_handle st (negsuc i) = some 0
get_nvr_server_handle st (pos i) =
    if ltb max_server_num i
    then some 0
    else if ltb i (length st.nvr_handles)
    then some (get_or st.nvr_handles i 0)
    else none

-- STATE_SetNvrServerPmsgHandle; `none` is a write behind the end of the array.
unfoldable pub set_nvr_server_handle : State → ℤ → ℕ → Option (ℤ × State)
set_nvr_server_handle st (negsuc i) handle = some (failure, st)
set_nvr_server_handle st (pos i) handle =
    if handle == 0 || ltb max_server_num i
    then some (failure, st)
    else if ltb i (length st.nvr_handles)
    then some (success, record st { nvr_handles = set st.nvr_handles i handle })
    else none
