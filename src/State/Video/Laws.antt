-- ===== src/State/Video/Laws.antt =====
-- What the camera operations of state/state.c promise.
use cctvmonitor.Base.{
  ℕ, zero, suc, ◌+◌, ℕ_discrete, subst, ◌≡◌, ◌≢◌, ◌<◌, ◌↔◌, inl, inr, refl, sym, ap, ◌∙◌, true,
  false, ◌&&◌, none, List, [], ◌∷◌, ◌==◌, if◌then◌else◌, length, get_or, update, arith,
  get_or-update_self, get_or-update_ne, Bool-cases,
}
use cctvmonitor.Base.Int.{ℤ, pos, negsuc, eq_ℤ, eq_ℤ_iff, failure, success}
use cctvmonitor.State.{IpcInfo, no_ipc, State, max_server_num, IsValid}
use cctvmonitor.State.Video.{
  cam, set_video_online_state, get_video_online_state, find_btn, get_video_idx_accord_btn_pose,
  get_btn_pose_accord_video_idx, get_nvr_server_handle, set_nvr_server_handle, get_video_warn_state,
}

-- The online state set for a camera is what is read of it, and no other camera's changes; nor does
-- any camera's warning state.
get-set_video_online_state :
    (st : State) (i j : ℕ) (s : ℤ)
    → IsValid st
    → i < st.video_num
    → let st' = (set_video_online_state st (pos i) s).1 in
      (get_video_online_state st' (pos j)
        ≡ (if i == j then s else get_video_online_state st (pos j)))
      × (get_video_warn_state st' (pos j) ≡ get_video_warn_state st (pos j))
unfolding set_video_online_state get_video_online_state get_video_warn_state
get-set_video_online_state st i j s v h =
    let l : i < length st.cams = omega (arith, v.cams_length, v.video_num_le) in
    let f : IpcInfo → IpcInfo = λ c. record c { online_state = s } in
    elim (ℕ_discrete i j) [
      | Dec.yes e ↦ ground (
        arith,
        v.video_num_le,
        subst (λ m. get_or (update st.cams i f) m no_ipc ≡ f (get_or st.cams m no_ipc)) e
            (get_or-update_self st.cams i f no_ipc l),
      )
      | Dec.no ne ↦ ground (arith, v.video_num_le, get_or-update_ne st.cams i j f no_ipc ne)
    ]

-- The camera of the buttons' position `group`, `p`.
abbrev pub IsAt : ℤ → ℤ → IpcInfo → Type 0
IsAt group p c = (c.ui_group ≡ group) × (c.ui_pos ≡ p)

-- The camera `j` is the first one at a position, among the first `n`.
pub record IsFirstAt (cs : List IpcInfo) (n : ℕ) (group p : ℤ) (j : ℕ) : Type 0 where
  pub in_use : j < n
  pub matches : IsAt group p (get_or cs j no_ipc)
  pub first : (m : ℕ) → m < j → ¬ IsAt group p (get_or cs m no_ipc)

matched :
    (c : IpcInfo) {group p : ℤ} → (eq_ℤ c.ui_group group && eq_ℤ c.ui_pos p) ≡ true → IsAt group p c
matched c {group} {p} y = grind (arith, eq_ℤ_iff c.ui_group group, eq_ℤ_iff c.ui_pos p)

first_later :
    (c : IpcInfo) {group p : ℤ} {n j : ℕ} {cs : List IpcInfo}
    → (eq_ℤ c.ui_group group && eq_ℤ c.ui_pos p) ≡ false
    → IsFirstAt cs n group p j
    → (m : ℕ) → m < suc j
    → ¬ IsAt group p (get_or (c ∷ cs) m no_ipc)
first_later c {group} {p} y r zero h =
    λ (a, b). ground (arith, y, (eq_ℤ_iff c.ui_group group).1 a, (eq_ℤ_iff c.ui_pos p).1 b)
first_later c y r (suc m) h = r.first m (omega arith)

find_btn_found :
    (n i k : ℕ) (cs : List IpcInfo) (group p : ℤ)
    → find_btn i n cs group p ≡ pos k
    → (j : ℕ) × (k ≡ i + j) × IsFirstAt cs n group p j
unfolding find_btn
find_btn_found zero i k cs group p e = absurd (ground arith)
find_btn_found (suc n) i k [] group p e = absurd (ground arith)
find_btn_found (suc n) i k (c ∷ cs) group p e =
    elim (Bool-cases (eq_ℤ c.ui_group group && eq_ℤ c.ui_pos p)) [
      | inl y ↦ (
        0,
        ground (arith, y),
        record { in_use = omega arith; matches = matched c y; first = λ m h. absurd (omega arith) },
      )
      | inr y ↦
          let (j, q, r) = find_btn_found n (suc i) k cs group p (ground (arith, y)) in
          (
            suc j,
            omega arith,
            record {
              in_use = omega (arith, r.in_use);
              matches = r.matches;
              first = first_later c y r;
            },
          )
    ]

find_btn_missing :
    (n i : ℕ) (cs : List IpcInfo) (group p : ℤ)
    → find_btn i n cs group p ≡ failure
    → (m : ℕ) → m < n
    → m < length cs
    → ¬ IsAt group p (get_or cs m no_ipc)
unfolding find_btn
find_btn_missing zero i cs group p e m h l = absurd (omega arith)
find_btn_missing (suc n) i [] group p e m h l = absurd (omega arith)
find_btn_missing (suc n) i (c ∷ cs) group p e zero h l =
    λ (a, b). ground (arith, (eq_ℤ_iff c.ui_group group).1 a, (eq_ℤ_iff c.ui_pos p).1 b)
find_btn_missing (suc n) i (c ∷ cs) group p e (suc m) h l =
    find_btn_missing n (suc i) cs group p
      (elim (Bool-cases (eq_ℤ c.ui_group group && eq_ℤ c.ui_pos p)) [
        | inl y ↦ absurd (ground (arith, y))
        | inr y ↦ ground (arith, y)
      ])
      m (omega arith) (omega arith)

btn_pose_cases :
    (st : State) (group p : ℕ)
    → IsValid st
    → group < 8
    → p < 4
    → ((k : ℕ)
        → get_video_idx_accord_btn_pose st (pos group) (pos p) ≡ pos k
        → IsFirstAt st.cams st.video_num (pos group) (pos p) k
          × (get_btn_pose_accord_video_idx st (pos k) ≡ (success, pos group, pos p)))
      × (get_video_idx_accord_btn_pose st (pos group) (pos p) ≡ failure
          → (m : ℕ) → m < st.video_num
          → ¬ IsAt (pos group) (pos p) (cam st m))
unfolding get_video_idx_accord_btn_pose get_btn_pose_accord_video_idx
btn_pose_cases st group p v hg hp =
    let e : get_video_idx_accord_btn_pose st (pos group) (pos p)
        ≡ find_btn 0 st.video_num st.cams (pos group) (pos p) =
      ground arith in
    (
      (λ k q.
          let (j, z, r) = find_btn_found st.video_num 0 k st.cams (pos group) (pos p) (sym e ∙ q) in
          let same : j ≡ k = omega arith in
          let r' = subst (IsFirstAt st.cams st.video_num (pos group) (pos p)) same r in
          (r', ground (arith, r'.in_use, r'.matches.0, r'.matches.1))),
      (λ q m h.
          find_btn_missing st.video_num 0 st.cams (pos group) (pos p) (sym e ∙ q) m h
            (omega (arith, v.cams_length, v.video_num_le))),
    )

-- What an answer of GetVideoIdxAccordBtnPose says of a group and a position.
abbrev pub Answers : State → ℕ → ℕ → ℤ → Type 0
Answers st group p (pos k) =
    IsFirstAt st.cams st.video_num (pos group) (pos p) k
    × (get_btn_pose_accord_video_idx st (pos k) ≡ (success, pos group, pos p))
Answers st group p (negsuc i) = (m : ℕ) → m < st.video_num → ¬ IsAt (pos group) (pos p) (cam st m)

find_btn_failure :
    (n i : ℕ) (cs : List IpcInfo) (group p : ℤ) (k : ℕ) → find_btn i n cs group p ≡ negsuc k → k ≡ 0
unfolding find_btn
find_btn_failure zero i cs group p k e = ground (arith, e)
find_btn_failure (suc n) i [] group p k e = ground (arith, e)
find_btn_failure (suc n) i (c ∷ cs) group p k e =
    elim (Bool-cases (eq_ℤ c.ui_group group && eq_ℤ c.ui_pos p)) [
      | inl y ↦ absurd (ground (arith, y, e))
      | inr z ↦ find_btn_failure n (suc i) cs group p k (ground (arith, z, e))
    ]

-- A position without a camera is answered by -1.
pub get_video_idx_accord_btn_pose-failure :
    (st : State) (group p k : ℕ)
    → group < 8
    → p < 4
    → get_video_idx_accord_btn_pose st (pos group) (pos p) ≡ negsuc k
    → k ≡ 0
unfolding get_video_idx_accord_btn_pose
get_video_idx_accord_btn_pose-failure st group p k hg hp e =
    let step : get_video_idx_accord_btn_pose st (pos group) (pos p)
        ≡ find_btn 0 st.video_num st.cams (pos group) (pos p) =
      ground arith in
    find_btn_failure st.video_num 0 st.cams (pos group) (pos p) k (sym step ∙ e)

answer_of :
    (st : State) (group p : ℕ) (r : ℤ)
    → IsValid st
    → group < 8
    → p < 4
    → get_video_idx_accord_btn_pose st (pos group) (pos p) ≡ r
    → Answers st group p r
unfolding get_video_idx_accord_btn_pose
answer_of st group p (pos k) v hg hp e = (btn_pose_cases st group p v hg hp).0 k e
answer_of st group p (negsuc i) v hg hp e =
    let step : get_video_idx_accord_btn_pose st (pos group) (pos p)
        ≡ find_btn 0 st.video_num st.cams (pos group) (pos p) =
      ground arith in
    let z = find_btn_failure st.video_num 0 st.cams (pos group) (pos p) i (sym step ∙ e) in
    (btn_pose_cases st group p v hg hp).1 (e ∙ ap negsuc z)

-- GetVideoIdxAccordBtnPose gives the first camera in use at a button's group (below 8) and position
-- (below 4), whose position GetBtnPoseAccordVideoIdx gives back; and a negative answer says that no
-- camera in use is there.
pub get_video_idx_accord_btn_pose-Answers :
    (st : State) (group p : ℕ)
    → IsValid st
    → group < 8
    → p < 4
    → Answers st group p (get_video_idx_accord_btn_pose st (pos group) (pos p))
get_video_idx_accord_btn_pose-Answers st group p v hg hp =
    answer_of st group p (get_video_idx_accord_btn_pose st (pos group) (pos p)) v hg hp refl

-- The handle of an NVR server is kept at its index; the reads and writes that leave the array are
-- those at the index MAX_SERVER_NUM, which the check lets through.
nvr_server_handle_faults :
    (st : State) (i : ℤ) (handle : ℕ)
    → IsValid st
    → handle ≢ 0
    → ((get_nvr_server_handle st i ≡ none) ↔ (i ≡ pos max_server_num))
      × ((set_nvr_server_handle st i handle ≡ none) ↔ (i ≡ pos max_server_num))
unfolding get_nvr_server_handle set_nvr_server_handle
nvr_server_handle_faults st (pos i) handle v h =
    (ground (arith, v.handles_length), ground (arith, v.handles_length))
nvr_server_handle_faults st (negsuc i) handle v h = (ground (arith), ground arith)
