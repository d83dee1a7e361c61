-- ===== src/State/Init/Pairs.antt =====
-- The two NVRs of a pair list the same cameras after the start-up of state/state.c ("互为冗余").
use cctvmonitor.Base.{
  ℕ, zero, suc, ◌+◌, ◌*◌, ◌/◌, ◌≡◌, refl, ap, subst, Option, none, some, List, [], ◌∷◌, ◌++◌, ◌&&◌,
  ltb, length, if◌then◌else◌, Bytes, codes, arith, set, get_or, update, replicate, if_both,
  option_both,
}
use cctvmonitor.Base.Int.{ℤ, pos, negsuc, eq_ℤ, index?, is_positive, failure, success}
use cctvmonitor.Base.Decimal.{decimal, atoi, print_int}
use cctvmonitor.State.{State, NvrState, no_ipc}
use cctvmonitor.State.Nvr.{nvr, set_nvr_ip_addr}
use cctvmonitor.Config.{read_param}
use cctvmonitor.State.Init.Tables.{text_value}
use cctvmonitor.State.Init.Ipc.{parse_ipc_info}
use cctvmonitor.State.Audio.{
  Setting, key, value_read, in_range, broadcast_path, broadcast_group, read_setting, set_setting,
  get_setting, put_setting, read_settings, all_settings, read_broadcast_info,
}
use cctvmonitor.State.Init.{
  add_video, read_nvr_ips, read_ipcs, read_nvr_and_ipc, read_warn_relate, parse_video_rele, cleared,
  state_init, ipc_num,
}

abbrev pub Agree : NvrState → NvrState → Type 0
Agree v w = (v.video_idx ≡ w.video_idx) × (v.nvr_video_num ≡ w.nvr_video_num)

-- The first and the second NVR agree, the third and the fourth, and so on.
abbrev pub AllPairs : List NvrState → Type 0
AllPairs [] = Unit {0}
AllPairs (v ∷ []) = Unit {0}
AllPairs (v ∷ w ∷ vs) = Agree v w × AllPairs vs

-- A change of both NVRs of the pair `p`.
Both : List NvrState → (NvrState → NvrState) → ℕ → ℕ → Type 0
Both vs f i j = AllPairs (update (update vs i f) j f)

later :
    (vs : List NvrState) (p : ℕ) (f : NvrState → NvrState)
    → Both vs f (suc (suc (p * 2))) (suc (suc (p * 2 + 1)))
    → Both vs f (suc p * 2) (suc p * 2 + 1)
later vs p f h =
    let e : suc (suc (p * 2)) ≡ suc p * 2 = omega arith in
    let e' : suc (suc (p * 2 + 1)) ≡ suc p * 2 + 1 = omega arith in
    subst (λ j. Both vs f (suc p * 2) j) e' (subst (λ i. Both vs f i (suc (suc (p * 2 + 1)))) e h)

AllPairs-update :
    (vs : List NvrState) (p : ℕ) (f : NvrState → NvrState)
    → ((v w : NvrState) → Agree v w → Agree (f v) (f w))
    → AllPairs vs
    → Both vs f (p * 2) (p * 2 + 1)
unfolding Both
AllPairs-update [] p f h a = tt
AllPairs-update (v ∷ []) zero f h a = tt
AllPairs-update (v ∷ []) (suc p) f h a = later (v ∷ []) p f tt
AllPairs-update (v ∷ w ∷ vs) zero f h a = (h v w a.0, a.1)
AllPairs-update (v ∷ w ∷ vs) (suc p) f h a =
    later (v ∷ w ∷ vs) p f (a.0, AllPairs-update vs p f h a.1)

-- A change of one NVR that keeps its list of cameras.
AllPairs-update_same :
    (vs : List NvrState) (i : ℕ) (f : NvrState → NvrState)
    → ((v w : NvrState) → Agree v w → Agree (f v) w × Agree v (f w))
    → AllPairs vs
    → AllPairs (update vs i f)
AllPairs-update_same [] i f h a = tt
AllPairs-update_same (v ∷ []) zero f h a = tt
AllPairs-update_same (v ∷ []) (suc i) f h a = tt
AllPairs-update_same (v ∷ w ∷ vs) zero f h a = ((h v w a.0).0, a.1)
AllPairs-update_same (v ∷ w ∷ vs) (suc zero) f h a = ((h v w a.0).1, a.1)
AllPairs-update_same (v ∷ w ∷ vs) (suc (suc i)) f h a = (a.0, AllPairs-update_same vs i f h a.1)

abbrev pub Paired : State → Type 0
Paired st = AllPairs st.nvrs

-- Of the state of a result, if there is one.
abbrev pub IfDone : Option (ℤ × State) → Type 0
IfDone none = Unit {0}
IfDone (some (r, st)) = Paired st

abbrev IfKept : Option State → Type 0
IfKept none = Unit {0}
IfKept (some st) = Paired st

set_ip-Paired :
    (st : State) (i : ℕ) (s : Bytes) → Paired st → Paired (set_nvr_ip_addr st (pos i) s).1
unfolding set_nvr_ip_addr
set_ip-Paired st i s a =
    option_both {B = ℤ × State} (λ p. Paired p.1) (index? (pos i) 6) a
      (λ k. AllPairs-update_same st.nvrs k _ (λ v w h. (h, h)) a)

read_nvr_ips-Paired : (n i : ℕ) (st : State) → Paired st → Paired (read_nvr_ips n i st)
unfolding read_nvr_ips
read_nvr_ips-Paired zero i st a = a
read_nvr_ips-Paired (suc n) i st a =
    read_nvr_ips-Paired n (suc i) _ (if_both Paired _ (set_ip-Paired st i _ a) a)

add_video-Paired : (st : State) (i : ℕ) (n : ℤ) → Paired st → IfKept (add_video st i n)
unfolding add_video
add_video-Paired st i (negsuc n) a = tt
add_video-Paired st i (pos n) a =
    option_both IfKept (index? (nvr st (n / 2 * 2)).nvr_video_num 12) tt (λ k.
      unfold Both in AllPairs-update st.nvrs (n / 2) _ (λ v w h. (ap (λ l. set l k i) h.0, refl)) a)

-- The branch of `read_ipcs` on the result of ParseIpcInfo.
after_parse :
    (ret : ℤ) (o : Option State) (st : State) (f : State → Option (ℤ × State))
    → Paired st
    → IfKept o
    → ((s : State) → Paired s → IfDone (f s))
    → IfDone
        (elim ret [ pos zero ↦ elim o [ none ↦ none | some s ↦ f s ] | _ ↦ some (failure, st) ])
after_parse (pos zero) none st f a h k = tt
after_parse (pos zero) (some s) st f a h k = k s h
after_parse (pos (suc n)) o st f a h k = a
after_parse (negsuc n) o st f a h k = a

read_ipcs-Paired :
    (user password : Bytes) (n i : ℕ) (st : State)
    → Paired st
    → IfDone (read_ipcs user password n i st)
unfolding read_ipcs
read_ipcs-Paired user password zero i st a = a
read_ipcs-Paired user password (suc n) i st a =
    let line =
      (text_value st.files (some (codes "[IPCINFO]")) (codes "IPC" ++ decimal (i + 1)) 256).1 in
    let r = parse_ipc_info line (get_or st.cams i no_ipc) user password in
    let st1 = record st { cams = update st.cams i (λ c. r.1) } in
    after_parse r.0 (add_video st1 i r.1.nvr_no) st1 (λ s. read_ipcs user password n (suc i) s) a
      (add_video-Paired st1 i r.1.nvr_no a) (λ s h. read_ipcs-Paired user password n (suc i) s h)

read_nvr_and_ipc-Paired : (st : State) → Paired st → IfDone (read_nvr_and_ipc st)
unfolding read_nvr_and_ipc
read_nvr_and_ipc-Paired st a =
    let st1 = read_nvr_ips 6 0 st in
    let ips = read_nvr_ips-Paired 6 0 st a in
    let user = (text_value st.files (some (codes "[IPCACCOUNT]")) (codes "USER") 16).1 in
    let password = (text_value st.files (some (codes "[IPCACCOUNT]")) (codes "PASSWORD") 16).1 in
    let r = text_value st.files (some (codes "[IPCINFO]")) (codes "IPCNUM") 256 in
    let n = ipc_num (atoi r.1) in
    if_both IfDone (ltb (length user) 16 && ltb (length password) 16)
      (if_both IfDone (is_positive r.0)
        (read_ipcs-Paired user password n 0 (record st1 { video_num = n }) ips) ips)
      tt

after_ipcs :
    (o : Option (ℤ × State))
    → IfDone o
    → IfDone (elim o [
      | none ↦ none
      | some (pos zero, st) ↦ some (read_warn_relate st)
      | some (r, st) ↦ some (r, st)
    ])
unfolding read_warn_relate
after_ipcs none h = tt
after_ipcs (some (pos zero, st)) h = h
after_ipcs (some (pos (suc n), st)) h = h
after_ipcs (some (negsuc n, st)) h = h

set_setting-Paired : (k : Setting) (st : State) (v : ℤ) → Paired st → IfDone (set_setting k st v)
unfolding set_setting put_setting
set_setting-Paired k st v a =
    if_both IfDone (eq_ℤ (get_setting k st) v) a
      (if_both IfDone (ltb (length (print_int v)) 8) a tt)

after_set :
    (o : Option (ℤ × State)) → IfDone o → IfKept (elim o [ none ↦ none | some (r, st) ↦ some st ])
after_set none h = tt
after_set (some (r, st)) h = h

read_setting-Paired : (k : Setting) (st : State) → Paired st → IfKept (read_setting k st)
unfolding read_setting put_setting
read_setting-Paired k st a =
    let r = read_param st.files broadcast_path (some broadcast_group) (key k) (replicate 256 0) in
    let v = value_read k r in
    let st1 = if is_positive r.0 && in_range k v then put_setting k st v else st in
    after_set (set_setting k st1 v)
      (set_setting-Paired k st1 v (if_both Paired (is_positive r.0 && in_range k v) a a))

after_part :
    (o : Option State) (f : State → Option State)
    → IfKept o
    → ((s : State) → Paired s → IfKept (f s))
    → IfKept (elim o [ none ↦ none | some s ↦ f s ])
after_part none f h k = tt
after_part (some s) f h k = k s h

read_settings-Paired : (ks : List Setting) (st : State) → Paired st → IfKept (read_settings ks st)
unfolding read_settings
read_settings-Paired [] st a = a
read_settings-Paired (k ∷ ks) st a =
    after_part (read_setting k st) (read_settings ks) (read_setting-Paired k st a)
      (read_settings-Paired ks)

after_settings :
    (o : Option State) → IfKept o → IfDone (elim o [ none ↦ none | some s ↦ some (success, s) ])
after_settings none h = tt
after_settings (some s) h = h

after_broadcast :
    (o : Option (ℤ × State)) (f : State → Option (ℤ × State))
    → IfDone o
    → ((s : State) → Paired s → IfDone (f s))
    → IfDone (elim o [ none ↦ none | some (r, s) ↦ f s ])
after_broadcast none f h k = tt
after_broadcast (some (r, s)) f h k = k s h

read_broadcast_info-Paired : (st : State) → Paired st → IfDone (read_broadcast_info st)
unfolding read_broadcast_info
read_broadcast_info-Paired st a =
    after_settings (read_settings all_settings st) (read_settings-Paired all_settings st a)

parse_video_rele-Paired : (st : State) → Paired st → IfDone (parse_video_rele st)
unfolding parse_video_rele
parse_video_rele-Paired st a = after_ipcs (read_nvr_and_ipc st) (read_nvr_and_ipc-Paired st a)

-- After STATE_Init the two NVRs of each pair list the same cameras, whatever the configuration files
-- hold, unless it writes behind an array: a thirteenth camera of a pair, a user or a password of sixteen
-- characters or more, or a sound setting of eight or more.
pub state_init-Paired : (eth : Bytes) (st : State) → IfDone (state_init eth st)
unfolding state_init cleared
state_init-Paired eth st =
    after_broadcast (read_broadcast_info (cleared eth st)) parse_video_rele
      (read_broadcast_info-Paired (cleared eth st) cleared_pairs) parse_video_rele-Paired
  where
    cleared_pairs : Paired (cleared eth st)
    cleared_pairs = ((refl, refl), ((refl, refl), ((refl, refl), tt)))
