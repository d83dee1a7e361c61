-- ===== src/State/Audio/Parts.antt =====
-- One part of ReadBrodCastInfo of state/state.c: it takes the value of the file and leaves the others.
use cctvmonitor.Base.{
  ◌≡◌, ◌<◌, ◌∙◌, refl, sym, ap, subst, true, false, ◌==◌, Bool-cases, inl, inr, ◌&&◌, lt→ltb,
  if◌then◌else◌, some, none, Option, Bytes, replicate, length, arith, if_both,
}
use cctvmonitor.Base.Int.{ℤ, eq_ℤ, eq_ℤ_iff, is_positive, success}
use cctvmonitor.Base.Decimal.{print_int}
use cctvmonitor.Config.{Files, modify_param, modified, read_param}
use cctvmonitor.Config.RoundTrip.{CanModify, modify_param-CanModify}
use cctvmonitor.Config.Written.{HasLines, modified-HasLines}
use cctvmonitor.Config.Other.{read_param-modify_other}
use cctvmonitor.State.{State}
use cctvmonitor.State.Audio.{
  Setting, monitor, noise, lcd, driver, carriage_speaker, map_bright, broadcast_path,
  broadcast_group, key, get_setting, set_setting, put_setting, read_setting, value_read, in_range,
}
use cctvmonitor.State.Audio.Keys.{place, group-Apart, key-Apart, value_Fits}

-- What the settings' file has for a setting, or its default.
abbrev pub file_value : Setting → Files → ℤ
file_value k fs =
    value_read k (read_param fs broadcast_path (some broadcast_group) (key k) (replicate 256 0))

-- A number that fits acParseStr with its NUL.
abbrev pub IsShort : ℤ → Type 0
IsShort v = length (print_int v) < 8

-- The settings' file can be changed.
pub record IsOpen (fs : Files) : Type 0 where
  pub content : Bytes
  pub can : CanModify fs broadcast_path content
  pub has_lines : HasLines content

get-put_setting : (k : Setting) (st : State) (v : ℤ) → get_setting k (put_setting k st v) ≡ v
unfolding get_setting put_setting
get-put_setting monitor st v = refl
get-put_setting noise st v = refl
get-put_setting lcd st v = refl
get-put_setting driver st v = refl
get-put_setting carriage_speaker st v = refl
get-put_setting map_bright st v = refl

get-put_other :
    (k j : Setting) (st : State) (v : ℤ)
    → (place k == place j) ≡ false
    → get_setting j (put_setting k st v) ≡ get_setting j st
unfolding get_setting put_setting
get-put_other monitor j st v h = ground (arith, h)
get-put_other noise j st v h = ground (arith, h)
get-put_other lcd j st v h = ground (arith, h)
get-put_other driver j st v h = ground (arith, h)
get-put_other carriage_speaker j st v h = ground (arith, h)
get-put_other map_bright j st v h = ground (arith, h)

pub files-put_setting : (k : Setting) (st : State) (v : ℤ) → (put_setting k st v).files ≡ st.files
unfolding put_setting
files-put_setting k st v = refl

-- The files behind a write of a setting.
abbrev pub written : Setting → State → ℤ → Files
written k st v = (modify_param st.files broadcast_path broadcast_group (key k) (print_int v)).1

set_same :
    (k : Setting) (st : State) (v : ℤ)
    → eq_ℤ (get_setting k st) v ≡ true
    → set_setting k st v ≡ some (success, st)
unfolding set_setting
set_same k st v e = ground (arith, e)

pub set_new :
    (k : Setting) (st : State) (v : ℤ)
    → eq_ℤ (get_setting k st) v ≡ false
    → IsShort v
    → set_setting k st v ≡ some (success, put_setting k (record st { files = written k st v }) v)
unfolding set_setting
set_new k st v e short = rw (e, lt→ltb (length (print_int v)) 8 short) refl

-- A state where a setting has a value, and all else of the settings, in memory and in the file, is as it
-- was.
pub record Settled (k : Setting) (st : State) (v : ℤ) (after : State) : Type 0 where
  pub is_set : get_setting k after ≡ v
  pub others : (j : Setting) → (place k == place j) ≡ false → get_setting j after ≡ get_setting j st
  pub open_after : IsOpen after.files
  pub kept :
      (j : Setting)
      → (place k == place j) ≡ false
      → file_value j after.files ≡ file_value j st.files

written-IsOpen :
    (k : Setting) (st : State) (v : ℤ) → IsOpen st.files → IsShort v → IsOpen (written k st v)
written-IsOpen k st v o short = record {
  content = modified broadcast_group (key k) (print_int v) o.content;
  can =
      modify_param-CanModify st.files broadcast_path broadcast_group (key k) (print_int v) o.content
        o.can;
  has_lines =
      modified-HasLines broadcast_group (key k) (print_int v) (value_Fits k v short) o.content
        o.has_lines;
}

written-kept :
    (k j : Setting) (st : State) (v : ℤ)
    → IsOpen st.files
    → IsShort v
    → (place k == place j) ≡ false
    → file_value j (written k st v) ≡ file_value j st.files
written-kept k j st v o short ne = ap (value_read j) (
    read_param-modify_other st.files broadcast_path broadcast_group (key k) (print_int v) (key j)
      o.content (replicate 256 0) o.can o.has_lines (value_Fits k v short) (group-Apart j)
      (key-Apart k j ne))

pub new-Settled :
    (k : Setting) (st : State) (v : ℤ)
    → IsOpen st.files
    → IsShort v
    → Settled k st v (put_setting k (record st { files = written k st v }) v)
unfolding get_setting
new-Settled k st v o short =
    let st1 = record st { files = written k st v } in
    let same = sym (files-put_setting k st1 v) in
    record {
      is_set = get-put_setting k st1 v;
      others = λ j ne. get-put_other k j st1 v ne ∙ get_files j st (written k st v);
      open_after = subst IsOpen same (written-IsOpen k st v o short);
      kept = λ j ne. ap (file_value j) (sym same) ∙ written-kept k j st v o short ne;
    }
  where
    get_files :
        (j : Setting) (st : State) (fs : Files)
        → get_setting j (record st { files = fs }) ≡ get_setting j st
    get_files monitor st fs = refl
    get_files noise st fs = refl
    get_files lcd st fs = refl
    get_files driver st fs = refl
    get_files carriage_speaker st fs = refl
    get_files map_bright st fs = refl

-- A setter ends, and the setting has its value.
set_setting-Settled :
    (k : Setting) (st : State) (v : ℤ)
    → IsOpen st.files
    → IsShort v
    → (after : State) × (set_setting k st v ≡ some (success, after)) × Settled k st v after
set_setting-Settled k st v o short = elim (Bool-cases (eq_ℤ (get_setting k st) v)) [
  | inl e ↦ (
    st,
    set_same k st v e,
    record {
      is_set = (eq_ℤ_iff (get_setting k st) v).0 e;
      others = λ j ne. refl;
      open_after = o;
      kept = λ j ne. refl;
    },
  )
  | inr e ↦ (
    put_setting k (record st { files = written k st v }) v,
    set_new k st v e short,
    new-Settled k st v o short,
  )
]

-- A part of ReadBrodCastInfo ends, and the setting has what the file has for it, in range or not.
pub read_setting-Settled :
    (k : Setting) (st : State)
    → IsOpen st.files
    → IsShort (file_value k st.files)
    → (after : State) × (read_setting k st ≡ some after)
      × Settled k st (file_value k st.files) after
unfolding read_setting
read_setting-Settled k st o short =
    let r = read_param st.files broadcast_path (some broadcast_group) (key k) (replicate 256 0) in
    let v = file_value k st.files in
    let test = is_positive r.0 && in_range k v in
    let st1 = if test then put_setting k st v else st in
    let files : st1.files ≡ st.files =
      if_both (λ (s : State). s.files ≡ st.files) test (files-put_setting k st v) refl in
    let (after, e, s) = set_setting-Settled k st1 v (subst IsOpen (sym files) o) short in
    (
      after,
      ap
          (λ (o : Option (ℤ × State)). elim o as (λ x. Option State) [
            | none ↦ none
            | some (r, s) ↦ some s
          ])
          e,
      record {
        is_set = s.is_set;
        others = λ j ne.
            s.others j ne
            ∙ if_both (λ (s : State). get_setting j s ≡ get_setting j st) test
                (get-put_other k j st v ne) refl;
        open_after = s.open_after;
        kept = λ j ne. s.kept j ne ∙ ap (file_value j) files;
      },
    )
