-- ===== src/State/Audio/Whole.antt =====
-- ReadBrodCastInfo of state/state.c as a whole: each sound setting gets what the file has for it.
use cctvmonitor.Base.{
  ◌≡◌, ◌∙◌, refl, sym, ap, subst, false, ◌==◌, Option, none, some, List, [], ◌∷◌, arith,
}
use cctvmonitor.Base.Int.{ℤ, success}
use cctvmonitor.Config.{Files}
use cctvmonitor.State.{State}
use cctvmonitor.State.Audio.{
  Setting, monitor, noise, lcd, driver, carriage_speaker, map_bright, get_setting, read_settings,
  all_settings, read_broadcast_info,
}
use cctvmonitor.State.Audio.Keys.{place}
use cctvmonitor.State.Audio.Parts.{file_value, IsShort, IsOpen, Settled, read_setting-Settled}

-- No setting of the list is the one at this place.
abbrev IsAbsent : Setting → List Setting → Type 0
IsAbsent k [] = Unit {0}
IsAbsent k (j ∷ js) = ((place k == place j) ≡ false) × IsAbsent k js

abbrev AllDistinct : List Setting → Type 0
AllDistinct [] = Unit {0}
AllDistinct (k ∷ ks) = IsAbsent k ks × AllDistinct ks

-- The file has, for each setting of the list, a number that fits its text.
abbrev AllShort : List Setting → Files → Type 0
AllShort [] fs = Unit {0}
AllShort (k ∷ ks) fs = IsShort (file_value k fs) × AllShort ks fs

-- Each setting of the list has in memory what the file has for it.
abbrev AllTaken : List Setting → Files → State → Type 0
AllTaken [] fs st = Unit {0}
AllTaken (k ∷ ks) fs st = (get_setting k st ≡ file_value k fs) × AllTaken ks fs st

module _ (k : Setting) (st after : State) (s : Settled k st (file_value k st.files) after) where
  still_short : (ks : List Setting) → IsAbsent k ks → AllShort ks st.files → AllShort ks after.files
  still_short [] a h = tt
  still_short (j ∷ js) a h = (subst IsShort (sym (s.kept j a.0)) h.0, still_short js a.1 h.1)

  as_before :
      (ks : List Setting) (end : State)
      → IsAbsent k ks
      → AllTaken ks after.files end
      → AllTaken ks st.files end
  as_before [] end a h = tt
  as_before (j ∷ js) end a h = (h.0 ∙ s.kept j a.0, as_before js end a.1 h.1)

-- The parts of ReadBrodCastInfo end: each setting of the list has what the file had at the start, and
-- the others are as they were.
read_settings-AllTaken :
    (ks : List Setting) (st : State)
    → AllDistinct ks
    → IsOpen st.files
    → AllShort ks st.files
    → (end : State) × (read_settings ks st ≡ some end)
      × AllTaken ks st.files end
      × ((j : Setting) → IsAbsent j ks → get_setting j end ≡ get_setting j st)
unfolding read_settings
read_settings-AllTaken [] st d o h = (st, refl, tt, λ j a. refl)
read_settings-AllTaken (k ∷ ks) st d o h =
    let (after, e, s) = read_setting-Settled k st o h.0 in
    let (end, e', taken, others) =
      read_settings-AllTaken ks after d.1 s.open_after (still_short k st after s ks d.0 h.1) in
    (
      end,
      ap
            (λ (o : Option State). elim o as (λ x. Option State) [
              | none ↦ none
              | some t ↦ read_settings ks t
            ])
            e
          ∙ e',
      (others k d.0 ∙ s.is_set, as_before k st after s ks end d.0 taken),
      λ j a. others j a.1 ∙ s.others j (swapped k j a.0),
    )
  where
    swapped : (k j : Setting) → (place j == place k) ≡ false → (place k == place j) ≡ false
    swapped k j h = ground (arith, h)

all_settings-AllShort :
    (fs : Files) → ((k : Setting) → IsShort (file_value k fs)) → AllShort all_settings fs
all_settings-AllShort fs h =
    (h monitor, (h noise, (h lcd, (h driver, (h carriage_speaker, (h map_bright, tt))))))

AllTaken-get_setting :
    (fs : Files) (st : State)
    → AllTaken all_settings fs st
    → (k : Setting) → get_setting k st ≡ file_value k fs
AllTaken-get_setting fs st h monitor = h.0
AllTaken-get_setting fs st h noise = h.1.0
AllTaken-get_setting fs st h lcd = h.1.1.0
AllTaken-get_setting fs st h driver = h.1.1.1.0
AllTaken-get_setting fs st h carriage_speaker = h.1.1.1.1.0
AllTaken-get_setting fs st h map_bright = h.1.1.1.1.1.0

-- ReadBrodCastInfo as a whole.
pub read_broadcast_info-taken :
    (st : State)
    → IsOpen st.files
    → ((k : Setting) → IsShort (file_value k st.files))
    → (end : State) × (read_broadcast_info st ≡ some (success, end))
      × ((k : Setting) → get_setting k end ≡ file_value k st.files)
unfolding read_broadcast_info
read_broadcast_info-taken st o h =
    let (end, e, taken, others) =
      read_settings-AllTaken all_settings st (ground arith) o (all_settings-AllShort st.files h) in
    (
      end,
      ap
          (λ (o : Option State). elim o as (λ x. Option (ℤ × State)) [
            | none ↦ none
            | some t ↦ some (success, t)
          ])
          e,
      AllTaken-get_setting st.files end taken,
    )
