-- ===== src/State/Audio/Survive.antt =====
-- The sound settings of state/state.c survive a restart.
use cctvmonitor.Base.{
  ℕ, suc, ◌+◌, ◌-◌, if◌then◌else◌, ◌≡◌, ◌≢◌, ◌<◌, ◌∙◌, refl, sym, ap, subst, Bool, true, false,
  ◌==◌, Bool-cases, inl, inr, some, [], ◌∷◌, ◌++◌, Bytes, c_string-append, replicate, length, Lacks,
  arith,
}
use cctvmonitor.Base.Int.{pos, negsuc, eq_ℤ, eq_ℤ_iff, success}
use cctvmonitor.Base.Decimal.{
  print_int, atoi, decimal, decimal-AllDigits, decimal-ne, length-decimal_seven, atoi-decimal,
  AllDigits, Lacks-decimal,
}
use cctvmonitor.Config.{read_param}
use cctvmonitor.Config.Lines.{ends_line}
use cctvmonitor.Config.RoundTrip.{CanModify, AllKept, read_param-modify_lines}
use cctvmonitor.Config.Written.{HasLines-of}
use cctvmonitor.State.{State}
use cctvmonitor.State.Audio.{
  Setting, monitor, noise, lcd, driver, carriage_speaker, map_bright, broadcast_path,
  broadcast_group, key, get_setting, set_setting, put_setting, value_read, read_broadcast_info,
}
use cctvmonitor.State.Audio.Keys.{place, value_Fits}
use cctvmonitor.State.Audio.Parts.{
  file_value, IsShort, IsOpen, written, set_new, new-Settled, files-put_setting,
}
use cctvmonitor.State.Audio.Whole.{read_broadcast_info-taken}

AllKept-digits : (s : Bytes) → AllDigits s → AllKept s
AllKept-digits [] h = tt
AllKept-digits (c ∷ s) h = (ground (arith, h.0, h.1), AllKept-digits s h.2)

-- The memory of the sound settings as STATE_Init clears it; the files stay.
abbrev pub restarted : State → State
restarted st = record st {
  settings = record {
    monitor_flag = negsuc 0;
    noise_flag = negsuc 0;
    lcd_volume = negsuc 0;
    driver_volume = negsuc 0;
    carriage_volume = negsuc 0;
    map_brightness = negsuc 0;
  };
}

value_read-text :
    (k : Setting) (s r : Bytes)
    → s ≢ []
    → Lacks 0 s
    → value_read k (pos (length s), s ++ 0 ∷ r) ≡ atoi s
unfolding value_read
value_read-text k [] r ne h = absurd (ne refl)
value_read-text k (c ∷ s) r ne h = ap atoi (c_string-append (c ∷ s) r h)

value_read-decimal :
    (k : Setting) (n m : ℕ)
    → n < 10000000
    → value_read k (pos (length (decimal n)), decimal n ++ replicate (suc m) 0) ≡ pos n
value_read-decimal k n m h =
    value_read-text k (decimal n) (replicate m 0) (decimal-ne n) (Lacks-decimal 0 n (omega arith))
    ∙ atoi-decimal n (omega arith)

at_place : ℕ → Setting
at_place n =
    if n == 0
    then monitor
    else if n == 1
    then noise
    else if n == 2
    then lcd
    else if n == 3
    then driver
    else if n == 4
    then carriage_speaker
    else map_bright

at_place-place : (k : Setting) → at_place (place k) ≡ k
unfolding at_place
at_place-place monitor = refl
at_place-place noise = refl
at_place-place lcd = refl
at_place-place driver = refl
at_place-place carriage_speaker = refl
at_place-place map_bright = refl

same_place : (k j : Setting) → (place k == place j) ≡ true → k ≡ j
same_place k j h =
    let e : place k ≡ place j = ground (arith, h) in
    sym (at_place-place k) ∙ ap at_place e ∙ at_place-place j

-- The file has the new number.
file_value-written :
    (k : Setting) (st : State) (n : ℕ)
    → IsOpen st.files
    → n < 10000000
    → file_value k (written k st (pos n)) ≡ pos n
unfolding print_int
file_value-written k st n o small =
    let m = 255 - length (decimal n) in
    let short = length-decimal_seven n small in
    let room : 256 ≡ length (decimal n) + suc m = omega arith in
    ap
      (λ r. value_read k (
        read_param (written k st (pos n)) broadcast_path (some broadcast_group) (key k)
          (replicate r 0)))
      room
    ∙ ap (value_read k) (
        read_param-modify_lines st.files broadcast_path broadcast_group (key k) (decimal n)
          o.content m o.can o.has_lines (value_Fits k (pos n) (omega arith))
          (AllKept-digits (decimal n) (decimal-AllDigits n)) (decimal-ne n))
    ∙ value_read-decimal k n m small

IsShort-pos : (n : ℕ) → n < 10000000 → IsShort (pos n)
unfolding print_int
IsShort-pos n h = omega (arith, length-decimal_seven n h)

-- A value of a sound setting below 10 ^ 7 that differs from the one in memory and that its setter stores
-- is, after a restart, what ReadBrodCastInfo as a whole finds and sets; every other setting gets what the
-- file had for it before the setter was called. The settings' file and the one beside it can be opened and
-- are not the same, its text has no NUL and is empty or ends in a newline, and no other setting has a
-- number of eight characters or more in it.
pub read_broadcast_info-set_setting :
    (k : Setting) (st : State) (n : ℕ) (s : Bytes)
    → CanModify st.files broadcast_path s
    → Lacks 0 s
    → ends_line s ≡ true
    → get_setting k st ≢ pos n
    → n < 10000000
    → ((j : Setting) → (place k == place j) ≡ false → IsShort (file_value j st.files))
    → (st1 : State) × (st2 : State) × (set_setting k st (pos n) ≡ some (success, st1))
      × (read_broadcast_info (restarted st1) ≡ some (success, st2))
      × ((j : Setting)
          → get_setting j st2 ≡ (if place k == place j then pos n else file_value j st.files))
read_broadcast_info-set_setting k st n s can text ended new small short =
    let o : IsOpen st.files = record {
      content = s;
      can = can;
      has_lines = HasLines-of s text ended;
    } in
    let fits = IsShort-pos n small in
    let st1 = put_setting k (record st { files = written k st (pos n) }) (pos n) in
    let changed = new-Settled k st (pos n) o fits in
    let differs : eq_ℤ (get_setting k st) (pos n) ≡ false =
      not_true (eq_ℤ (get_setting k st) (pos n))
        (λ e. new ((eq_ℤ_iff (get_setting k st) (pos n)).0 e)) in
    let own : (j : Setting) → (place k == place j) ≡ true → file_value j st1.files ≡ pos n = λ j e.
      ap (λ i. file_value i st1.files) (sym (same_place k j e))
      ∙ ap (file_value k) (files-put_setting k (record st { files = written k st (pos n) }) (pos n))
      ∙ file_value-written k st n o small in
    let all_short : (j : Setting) → IsShort (file_value j st1.files) = λ j.
      elim (Bool-cases (place k == place j)) [
        | inl e ↦ subst IsShort (sym (own j e)) fits
        | inr e ↦ subst IsShort (sym (changed.kept j e)) (short j e)
      ] in
    let (st2, e2, taken) = read_broadcast_info-taken (restarted st1) changed.open_after all_short in
    (
      st1,
      st2,
      set_new k st (pos n) differs fits,
      e2,
      λ j. elim (Bool-cases (place k == place j)) [
        | inl e ↦ taken j ∙ own j e ∙ rw e refl
        | inr e ↦ taken j ∙ changed.kept j e ∙ rw e refl
      ],
    )
  where
    not_true : (b : Bool) → (b ≢ true) → b ≡ false
    not_true true h = absurd (h refl)
    not_true false h = refl
