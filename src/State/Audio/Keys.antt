-- ===== src/State/Audio/Keys.antt =====
-- The keys of the sound settings of state/state.c in their file: each can be written, and none begins
-- with another.
use cctvmonitor.Base.{
  ℕ, suc, ◌≡◌, ◌≤◌, ◌<◌, refl, Bool, true, false, not, ◌==◌, ◌&&◌, ◌||◌, [], ◌∷◌, leb, Bytes,
  length, Lacks, starts_with, arith,
}
use cctvmonitor.Base.Int.{ℤ, pos, negsuc}
use cctvmonitor.Base.Decimal.{print_int, decimal, decimal-AllDigits, AllDigits}
use cctvmonitor.Config.Edit.{Fits}
use cctvmonitor.Config.Other.{Apart}
use cctvmonitor.State.Audio.{
  Setting, monitor, noise, lcd, driver, carriage_speaker, map_bright, broadcast_group, key,
}

-- Its place in ReadBrodCastInfo.
abbrev pub place : Setting → ℕ
place monitor = 0
place noise = 1
place lcd = 2
place driver = 3
place carriage_speaker = 4
place map_bright = 5

Lacks-digits : (x : ℕ) (s : Bytes) → x < b'0' → AllDigits s → Lacks x s
Lacks-digits x [] l h = tt
Lacks-digits x (c ∷ s) l h = (omega (arith, h.0), Lacks-digits x s l h.2)

Lacks-print_int : (x : ℕ) (v : ℤ) → x < b'-' → Lacks x (print_int v)
unfolding print_int
Lacks-print_int x (pos n) h = Lacks-digits x (decimal n) (omega arith) (decimal-AllDigits n)
Lacks-print_int x (negsuc n) h =
    (omega arith, Lacks-digits x (decimal (suc n)) (omega arith) (decimal-AllDigits (suc n)))

lacks : ℕ → Bytes → Bool
lacks x [] = true
lacks x (c ∷ s) = not (c == x) && lacks x s

Lacks_of : (x : ℕ) (s : Bytes) → lacks x s ≡ true → Lacks x s
unfolding lacks
Lacks_of x [] h = tt
Lacks_of x (c ∷ s) h = (ground arith, Lacks_of x s (ground arith))

-- A test of every setting.
every : (Setting → Bool) → Bool
every f = f monitor && (f noise && (f lcd && (f driver && (f carriage_speaker && f map_bright))))

every_of : (f : Setting → Bool) → every f ≡ true → (k : Setting) → f k ≡ true
unfolding every
every_of f h monitor = ground (arith, h)
every_of f h noise = ground (arith, h)
every_of f h lcd = ground (arith, h)
every_of f h driver = ground (arith, h)
every_of f h carriage_speaker = ground (arith, h)
every_of f h map_bright = ground (arith, h)

-- The tests that a key passes.
key_test : Setting → Bool
unfolding lacks starts_with
key_test k =
    not (starts_with broadcast_group (key k))
    && (not (starts_with (key k) broadcast_group)
        && (leb (length (key k)) 17
            && (lacks 0 (key k) && (lacks b'\n' (key k) && lacks b'=' (key k)))))

key_passes : (k : Setting) → key_test k ≡ true
unfolding every key_test
key_passes k = every_of key_test refl k

pair_test : Setting → Setting → Bool
unfolding starts_with
pair_test i j =
    (place i == place j) || (not (starts_with (key i) (key j)) && not (starts_with (key j) (key i)))

pair_passes : (i j : Setting) → pair_test i j ≡ true
unfolding every pair_test
pair_passes i j = every_of (pair_test i) (every_of (λ k. every (pair_test k)) refl i) j

pub group-Apart : (k : Setting) → Apart broadcast_group (key k)
unfolding key_test
group-Apart k =
    let t = key_passes k in record { left = ground (arith, t); right = ground (arith, t) }

pub key-Apart : (i j : Setting) → (place i == place j) ≡ false → Apart (key i) (key j)
unfolding pair_test
key-Apart i j ne =
    let t = pair_passes i j in
    record { left = ground (arith, t, ne); right = ground (arith, t, ne) }

pub value_Fits :
    (k : Setting) (v : ℤ) → length (print_int v) < 8 → Fits broadcast_group (key k) (print_int v)
unfolding key_test
value_Fits k v short =
    let t = key_passes k in
    record {
      group_apart = ground (arith, t);
      key_apart = ground (arith, t);
      entry_short = let l : length (key k) ≤ 17 = ground (arith, t) in omega (arith, short);
      group_short = omega arith;
      key_text = Lacks_of 0 (key k) (ground (arith, t));
      value_text = Lacks-print_int 0 v (omega arith);
      group_text = Lacks_of 0 broadcast_group refl;
      key_line = Lacks_of b'\n' (key k) (ground (arith, t));
      value_line = Lacks-print_int b'\n' v (omega arith);
      group_line = Lacks_of b'\n' broadcast_group refl;
      key_plain = Lacks_of b'=' (key k) (ground (arith, t));
    }
