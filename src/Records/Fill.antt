-- ===== src/Records/Fill.antt =====
-- The table of recordings of cctv/recordmanage.cpp has the paths that the NVR sent.
use mathlib.Core.List.{flatten}
use cctvmonitor.Base.{
  ℕ, zero, suc, ◌+◌, ◌-◌, ◌≤◌, ◌<◌, ◌≡◌, refl, sym, ap, ◌∙◌, true, Option, none, some, List, [],
  ◌∷◌, ◌++◌, arith, ltb, lt→ltb, length, length-append, take, take-length, Bytes, strstr,
  starts_with, Lacks, Lacks-append, c_string_lem, append_assoc, append-nil, map,
}
use cctvmonitor.Records.{
  max_search_num, max_path_len, buf_len, record_query_ctrl, on_record_files, mp4, Row, row, fill,
  record_table_widget_fill,
}

-- The text of a list of recordings, their paths without `.MP4`.
abbrev pub text_of : List Bytes → Bytes
text_of [] = []
text_of (p ∷ ps) = p ++ (mp4 ++ text_of ps)

-- Paths without a NUL, and without a dot in front of `.MP4`, that fit with their NUL.
abbrev pub ArePaths : List Bytes → Type 0
ArePaths [] = Unit {0}
ArePaths (p ∷ ps) = (Lacks b'.' p × (length p < 252) × Lacks 0 p) × ArePaths ps

Lacks-text_of : (ps : List Bytes) → ArePaths ps → Lacks 0 (text_of ps)
Lacks-text_of [] h = tt
Lacks-text_of (p ∷ ps) h =
    Lacks-append 0 p (mp4 ++ text_of ps) h.0.2
      (Lacks-append 0 mp4 (text_of ps) (ground arith) (Lacks-text_of ps h.1))

strstr-mp4 : (s t : Bytes) → Lacks b'.' s → strstr (s ++ (mp4 ++ t)) mp4 ≡ some (mp4 ++ t)
unfolding strstr starts_with
strstr-mp4 [] t h = ground arith
strstr-mp4 (b ∷ s) t h = ground (arith, h.0, strstr-mp4 s t h.1)

fill_step :
    (fuel i : ℕ) (p rest : Bytes) (rows : List Row)
    → Lacks b'.' p
    → length p < 252
    → i < max_search_num
    → fill fuel (suc i) rest ≡ some rows
    → fill (suc fuel) i (p ++ (mp4 ++ rest)) ≡ some (row (p ++ mp4) ∷ rows)
unfolding fill
fill_step fuel i p rest rows h l m e =
    let token = p ++ (mp4 ++ rest) in
    let found : strstr token mp4 ≡ some (mp4 ++ rest) = strstr-mp4 p rest h in
    let n : length token - length (mp4 ++ rest) ≡ length p =
      omega (arith, length-append p (mp4 ++ rest)) in
    let fits : ltb (length (p ++ mp4)) max_path_len ≡ true =
      lt→ltb (length (p ++ mp4)) max_path_len (omega (arith, length-append p mp4)) in
    rw (found, n, take-length p (mp4 ++ rest), fits, lt→ltb i max_search_num m, e, fill)
      (ap (λ s. some (row (s ++ mp4) ∷ rows))
        (ap (λ k. take k token) n ∙ take-length p (mp4 ++ rest)))

fill-text_of :
    (ps : List Bytes) (fuel i : ℕ)
    → ArePaths ps
    → length ps ≤ fuel
    → i + length ps ≤ max_search_num
    → fill fuel i (text_of ps) ≡ some (map (λ p. row (p ++ mp4)) ps)
unfolding fill
fill-text_of [] zero i h l m = refl
fill-text_of [] (suc fuel) i h l m = refl
fill-text_of (p ∷ ps) zero i h l m = absurd (omega arith)
fill-text_of (p ∷ ps) (suc fuel) i h l m =
    fill_step fuel i p (text_of ps) (map (λ p. row (p ++ mp4)) ps) h.0.0 h.0.1 (omega arith)
      (fill-text_of ps fuel (suc i) h.1 (omega arith) (omega arith))

-- The messages with a list of recordings: two bytes and a part of the text each.
abbrev pub receive_all : List Bytes → Bytes → Option Bytes
receive_all [] buf = some buf
receive_all (m ∷ ms) buf = elim (on_record_files m buf) [ none ↦ none | some b ↦ receive_all ms b ]

abbrev pub message : ℕ → ℕ → Bytes → Bytes
message a b part = a ∷ b ∷ part

receive_all_step :
    (m : Bytes) (ms : List Bytes) (buf b : Bytes)
    → on_record_files m buf ≡ some b
    → receive_all (m ∷ ms) buf ≡ receive_all ms b
receive_all_step m ms buf b e =
    ap (λ (o : Option Bytes). elim o [ none ↦ none | some b ↦ receive_all ms b ]) e

length-text_of : (ps : List Bytes) → length ps ≤ length (text_of ps)
length-text_of [] = omega arith
length-text_of (p ∷ ps) = omega (arith, length-append p (mp4 ++ text_of ps), length-text_of ps)

receive_part :
    (a b : ℕ) (part buf : Bytes)
    → length buf + length part < buf_len
    → on_record_files (message a b part) buf ≡ some (buf ++ part)
unfolding on_record_files record_query_ctrl
receive_part a b [] buf h = ap some (sym (append-nil buf))
receive_part a b (c ∷ part) buf h = ground arith

receive_all-parts :
    (ms : List (ℕ × ℕ × Bytes)) (buf : Bytes)
    → length (buf ++ flatten (map (λ m. m.2) ms)) < buf_len
    → receive_all (map (λ m. message m.0 m.1 m.2) ms) buf
      ≡ some (buf ++ flatten (map (λ m. m.2) ms))
unfolding flatten
receive_all-parts [] buf h = ap some (sym (append-nil buf))
receive_all-parts ((a, b, part) ∷ ms) buf h =
    let rest = flatten (map (λ m. m.2) ms) in
    let assoc = append_assoc buf part rest in
    let n = length-append buf (part ++ rest) in
    let k = length-append part rest in
    let again = receive_all-parts ms (buf ++ part) (omega (arith, ap length assoc)) in
    receive_all_step (message a b part) (map (λ m. message m.0 m.1 m.2) ms) buf (buf ++ part)
      (receive_part a b part buf (omega arith))
    ∙ again
    ∙ ap some assoc

-- The table that recordTableWidgetFillFunc fills from the messages of a query has a row for each path
-- sent, in order, however the text is cut into messages; there are at most 10000 paths, each ends in .MP4,
-- has no dot before and no NUL, and is below 256 bytes, and the text is below 2560000.
pub record_table_widget_fill-receive_all :
    (ps : List Bytes) (ms : List (ℕ × ℕ × Bytes))
    → ArePaths ps
    → length ps ≤ max_search_num
    → flatten (map (λ m. m.2) ms) ≡ text_of ps
    → length (text_of ps) < buf_len
    → (text : Bytes) × (receive_all (map (λ m. message m.0 m.1 m.2) ms) [] ≡ some text)
      × (record_table_widget_fill text ≡ some (map (λ p. row (p ++ mp4)) ps))
unfolding record_table_widget_fill
record_table_widget_fill-receive_all ps ms h l e m = (
  text_of ps,
  receive_all-parts ms [] (omega (arith, ap length e)) ∙ ap some e,
  rw (c_string_lem (text_of ps) (Lacks-text_of ps h)) (
      fill-text_of ps (suc (length (text_of ps))) 0 h (omega (arith, length-text_of ps))
        (omega arith)),
)
