-- ===== src/Config/Tests.antt =====
-- The configuration files of state/fileConfig.c at concrete texts.
use cctvmonitor.Base.{
  ◌≡◌, refl, ap, true, none, some, [], ◌++◌, if◌then◌else◌, Bytes, arith, length, codes, bytes_eq,
  replicate, starts_with, c_string,
}
use cctvmonitor.Base.Int.{pos}
use cctvmonitor.Config.Delete.{without, delete_param-without}
use cctvmonitor.Config.{
  Files, lines, concat, delete_param, modify_param, read_param, tmp_name, modified, entry,
  group_line,
}
use cctvmonitor.Config.Edit.{Fits}
use cctvmonitor.Config.RoundTrip.{CanModify, read_param-modify_param}

abbrev path : Bytes
path = codes "c.ini"

abbrev text : Bytes
text = codes "[A]\nx=1\n[B]\nx=2\n"

abbrev one_file : Files
one_file = record { read = λ p. if bytes_eq p path then some text else none; writable = λ p. true }

can : CanModify one_file path text
unfolding tmp_name bytes_eq
can = record {
  readable = refl;
  path_writable = refl;
  tmp_writable = refl;
  apart = λ e. absurd (ground (arith, ap length e));
}

fits : Fits (codes "[B]") (codes "x") (codes "30")
unfolding starts_with
fits = record {
  group_apart = refl;
  key_apart = refl;
  entry_short = omega arith;
  group_short = omega arith;
  key_text = ground arith;
  value_text = ground arith;
  group_text = ground arith;
  key_line = ground arith;
  value_line = ground arith;
  group_line = ground arith;
  key_plain = ground arith;
}

read_param-modify_param_example :
    read_param
      (modify_param one_file path (codes "[B]") (codes "x") (codes "30")).1
      path
      (some (codes "[B]"))
      (codes "x")
      (replicate 8 0)
    ≡ (pos 2, codes "30" ++ replicate 6 0)
read_param-modify_param_example =
    read_param-modify_param one_file path (codes "[B]") (codes "x") (codes "30") text 5 can
      (ground arith) refl fits (ground arith) (λ e. absurd (ground (arith, ap length e)))

delete_param-without_example :
    ((delete_param one_file path (codes "x=")).0 ≡ pos 0)
    × ((delete_param one_file path (codes "x=")).1.read path
        ≡ some (concat (without (codes "x=") (lines text))))
    × (lines (concat (without (codes "x=") (lines text))) ≡ without (codes "x=") (lines text))
unfolding bytes_eq
delete_param-without_example =
    delete_param-without one_file path (codes "x=") text refl refl refl
      (λ e. absurd (ground (arith, ap length e))) (ground arith) refl

modified-text : modified (codes "[B]") (codes "x") (codes "30") text ≡ codes "[A]\nx=1\n[B]\nx=30\n"
unfolding modified starts_with c_string entry
modified-text = refl

-- A last line without its newline takes the new lines in.
modified_unended :
    modified (codes "[B]") (codes "x") (codes "3") (codes "[A]\ny=1") ≡ codes "[A]\ny=1[B]\nx=3\n"
unfolding modified starts_with c_string group_line entry
modified_unended = refl

without-text : concat (without (codes "x=") (lines text)) ≡ codes "[A]\n[B]\n"
unfolding concat without lines starts_with
without-text = refl

-- The name beside a path of 255 bytes is the path, and the file is emptied.
delete_param-same :
    (let long : Bytes = replicate 255 b'p' in
      let fs : Files = record { read = λ p. some text; writable = λ p. true } in
      (delete_param fs long (codes "y")).1.read long ≡ some [])
unfolding delete_param bytes_eq
delete_param-same = refl
