-- ===== src/Records.antt =====
-- The list of recordings of cctv/recordmanage.cpp: the messages that bring it, and the table filled from
-- their text. The table's cells are the rows.
pub mod Fill
mod Tests
use cctvmonitor.Base.{
  ℕ, zero, suc, ◌+◌, ◌-◌, ◌*◌, Bool, true, false, not, ◌&&◌, Option, none, some, List, [], ◌∷◌,
  ◌++◌, ◌==◌, ltb, leb, if◌then◌else◌, length, take, drop, Bytes, codes, strstr, c_string,
}
use cctvmonitor.Ftp.Dirs.{behind_last}

-- MAX_RECORD_SEACH_NUM
abbrev pub max_search_num : ℕ
max_search_num = 10000

-- MAX_RECFILE_PATH_LEN
abbrev pub max_path_len : ℕ
max_path_len = 256

-- The bytes of m_pcRecordFileBuf.
abbrev pub buf_len : ℕ
buf_len = max_search_num * max_path_len

-- parseFileName; `none` for `NULL`.
unfoldable pub parse_file_name : Option Bytes → Option Bytes
unfolding behind_last
parse_file_name none = none
parse_file_name (some s) = elim (behind_last b'/' s) [
  | none ↦ some s
  | some name ↦ if length name == 0 then none else some name
]

-- recordQueryCtrl, where m_pcRecordFileBuf holds the text `buf` of m_iTotalLen bytes. Only what is there
-- already is compared with the size; `none` is a copy that ends behind the buffer.
unfoldable pub record_query_ctrl : Bytes → Bytes → Option Bytes
record_query_ctrl got buf =
    if ltb (buf_len - 1) (length buf)
    then some buf
    else if leb (length buf + length got) buf_len
    then some (buf ++ got)
    else none

-- pmsgCtrl on a list of recordings: the first two bytes are a number of the part.
unfoldable pub on_record_files : Bytes → Bytes → Option Bytes
unfolding record_query_ctrl
on_record_files msg buf =
    if leb (length msg) 2 then some buf else record_query_ctrl (drop 2 msg) buf

abbrev pub mp4 : Bytes
mp4 = codes ".MP4"

-- A row of the table: the path kept in m_acFilePath, the name shown, and whether it is red.
pub record Row : Type 0 where
  pub path : Bytes
  pub name : Option Bytes
  pub red : Bool

abbrev pub has_text : Bytes → Bytes → Bool
has_text p s = elim (strstr s p) [ none ↦ false | some t ↦ true ]

unfoldable pub row : Bytes → Row
unfolding parse_file_name strstr
row path = record {
  path = path;
  name = parse_file_name (some path);
  red = elim (parse_file_name (some path)) [ none ↦ false | some s ↦ has_text (codes "_tmp") s ];
}

-- The loop of recordTableWidgetFillFunc over a text without a NUL, from row `i` on; the first number bounds the rounds. `none` is a
-- path of 256 bytes with its NUL, or a row behind m_acFilePath.
unfoldable pub fill : ℕ → ℕ → Bytes → Option (List Row)
unfolding strstr row
fill zero i token = some []
fill (suc fuel) i token = elim (strstr token mp4) [
  | none ↦ some []
  | some found ↦
      let path = take (length token - length found) token ++ mp4 in
      let rest = fill fuel (suc i) (drop 4 found) in
      if ltb (length path) max_path_len && ltb i max_search_num
      then elim rest [ none ↦ none | some rows ↦ some (row path ∷ rows) ]
      else none
]

-- recordTableWidgetFillFunc on the bytes received, behind which m_pcRecordFileBuf has zeros: the text ends
-- at the first NUL. Each round takes bytes of the text.
unfoldable pub record_table_widget_fill : Bytes → Option (List Row)
unfolding fill c_string
record_table_widget_fill buf = fill (suc (length (c_string buf))) 0 (c_string buf)
