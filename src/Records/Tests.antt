-- ===== src/Records/Tests.antt =====
-- The table of recordings of cctv/recordmanage.cpp at concrete messages.
use mathlib.Core.List.{flatten}
use cctvmonitor.Base.{◌≡◌, refl, true, none, some, [], ◌∷◌, ◌++◌, arith, Bytes, codes}
use cctvmonitor.Records.{row, mp4, record_table_widget_fill, fill}
use cctvmonitor.Records.Fill.{message, receive_all, record_table_widget_fill-receive_all}

record_table_widget_fill-receive_all_example :
    (text : Bytes) × (receive_all
        (message 0 1 (codes "/rec/a.MP4/re") ∷ message 0 2 (codes "c/b_tmp.MP4") ∷ [])
        []
      ≡ some text)
    × (record_table_widget_fill text
        ≡ some (row (codes "/rec/a" ++ mp4) ∷ row (codes "/rec/b_tmp" ++ mp4) ∷ []))
unfolding flatten
record_table_widget_fill-receive_all_example =
    record_table_widget_fill-receive_all (codes "/rec/a" ∷ codes "/rec/b_tmp" ∷ [])
      ((0, 1, codes "/rec/a.MP4/re") ∷ (0, 2, codes "c/b_tmp.MP4") ∷ []) (ground arith)
      (omega arith) refl (omega arith)

-- A recording that is still written is red.
row-tmp :
    row (codes "/rec/b_tmp.MP4")
    ≡ record { path = codes "/rec/b_tmp.MP4"; name = some (codes "b_tmp.MP4"); red = true }
unfolding row
row-tmp = refl

-- The row behind the last of m_acFilePath is written before the number is looked at.
fill-behind : fill 1 10000 (codes "/rec/a.MP4") ≡ none
unfolding fill
fill-behind = refl

-- A NUL ends the text: the path behind it is not seen.
record_table_widget_fill-nul :
    record_table_widget_fill (codes "/a.MP4" ++ 0 ∷ codes "/b.MP4")
    ≡ some (row (codes "/a.MP4") ∷ [])
unfolding record_table_widget_fill
record_table_widget_fill-nul = refl
