-- ===== src/Utf8/Tests.antt =====
-- The theorems on UTF-8 at characters of two, three and four bytes.
use tmux_cvs_archived.Prelude.{◌≡◌, some, arith, false}
use tmux_cvs_archived.Utf8.{Tree, Utf8Data, find, combine}
use tmux_cvs_archived.Utf8.Table.{utf8_width_table}
use tmux_cvs_archived.Utf8.Widths.{find-build, first_match, utf8_width_root, proper_table}
use tmux_cvs_archived.Utf8.Decode.{receive, encode, receive-encode, four_bytes_width}

abbrev root : Tree
root = utf8_width_root.0

find-build_example : find root 0x4e00 ≡ first_match utf8_width_table 0x4e00
find-build_example =
    find-build utf8_width_table utf8_width_root.0 0x4e00 proper_table utf8_width_root.1

receive-encode_example :
    (ud : Utf8Data) × (receive root (encode 0x20ac) ≡ some (false, ud)) × (combine ud ≡ 0x20ac)
receive-encode_example = receive-encode root 0x20ac (omega arith) (omega arith)

four_bytes_width_example :
    (ud : Utf8Data) × (receive root (encode 0x20000) ≡ some (false, ud)) × (ud.width ≡ 1)
four_bytes_width_example =
    four_bytes_width utf8_width_root.0 0x20000 utf8_width_root.1 (omega arith) (omega arith)
