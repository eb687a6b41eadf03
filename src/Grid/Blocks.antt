-- ===== src/Grid/Blocks.antt =====
-- grid.c: operations on blocks of cells and on two grids.
pub mod Clear
use Prim.Native.Nat.{bit_and}
use tmux_cvs_archived.Prelude.{
  ℕ, zero, suc, ◌+◌, ◌-◌, Bool, true, false, ◌&&◌, ◌||◌, not, Option, none, some, ◌>>=◌, List, [],
  ◌∷◌, ◌++◌, ltb, leb, ◌==◌, if◌then◌else◌, length, get_or, get_elem?, set, take, memmove, add_uint,
  sub_uint,
}
use tmux_cvs_archived.Grid.{
  Grid, GridLine, GridCell, GridUtf8, default_cell, empty_line, line, set_line, check_y, rounds,
  clear_lines, expand_cells, expand_utf8, peek_cell, peek_utf8,
}
use tmux_cvs_archived.Grid.Utf8.{size_of, bytes_eq}

-- The inner loop of `grid_clear`: default cells from `xx` on, up to the end of the line.
blank : List GridCell → ℕ → ℕ → List GridCell
blank cs xx zero = cs
blank cs xx (suc n) = if leb (length cs) xx then cs else blank (set cs xx default_cell) (xx + 1) n

-- The body of the outer loop of `grid_clear`.
clear_row : GridLine → ℕ → ℕ → GridLine
unfolding blank
clear_row l px nx =
    if leb (length l.cells) px
    then l
    else if leb (length l.cells) (add_uint px nx)
    then record l { cells = take px l.cells }
    else record l { cells = blank l.cells px (rounds px nx) }

clear_rows : List GridLine → ℕ → ℕ → ℕ → ℕ → List GridLine
unfolding clear_row
clear_rows ls px nx yy zero = ls
clear_rows ls px nx yy (suc n) =
    clear_rows (set ls yy (clear_row (get_or ls yy empty_line) px nx)) px nx (yy + 1) n

-- `grid_clear`
unfoldable pub clear : Grid → ℕ → ℕ → ℕ → ℕ → Grid
unfolding clear_rows
clear g px py nx ny =
    if nx == 0 || ny == 0
    then g
    else if px == 0 && nx == g.sx
    then clear_lines g py ny
    else if not (check_y g py)
    then g
    else if not (check_y g (sub_uint (add_uint py ny) 1))
    then g
    else record g { lines = clear_rows g.lines px nx py (rounds py ny) }

-- The last loop of `grid_move_cells`: default cells at `xx` to `xx + n - 1`, less those in `dx` to
-- `dx + nx - 1`.
blank_but : List GridCell → ℕ → ℕ → ℕ → ℕ → List GridCell
blank_but cs dx nx xx zero = cs
blank_but cs dx nx xx (suc n) =
    blank_but (if leb dx xx && ltb xx (add_uint dx nx) then cs else set cs xx default_cell) dx nx
      (xx + 1) n

-- `grid_move_cells` on the line. `utf8data` is NULL when the list is empty.
move_row : GridLine → ℕ → ℕ → ℕ → GridLine
unfolding blank_but
move_row l dx px nx =
    let wide = expand_cells (expand_cells l (add_uint px nx)) (add_uint dx nx) in
    let wide_utf8 = expand_utf8 (expand_utf8 l (add_uint px nx)) (add_uint dx nx) in
    record l {
      cells = blank_but (memmove wide.cells dx px nx) dx nx px (rounds px nx);
      utf8 = if length l.utf8 == 0 then l.utf8 else memmove wide_utf8.utf8 dx px nx;
    }

-- `grid_move_cells`
unfoldable pub move_cells : Grid → ℕ → ℕ → ℕ → ℕ → Grid
unfolding move_row
move_cells g dx px py nx =
    if nx == 0 || px == dx
    then g
    else if not (check_y g py)
    then g
    else set_line g py (move_row (line g py) dx px nx)

abbrev pub cell_eq : GridCell → GridCell → Bool
cell_eq a b =
    a.attr == b.attr && a.flags == b.flags && a.fg == b.fg && a.bg == b.bg && a.byte == b.byte

abbrev pub utf8_eq : GridUtf8 → GridUtf8 → Bool
utf8_eq a b = a.width == b.width && bytes_eq a.bytes b.bytes

-- `GRID_FLAG_PADDING` and `GRID_FLAG_UTF8`
abbrev pub is_padding : GridCell → Bool
is_padding gc = not (bit_and gc.flags 0x4 == 0)

abbrev pub is_utf8 : GridCell → Bool
is_utf8 gc = not (bit_and gc.flags 0x8 == 0)

-- An entry that is read: `none` past the end of the array, and for one without a value.
abbrev utf8_at : GridLine → ℕ → Option GridUtf8
utf8_at l xx = get_elem? l.utf8 xx >>= λ u. u

-- The inner loop of `grid_compare`: `some true` is the result 1; `none` is a read outside an array,
-- which nothing in the loop prevents.
compare_cells : GridLine → GridLine → ℕ → ℕ → Option Bool
compare_cells la lb xx zero = some false
compare_cells la lb xx (suc n) =
    let rest = compare_cells la lb (xx + 1) n in
    get_elem? la.cells xx >>= λ ca. get_elem? lb.cells xx >>= λ cb.
    if not (cell_eq ca cb)
    then some true
    else if not (is_utf8 ca)
    then rest
    else (utf8_at la xx >>= λ ua.
        utf8_at lb xx >>= λ ub. if not (utf8_eq ua ub) then some true else rest)

compare_lines : Grid → Grid → ℕ → ℕ → Option Bool
unfolding compare_cells
compare_lines ga gb yy zero = some false
compare_lines ga gb yy (suc n) =
    let rest = compare_lines ga gb (yy + 1) n in
    if not (length (line ga yy).cells == length (line gb yy).cells)
    then some true
    else (compare_cells (line ga yy) (line gb yy) 0 ga.sx >>= λ different.
        if different then some true else rest)

-- `grid_compare`: `some true` if it finds a difference. The second test compares `ga->sy` with
-- itself, as the source does.
unfoldable pub compare : Grid → Grid → Option Bool
unfolding compare_lines
compare ga gb =
    if not (ga.sx == gb.sx) || not (ga.sy == ga.sy) then some true else compare_lines ga gb 0 ga.sy

-- The loop of `grid_duplicate_lines`.
unfoldable pub copy_lines : List GridLine → ℕ → List GridLine → ℕ → ℕ → List GridLine
copy_lines ls dy src sy zero = ls
copy_lines ls dy src sy (suc n) =
    copy_lines (set ls dy (get_or src sy empty_line)) (dy + 1) src (sy + 1) n

-- The number of lines that `grid_duplicate_lines` copies.
unfoldable pub copied : Grid → ℕ → Grid → ℕ → ℕ → ℕ
copied dst dy src sy ny =
    let dst_end = add_uint dst.hsize dst.sy in
    let src_end = add_uint src.hsize src.sy in
    let ny1 = if ltb dst_end (add_uint dy ny) then sub_uint dst_end dy else ny in
    if ltb src_end (add_uint sy ny1) then sub_uint src_end sy else ny1

-- `grid_duplicate_lines`
unfoldable pub duplicate_lines : Grid → ℕ → Grid → ℕ → ℕ → Grid
unfolding copied copy_lines
duplicate_lines dst dy src sy ny =
    let ny' = copied dst dy src sy ny in
    let cleared = clear_lines dst dy ny' in
    record cleared { lines = copy_lines cleared.lines dy src.lines sy ny' }
