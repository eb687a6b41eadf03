-- ===== src/Grid.antt =====
-- grid.c: the cells of a screen and its history, in absolute lines: the history is lines 0 to
-- hsize - 1, the visible part the sy lines behind it.
pub mod Utf8
pub mod Blocks
pub mod Moves
pub mod Sizes
pub mod Cells
pub mod History
pub mod Text
pub mod View
mod Tests
use tmux_cvs_archived.Prelude.{
  ℕ, zero, suc, ◌+◌, ◌-◌, ◌/◌, Bool, true, false, ◌&&◌, ◌||◌, not, Option, none, some, List, [],
  ◌∷◌, ◌++◌, ltb, leb, ◌==◌, if◌then◌else◌, length, get_or, set, take, replicate, memmove, add_uint,
  sub_uint,
}

-- `struct grid_cell`
pub record GridCell : Type 0 where
  pub attr : ℕ
  pub flags : ℕ
  pub fg : ℕ
  pub bg : ℕ
  pub byte : ℕ

-- `struct grid_utf8`: at most nine bytes, ended by 0xff if there are fewer.
pub record GridUtf8 : Type 0 where
  pub width : ℕ
  pub bytes : List ℕ

-- `struct grid_line`. The list `cells` is the readable part of `celldata`, its length `cellsize`;
-- so for `utf8`, where `none` is an entry that `xrealloc` left without a value.
pub record GridLine : Type 0 where
  pub cells : List GridCell
  pub utf8 : List (Option GridUtf8)
  pub flags : ℕ

-- `struct grid`. `lines` is all that is allocated at `linedata`, which may be more than is in use.
pub record Grid : Type 0 where
  pub flags : ℕ
  pub sx : ℕ
  pub sy : ℕ
  pub hsize : ℕ
  pub hlimit : ℕ
  pub lines : List GridLine

-- `grid_default_cell`
abbrev pub default_cell : GridCell
default_cell = record { attr = 0; flags = 0; fg = 8; bg = 8; byte = b' ' }

-- A line of zeros, as `memset` and `xcalloc` leave it.
abbrev pub empty_line : GridLine
empty_line = record { cells = []; utf8 = []; flags = 0 }

abbrev pub grid_history : ℕ
grid_history = 1

abbrev pub line : Grid → ℕ → GridLine
line g y = get_or g.lines y empty_line

abbrev pub set_line : Grid → ℕ → GridLine → Grid
set_line g y l = record g { lines = set g.lines y l }

-- Whether `grid_check_y` returns 0.
abbrev pub check_y : Grid → ℕ → Bool
check_y g py = if leb (add_uint g.hsize g.sy) py then false else true

unfoldable pub create : ℕ → ℕ → ℕ → Grid
create sx sy hlimit = record {
  flags = grid_history;
  sx = sx;
  sy = sy;
  hsize = 0;
  hlimit = hlimit;
  lines = replicate sy empty_line;
}

-- The loop `for (yy = py; yy < py + n; yy++)` over lines that are set to zero.
unfoldable pub wipe : List GridLine → ℕ → ℕ → List GridLine
wipe ls py zero = ls
wipe ls py (suc n) = wipe (set ls py empty_line) (py + 1) n

-- The rounds of `for (yy = py; yy < py + ny; yy++)`, where `py + ny` may wrap.
abbrev pub rounds : ℕ → ℕ → ℕ
rounds py ny = add_uint py ny - py

-- `grid_clear_lines`
unfoldable pub clear_lines : Grid → ℕ → ℕ → Grid
unfolding wipe
clear_lines g py ny =
    if ny == 0
    then g
    else if not (check_y g py)
    then g
    else if not (check_y g (sub_uint (add_uint py ny) 1))
    then g
    else record g { lines = wipe g.lines py (rounds py ny) }

-- Whether `yy >= keep && yy < keep + ny`.
inside : ℕ → ℕ → ℕ → Bool
inside keep ny yy = leb keep yy && ltb yy (add_uint keep ny)

-- A loop of `grid_move_lines`: lines `yy` to `yy + n - 1`, less those in `keep` to `keep + ny - 1`.
wipe_but : List GridLine → ℕ → ℕ → ℕ → ℕ → List GridLine
wipe_but ls keep ny yy zero = ls
wipe_but ls keep ny yy (suc n) =
    wipe_but (if inside keep ny yy then ls else set ls yy empty_line) keep ny (yy + 1) n

-- `grid_move_lines` behind its guards. Its first loop frees the lines that are replaced, one at a
-- time by `grid_clear_lines`.
shift_lines : List GridLine → ℕ → ℕ → ℕ → List GridLine
unfolding wipe_but inside
shift_lines ls dy py ny =
    wipe_but (memmove (wipe_but ls py ny dy (rounds dy ny)) dy py ny) dy ny py (rounds py ny)

-- `grid_move_lines`
unfoldable pub move_lines : Grid → ℕ → ℕ → ℕ → Grid
unfolding shift_lines
move_lines g dy py ny =
    if ny == 0 || py == dy
    then g
    else if not (check_y g py)
    then g
    else if not (check_y g (sub_uint (add_uint py ny) 1))
    then g
    else if not (check_y g dy)
    then g
    else if not (check_y g (sub_uint (add_uint dy ny) 1))
    then g
    else record g { lines = shift_lines g.lines dy py ny }

-- `grid_collect_history`: at the limit, the oldest tenth goes.
unfoldable pub collect_history : Grid → Grid
collect_history g =
    if ltb g.hsize g.hlimit
    then g
    else let tenth = g.hlimit / 10 in
      let yy = if ltb tenth 1 then 1 else tenth in
      let moved = move_lines g 0 yy (sub_uint (add_uint g.hsize g.sy) yy) in
      record moved { hsize = sub_uint moved.hsize yy }

-- `grid_scroll_history`. `xrealloc` keeps the first `hsize + sy` lines.
unfoldable pub scroll_history : Grid → Grid
scroll_history g =
    let yy = add_uint g.hsize g.sy in
    record g { lines = take yy g.lines ++ (empty_line ∷ []); hsize = add_uint g.hsize 1 }

-- `grid_scroll_history_region`, `upper` and `lower` being absolute lines. The new line that
-- `xrealloc` adds has no value until `memmove` fills it.
unfoldable pub scroll_history_region : Grid → ℕ → ℕ → Grid
scroll_history_region g upper lower =
    let yy = add_uint g.hsize g.sy in
    let grown = take yy g.lines ++ (empty_line ∷ []) in
    let down = memmove grown (add_uint g.hsize 1) g.hsize g.sy in
    let upper' = add_uint upper 1 in
    let lower' = add_uint lower 1 in
    let saved = set down g.hsize (get_or down upper' empty_line) in
    let up = memmove saved upper' (add_uint upper' 1) (sub_uint lower' upper') in
    record g { lines = set up lower' empty_line; hsize = add_uint g.hsize 1 }

-- `grid_expand_line` and `grid_expand_line_utf8`, on the line itself.
unfoldable pub expand_cells : GridLine → ℕ → GridLine
expand_cells l sx =
    if leb sx (length l.cells)
    then l
    else record l { cells = l.cells ++ replicate (sx - length l.cells) default_cell }

unfoldable pub expand_utf8 : GridLine → ℕ → GridLine
expand_utf8 l sx =
    if leb sx (length l.utf8)
    then l
    else record l { utf8 = l.utf8 ++ replicate (sx - length l.utf8) none }

-- `grid_peek_cell`
unfoldable pub peek_cell : Grid → ℕ → ℕ → GridCell
peek_cell g px py =
    if not (check_y g py)
    then default_cell
    else if leb (length (line g py).cells) px
    then default_cell
    else get_or (line g py).cells px default_cell

-- `grid_get_cell`: the grid with room for the cell, and the cell; the caller writes there.
unfoldable pub get_cell : Grid → ℕ → ℕ → Option (GridCell × Grid)
unfolding expand_cells
get_cell g px py =
    if not (check_y g py)
    then none
    else let l = expand_cells (line g py) (add_uint px 1) in
      some (get_or l.cells px default_cell, set_line g py l)

-- `grid_set_cell`
unfoldable pub set_cell : Grid → ℕ → ℕ → GridCell → Grid
unfolding expand_cells
set_cell g px py gc =
    if not (check_y g py)
    then g
    else let l = expand_cells (line g py) (add_uint px 1) in
      set_line g py (record l { cells = set l.cells px gc })

-- `grid_peek_utf8`: NULL is `none`; the inner option is `none` for an entry without a value.
unfoldable pub peek_utf8 : Grid → ℕ → ℕ → Option (Option GridUtf8)
peek_utf8 g px py =
    if not (check_y g py)
    then none
    else if leb (length (line g py).utf8) px
    then none
    else some (get_or (line g py).utf8 px none)

-- `grid_get_utf8`
unfoldable pub get_utf8 : Grid → ℕ → ℕ → Option (Option GridUtf8 × Grid)
unfolding expand_utf8
get_utf8 g px py =
    if not (check_y g py)
    then none
    else let l = expand_utf8 (line g py) (add_uint px 1) in
      some (get_or l.utf8 px none, set_line g py l)

-- `grid_set_utf8`
unfoldable pub set_utf8 : Grid → ℕ → ℕ → GridUtf8 → Grid
unfolding expand_utf8
set_utf8 g px py gu =
    if not (check_y g py)
    then g
    else let l = expand_utf8 (line g py) (add_uint px 1) in
      set_line g py (record l { utf8 = set l.utf8 px (some gu) })
