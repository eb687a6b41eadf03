-- ===== src/Grid/View.antt =====
-- grid-view.c: the operations of grid.c in coordinates of the visible part.
pub mod Scroll
pub mod Edit
pub mod Sizes
use Prim.Native.Nat.{bit_and}
use tmux_cvs_archived.Prelude.{
  ℕ, zero, suc, ◌+◌, ◌-◌, Bool, ◌&&◌, ◌||◌, not, Option, List, ◌==◌, if◌then◌else◌, length,
  add_uint, sub_uint,
}
use tmux_cvs_archived.Grid.{
  Grid, GridCell, GridUtf8, line, grid_history, peek_cell, get_cell, set_cell, peek_utf8, get_utf8,
  set_utf8, collect_history, scroll_history, scroll_history_region, move_lines,
}
use tmux_cvs_archived.Grid.Blocks.{clear, move_cells}
use tmux_cvs_archived.Grid.Text.{string_cells}

-- `grid_view_y`; `grid_view_x` is the identity.
abbrev pub view_y : Grid → ℕ → ℕ
view_y g y = add_uint g.hsize y

unfoldable pub view_peek_cell : Grid → ℕ → ℕ → GridCell
view_peek_cell g px py = peek_cell g px (view_y g py)

unfoldable pub view_get_cell : Grid → ℕ → ℕ → Option (GridCell × Grid)
view_get_cell g px py = get_cell g px (view_y g py)

unfoldable pub view_set_cell : Grid → ℕ → ℕ → GridCell → Grid
view_set_cell g px py gc = set_cell g px (view_y g py) gc

unfoldable pub view_peek_utf8 : Grid → ℕ → ℕ → Option (Option GridUtf8)
view_peek_utf8 g px py = peek_utf8 g px (view_y g py)

unfoldable pub view_get_utf8 : Grid → ℕ → ℕ → Option (Option GridUtf8 × Grid)
view_get_utf8 g px py = get_utf8 g px (view_y g py)

unfoldable pub view_set_utf8 : Grid → ℕ → ℕ → GridUtf8 → Grid
view_set_utf8 g px py gu = set_utf8 g px (view_y g py) gu

-- The first loop of `grid_view_clear_history`: one past the last line in use, or `last`.
last_used : Grid → ℕ → ℕ → ℕ → ℕ
last_used g yy last zero = last
last_used g yy last (suc n) =
    let l = line g (view_y g yy) in
    last_used g (yy + 1)
      (if not (length l.cells == 0) || not (length l.utf8 == 0) then yy + 1 else last) n

-- Its second loop.
scroll_times : Grid → ℕ → Grid
scroll_times g zero = g
scroll_times g (suc n) = scroll_times (scroll_history g) n

-- `grid_view_clear_history`
unfoldable pub view_clear_history : Grid → Grid
unfolding last_used scroll_times
view_clear_history g =
    let last = last_used g 0 0 g.sy in if last == 0 then g else scroll_times g last

-- `grid_view_clear`
unfoldable pub view_clear : Grid → ℕ → ℕ → ℕ → ℕ → Grid
view_clear g px py nx ny = clear g px (view_y g py) nx ny

-- The part of `grid_view_scroll_region_up` behind `grid_collect_history`.
scroll_up_history : Grid → ℕ → ℕ → Grid
scroll_up_history h rupper rlower =
    if rupper == 0 && rlower == sub_uint h.sy 1
    then scroll_history h
    else scroll_history_region h (view_y h rupper) (view_y h rlower)

-- `grid_view_scroll_region_up`. In its branch for a part of the screen the lines are counted from
-- the history that `grid_collect_history` left.
unfoldable pub scroll_region_up : Grid → ℕ → ℕ → Grid
unfolding scroll_up_history
scroll_region_up g rupper rlower =
    if not (bit_and g.flags grid_history == 0)
    then scroll_up_history (collect_history g) rupper rlower
    else move_lines g (view_y g rupper) (add_uint (view_y g rupper) 1)
        (sub_uint (view_y g rlower) (view_y g rupper))

-- `grid_view_scroll_region_down`
unfoldable pub scroll_region_down : Grid → ℕ → ℕ → Grid
scroll_region_down g rupper rlower =
    let upper = view_y g rupper in
    let lower = view_y g rlower in move_lines g (add_uint upper 1) upper (sub_uint lower upper)

-- `grid_view_insert_lines`
unfoldable pub insert_lines : Grid → ℕ → ℕ → Grid
insert_lines g py ny =
    let top = view_y g py in
    let sy = view_y g g.sy in move_lines g (add_uint top ny) top (sub_uint (sub_uint sy top) ny)

-- `grid_view_insert_lines_region`
unfoldable pub insert_lines_region : Grid → ℕ → ℕ → ℕ → Grid
insert_lines_region g rlower py ny =
    let lower = view_y g rlower in
    let top = view_y g py in
    let ny2 = sub_uint (sub_uint (add_uint lower 1) top) ny in
    let moved = move_lines g (sub_uint (add_uint lower 1) ny2) top ny2 in
    clear moved 0 (add_uint top ny2) moved.sx (sub_uint ny ny2)

-- `grid_view_delete_lines`
unfoldable pub delete_lines : Grid → ℕ → ℕ → Grid
delete_lines g py ny =
    let top = view_y g py in
    let sy = view_y g g.sy in
    let moved = move_lines g top (add_uint top ny) (sub_uint (sub_uint sy top) ny) in
    clear moved 0 (sub_uint sy ny) moved.sx (sub_uint (add_uint top ny) (sub_uint sy ny))

-- `grid_view_delete_lines_region`
unfoldable pub delete_lines_region : Grid → ℕ → ℕ → ℕ → Grid
delete_lines_region g rlower py ny =
    let lower = view_y g rlower in
    let top = view_y g py in
    let ny2 = sub_uint (sub_uint (add_uint lower 1) top) ny in
    let moved = move_lines g top (add_uint top ny) ny2 in
    clear moved 0 (add_uint top ny2) moved.sx (sub_uint ny ny2)

-- `grid_view_insert_cells`
unfoldable pub insert_cells : Grid → ℕ → ℕ → ℕ → Grid
insert_cells g px py nx =
    let row = view_y g py in
    if px == sub_uint g.sx 1
    then clear g px row 1 1
    else move_cells g (add_uint px nx) px row (sub_uint (sub_uint g.sx px) nx)

-- `grid_view_delete_cells`
unfoldable pub delete_cells : Grid → ℕ → ℕ → ℕ → Grid
delete_cells g px py nx =
    let row = view_y g py in
    let moved = move_cells g px (add_uint px nx) row (sub_uint (sub_uint g.sx px) nx) in
    clear moved (sub_uint moved.sx nx) row (sub_uint (add_uint px nx) (sub_uint moved.sx nx)) 1

-- `grid_view_string_cells`
unfoldable pub view_string_cells : Grid → ℕ → ℕ → ℕ → Option (List ℕ)
view_string_cells g px py nx = string_cells g px (view_y g py) nx
