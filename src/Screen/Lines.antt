-- ===== src/Screen/Lines.antt =====
-- screen-write.c: the operations on lines of the screen and on cells of the cursor's line.
use tmux_cvs_archived.Prelude.{
  ℕ, zero, suc, ◌+◌, Bool, ◌&&◌, ◌||◌, ltb, leb, ◌==◌, if◌then◌else◌, add_uint, sub_uint,
}
use tmux_cvs_archived.Grid.{Grid, line, set_line, default_cell, grid_history}
use tmux_cvs_archived.Grid.View.{
  view_set_cell, view_clear, view_clear_history, scroll_region_up, scroll_region_down, insert_lines,
  insert_lines_region, delete_lines, delete_lines_region, insert_cells, delete_cells,
}
use tmux_cvs_archived.Screen.{Screen, size_x, size_y, has_bit, put_bit}
use tmux_cvs_archived.Screen.Cursor.{at_least_one, at_most, grid_line_wrapped}

abbrev pub with_grid : Screen → Grid → Screen
with_grid s g = record s { grid = g }

-- The two loops of `screen_write_alignmenttest`.
unfoldable pub fill_row : Grid → ℕ → ℕ → ℕ → Grid
fill_row g xx yy zero = g
fill_row g xx yy (suc n) =
    fill_row (view_set_cell g xx yy (record default_cell { byte = b'E' })) (xx + 1) yy n

unfoldable pub fill_rows : Grid → ℕ → ℕ → Grid
unfolding fill_row
fill_rows g yy zero = g
fill_rows g yy (suc n) = fill_rows (fill_row g 0 yy g.sx) (yy + 1) n

-- `screen_write_alignmenttest`
unfoldable pub alignment_test : Screen → Screen
unfolding fill_rows
alignment_test s = record s {
  grid = fill_rows s.grid 0 (size_y s);
  cx = 0;
  cy = 0;
  rupper = 0;
  rlower = sub_uint (size_y s) 1;
}

-- `screen_write_insertcharacter`
unfoldable pub insert_character : Screen → ℕ → Screen
insert_character s nx0 =
    let nx = at_most (sub_uint (size_x s) s.cx) (at_least_one nx0) in
    if nx == 0
    then s
    else if leb s.cx (sub_uint (size_x s) 1)
    then with_grid s (insert_cells s.grid s.cx s.cy nx)
    else s

-- `screen_write_deletecharacter`
unfoldable pub delete_character : Screen → ℕ → Screen
delete_character s nx0 =
    let nx = at_most (sub_uint (size_x s) s.cx) (at_least_one nx0) in
    if nx == 0
    then s
    else if leb s.cx (sub_uint (size_x s) 1)
    then with_grid s (delete_cells s.grid s.cx s.cy nx)
    else s

-- Whether the cursor is outside the scroll region.
abbrev pub outside_region : Screen → Bool
outside_region s = ltb s.cy s.rupper || ltb s.rlower s.cy

-- `screen_write_insertline`
unfoldable pub insert_line : Screen → ℕ → Screen
insert_line s ny0 =
    let below = at_most (sub_uint (size_y s) s.cy) (at_least_one ny0) in
    let ny = at_most (sub_uint (add_uint s.rlower 1) s.cy) (at_least_one ny0) in
    if outside_region s
    then (if below == 0 then s else with_grid s (insert_lines s.grid s.cy below))
    else if ny == 0
    then s
    else with_grid s (insert_lines_region s.grid s.rlower s.cy ny)

-- `screen_write_deleteline`
unfoldable pub delete_line : Screen → ℕ → Screen
delete_line s ny0 =
    let below = at_most (sub_uint (size_y s) s.cy) (at_least_one ny0) in
    let ny = at_most (sub_uint (add_uint s.rlower 1) s.cy) (at_least_one ny0) in
    if outside_region s
    then (if below == 0 then s else with_grid s (delete_lines s.grid s.cy below))
    else if ny == 0
    then s
    else with_grid s (delete_lines_region s.grid s.rlower s.cy ny)

-- `screen_write_clearline`
unfoldable pub clear_line : Screen → Screen
clear_line s = with_grid s (view_clear s.grid 0 s.cy (size_x s) 1)

-- `screen_write_clearendofline`
unfoldable pub clear_end_of_line : Screen → Screen
clear_end_of_line s =
    if leb s.cx (sub_uint (size_x s) 1)
    then with_grid s (view_clear s.grid s.cx s.cy (sub_uint (size_x s) s.cx) 1)
    else s

-- `screen_write_clearstartofline`
unfoldable pub clear_start_of_line : Screen → Screen
clear_start_of_line s =
    if ltb (sub_uint (size_x s) 1) s.cx
    then with_grid s (view_clear s.grid 0 s.cy (size_x s) 1)
    else with_grid s (view_clear s.grid 0 s.cy (add_uint s.cx 1) 1)

-- `screen_write_reverseindex`
unfoldable pub reverse_index : Screen → Screen
reverse_index s =
    if s.cy == s.rupper
    then with_grid s (scroll_region_down s.grid s.rupper s.rlower)
    else if ltb 0 s.cy
    then record s { cy = sub_uint s.cy 1 }
    else s

-- The flag that `screen_write_linefeed` sets or clears on the line that the cursor leaves.
abbrev pub mark_wrapped : Screen → Bool → Grid
mark_wrapped s wrapped =
    let y = add_uint s.grid.hsize s.cy in
    let l = line s.grid y in
    set_line s.grid y (record l { flags = put_bit wrapped l.flags grid_line_wrapped })

-- `screen_write_linefeed`
unfoldable pub line_feed : Screen → Bool → Screen
line_feed s wrapped =
    let marked = with_grid s (mark_wrapped s wrapped) in
    if s.cy == s.rlower
    then with_grid s (scroll_region_up (mark_wrapped s wrapped) s.rupper s.rlower)
    else if ltb s.cy (sub_uint (size_y s) 1)
    then record marked { cy = add_uint s.cy 1 }
    else marked

-- `screen_write_clearendofscreen`
unfoldable pub clear_end_of_screen : Screen → Screen
clear_end_of_screen s =
    let sx = size_x s in
    let sy = size_y s in
    let first =
      if leb s.cx (sub_uint sx 1)
      then view_clear s.grid s.cx s.cy (sub_uint sx s.cx) 1
      else s.grid in
    if s.cy == 0 && has_bit s.grid.flags grid_history
    then with_grid s (view_clear_history s.grid)
    else with_grid s (view_clear first 0 (add_uint s.cy 1) sx (sub_uint sy (add_uint s.cy 1)))

-- `screen_write_clearstartofscreen`
unfoldable pub clear_start_of_screen : Screen → Screen
clear_start_of_screen s =
    let sx = size_x s in
    let above = if ltb 0 s.cy then view_clear s.grid 0 0 sx s.cy else s.grid in
    if ltb (sub_uint sx 1) s.cx
    then with_grid s (view_clear above 0 s.cy sx 1)
    else with_grid s (view_clear above 0 s.cy (add_uint s.cx 1) 1)

-- `screen_write_clearscreen`
unfoldable pub clear_screen : Screen → Screen
clear_screen s =
    if has_bit s.grid.flags grid_history
    then with_grid s (view_clear_history s.grid)
    else with_grid s (view_clear s.grid 0 0 (size_x s) (size_y s))
