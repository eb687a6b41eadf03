-- ===== src/Screen/Resize.antt =====
-- screen.c: `screen_resize`.
use tmux_cvs_archived.Prelude.{
  ℕ, ◌-◌, ◌&&◌, ◌++◌, ltb, leb, ◌==◌, if◌then◌else◌, length, take, replicate, add_uint, sub_uint,
}
use tmux_cvs_archived.Grid.{Grid, empty_line, grid_history, wipe}
use tmux_cvs_archived.Grid.View.{delete_lines}
use tmux_cvs_archived.Screen.{Screen, size_x, size_y, reset_tabs, has_bit}

-- `screen_resize_x`
unfoldable pub resize_x : Screen → ℕ → Screen
resize_x s sx = record s {
  cx = if leb sx s.cx then sub_uint sx 1 else s.cx;
  grid = record (s.grid) { sx = sx };
}

-- "Size decreasing": lines go from the bottom up to the cursor, then into the history, or where there
-- is none from the top.
unfoldable pub shrink_y : Screen → ℕ → Screen
shrink_y s sy =
    let oldy = size_y s in
    let needed = sub_uint oldy sy in
    let below = sub_uint (sub_uint oldy 1) s.cy in
    let bottom = if ltb needed below then needed else below in
    let g = if ltb 0 below then delete_lines s.grid (sub_uint oldy bottom) bottom else s.grid in
    let left = sub_uint needed bottom in
    let top = if ltb left s.cy then left else s.cy in
    let g' =
      if has_bit g.flags grid_history
      then record g { hsize = add_uint g.hsize left }
      else if ltb 0 left && ltb 0 s.cy
      then delete_lines g 0 top
      else g in
    record s { grid = g'; cy = sub_uint s.cy left }

-- `xrealloc` of the array of lines; what it adds has no value, for which empty lines stand.
abbrev pub realloc_lines : Grid → ℕ → Grid
realloc_lines g n = record g { lines = take n g.lines ++ replicate (n - length g.lines) empty_line }

-- "Size increasing": lines come back from the history, and the rest is filled with blanks.
unfoldable pub grow_y : Screen → ℕ → ℕ → Screen
grow_y s oldy sy =
    let g = s.grid in
    let needed = sub_uint sy oldy in
    let available =
      if has_bit g.flags grid_history && ltb 0 g.hsize
      then (if ltb needed g.hsize then needed else g.hsize)
      else 0 in
    let hsize = sub_uint g.hsize available in
    let left = sub_uint needed available in
    record s {
      grid = record g {
        hsize = hsize;
        lines = wipe g.lines (sub_uint (add_uint hsize sy) left) left;
      };
      cy = add_uint s.cy available;
    }

-- `screen_resize_y`
unfoldable pub resize_y : Screen → ℕ → Screen
unfolding shrink_y grow_y wipe
resize_y s sy =
    let oldy = size_y s in
    let shrunk = if ltb sy oldy then shrink_y s sy else s in
    let sized = record shrunk {
      grid = realloc_lines shrunk.grid (add_uint shrunk.grid.hsize sy);
    } in
    let grown = if ltb oldy sy then grow_y sized oldy sy else sized in
    record grown { grid = record (grown.grid) { sy = sy }; rupper = 0; rlower = sub_uint sy 1 }

-- `screen_resize`
unfoldable pub resize : Screen → ℕ → ℕ → Screen
unfolding resize_x resize_y reset_tabs
resize s sx0 sy0 =
    let sx = if ltb sx0 1 then 1 else sx0 in
    let sy = if ltb sy0 1 then 1 else sy0 in
    let wide = if sx == size_x s then s else reset_tabs (resize_x s sx) in
    if sy == size_y wide then wide else resize_y wide sy
