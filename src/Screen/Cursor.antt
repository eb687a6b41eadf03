-- ===== src/Screen/Cursor.antt =====
-- screen-write.c: the operations that move the cursor and set modes. What each sends to the
-- terminal, by `tty_write`, does not change the screen and is left out.
use Prim.Native.Nat.{bit_or}
use tmux_cvs_archived.Prelude.{ℕ, Bool, ltb, leb, ◌==◌, if◌then◌else◌, add_uint, sub_uint}
use tmux_cvs_archived.Grid.{line}
use tmux_cvs_archived.Screen.{Screen, size_x, size_y, has_bit, put_bit, clear_bit, all_mouse_modes}

-- `if (ny == 0) ny = 1;` and the clamp to `limit`.
abbrev pub at_least_one : ℕ → ℕ
at_least_one n = if n == 0 then 1 else n

abbrev pub at_most : ℕ → ℕ → ℕ
at_most limit n = if ltb limit n then limit else n

-- `screen_write_cursorup`
unfoldable pub cursor_up : Screen → ℕ → Screen
cursor_up s ny =
    let limit = if ltb s.cy s.rupper then s.cy else sub_uint s.cy s.rupper in
    record s { cy = sub_uint s.cy (at_most limit (at_least_one ny)) }

-- `screen_write_cursordown`
unfoldable pub cursor_down : Screen → ℕ → Screen
cursor_down s ny =
    let limit =
      if ltb s.rlower s.cy then sub_uint (sub_uint (size_y s) 1) s.cy else sub_uint s.rlower s.cy in
    record s { cy = add_uint s.cy (at_most limit (at_least_one ny)) }

-- `screen_write_cursorright`
unfoldable pub cursor_right : Screen → ℕ → Screen
cursor_right s nx =
    let limit = sub_uint (sub_uint (size_x s) 1) s.cx in
    record s { cx = add_uint s.cx (at_most limit (at_least_one nx)) }

-- `screen_write_cursorleft`
unfoldable pub cursor_left : Screen → ℕ → Screen
cursor_left s nx = record s { cx = sub_uint s.cx (at_most s.cx (at_least_one nx)) }

-- `GRID_LINE_WRAPPED`
abbrev pub grid_line_wrapped : ℕ
grid_line_wrapped = 0x1

-- `screen_write_backspace`
unfoldable pub backspace : Screen → Screen
backspace s =
    if s.cx == 0
    then (if s.cy == 0
        then s
        else if has_bit (line s.grid (sub_uint (add_uint s.grid.hsize s.cy) 1)).flags
            grid_line_wrapped
        then record s { cy = sub_uint s.cy 1; cx = sub_uint (size_x s) 1 }
        else s)
    else record s { cx = sub_uint s.cx 1 }

-- `screen_write_cursormove`
unfoldable pub cursor_move : Screen → ℕ → ℕ → Screen
cursor_move s px py = record s {
  cx = at_most (sub_uint (size_x s) 1) px;
  cy = at_most (sub_uint (size_y s) 1) py;
}

-- `screen_write_carriagereturn`
abbrev pub carriage_return : Screen → Screen
carriage_return s = record s { cx = 0 }

-- `screen_write_scrollregion`
unfoldable pub scroll_region : Screen → ℕ → ℕ → Screen
scroll_region s rupper rlower =
    let upper = at_most (sub_uint (size_y s) 1) rupper in
    let lower = at_most (sub_uint (size_y s) 1) rlower in
    if leb lower upper then s else record s { cx = 0; cy = 0; rupper = upper; rlower = lower }

-- `screen_write_cursormode`, `screen_write_insertmode`, `screen_write_utf8mousemode`,
-- `screen_write_kcursormode` and `screen_write_kkeypadmode`, by the bit that each sets.
abbrev pub set_mode : ℕ → Screen → Bool → Screen
set_mode bit s state = record s { mode = put_bit state s.mode bit }

-- `screen_write_mousemode_off` and `screen_write_mousemode_on`
abbrev pub mouse_mode_off : Screen → Screen
mouse_mode_off s = record s { mode = clear_bit s.mode all_mouse_modes }

abbrev pub mouse_mode_on : Screen → ℕ → Screen
mouse_mode_on s mode = record s { mode = bit_or (clear_bit s.mode all_mouse_modes) mode }
