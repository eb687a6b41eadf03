-- ===== src/Screen/Column.antt =====
-- screen-write.c: how far the cursor moves along a line.
use tmux_cvs_archived.Prelude.{ℕ, ◌+◌, ◌-◌, ◌^◌, ◌<◌, ◌≡◌, ltb, if◌then◌else◌, arith, min, max}
use tmux_cvs_archived.Screen.{Screen}
use tmux_cvs_archived.Screen.Cursor.{cursor_right}

-- The cursor goes right by `nx` columns (by one for 0) and stops at the last column; but from the
-- place behind the last column, where a character has been written there, or from farther right, it
-- does not stop, and goes on beyond the screen. The screen has a column at least, and its width, the
-- cursor's column and the column it would reach fit 32 bits. The line stays as it is.
pub cursor_right_column :
    (s : Screen) (nx : ℕ)
    → 0 < s.grid.sx
    → s.grid.sx < 2 ^ 32
    → s.cx + max 1 nx < 2 ^ 32
    → ((cursor_right s nx).cx
        ≡ (if ltb s.cx s.grid.sx then min (s.grid.sx - 1) (s.cx + max 1 nx) else s.cx + max 1 nx))
      × ((cursor_right s nx).cy ≡ s.cy)
unfolding cursor_right
cursor_right_column s nx a b c = ground arith
