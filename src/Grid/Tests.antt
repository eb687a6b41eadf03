-- ===== src/Grid/Tests.antt =====
-- The theorems on grids at a small screen with a full history, and runs of the operations.
use tmux_cvs_archived.Prelude.{ℕ, ◌≡◌, refl, [], ◌∷◌, arith, some}
use tmux_cvs_archived.Grid.{
  Grid, GridLine, GridCell, default_cell, line, peek_cell, set_cell, move_lines,
}
use tmux_cvs_archived.Grid.Moves.{IsAllocated, line-move_lines}
use tmux_cvs_archived.Grid.Cells.{peek_cell-set_cell}
use tmux_cvs_archived.Grid.Blocks.{clear}
use tmux_cvs_archived.Grid.Blocks.Clear.{peek_cell-clear}
use tmux_cvs_archived.Grid.Text.{string_cells}
use tmux_cvs_archived.Grid.View.{scroll_region_up, insert_lines}
use tmux_cvs_archived.Grid.View.Scroll.{IsValid, view_line, view_line-scroll_region_up}
use tmux_cvs_archived.Grid.View.Edit.{view_line-insert_lines}

abbrev letter : ℕ → GridCell
letter b = record default_cell { byte = b }

-- A line of two cells.
abbrev row : ℕ → GridLine
row b = record { cells = letter b ∷ letter b ∷ []; utf8 = []; flags = 0 }

-- Two lines of history, at the limit, and a screen of three lines.
abbrev sample : Grid
sample = record {
  flags = 1;
  sx = 4;
  sy = 3;
  hsize = 2;
  hlimit = 2;
  lines = row b'a' ∷ row b'b' ∷ row b'c' ∷ row b'd' ∷ row b'e' ∷ [];
}

abbrev no_history : Grid
no_history = record sample { hsize = 0; hlimit = 0 }

sample-IsAllocated : IsAllocated sample
sample-IsAllocated = omega arith

sample-IsValid : IsValid sample
sample-IsValid = omega arith

line-move_lines_example : line (move_lines sample 1 2 3) 1 ≡ row b'c'
line-move_lines_example =
    line-move_lines sample 1 2 3 1 sample-IsAllocated (omega arith) (omega arith)

peek_cell-set_cell_example : peek_cell (set_cell sample 3 4 (letter b'x')) 3 4 ≡ letter b'x'
peek_cell-set_cell_example =
    peek_cell-set_cell sample 3 4 (letter b'x') 3 4 sample-IsAllocated (omega arith) (omega arith)
      (omega arith)

peek_cell-clear_example : peek_cell (clear sample 1 2 3 2) 1 3 ≡ default_cell
peek_cell-clear_example =
    peek_cell-clear sample 1 2 3 2 1 3 sample-IsAllocated (omega arith) (omega arith) (omega arith)
      (omega arith) (omega arith)

view_line-scroll_region_up_example : view_line (scroll_region_up sample 0 1) 0 ≡ row b'd'
view_line-scroll_region_up_example =
    view_line-scroll_region_up sample 0 1 0 sample-IsValid (omega arith) (omega arith) (omega arith)
      (omega arith)

-- Line 1 is neither moved nor cleared.
view_line-insert_lines_example : view_line (insert_lines sample 0 2) 1 ≡ row b'd'
view_line-insert_lines_example =
    view_line-insert_lines sample 0 2 1 sample-IsValid (omega arith) (omega arith)

trimmed : string_cells (set_cell sample 3 0 (letter b' ')) 0 0 4 ≡ some (b'a' ∷ b'a' ∷ [])
unfolding string_cells set_cell peek_cell
trimmed = refl
