-- ===== src/Grid/Cells.antt =====
-- grid.c: what is read back after cells have been written or cleared.
use tmux_cvs_archived.Prelude.{
  ℕ, ◌+◌, ◌-◌, ◌≤◌, ◌<◌, ◌≡◌, ◌^◌, ◌&&◌, ◌==◌, if◌then◌else◌, arith, get_or, set, replicate, length,
  get_or-append, get_or-replicate, length-append, length-replicate, get_or-set, get_or_past,
  length-set,
}
use tmux_cvs_archived.Grid.{
  Grid, GridLine, GridCell, empty_line, default_cell, line, peek_cell, set_cell, expand_cells,
}
use tmux_cvs_archived.Grid.Moves.{IsAllocated}

-- A cell of a line, the default past its end.
abbrev pub cell : GridLine → ℕ → GridCell
cell l px = get_or l.cells px default_cell

pub cell-expand_cells : (l : GridLine) (n px : ℕ) → cell (expand_cells l n) px ≡ cell l px
unfolding expand_cells
cell-expand_cells l n px = ground (
  arith,
  get_or-append l.cells (replicate (n - length l.cells) default_cell) px default_cell,
  get_or-replicate (n - length l.cells) default_cell (px - length l.cells) default_cell,
  get_or_past l.cells px default_cell,
)

pub length-expand_cells : (l : GridLine) (n : ℕ) → n ≤ length (expand_cells l n).cells
unfolding expand_cells
length-expand_cells l n = ground (
  arith,
  length-append l.cells (replicate (n - length l.cells) default_cell),
  length-replicate (n - length l.cells) default_cell,
)

-- A line in use is read cell by cell, whatever part of it is allocated.
pub peek_cell-eq-cell :
    (g : Grid) (px py : ℕ)
    → IsAllocated g
    → py < g.hsize + g.sy
    → peek_cell g px py ≡ cell (line g py) px
unfolding peek_cell
peek_cell-eq-cell g px py v h = ground (arith, get_or_past (line g py).cells px default_cell)

-- What `grid_set_cell` writes is what `grid_peek_cell` reads, there; any other cell reads as before,
-- whether or not the line had to grow.
pub peek_cell-set_cell :
    (g : Grid) (px py : ℕ) (gc : GridCell) (qx qy : ℕ)
    → IsAllocated g
    → py < g.hsize + g.sy
    → qy < g.hsize + g.sy
    → px + 1 < 2 ^ 32
    → peek_cell (set_cell g px py gc) qx qy
      ≡ (if qx == px && qy == py then gc else peek_cell g qx qy)
unfolding set_cell
peek_cell-set_cell g px py gc qx qy v h k b =
    let l = expand_cells (line g py) (px + 1) in
    let l' = record l { cells = set l.cells px gc } in
    ground (
      arith,
      peek_cell-eq-cell g qx qy v,
      peek_cell-eq-cell (record g { lines = set g.lines py l' }) qx qy,
      length-set g.lines py l',
      get_or-set g.lines py l' qy empty_line,
      get_or-set l.cells px gc qx default_cell,
      cell-expand_cells (line g py) (px + 1) qx,
      length-expand_cells (line g py) (px + 1),
    )
