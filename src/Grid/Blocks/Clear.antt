-- ===== src/Grid/Blocks/Clear.antt =====
-- grid.c: clearing a block of cells.
use tmux_cvs_archived.Prelude.{
  ℕ, Bool, true, false, zero, suc, ◌+◌, ◌≤◌, ◌<◌, ◌≡◌, ◌^◌, ◌&&◌, not, ltb, leb, ◌==◌,
  if◌then◌else◌, arith, Bool-cases, inl, inr, get_or, set, List, length, get_or-set, get_or_past,
  length-set, get_or-take, refl,
}
use tmux_cvs_archived.Grid.{
  Grid, GridLine, GridCell, empty_line, default_cell, line, rounds, peek_cell,
}
use tmux_cvs_archived.Grid.Moves.{
  IsAllocated, line-clear_lines, clear_lines-SameFrame, length-clear_lines,
}
use tmux_cvs_archived.Grid.Cells.{cell, peek_cell-eq-cell}
use tmux_cvs_archived.Grid.Blocks.{clear, clear_row, clear_rows, blank}

get_or-blank :
    (cs : List GridCell) (xx n i : ℕ)
    → get_or (blank cs xx n) i default_cell
      ≡ (if leb xx i && ltb i (xx + n) then default_cell else get_or cs i default_cell)
unfolding blank
get_or-blank cs xx zero i = ground arith
get_or-blank cs xx (suc n) i = ground (
  arith,
  get_or-blank (set cs xx default_cell) (xx + 1) n i,
  get_or-set cs xx default_cell i default_cell,
  get_or_past cs i default_cell,
)

-- On one line all three ways to clear come to the same, cell by cell.
cell-clear_row :
    (l : GridLine) (px nx i : ℕ)
    → px + nx < 2 ^ 32
    → cell (clear_row l px nx) i ≡ (if leb px i && ltb i (px + nx) then default_cell else cell l i)
unfolding clear_row
cell-clear_row l px nx i h = ground (
  arith,
  get_or-blank l.cells px nx i,
  get_or-take px l.cells i default_cell,
  get_or_past l.cells i default_cell,
)

length-clear_rows :
    (ls : List GridLine) (px nx yy n : ℕ) → length (clear_rows ls px nx yy n) ≡ length ls
unfolding clear_rows
length-clear_rows ls px nx yy zero = refl
length-clear_rows ls px nx yy (suc n) =
    let l = clear_row (get_or ls yy empty_line) px nx in
    omega (arith, length-clear_rows (set ls yy l) px nx (yy + 1) n, length-set ls yy l)

get_or-clear_rows :
    (ls : List GridLine) (px nx yy n i : ℕ)
    → yy + n ≤ length ls
    → get_or (clear_rows ls px nx yy n) i empty_line ≡ (
        if leb yy i && ltb i (yy + n)
        then clear_row (get_or ls i empty_line) px nx
        else get_or ls i empty_line)
unfolding clear_rows
get_or-clear_rows ls px nx yy zero i h = ground arith
get_or-clear_rows ls px nx yy (suc n) i h =
    let l = clear_row (get_or ls yy empty_line) px nx in
    ground (
      arith,
      get_or-clear_rows (set ls yy l) px nx (yy + 1) n i,
      get_or-set ls yy l i empty_line,
      length-set ls yy l,
    )

-- Whether a cell stands in a block of `nx` columns and `ny` lines.
abbrev pub in_block : ℕ → ℕ → ℕ → ℕ → ℕ → ℕ → Bool
in_block px py nx ny qx qy = (leb px qx && ltb qx (px + nx)) && (leb py qy && ltb qy (py + ny))

line-clear_part :
    (g : Grid) (px py nx ny i : ℕ)
    → IsAllocated g
    → py + ny ≤ g.hsize + g.sy
    → (px == 0 && nx == g.sx) ≡ false
    → line (clear g px py nx ny) i ≡ (
        if (leb py i && ltb i (py + ny)) && not (nx == 0)
        then clear_row (line g i) px nx
        else line g i)
unfolding clear
line-clear_part g px py nx ny i v h part = ground (arith, get_or-clear_rows g.lines px nx py ny i)

line-clear_whole :
    (g : Grid) (px py nx ny i : ℕ)
    → IsAllocated g
    → py + ny ≤ g.hsize + g.sy
    → (px == 0 && nx == g.sx) ≡ true
    → line (clear g px py nx ny) i
      ≡ (if (leb py i && ltb i (py + ny)) && not (nx == 0) then empty_line else line g i)
unfolding clear
line-clear_whole g px py nx ny i v h whole = ground (arith, line-clear_lines g py ny i v)

-- Clearing changes no size.
pub clear_frame :
    (g : Grid) (px py nx ny : ℕ)
    → let h = clear g px py nx ny in
      (h.hsize ≡ g.hsize) × (h.sy ≡ g.sy) × (h.sx ≡ g.sx) × (length h.lines ≡ length g.lines)
unfolding clear
clear_frame g px py nx ny = ground (
  arith,
  clear_lines-SameFrame g py ny,
  length-clear_lines g py ny,
  length-clear_rows g.lines px nx py (rounds py ny),
)

-- Clearing a block inside a grid whose lines in use are allocated leaves, in the columns below `sx` of
-- those lines, default cells in it and every cell outside it as it was: on whole lines, on lines that
-- end inside the block, and on longer lines. The width fits 32 bits.
pub peek_cell-clear :
    (g : Grid) (px py nx ny qx qy : ℕ)
    → IsAllocated g
    → py + ny ≤ g.hsize + g.sy
    → px + nx ≤ g.sx
    → g.sx < 2 ^ 32
    → qy < g.hsize + g.sy
    → qx < g.sx
    → peek_cell (clear g px py nx ny) qx qy
      ≡ (if in_block px py nx ny qx qy then default_cell else peek_cell g qx qy)
peek_cell-clear g px py nx ny qx qy v h k s b c = elim (Bool-cases (px == 0 && nx == g.sx)) [
  | inl whole ↦ ground (
    arith,
    clear_frame g px py nx ny,
    peek_cell-eq-cell (clear g px py nx ny) qx qy,
    peek_cell-eq-cell g qx qy v,
    line-clear_whole g px py nx ny qy v,
  )
  | inr part ↦ ground (
    arith,
    clear_frame g px py nx ny,
    peek_cell-eq-cell (clear g px py nx ny) qx qy,
    peek_cell-eq-cell g qx qy v,
    line-clear_part g px py nx ny qy v h part,
    cell-clear_row (line g qy) px nx qx,
  )
]
