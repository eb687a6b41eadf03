-- ===== src/Grid/Sizes.antt =====
-- grid.c and grid-view.c: what each operation leaves of the sizes of a grid.
use tmux_cvs_archived.Prelude.{
  ℕ, List, get_or, zero, suc, ◌+◌, ◌≤◌, ◌<◌, ◌≡◌, refl, ◌∙◌, Bool, true, false, not, Option, none,
  some, ◌||◌, ◌==◌, if◌then◌else◌, length, set, arith, length-set, Bool-cases, inl, inr,
}
use tmux_cvs_archived.Grid.{
  Grid, GridLine, GridCell, GridUtf8, set_line, check_y, set_cell, get_cell, set_utf8, get_utf8,
  move_lines, clear_lines, empty_line,
}
use tmux_cvs_archived.Grid.Moves.{
  IsAllocated, clear_lines-SameFrame, length-clear_lines, move_lines-SameFrame, length-move_lines,
}
use tmux_cvs_archived.Grid.Blocks.{clear, move_cells, copy_lines, copied, duplicate_lines}
use tmux_cvs_archived.Grid.Blocks.Clear.{clear_frame}

-- The same sizes, and as many lines allocated.
pub record Keeps (g h : Grid) : Type 0 where
  pub flags : h.flags ≡ g.flags
  pub sx : h.sx ≡ g.sx
  pub sy : h.sy ≡ g.sy
  pub hsize : h.hsize ≡ g.hsize
  pub hlimit : h.hlimit ≡ g.hlimit
  pub lines : length h.lines ≡ length g.lines

pub Keeps-refl : (g : Grid) → Keeps g g
Keeps-refl g = record {
  flags = refl;
  sx = refl;
  sy = refl;
  hsize = refl;
  hlimit = refl;
  lines = refl;
}

pub Keeps-trans : {g h k : Grid} → Keeps g h → Keeps h k → Keeps g k
Keeps-trans p q = record {
  flags = q.flags ∙ p.flags;
  sx = q.sx ∙ p.sx;
  sy = q.sy ∙ p.sy;
  hsize = q.hsize ∙ p.hsize;
  hlimit = q.hlimit ∙ p.hlimit;
  lines = q.lines ∙ p.lines;
}

pub IsAllocated-Keeps : {g h : Grid} → Keeps g h → IsAllocated g → IsAllocated h
IsAllocated-Keeps k a = omega (arith, k.sy, k.hsize, k.lines, a.allocated, a.small)

pub set_line-Keeps : (g : Grid) (y : ℕ) (l : GridLine) → Keeps g (set_line g y l)
set_line-Keeps g y l = record {
  flags = refl;
  sx = refl;
  sy = refl;
  hsize = refl;
  hlimit = refl;
  lines = length-set g.lines y l;
}

-- A line is written where the line number passes the check.
guarded-Keeps :
    (b : Bool) (g : Grid) (y : ℕ) (l : GridLine) → Keeps g (if not b then g else set_line g y l)
guarded-Keeps true g y l = set_line-Keeps g y l
guarded-Keeps false g y l = Keeps-refl g

pub set_cell-Keeps : (g : Grid) (px py : ℕ) (gc : GridCell) → Keeps g (set_cell g px py gc)
unfolding set_cell
set_cell-Keeps g px py gc = guarded-Keeps (check_y g py) g py _

pub set_utf8-Keeps : (g : Grid) (px py : ℕ) (gu : GridUtf8) → Keeps g (set_utf8 g px py gu)
unfolding set_utf8
set_utf8-Keeps g px py gu = guarded-Keeps (check_y g py) g py _

guarded_found :
    {A : Type 0} (b : Bool) (x : A) (g : Grid) (y : ℕ) (l : GridLine)
    → b ≡ true
    → (a : A) × (h : Grid) × (if◌then◌else◌ {A = Option (A × Grid)}
          (not b)
          none
          (some (x, set_line g y l))
        ≡ some (a, h))
      × Keeps g h
guarded_found true x g y l e = (x, set_line g y l, refl, set_line-Keeps g y l)
guarded_found false x g y l e = cc

-- In a line in use a cell is found.
pub get_cell_found :
    (g : Grid) (px py : ℕ)
    → IsAllocated g
    → py < g.hsize + g.sy
    → (gc : GridCell) × (h : Grid) × (get_cell g px py ≡ some (gc, h)) × Keeps g h
unfolding get_cell
get_cell_found g px py a b = guarded_found (check_y g py) _ g py _ (ground arith)

pub get_utf8_found :
    (g : Grid) (px py : ℕ)
    → IsAllocated g
    → py < g.hsize + g.sy
    → (gu : Option GridUtf8) × (h : Grid) × (get_utf8 g px py ≡ some (gu, h)) × Keeps g h
unfolding get_utf8
get_utf8_found g px py a b = guarded_found (check_y g py) _ g py _ (ground arith)

pub move_cells-Keeps : (g : Grid) (dx px py nx : ℕ) → Keeps g (move_cells g dx px py nx)
unfolding move_cells
move_cells-Keeps g dx px py nx = elim (Bool-cases (nx == 0 || px == dx)) [
  | inl nothing ↦ rw nothing (Keeps-refl g)
  | inr some_cells ↦ rw some_cells (guarded-Keeps (check_y g py) g py _)
]

clear-flags :
    (g : Grid) (px py nx ny : ℕ)
    → ((clear g px py nx ny).flags ≡ g.flags) × ((clear g px py nx ny).hlimit ≡ g.hlimit)
unfolding clear clear_lines
clear-flags g px py nx ny = ground arith

pub clear-Keeps : (g : Grid) (px py nx ny : ℕ) → Keeps g (clear g px py nx ny)
clear-Keeps g px py nx ny =
    let f = clear_frame g px py nx ny in
    let k = clear-flags g px py nx ny in
    record { flags = k.0; sx = f.2; sy = f.1; hsize = f.0; hlimit = k.1; lines = f.3 }

pub move_lines-Keeps :
    (g : Grid) (dy py ny : ℕ)
    → IsAllocated g
    → py + ny ≤ g.hsize + g.sy
    → dy + ny ≤ g.hsize + g.sy
    → Keeps g (move_lines g dy py ny)
move_lines-Keeps g dy py ny a h k =
    let f = move_lines-SameFrame g dy py ny in
    record {
      flags = f.flags;
      sx = f.sx;
      sy = f.sy;
      hsize = f.hsize;
      hlimit = f.hlimit;
      lines = length-move_lines g dy py ny a h k;
    }

pub clear_lines-Keeps : (g : Grid) (py ny : ℕ) → Keeps g (clear_lines g py ny)
clear_lines-Keeps g py ny =
    let f = clear_lines-SameFrame g py ny in
    record {
      flags = f.flags;
      sx = f.sx;
      sy = f.sy;
      hsize = f.hsize;
      hlimit = f.hlimit;
      lines = length-clear_lines g py ny;
    }

length-copy_lines :
    (ls : List GridLine) (dy : ℕ) (src : List GridLine) (sy n : ℕ)
    → length (copy_lines ls dy src sy n) ≡ length ls
unfolding copy_lines
length-copy_lines ls dy src sy zero = refl
length-copy_lines ls dy src sy (suc n) = omega (
  arith,
  length-copy_lines (set ls dy (get_or src sy empty_line)) (dy + 1) src (sy + 1) n,
  length-set ls dy (get_or src sy empty_line),
)

pub duplicate_lines-Keeps :
    (dst : Grid) (dy : ℕ) (src : Grid) (sy ny : ℕ) → Keeps dst (duplicate_lines dst dy src sy ny)
unfolding duplicate_lines
duplicate_lines-Keeps dst dy src sy ny =
    let n = copied dst dy src sy ny in
    let k = clear_lines-Keeps dst dy n in
    record {
      flags = k.flags;
      sx = k.sx;
      sy = k.sy;
      hsize = k.hsize;
      hlimit = k.hlimit;
      lines = length-copy_lines (clear_lines dst dy n).lines dy src.lines sy n ∙ k.lines;
    }
