-- ===== src/Grid/View/Sizes.antt =====
-- grid-view.c: what each operation leaves of the sizes of a grid.
use Prim.Native.Nat.{bit_and}
use tmux_cvs_archived.Prelude.{
  ℕ, zero, suc, ◌+◌, ◌-◌, ◌^◌, ◌≤◌, ◌<◌, ◌≡◌, refl, ◌∙◌, Option, some, ◌&&◌, ◌==◌, length, arith,
  sub_uint, Bool-cases, inl, inr,
}
use tmux_cvs_archived.Grid.{
  Grid, GridCell, GridUtf8, grid_history, collect_history, scroll_history, scroll_history_region,
}
use tmux_cvs_archived.Grid.Moves.{IsAllocated, move_lines-SameFrame, length-move_lines}
use tmux_cvs_archived.Grid.History.{
  tenth, collect_history-IsAllocated, scroll_history_frame, scroll_history_region_frame,
}
use tmux_cvs_archived.Grid.Sizes.{
  Keeps, Keeps-refl, Keeps-trans, set_cell-Keeps, set_utf8-Keeps, get_cell_found, get_utf8_found,
  move_cells-Keeps, clear-Keeps, move_lines-Keeps,
}
use tmux_cvs_archived.Grid.View.{
  view_y, view_set_cell, view_get_cell, view_set_utf8, view_get_utf8, view_clear, last_used,
  scroll_times, view_clear_history, scroll_up_history, scroll_region_up, scroll_region_down,
  insert_lines, insert_lines_region, delete_lines, delete_lines_region, insert_cells, delete_cells,
}

pub view_set_cell-Keeps :
    (g : Grid) (px py : ℕ) (gc : GridCell) → Keeps g (view_set_cell g px py gc)
unfolding view_set_cell
view_set_cell-Keeps g px py gc = set_cell-Keeps g px _ gc

pub view_set_utf8-Keeps :
    (g : Grid) (px py : ℕ) (gu : GridUtf8) → Keeps g (view_set_utf8 g px py gu)
unfolding view_set_utf8
view_set_utf8-Keeps g px py gu = set_utf8-Keeps g px _ gu

-- On a line of the screen a cell and its bytes are found.
pub view_get_cell_found :
    (g : Grid) (px py : ℕ)
    → IsAllocated g
    → py < g.sy
    → (gc : GridCell) × (h : Grid) × (view_get_cell g px py ≡ some (gc, h)) × Keeps g h
unfolding view_get_cell
view_get_cell_found g px py a b = get_cell_found g px (view_y g py) a (omega (arith, a.small))

pub view_get_utf8_found :
    (g : Grid) (px py : ℕ)
    → IsAllocated g
    → py < g.sy
    → (gu : Option GridUtf8) × (h : Grid) × (view_get_utf8 g px py ≡ some (gu, h)) × Keeps g h
unfolding view_get_utf8
view_get_utf8_found g px py a b = get_utf8_found g px (view_y g py) a (omega (arith, a.small))

pub view_clear-Keeps : (g : Grid) (px py nx ny : ℕ) → Keeps g (view_clear g px py nx ny)
unfolding view_clear
view_clear-Keeps g px py nx ny = clear-Keeps g px _ nx ny

pub scroll_region_down-Keeps :
    (g : Grid) (upper lower : ℕ)
    → IsAllocated g
    → upper ≤ lower
    → lower < g.sy
    → Keeps g (scroll_region_down g upper lower)
unfolding scroll_region_down
scroll_region_down-Keeps g upper lower a h k =
    move_lines-Keeps g _ _ _ a (omega (arith, a.small)) (omega (arith, a.small))

pub insert_lines-Keeps :
    (g : Grid) (py ny : ℕ) → IsAllocated g → py + ny ≤ g.sy → Keeps g (insert_lines g py ny)
unfolding insert_lines
insert_lines-Keeps g py ny a h =
    move_lines-Keeps g _ _ _ a (omega (arith, a.small)) (omega (arith, a.small))

pub insert_lines_region-Keeps :
    (g : Grid) (lower py ny : ℕ)
    → IsAllocated g
    → py + ny ≤ lower + 1
    → lower < g.sy
    → Keeps g (insert_lines_region g lower py ny)
unfolding insert_lines_region
insert_lines_region-Keeps g lower py ny a h k =
    Keeps-trans (move_lines-Keeps g _ _ _ a (omega (arith, a.small)) (omega (arith, a.small)))
      (clear-Keeps _ _ _ _ _)

pub delete_lines-Keeps :
    (g : Grid) (py ny : ℕ) → IsAllocated g → py + ny ≤ g.sy → Keeps g (delete_lines g py ny)
unfolding delete_lines
delete_lines-Keeps g py ny a h =
    Keeps-trans (move_lines-Keeps g _ _ _ a (omega (arith, a.small)) (omega (arith, a.small)))
      (clear-Keeps _ _ _ _ _)

pub delete_lines_region-Keeps :
    (g : Grid) (lower py ny : ℕ)
    → IsAllocated g
    → py + ny ≤ lower + 1
    → lower < g.sy
    → Keeps g (delete_lines_region g lower py ny)
unfolding delete_lines_region
delete_lines_region-Keeps g lower py ny a h k =
    Keeps-trans (move_lines-Keeps g _ _ _ a (omega (arith, a.small)) (omega (arith, a.small)))
      (clear-Keeps _ _ _ _ _)

pub insert_cells-Keeps : (g : Grid) (px py nx : ℕ) → Keeps g (insert_cells g px py nx)
unfolding insert_cells
insert_cells-Keeps g px py nx = elim (Bool-cases (px == sub_uint g.sx 1)) [
  | inl last ↦ rw last (clear-Keeps g _ _ _ _)
  | inr before ↦ rw before (move_cells-Keeps g _ _ _ _)
]

pub delete_cells-Keeps : (g : Grid) (px py nx : ℕ) → Keeps g (delete_cells g px py nx)
unfolding delete_cells
delete_cells-Keeps g px py nx = Keeps-trans (move_cells-Keeps g _ _ _ _) (clear-Keeps _ _ _ _ _)

-- At most `k` lines more of history.
pub record Grows (k : ℕ) (g h : Grid) : Type 0 where
  pub flags : h.flags ≡ g.flags
  pub sx : h.sx ≡ g.sx
  pub sy : h.sy ≡ g.sy
  pub hlimit : h.hlimit ≡ g.hlimit
  pub hsize : h.hsize ≤ g.hsize + k
  pub allocated : h.hsize + h.sy ≤ length h.lines

pub Grows-Keeps : (k : ℕ) {g h : Grid} → IsAllocated g → Keeps g h → Grows k g h
Grows-Keeps k a p = record {
  flags = p.flags;
  sx = p.sx;
  sy = p.sy;
  hlimit = p.hlimit;
  hsize = omega (arith, p.hsize);
  allocated = omega (arith, p.hsize, p.sy, p.lines, a.allocated);
}

pub Grows-trans : (j k : ℕ) {f g h : Grid} → Grows j f g → Grows k g h → Grows (j + k) f h
Grows-trans j k p q = record {
  flags = q.flags ∙ p.flags;
  sx = q.sx ∙ p.sx;
  sy = q.sy ∙ p.sy;
  hlimit = q.hlimit ∙ p.hlimit;
  hsize = omega (arith, p.hsize, q.hsize);
  allocated = q.allocated;
}

pub Grows-le : (j k : ℕ) {g h : Grid} → j ≤ k → Grows j g h → Grows k g h
Grows-le j k le p = record {
  flags = p.flags;
  sx = p.sx;
  sy = p.sy;
  hlimit = p.hlimit;
  hsize = omega (arith, p.hsize);
  allocated = p.allocated;
}

scroll_history-Grows : (g : Grid) → IsAllocated g → Grows 1 g (scroll_history g)
scroll_history-Grows g a =
    let f = scroll_history_frame g a in
    record {
      flags = unfold scroll_history in refl;
      sx = unfold scroll_history in refl;
      sy = f.1;
      hlimit = unfold scroll_history in refl;
      hsize = omega (arith, f.0);
      allocated = omega (arith, f.0, f.1, f.2);
    }

scroll_history_region-Grows :
    (g : Grid) (upper lower : ℕ)
    → IsAllocated g
    → g.hsize ≤ upper
    → upper ≤ lower
    → lower < g.hsize + g.sy
    → Grows 1 g (scroll_history_region g upper lower)
scroll_history_region-Grows g upper lower a h k b =
    let f = scroll_history_region_frame g upper lower a h k b in
    record {
      flags = unfold scroll_history_region in refl;
      sx = unfold scroll_history_region in refl;
      sy = f.1;
      hlimit = unfold scroll_history_region in refl;
      hsize = omega (arith, f.0);
      allocated = omega (arith, f.0, f.1, f.2);
    }

collect_history-Grows : (g : Grid) → IsAllocated g → 0 < g.hlimit → Grows 0 g (collect_history g)
unfolding collect_history
collect_history-Grows g a p =
    let k = tenth g.hlimit in
    let n = g.hsize + g.sy - k in
    ground (arith, length-move_lines g 0 k n a, move_lines-SameFrame g 0 k n)

scroll_up_history-Grows :
    (g : Grid) (upper lower : ℕ)
    → IsAllocated g
    → upper ≤ lower
    → lower < g.sy
    → Grows 1 g (scroll_up_history g upper lower)
unfolding scroll_up_history
scroll_up_history-Grows g upper lower a h k =
    elim (Bool-cases (upper == 0 && lower == sub_uint g.sy 1)) [
      | inl whole ↦ rw whole (scroll_history-Grows g a)
      | inr part ↦ rw part (
          scroll_history_region-Grows g _ _ a (omega (arith, a.small)) (omega (arith, a.small))
            (omega (arith, a.small)))
    ]

pub scroll_region_up-Grows :
    (g : Grid) (upper lower : ℕ)
    → IsAllocated g
    → 0 < g.hlimit
    → upper ≤ lower
    → lower < g.sy
    → Grows 1 g (scroll_region_up g upper lower)
unfolding scroll_region_up
scroll_region_up-Grows g upper lower a p h k =
    elim (Bool-cases (bit_and g.flags grid_history == 0)) [
      | inl plain ↦ rw plain (
          Grows-Keeps 1 a
            (move_lines-Keeps g _ _ _ a (omega (arith, a.small)) (omega (arith, a.small))))
      | inr kept ↦
          let c = collect_history-Grows g a p in
          rw kept (
            Grows-trans 0 1 c (
              scroll_up_history-Grows (collect_history g) upper lower
                (collect_history-IsAllocated g a p) h (omega (arith, c.sy))))
    ]

last_used-le : (g : Grid) (yy last n : ℕ) → last ≤ yy → last_used g yy last n ≤ yy + n
unfolding last_used
last_used-le g yy last zero h = omega arith
last_used-le g yy last (suc n) h =
    ground (arith, last_used-le g (yy + 1) (yy + 1) n, last_used-le g (yy + 1) last n)

scroll_times-Grows :
    (g : Grid) (n : ℕ)
    → g.hsize + g.sy ≤ length g.lines
    → g.hsize + g.sy + n + 1 < 2 ^ 32
    → Grows n g (scroll_times g n)
unfolding scroll_times
scroll_times-Grows g zero a b = record {
  flags = refl;
  sx = refl;
  sy = refl;
  hlimit = refl;
  hsize = omega arith;
  allocated = a;
}
scroll_times-Grows g (suc n) a b =
    let s = scroll_history-Grows g (record { allocated = a; small = omega arith }) in
    let t = scroll_times-Grows (scroll_history g) n s.allocated (omega (arith, s.hsize, s.sy)) in
    Grows-le (1 + n) (suc n) (omega arith) (Grows-trans 1 n s t)

-- Clearing into the history makes it longer by the lines of the screen at most.
pub view_clear_history-Grows :
    (g : Grid)
    → IsAllocated g
    → g.hsize + g.sy + g.sy + 1 < 2 ^ 32
    → Grows g.sy g (view_clear_history g)
unfolding view_clear_history
view_clear_history-Grows g a b =
    let last = last_used g 0 0 g.sy in
    let few : last ≤ g.sy = omega (arith, last_used-le g 0 0 g.sy) in
    elim (Bool-cases (last == 0)) [
      | inl blank ↦ rw blank (Grows-Keeps g.sy a (Keeps-refl g))
      | inr used ↦
          rw used (Grows-le last g.sy few (scroll_times-Grows g last a.allocated (omega arith)))
    ]
