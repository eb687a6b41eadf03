-- ===== src/Layout.antt =====
-- layout.c: the tree of cells that divides a window into panes.
pub mod Fits
pub mod Resize
pub mod Available
pub mod Shrink
pub mod Window
pub mod Split
pub mod Close
mod Tests
use tmux_cvs_archived.Prelude.{
  ℕ, zero, suc, ◌+◌, ◌-◌, ◌/◌, Bool, true, false, ◌&&◌, ◌||◌, not, Option, none, some, ◌>>=◌, ltb,
  leb, ◌==◌, if◌then◌else◌, add_uint, sub_uint, uint_max, max,
}

-- `LAYOUT_LEFTRIGHT` and `LAYOUT_TOPBOTTOM`; a cell of type `LAYOUT_WINDOWPANE` is a `leaf`.
pub data Direction : Type 0 where
  leftright topbottom : Direction

abbrev pub same : Direction → Direction → Bool
same leftright leftright = true
same leftright topbottom = false
same topbottom leftright = false
same topbottom topbottom = true

pub record Geometry : Type 0 where
  pub sx : ℕ
  pub sy : ℕ
  pub xoff : ℕ
  pub yoff : ℕ

-- `struct layout_cell`. The list of children is `cells`; a leaf holds its pane or NULL. The pointer
-- to the parent is the place in the tree.
mutual
  pub data Cell : Type 0 where
    leaf : Geometry → Option ℕ → Cell
    node : Direction → Geometry → Cells → Cell

  pub data Cells : Type 0 where
    nil : Cells
    cons : Cell → Cells → Cells

abbrev pub geometry : Cell → Geometry
geometry (leaf g p) = g
geometry (node u g cs) = g

-- The size along a direction.
abbrev pub extent : Direction → Geometry → ℕ
extent leftright g = g.sx
extent topbottom g = g.sy

abbrev pub size : Direction → Cell → ℕ
size t c = extent t (geometry c)

-- `PANE_MINIMUM`
abbrev pub pane_minimum : ℕ
pane_minimum = 2

-- `layout_resize_check`: the space that a cell can give.
unfoldable mutual
  pub check : Direction → Cell → ℕ
  check t (leaf g p) = if ltb pane_minimum (extent t g) then extent t g - pane_minimum else 0
  check t (node u g cs) = if same u t then check_sum t cs else check_min t cs

  pub check_sum : Direction → Cells → ℕ
  check_sum t nil = 0
  check_sum t (cons c cs) = add_uint (check t c) (check_sum t cs)

  pub check_min : Direction → Cells → ℕ
  check_min t nil = uint_max
  check_min t (cons c cs) =
      let rest = check_min t cs in if ltb (check t c) rest then check t c else rest

-- `layout_count_cells`
unfoldable mutual
  pub count_cells : Cell → ℕ
  count_cells (leaf g p) = 1
  count_cells (node u g cs) = count_list cs

  pub count_list : Cells → ℕ
  count_list nil = 0
  count_list (cons c cs) = count_cells c + count_list cs

-- A change of size, a C `int` by its sign.
pub data Change : Type 0 where
  grow : ℕ → Change
  shrink : ℕ → Change

abbrev pub changed : ℕ → Change → ℕ
changed s (grow n) = add_uint s n
changed s (shrink n) = sub_uint s n

abbrev pub resized : Direction → Change → Geometry → Geometry
resized leftright d g = record g { sx = changed g.sx d }
resized topbottom d g = record g { sy = changed g.sy d }

-- The loop over children that run in a different direction: all change.
unfoldable pub each : (Cell → Option Cell) → Cells → Option Cells
each step nil = some nil
each step (cons c cs) = step c >>= λ c'. each step cs >>= λ cs'. some (cons c' cs')

-- One `TAILQ_FOREACH` of the last loop of `layout_resize_adjust`: what is left of the change, and
-- the children. Growing adds one to each child in turn; shrinking takes one from each that has one.
unfoldable pub grow_pass : (Cell → Option Cell) → ℕ → Cells → Option (ℕ × Cells)
grow_pass step n nil = some (n, nil)
grow_pass step n (cons c cs) =
    let one = (step c >>= λ c'. grow_pass step (n - 1) cs >>= λ r. some (r.0, cons c' (r.1))) in
    if n == 0 then some (0, cons c cs) else one

unfoldable pub shrink_pass : Direction → (Cell → Option Cell) → ℕ → Cells → Option (ℕ × Cells)
shrink_pass t step n nil = some (n, nil)
shrink_pass t step n (cons c cs) =
    let one = (step c >>= λ c'. shrink_pass t step (n - 1) cs >>= λ r. some (r.0, cons c' (r.1))) in
    let skip = (shrink_pass t step n cs >>= λ r. some (r.0, cons c (r.1))) in
    if n == 0 then some (0, cons c cs) else if ltb 0 (check t c) then one else skip

-- `while (change != 0)`. A round that changes nothing is repeated for ever in the source; here the
-- fuel, one round for each unit of the change, runs out.
unfoldable pub rounds : ℕ → (ℕ → Cells → Option (ℕ × Cells)) → ℕ → Cells → Option Cells
rounds fuel pass zero cs = some cs
rounds zero pass (suc n) cs = none
rounds (suc fuel) pass (suc n) cs = pass (suc n) cs >>= λ r. rounds fuel pass (r.0) (r.1)

-- `layout_resize_adjust` of the children, given itself for cells of less depth.
unfoldable pub adjust_children :
    (Change → Cell → Option Cell) → Direction → Direction → Change → Cells → Option Cells
unfolding each grow_pass shrink_pass rounds
adjust_children step u t d cs =
    if same u t
    then elim d [
      | grow n ↦ rounds n (grow_pass (step (grow 1))) n cs
      | shrink n ↦ rounds n (shrink_pass t (step (shrink 1))) n cs
    ]
    else each (step d) cs

-- The depth of a tree, which is fuel enough.
unfoldable mutual
  pub depth : Cell → ℕ
  depth (leaf g p) = 0
  depth (node u g cs) = suc (depth_list cs)

  pub depth_list : Cells → ℕ
  depth_list nil = 0
  depth_list (cons c cs) = max (depth c) (depth_list cs)

-- `layout_resize_adjust`, to a depth.
unfoldable pub adjust_to : ℕ → Direction → Change → Cell → Option Cell
unfolding adjust_children
adjust_to fuel t d (leaf g p) = some (leaf (resized t d g) p)
adjust_to zero t d (node u g cs) = none
adjust_to (suc fuel) t d (node u g cs) =
    adjust_children (adjust_to fuel t) u t d cs >>= λ cs'. some (node u (resized t d g) cs')

unfoldable pub adjust : Direction → Change → Cell → Option Cell
unfolding adjust_to depth
adjust t d c = adjust_to (depth c) t d c
