-- ===== src/Layout/Split.antt =====
-- layout.c: `layout_split_pane`.
pub mod Laws
use tmux_cvs_archived.Prelude.{
  ℕ, zero, suc, ◌+◌, ◌-◌, ◌/◌, Bool, true, false, Option, none, some, ltb, leb, ◌==◌, if◌then◌else◌,
  add_uint, sub_uint,
}
use tmux_cvs_archived.Layout.{
  Direction, leftright, topbottom, Geometry, Cell, Cells, leaf, node, nil, cons, extent, size,
  geometry, pane_minimum, same,
}

-- The size that is asked for; `none` is a negative hint, for the middle.
abbrev pub wanted_size : ℕ → Option ℕ → ℕ
wanted_size sx none = sub_uint (add_uint sx 1 / 2) 1
wanted_size sx (some n) = n

-- The size of the second of two cells made of one of size `sx`, from a hint; `none` is a negative
-- hint. The same for `sy`.
unfoldable pub second_size : ℕ → Option ℕ → ℕ
second_size sx hint =
    let wanted = wanted_size sx hint in
    if ltb wanted pane_minimum
    then pane_minimum
    else if ltb (sub_uint sx 2) wanted
    then sub_uint sx 2
    else wanted

abbrev pub first_size : ℕ → ℕ → ℕ
first_size sx second = sub_uint (sub_uint sx 1) second

-- The sizes and offsets of the old and the new cell after `layout_split_pane`; `none` is NULL, where
-- there is not enough space.
unfoldable pub split_geometry : Direction → Geometry → Option ℕ → Option (Geometry × Geometry)
unfolding second_size
split_geometry leftright g hint =
    let size2 = second_size g.sx hint in
    let size1 = first_size g.sx size2 in
    if ltb g.sx (pane_minimum + pane_minimum + 1)
    then none
    else some (
      record g { sx = size1 },
      record g { sx = size2; xoff = add_uint g.xoff (add_uint size1 1) },
    )
split_geometry topbottom g hint =
    let size2 = second_size g.sy hint in
    let size1 = first_size g.sy size2 in
    if ltb g.sy (pane_minimum + pane_minimum + 1)
    then none
    else some (
      record g { sy = size1 },
      record g { sy = size2; yoff = add_uint g.yoff (add_uint size1 1) },
    )

-- What becomes of a cell: the pane is not in it, or cannot be split, or the cell is changed inside,
-- or it is the pane's own and two cells come in its place.
pub data Outcome : Type 0 where
  missing refused : Outcome
  inside : Cell → Outcome
  doubled : Cell → Cell → Outcome

pub data ListOutcome : Type 0 where
  not_there no_space : ListOutcome
  done : Cells → ListOutcome

abbrev pub is_pane : ℕ → Option ℕ → Bool
is_pane wp none = false
is_pane wp (some p) = p == wp

-- The new parent of two cells that come in the place of one.
abbrev pub new_parent : Direction → Cell → Cell → Cell → Cell
new_parent t old a b = node t (geometry old) (cons a (cons b nil))

-- The pane keeps the first cell; the second waits for `layout_assign_pane`.
abbrev pub split_leaf : Direction → Option ℕ → Geometry → Option ℕ → Outcome
split_leaf t hint g p = elim (split_geometry t g hint) [
  | none ↦ refused
  | some (a, b) ↦ doubled (leaf a p) (leaf b none)
]

-- In the list of a parent of direction `u`.
abbrev pub put_back : Direction → Direction → Cell → Outcome → Cells → ListOutcome → ListOutcome
put_back u t c missing cs not_there = not_there
put_back u t c missing cs no_space = no_space
put_back u t c missing cs (done cs') = done (cons c cs')
put_back u t c refused cs later = no_space
put_back u t c (inside c') cs later = done (cons c' cs)
put_back u t c (doubled a b) cs later =
    if same u t then done (cons a (cons b cs)) else done (cons (new_parent t c a b) cs)

abbrev pub in_node : Direction → Geometry → ListOutcome → Outcome
in_node u g not_there = missing
in_node u g no_space = refused
in_node u g (done cs) = inside (node u g cs)

module _ (wp : ℕ) (t : Direction) (hint : Option ℕ) where
  unfoldable mutual
    pub split_cell : Cell → Outcome
    split_cell (leaf g p) = if is_pane wp p then split_leaf t hint g p else missing
    split_cell (node u g cs) = in_node u g (split_list u cs)

    pub split_list : Direction → Cells → ListOutcome
    split_list u nil = not_there
    split_list u (cons c cs) = put_back u t c (split_cell c) cs (split_list u cs)

-- What `layout_split_pane` makes of the tree; `none` is NULL, or a pane that is not in the tree.
abbrev pub new_root : Direction → Cell → Outcome → Option Cell
new_root t c missing = none
new_root t c refused = none
new_root t c (inside c') = some c'
new_root t c (doubled a b) = some (new_parent t c a b)

unfoldable pub split_pane : Cell → ℕ → Direction → Option ℕ → Option Cell
unfolding split_cell split_geometry
split_pane c wp t hint = new_root t c (split_cell wp t hint c)
