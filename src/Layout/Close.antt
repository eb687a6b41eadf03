-- ===== src/Layout/Close.antt =====
-- layout.c: `layout_destroy_cell` and `layout_close_pane`.
pub mod Laws
pub mod Whole
use tmux_cvs_archived.Prelude.{ℕ, Option, none, some, if◌then◌else◌, add_uint, ◌+◌}
use tmux_cvs_archived.Layout.{
  Direction, Geometry, Cell, Cells, leaf, node, nil, cons, extent, size, geometry, Change, grow,
  adjust,
}
use tmux_cvs_archived.Layout.Split.{is_pane}
use tmux_cvs_archived.Layout.Window.{moved_to, fix_offsets}

-- What becomes of a cell: the pane is not in it, or the source does not get through, or the cell is
-- the pane's own, or another comes in its place.
pub data Removal : Type 0 where
  missing stuck whole : Removal
  within : Cell → Removal

-- The same of the cells of a parent: one of them is changed inside, or there is one less.
pub data ListRemoval : Type 0 where
  not_there hangs : ListRemoval
  kept fewer : Cells → ListRemoval

-- "Merge the space into the previous or next cell."
abbrev pub merged : Option Cell → Cells → ListRemoval
merged none cs = hangs
merged (some other_cell) cs = fewer (cons other_cell cs)

abbrev pub with_space_of : Direction → Cell → Cell → Option Cell
with_space_of u c other_cell = adjust u (grow (add_uint (size u c) 1)) other_cell

abbrev pub put_before : Cell → ListRemoval → ListRemoval
put_before c not_there = not_there
put_before c hangs = hangs
put_before c (kept cs) = kept (cons c cs)
put_before c (fewer cs) = fewer (cons c cs)

-- Of a cell with another before it.
abbrev pub after : Direction → Cell → Cell → Cells → Removal → ListRemoval → ListRemoval
after u previous c cs missing later = put_before previous later
after u previous c cs stuck later = hangs
after u previous c cs whole later = merged (with_space_of u c previous) cs
after u previous c cs (within c') later = kept (cons previous (cons c' cs))

-- The first cell goes to the next one; where there is none, the source follows a null pointer.
abbrev pub merged_next : Direction → Cell → Cells → ListRemoval
merged_next u c nil = hangs
merged_next u c (cons d ds) = merged (with_space_of u c d) ds

abbrev pub at_first : Direction → Cell → Cells → Removal → ListRemoval → ListRemoval
at_first u c cs missing later = later
at_first u c cs stuck later = hangs
at_first u c cs whole later = merged_next u c cs
at_first u c cs (within c') later = kept (cons c' cs)

-- "If the parent now has one cell, remove the parent from the tree and replace it by that cell."
abbrev pub collapsed : Direction → Geometry → Cells → Cell
collapsed u g (cons c nil) = c
collapsed u g nil = node u g nil
collapsed u g (cons c (cons d ds)) = node u g (cons c (cons d ds))

abbrev pub in_parent : Direction → Geometry → ListRemoval → Removal
in_parent u g not_there = missing
in_parent u g hangs = stuck
in_parent u g (kept cs) = within (node u g cs)
in_parent u g (fewer cs) = within (collapsed u g cs)

-- `layout_destroy_cell` of the cell that holds the pane.
unfoldable mutual
  pub remove_cell : ℕ → Cell → Removal
  remove_cell wp (leaf g p) = if is_pane wp p then whole else missing
  remove_cell wp (node u g cs) = in_parent u g (remove_first wp u cs)

  pub remove_first : ℕ → Direction → Cells → ListRemoval
  remove_first wp u nil = not_there
  remove_first wp u (cons c cs) = at_first u c cs (remove_cell wp c) (remove_after wp u c cs)

  pub remove_after : ℕ → Direction → Cell → Cells → ListRemoval
  remove_after wp u previous nil = not_there
  remove_after wp u previous (cons c cs) =
      after u previous c cs (remove_cell wp c) (remove_after wp u c cs)

-- The root that is left: `none` is NULL. A cell that comes in the place of the root goes to the
-- origin of the window, where every root is.
pub data Closed : Type 0 where
  no_such_pane never : Closed
  left : Option Cell → Closed

abbrev pub at_origin : Cell → Cell
at_origin (leaf g p) = leaf (moved_to 0 0 g) p
at_origin (node u g cs) = node u (moved_to 0 0 g) cs

abbrev pub closed_root : Removal → Closed
closed_root missing = no_such_pane
closed_root stuck = never
closed_root whole = left none
closed_root (within c) = left (some (fix_offsets (at_origin c)))

-- `layout_close_pane`, less the sizes of the panes.
unfoldable pub close_pane : Cell → ℕ → Closed
unfolding remove_cell
close_pane root wp = closed_root (remove_cell wp root)
