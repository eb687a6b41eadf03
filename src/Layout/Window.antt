-- ===== src/Layout/Window.antt =====
-- layout.c: operations on the layout of a whole window.
pub mod Sizes
pub mod Offsets
use tmux_cvs_archived.Prelude.{
  ℕ, zero, suc, ◌+◌, ◌-◌, ◌/◌, Bool, true, false, ◌&&◌, ◌||◌, not, Option, none, some, ◌>>=◌, ltb,
  leb, ◌==◌, if◌then◌else◌, add_uint, sub_uint, uint_max,
}
use tmux_cvs_archived.Layout.{
  Direction, leftright, topbottom, Geometry, Cell, Cells, leaf, node, nil, cons, extent, size,
  geometry, pane_minimum, Change, grow, shrink, check, adjust, same,
}

abbrev pub moved_to : ℕ → ℕ → Geometry → Geometry
moved_to x y g = record g { xoff = x; yoff = y }

-- `layout_fix_offsets` and the assignment of a child's offsets before its call.
unfoldable mutual
  pub place : ℕ → ℕ → Cell → Cell
  place x y (leaf g p) = leaf (moved_to x y g) p
  place x y (node u g cs) = node u (moved_to x y g) (place_all u x y cs)

  pub place_all : Direction → ℕ → ℕ → Cells → Cells
  place_all u x y nil = nil
  place_all leftright x y (cons c cs) =
      cons (place x y c) (place_all leftright (add_uint x (add_uint (geometry c).sx 1)) y cs)
  place_all topbottom x y (cons c cs) =
      cons (place x y c) (place_all topbottom x (add_uint y (add_uint (geometry c).sy 1)) cs)

-- `layout_fix_offsets` of the root.
unfoldable pub fix_offsets : Cell → Cell
unfolding place
fix_offsets c = place (geometry c).xoff (geometry c).yoff c

-- `a - b` as an `int`; sizes are below 2^31.
abbrev pub difference : ℕ → ℕ → Change
difference a b = if leb b a then grow (a - b) else shrink (b - a)

-- The clamp of `layout_resize` to what is available.
abbrev pub at_least : ℕ → Change → Change
at_least limit (grow n) = grow n
at_least limit (shrink n) = if ltb limit n then shrink limit else shrink n

-- The change that `layout_resize` settles on, for a window of size `old` that is to have size `new`.
unfoldable pub resize_change : Direction → Cell → ℕ → ℕ → Change
resize_change t c old new =
    if check t c == 0
    then (if leb new (size t c) then grow 0 else difference new (size t c))
    else at_least (check t c) (difference new old)

abbrev pub is_zero : Change → Bool
is_zero (grow n) = n == 0
is_zero (shrink n) = n == 0

-- One half of `layout_resize`.
unfoldable pub resize_along : Direction → Cell → ℕ → ℕ → Option Cell
unfolding resize_change
resize_along t c old new =
    if is_zero (resize_change t c old new) then some c else adjust t (resize_change t c old new) c

-- `layout_resize`, of a window of size `old_x` by `old_y`.
unfoldable pub resize : Cell → ℕ → ℕ → ℕ → ℕ → Option Cell
unfolding resize_along
resize c old_x old_y new_x new_y = resize_along leftright c old_x new_x >>= λ wide.
    resize_along topbottom wide old_y new_y >>= λ both. some (fix_offsets both)
