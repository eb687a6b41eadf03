-- ===== src/Layout/Split/Laws.antt =====
-- layout.c: what `layout_split_pane` makes of a layout that fits.
use tmux_cvs_archived.Prelude.{
  ℕ, ◌+◌, ◌-◌, ◌^◌, ◌≤◌, ◌<◌, ◌≡◌, refl, Option, some, arith, ltb, Bool-cases, inl, inr, ap, subst,
  ◌∙◌,
}
use mathlib.Core.Option.{some-injective}
use tmux_cvs_archived.Layout.{
  Direction, leftright, topbottom, Geometry, Cell, Cells, leaf, node, nil, cons, extent, size,
  geometry, count_cells, count_list,
}
use tmux_cvs_archived.Layout.Fits.{other, along, AllSize, Fits, FitsAll}
use tmux_cvs_archived.Layout.Split.{
  second_size, first_size, split_geometry, Outcome, missing, refused, inside, doubled, ListOutcome,
  not_there, no_space, done, is_pane, new_parent, split_leaf, put_back, in_node, split_cell,
  split_list, new_root, split_pane,
}

second_size_bounds :
    (sx : ℕ) (hint : Option ℕ)
    → 5 ≤ sx
    → sx < 2 ^ 32
    → (second_size sx hint < sx - 1)
      × (first_size sx (second_size sx hint) + 1 + second_size sx hint ≡ sx)
unfolding second_size
second_size_bounds sx hint h b = ground arith

-- Two cells in the place of one.
abbrev Halves : Direction → Cell → Cell → Cell → Type 0
Halves t c a b =
    Fits a
    × Fits b
    × (size t a + 1 + size t b ≡ size t c)
    × (size (other t) a ≡ size (other t) c)
    × (size (other t) b ≡ size (other t) c)
    × (count_cells a + count_cells b ≡ count_cells c + 1)

abbrev SplitOf : Direction → Cell → Outcome → Type 0
SplitOf t c missing = Unit
SplitOf t c refused = Unit
SplitOf t c (inside c') =
    Fits c' × (geometry c' ≡ geometry c) × (count_cells c' ≡ count_cells c + 1)
SplitOf t c (doubled a b) = Halves t c a b

abbrev SplitIn : Direction → ℕ → Cells → ListOutcome → Type 0
SplitIn u s cs not_there = Unit
SplitIn u s cs no_space = Unit
SplitIn u s cs (done cs') =
    FitsAll cs'
    × (along u cs' ≡ along u cs)
    × AllSize (other u) s cs'
    × (count_list cs' ≡ count_list cs + 1)

split_leaf_lem :
    (t : Direction) (hint : Option ℕ) (g : Geometry) (p : Option ℕ)
    → extent t g < 2 ^ 32
    → SplitOf t (leaf g p) (split_leaf t hint g p)
unfolding split_geometry count_cells
split_leaf_lem leftright hint g p b = elim (Bool-cases (ltb g.sx 5)) [
  | inl small ↦ rw (SplitOf, small) tt
  | inr large ↦
      rw (SplitOf, large)
        (tt, tt, (second_size_bounds g.sx hint (ground arith) b).1, refl, refl, refl)
]
split_leaf_lem topbottom hint g p b = elim (Bool-cases (ltb g.sy 5)) [
  | inl small ↦ rw (SplitOf, small) tt
  | inr large ↦
      rw (SplitOf, large)
        (tt, tt, (second_size_bounds g.sy hint (ground arith) b).1, refl, refl, refl)
]

put_back_lem :
    (u t : Direction) (s : ℕ) (c : Cell) (cs : Cells) (o : Outcome) (later : ListOutcome)
    → Fits c
    → FitsAll cs
    → size (other u) c ≡ s
    → AllSize (other u) s cs
    → SplitOf t c o
    → SplitIn u s cs later
    → SplitIn u s (cons c cs) (put_back u t c o cs later)
unfolding count_cells
put_back_lem u t s c cs missing not_there f fs e es h k = tt
put_back_lem u t s c cs missing no_space f fs e es h k = tt
put_back_lem u t s c cs missing (done cs') f fs e es h k =
    ((f, k.0), omega (arith, k.1), (e, k.2), omega (arith, k.3))
put_back_lem u t s c cs refused later f fs e es h k = tt
put_back_lem u t s c cs (inside c') later f fs e es h k =
    let same_size : size u c' ≡ size u c = ap (extent u) (h.1) in
    ((h.0, fs), omega (arith, same_size), (ap (extent (other u)) (h.1) ∙ e, es), omega (arith, h.2))
put_back_lem leftright leftright s c cs (doubled a b) later f fs e es (fa, fb, i, j, k, l) _ =
    ((fa, (fb, fs)), omega (arith, i), (j ∙ e, (k ∙ e, es)), omega (arith, l))
put_back_lem topbottom topbottom s c cs (doubled a b) later f fs e es (fa, fb, i, j, k, l) _ =
    ((fa, (fb, fs)), omega (arith, i), (j ∙ e, (k ∙ e, es)), omega (arith, l))
put_back_lem leftright topbottom s c cs (doubled a b) later f fs e es (fa, fb, i, j, k, l) _ =
    ((((fa, (fb, tt)), omega (arith, i), (j, (k, tt))), fs), refl, (e, es), omega (arith, l))
put_back_lem topbottom leftright s c cs (doubled a b) later f fs e es (fa, fb, i, j, k, l) _ =
    ((((fa, (fb, tt)), omega (arith, i), (j, (k, tt))), fs), refl, (e, es), omega (arith, l))

in_node_lem :
    (t u : Direction) (g : Geometry) (cs : Cells) (lo : ListOutcome)
    → Fits (node u g cs)
    → SplitIn u (extent (other u) g) cs lo
    → SplitOf t (node u g cs) (in_node u g lo)
unfolding count_cells
in_node_lem t u g cs not_there f h = tt
in_node_lem t u g cs no_space f h = tt
in_node_lem t u g cs (done cs') f h = ((h.0, h.1 ∙ f.1, h.2), refl, h.3)

mutual
  unfolding split_cell

  split_cell_lem :
      (wp : ℕ) (t : Direction) (hint : Option ℕ) (c : Cell)
      → Fits c
      → size leftright c < 2 ^ 32
      → size topbottom c < 2 ^ 32
      → SplitOf t c (split_cell wp t hint c)
  split_cell_lem wp leftright hint (leaf g p) f b d = elim (Bool-cases (is_pane wp p)) [
    | inl found ↦ rw (SplitOf, found) (split_leaf_lem leftright hint g p b)
    | inr other_pane ↦ rw (SplitOf, other_pane) tt
  ]
  split_cell_lem wp topbottom hint (leaf g p) f b d = elim (Bool-cases (is_pane wp p)) [
    | inl found ↦ rw (SplitOf, found) (split_leaf_lem topbottom hint g p d)
    | inr other_pane ↦ rw (SplitOf, other_pane) tt
  ]
  split_cell_lem wp t hint (node leftright g cs) f b d =
      in_node_lem t leftright g cs (split_list wp t hint leftright cs) f
        (split_list_lem wp t hint leftright g.sy cs f.0 (omega (arith, f.1)) f.2 d)
  split_cell_lem wp t hint (node topbottom g cs) f b d =
      in_node_lem t topbottom g cs (split_list wp t hint topbottom cs) f
        (split_list_lem wp t hint topbottom g.sx cs f.0 (omega (arith, f.1)) f.2 b)

  split_list_lem :
      (wp : ℕ) (t : Direction) (hint : Option ℕ) (u : Direction) (s : ℕ) (cs : Cells)
      → FitsAll cs
      → along u cs ≤ 2 ^ 32
      → AllSize (other u) s cs
      → s < 2 ^ 32
      → SplitIn u s cs (split_list wp t hint u cs)
  split_list_lem wp t hint u s nil f b a d = tt
  split_list_lem wp t hint leftright s (cons c cs) f b a d =
      put_back_lem leftright t s c cs (split_cell wp t hint c) (split_list wp t hint leftright cs)
        f.0 f.1 a.0 a.1 (split_cell_lem wp t hint c f.0 (omega arith) (omega (arith, a.0)))
        (split_list_lem wp t hint leftright s cs f.1 (omega arith) a.1 d)
  split_list_lem wp t hint topbottom s (cons c cs) f b a d =
      put_back_lem topbottom t s c cs (split_cell wp t hint c) (split_list wp t hint topbottom cs)
        f.0 f.1 a.0 a.1 (split_cell_lem wp t hint c f.0 (omega (arith, a.0)) (omega arith))
        (split_list_lem wp t hint topbottom s cs f.1 (omega arith) a.1 d)

-- A layout with one pane more.
pub record OneMore (c c' : Cell) : Type 0 where
  pub fits : Fits c'
  pub as_large : (t : Direction) → size t c' ≡ size t c
  pub one_more : count_cells c' ≡ count_cells c + 1

parent_lem : (t : Direction) (c a b : Cell) → Halves t c a b → OneMore c (new_parent t c a b)
unfolding count_cells
parent_lem t c a b (fa, fb, i, j, k, l) = record {
  fits = ((fa, (fb, tt)), omega (arith, i), (j, (k, tt)));
  as_large = λ u. refl;
  one_more = omega (arith, l);
}

new_root_lem :
    (t : Direction) (c c' : Cell) (o : Outcome)
    → SplitOf t c o
    → new_root t c o ≡ some c'
    → OneMore c c'
new_root_lem t c c' missing h e = ground arith
new_root_lem t c c' refused h e = ground arith
new_root_lem t c c' (inside d) h e =
    subst (OneMore c) (some-injective _ _ e)
      record { fits = h.0; as_large = λ u. ap (extent u) (h.1); one_more = h.2 }
new_root_lem t c c' (doubled a b) h e =
    subst (OneMore c) (some-injective _ _ e) (parent_lem t c a b h)

-- Where `layout_split_pane` makes a pane in a layout that fits and whose sides are below 2^32, the
-- new layout fits, has the same size as the old one, and has one pane more.
pub split_pane_lem :
    (c c' : Cell) (wp : ℕ) (t : Direction) (hint : Option ℕ)
    → Fits c
    → size leftright c < 2 ^ 32
    → size topbottom c < 2 ^ 32
    → split_pane c wp t hint ≡ some c'
    → OneMore c c'
unfolding split_pane
split_pane_lem c c' wp t hint f b d e =
    new_root_lem t c c' (split_cell wp t hint c) (split_cell_lem wp t hint c f b d) e
