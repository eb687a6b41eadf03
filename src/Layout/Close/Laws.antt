-- ===== src/Layout/Close/Laws.antt =====
-- layout.c: what `layout_close_pane` leaves of a layout that fits.
use tmux_cvs_archived.Prelude.{
  ℕ, ◌+◌, ◌^◌, ◌≤◌, ◌<◌, ◌≡◌, refl, arith, Bool-cases, inl, inr, ◌∙◌, add_uint,
}
use tmux_cvs_archived.Layout.{
  Direction, leftright, topbottom, Geometry, Cell, Cells, leaf, node, nil, cons, extent, size,
}
use tmux_cvs_archived.Layout.Fits.{other, along, AllSize, Fits, FitsAll}
use tmux_cvs_archived.Layout.Resize.{adjust_grows}
use tmux_cvs_archived.Layout.Split.{is_pane}
use tmux_cvs_archived.Layout.Close.{
  Removal, missing, stuck, whole, within, ListRemoval, not_there, hangs, kept, fewer, merged,
  with_space_of, put_before, after, at_first, collapsed, in_parent, remove_cell, remove_first,
  remove_after,
}

-- Every parent has two cells at least.
abbrev pub TwoOrMore : Cells → Type 0
TwoOrMore nil = ⊥
TwoOrMore (cons c nil) = ⊥
TwoOrMore (cons c (cons d ds)) = Unit

abbrev mutual
  pub Divided : Cell → Type 0
  Divided (leaf g p) = Unit
  Divided (node u g cs) = TwoOrMore cs × DividedAll cs

  pub DividedAll : Cells → Type 0
  DividedAll nil = Unit
  DividedAll (cons c cs) = Divided c × DividedAll cs

-- A cell that fits and is as large as `c`.
pub record InPlaceOf (c c' : Cell) : Type 0 where
  pub fits : Fits c'
  pub as_long : size leftright c' ≡ size leftright c
  pub as_high : size topbottom c' ≡ size topbottom c

-- The source gets through, and what comes in the place of a cell is as large.
abbrev pub RemovedFrom : Cell → Removal → Type 0
RemovedFrom c missing = Unit
RemovedFrom c stuck = ⊥
RemovedFrom c whole = Unit
RemovedFrom c (within c') = InPlaceOf c c'

abbrev Fill : Direction → ℕ → ℕ → Cells → Type 0
Fill u s total cs = FitsAll cs × (along u cs ≡ total) × AllSize (other u) s cs

abbrev RemovedIn : Direction → ℕ → ℕ → ListRemoval → Type 0
RemovedIn u s total not_there = Unit
RemovedIn u s total hangs = ⊥
RemovedIn u s total (kept cs) = Fill u s total cs
RemovedIn u s total (fewer cs) = Fill u s total cs

same_size :
    (u : Direction) (c c' : Cell)
    → InPlaceOf c c'
    → (size u c' ≡ size u c) × (size (other u) c' ≡ size (other u) c)
same_size leftright c c' i = (i.as_long, i.as_high)
same_size topbottom c c' i = (i.as_high, i.as_long)

merged_lem :
    (u : Direction) (s : ℕ) (c d : Cell) (ds : Cells)
    → Fits d
    → FitsAll ds
    → size (other u) d ≡ s
    → AllSize (other u) s ds
    → size u c + size u d + 1 < 2 ^ 32
    → RemovedIn u s (size u c + 1 + (size u d + 1 + along u ds)) (merged (with_space_of u c d) ds)
merged_lem u s c d ds f fs e es b =
    let exact : add_uint (size u c) 1 ≡ size u c + 1 = omega arith in
    let (d', a, g) = adjust_grows u (add_uint (size u c) 1) d f (omega arith) in
    rw (RemovedIn, a) ((g.fits, fs), omega (arith, g.longer), (g.as_wide ∙ e, es))

collapsed_lem :
    (u : Direction) (g : Geometry) (cs : Cells)
    → Fill u (extent (other u) g) (extent u g + 1) cs
    → InPlaceOf (node u g nil) (collapsed u g cs)
collapsed_lem u g nil (f, l, a) = record { fits = (f, l, a); as_long = refl; as_high = refl }
collapsed_lem leftright g (cons c nil) (f, l, a) = record {
  fits = f.0;
  as_long = omega (arith, l);
  as_high = a.0;
}
collapsed_lem topbottom g (cons c nil) (f, l, a) = record {
  fits = f.0;
  as_long = a.0;
  as_high = omega (arith, l);
}
collapsed_lem u g (cons c (cons d ds)) (f, l, a) = record {
  fits = (f, l, a);
  as_long = refl;
  as_high = refl;
}

put_before_lem :
    (u : Direction) (s total : ℕ) (c : Cell) (later : ListRemoval)
    → Fits c
    → size (other u) c ≡ s
    → RemovedIn u s total later
    → RemovedIn u s (size u c + 1 + total) (put_before c later)
put_before_lem u s total c not_there f e h = tt
put_before_lem u s total c hangs f e h = h
put_before_lem u s total c (kept cs) f e (fs, l, a) = ((f, fs), omega (arith, l), (e, a))
put_before_lem u s total c (fewer cs) f e (fs, l, a) = ((f, fs), omega (arith, l), (e, a))

swapped :
    (u : Direction) (s : ℕ) (c c' : Cell) (cs : Cells)
    → InPlaceOf c c'
    → Fill u s (along u (cons c cs)) (cons c cs)
    → Fill u s (along u (cons c cs)) (cons c' cs)
swapped u s c c' cs i (f, l, a) =
    let (same_along, same_across) = same_size u c c' i in
    ((i.fits, f.1), omega (arith, same_along), (same_across ∙ a.0, a.1))

after_lem :
    (u : Direction) (s : ℕ) (p c : Cell) (cs : Cells) (r : Removal) (later : ListRemoval)
    → Fill u s (along u (cons p (cons c cs))) (cons p (cons c cs))
    → along u (cons p (cons c cs)) ≤ 2 ^ 32
    → RemovedFrom c r
    → RemovedIn u s (along u (cons c cs)) later
    → RemovedIn u s (along u (cons p (cons c cs))) (after u p c cs r later)
after_lem u s p c cs missing later (f, l, a) b h k =
    put_before_lem u s (along u (cons c cs)) p later f.0 a.0 k
after_lem u s p c cs stuck later (f, l, a) b h k = h
after_lem u s p c cs whole later (f, l, a) b h k =
    let e : size u p + 1 + (size u c + 1 + along u cs)
        ≡ size u c + 1 + (size u p + 1 + along u cs) =
      omega arith in
    rw e (merged_lem u s c p cs f.0 (f.1.1) a.0 (a.1.1) (omega arith))
after_lem u s p c cs (within c') later (f, l, a) b h k =
    let (f', l', a') = swapped u s c c' cs h (f.1, refl, a.1) in
    ((f.0, f'), omega (arith, l'), (a.0, a'))

at_first_lem :
    (u : Direction) (s : ℕ) (c : Cell) (cs : Cells) (r : Removal) (later : ListRemoval)
    → Fill u s (along u (cons c cs)) (cons c cs)
    → TwoOrMore (cons c cs)
    → along u (cons c cs) ≤ 2 ^ 32
    → RemovedFrom c r
    → RemovedIn u s (along u (cons c cs)) later
    → RemovedIn u s (along u (cons c cs)) (at_first u c cs r later)
at_first_lem u s c cs missing later i t b h k = k
at_first_lem u s c cs stuck later i t b h k = h
at_first_lem u s c nil whole later i t b h k = t
at_first_lem u s c (cons d ds) whole later (f, l, a) t b h k =
    merged_lem u s c d ds (f.1.0) (f.1.1) (a.1.0) (a.1.1) (omega arith)
at_first_lem u s c cs (within c') later i t b h k = swapped u s c c' cs h i

as_node :
    (u : Direction) (g : Geometry) (cs : Cells) (c' : Cell)
    → InPlaceOf (node u g nil) c'
    → InPlaceOf (node u g cs) c'
as_node u g cs c' i = record { fits = i.fits; as_long = i.as_long; as_high = i.as_high }

in_parent_lem :
    (u : Direction) (g : Geometry) (cs : Cells) (r : ListRemoval) (total : ℕ)
    → total ≡ extent u g + 1
    → RemovedIn u (extent (other u) g) total r
    → RemovedFrom (node u g cs) (in_parent u g r)
in_parent_lem u g cs not_there total e h = tt
in_parent_lem u g cs hangs total e h = h
in_parent_lem u g cs (kept cs') total e (f, l, a) = record {
  fits = (f, l ∙ e, a);
  as_long = refl;
  as_high = refl;
}
in_parent_lem u g cs (fewer cs') total e (f, l, a) =
    as_node u g cs _ (collapsed_lem u g cs' (f, l ∙ e, a))

abbrev pub Bounded : Cell → Type 0
Bounded c = (size leftright c < 2 ^ 31) × (size topbottom c < 2 ^ 31)

bounded :
    (u : Direction) (s : ℕ) (c : Cell)
    → size (other u) c ≡ s
    → size u c < 2 ^ 31
    → s < 2 ^ 31
    → Bounded c
bounded leftright s c e b d = (b, omega (arith, e))
bounded topbottom s c e b d = (omega (arith, e), b)

mutual
  unfolding remove_cell

  pub remove_cell_lem :
      (wp : ℕ) (c : Cell) → Fits c → Divided c → Bounded c → RemovedFrom c (remove_cell wp c)
  remove_cell_lem wp (leaf g p) f v b = elim (Bool-cases (is_pane wp p)) [
    | inl found ↦ rw (RemovedFrom, found) tt
    | inr other_pane ↦ rw (RemovedFrom, other_pane) tt
  ]
  remove_cell_lem wp (node leftright g cs) f v b =
      in_parent_lem leftright g cs _ _ f.1
        (remove_first_lem wp leftright g.sy cs f.0 f.2 v.0 v.1 (omega (arith, f.1, b.0)) b.1)
  remove_cell_lem wp (node topbottom g cs) f v b =
      in_parent_lem topbottom g cs _ _ f.1
        (remove_first_lem wp topbottom g.sx cs f.0 f.2 v.0 v.1 (omega (arith, f.1, b.1)) b.0)

  remove_first_lem :
      (wp : ℕ) (u : Direction) (s : ℕ) (cs : Cells)
      → FitsAll cs
      → AllSize (other u) s cs
      → TwoOrMore cs
      → DividedAll cs
      → along u cs ≤ 2 ^ 31
      → s < 2 ^ 31
      → RemovedIn u s (along u cs) (remove_first wp u cs)
  remove_first_lem wp u s nil f a t v b d = tt
  remove_first_lem wp u s (cons c cs) f a t v b d =
      at_first_lem u s c cs (remove_cell wp c) (remove_after wp u c cs) (f, refl, a) t (omega arith)
        (remove_cell_lem wp c f.0 v.0 (bounded u s c a.0 (omega arith) d))
        (remove_after_lem wp u s c cs f a v b d)

  remove_after_lem :
      (wp : ℕ) (u : Direction) (s : ℕ) (p : Cell) (cs : Cells)
      → FitsAll (cons p cs)
      → AllSize (other u) s (cons p cs)
      → DividedAll (cons p cs)
      → along u (cons p cs) ≤ 2 ^ 31
      → s < 2 ^ 31
      → RemovedIn u s (along u (cons p cs)) (remove_after wp u p cs)
  remove_after_lem wp u s p nil f a v b d = tt
  remove_after_lem wp u s p (cons c cs) f a v b d =
      after_lem u s p c cs (remove_cell wp c) (remove_after wp u c cs) (f, refl, a) (omega arith)
        (remove_cell_lem wp c (f.1.0) (v.1.0) (bounded u s c (a.1.0) (omega arith) d))
        (remove_after_lem wp u s c cs f.1 a.1 v.1 (omega arith) d)
