-- ===== src/Layout/Shrink/Trees.antt =====
-- layout.c: shrinking a cell by what it can give.
use tmux_cvs_archived.Prelude.{
  ℕ, sub_uint, zero, suc, ◌+◌, ◌-◌, ◌^◌, ◌≤◌, ◌<◌, ◌≡◌, refl, some, arith,
}
use tmux_cvs_archived.Layout.{
  Direction, leftright, topbottom, Cell, leaf, node, nil, cons, extent, size, depth, shrink,
  adjust_to, adjust, resized, check,
}
use tmux_cvs_archived.Layout.Fits.{Fits}
use tmux_cvs_archived.Layout.Available.{check_min-le, check-le, check_sum-le}
use tmux_cvs_archived.Layout.Shrink.{Shrunk, Shrinks, each-Shrinks, rounds_shrink}

adjust_to-Shrinks : (fuel : ℕ) (t : Direction) → Shrinks t fuel (λ n. adjust_to fuel t (shrink n))
unfolding adjust_to depth check
adjust_to-Shrinks fuel leftright n (leaf g p) f b m d = (
  leaf (resized leftright (shrink n) g) p,
  refl,
  record {
    fits = tt;
    shorter = ground arith;
    as_wide = refl;
    as_deep = refl;
    gives = ground arith;
  },
)
adjust_to-Shrinks fuel topbottom n (leaf g p) f b m d = (
  leaf (resized topbottom (shrink n) g) p,
  refl,
  record {
    fits = tt;
    shorter = ground arith;
    as_wide = refl;
    as_deep = refl;
    gives = ground arith;
  },
)
adjust_to-Shrinks zero t n (node u g cs) f b m d = absurd (omega arith)
adjust_to-Shrinks (suc fuel) leftright n (node leftright g cs) f b m d =
    let step = λ (k : ℕ). adjust_to fuel leftright (shrink k) in
    let (cs', e, p) =
      rounds_shrink leftright fuel step n n g.sy cs (adjust_to-Shrinks fuel leftright) f.0 f.2
        (omega (arith, f.1)) m (omega arith) (omega arith) in
    let exact : sub_uint (extent leftright g) n + n ≡ extent leftright g =
      omega (arith, m, check_sum-le leftright cs f.0 (omega (arith, f.1)), f.1) in
    (
      node leftright (resized leftright (shrink n) g) cs',
      rw e,
      record {
        fits = (p.fits, omega (arith, f.1, p.used, exact), p.as_wide);
        shorter = exact;
        as_wide = refl;
        as_deep = omega (arith, p.as_deep);
        gives = omega (arith, p.gives);
      },
    )
adjust_to-Shrinks (suc fuel) leftright n (node topbottom g nil) f b m d =
    absurd (omega (arith, f.1))
adjust_to-Shrinks (suc fuel) leftright n (node topbottom g (cons c cs)) f b m d =
    let step = λ (k : ℕ). adjust_to fuel leftright (shrink k) in
    let (cs', e, p) =
      each-Shrinks leftright fuel step n g.sx c cs (adjust_to-Shrinks fuel leftright) f.0 f.2 b m
        (omega arith) in
    let low =
      check_min-le leftright g.sx c cs (check-le leftright c f.0.0 (omega (arith, f.2.0))) f.2.0 in
    let exact : sub_uint g.sx n + n ≡ g.sx = omega (arith, low, m) in
    let less : sub_uint g.sx n ≡ g.sx - n = omega (arith, exact) in
    (
      node topbottom (resized leftright (shrink n) g) cs',
      rw e,
      record {
        fits = (p.fits, omega (arith, f.1, p.as_wide), rw less p.shorter);
        shorter = exact;
        as_wide = refl;
        as_deep = omega (arith, p.as_deep);
        gives = p.gives;
      },
    )
adjust_to-Shrinks (suc fuel) topbottom n (node leftright g nil) f b m d =
    absurd (omega (arith, f.1))
adjust_to-Shrinks (suc fuel) topbottom n (node leftright g (cons c cs)) f b m d =
    let step = λ (k : ℕ). adjust_to fuel topbottom (shrink k) in
    let (cs', e, p) =
      each-Shrinks topbottom fuel step n g.sy c cs (adjust_to-Shrinks fuel topbottom) f.0 f.2 b m
        (omega arith) in
    let low =
      check_min-le topbottom g.sy c cs (check-le topbottom c f.0.0 (omega (arith, f.2.0))) f.2.0 in
    let exact : sub_uint g.sy n + n ≡ g.sy = omega (arith, low, m) in
    let less : sub_uint g.sy n ≡ g.sy - n = omega (arith, exact) in
    (
      node leftright (resized topbottom (shrink n) g) cs',
      rw e,
      record {
        fits = (p.fits, omega (arith, f.1, p.as_wide), rw less p.shorter);
        shorter = exact;
        as_wide = refl;
        as_deep = omega (arith, p.as_deep);
        gives = p.gives;
      },
    )
adjust_to-Shrinks (suc fuel) topbottom n (node topbottom g cs) f b m d =
    let step = λ (k : ℕ). adjust_to fuel topbottom (shrink k) in
    let (cs', e, p) =
      rounds_shrink topbottom fuel step n n g.sx cs (adjust_to-Shrinks fuel topbottom) f.0 f.2
        (omega (arith, f.1)) m (omega arith) (omega arith) in
    let exact : sub_uint (extent topbottom g) n + n ≡ extent topbottom g =
      omega (arith, m, check_sum-le topbottom cs f.0 (omega (arith, f.1)), f.1) in
    (
      node topbottom (resized topbottom (shrink n) g) cs',
      rw e,
      record {
        fits = (p.fits, omega (arith, f.1, p.used, exact), p.as_wide);
        shorter = exact;
        as_wide = refl;
        as_deep = omega (arith, p.as_deep);
        gives = omega (arith, p.gives);
      },
    )

-- Where the children of a cell fill it and its size is below 2^32, `layout_resize_adjust` returns
-- when the cell is to shrink by no more than `layout_resize_check` allows: the loop ends, the cell is
-- smaller by the change in that direction and as large in the other, its children, at every depth,
-- fill it again, and what it can still give is less by the change.
pub adjust_shrinks :
    (t : Direction) (n : ℕ) (c : Cell)
    → Fits c
    → size t c < 2 ^ 32
    → n ≤ check t c
    → (c' : Cell) × (adjust t (shrink n) c ≡ some c') × Shrunk t n c c'
unfolding adjust
adjust_shrinks t n c f b m = adjust_to-Shrinks (depth c) t n c f b m (omega arith)
