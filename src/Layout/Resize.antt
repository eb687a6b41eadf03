-- ===== src/Layout/Resize.antt =====
-- layout.c: growing a cell.
use tmux_cvs_archived.Prelude.{
  ℕ, add_uint, zero, suc, ◌+◌, ◌-◌, ◌^◌, ◌≤◌, ◌<◌, ◌≡◌, refl, Option, some, arith, ◌==◌, false,
}
use tmux_cvs_archived.Layout.{
  Direction, leftright, topbottom, Cell, Cells, leaf, node, nil, cons, size, depth, depth_list,
  grow, each, grow_pass, rounds, adjust_to, adjust, resized,
}
use tmux_cvs_archived.Layout.Fits.{other, along, AllSize, Fits, FitsAll}

-- `c'` is `c` grown by `n` in direction `t`.
pub record Grown (t : Direction) (n : ℕ) (c c' : Cell) : Type 0 where
  pub fits : Fits c'
  pub longer : size t c' ≡ size t c + n
  pub as_wide : size (other t) c' ≡ size (other t) c
  pub as_deep : depth c' ≡ depth c

-- A way to grow cells of at most a depth.
abbrev Grows : Direction → ℕ → (ℕ → Cell → Option Cell) → Type 0
Grows t deepest step =
    (n : ℕ) (c : Cell)
    → Fits c
    → size t c + n < 2 ^ 32
    → depth c ≤ deepest
    → (c' : Cell) × (step n c ≡ some c') × Grown t n c c'

record AllGrown (t : Direction) (s n : ℕ) (cs cs' : Cells) : Type 0 where
  fits : FitsAll cs'
  longer : AllSize t (s + n) cs'
  as_wide : along (other t) cs' ≡ along (other t) cs
  as_deep : depth_list cs' ≡ depth_list cs

each-Grows :
    (t : Direction) (deepest : ℕ) (step : ℕ → Cell → Option Cell) (n s : ℕ) (cs : Cells)
    → Grows t deepest step
    → FitsAll cs
    → AllSize t s cs
    → s + n < 2 ^ 32
    → depth_list cs ≤ deepest
    → (cs' : Cells) × (each (step n) cs ≡ some cs') × AllGrown t s n cs cs'
unfolding each depth
each-Grows t deepest step n s nil H f a b d =
    (nil, refl, record { fits = tt; longer = tt; as_wide = refl; as_deep = refl })
each-Grows t deepest step n s (cons c cs) H f a b d =
    let (c', e, g) = H n c f.0 (omega arith) (omega arith) in
    let (cs', es, gs) = each-Grows t deepest step n s cs H f.1 a.1 b (omega arith) in
    (
      cons c' cs',
      rw (e, es),
      record {
        fits = (g.fits, gs.fits);
        longer = (omega (arith, g.longer, a.0), gs.longer);
        as_wide = omega (arith, g.as_wide, gs.as_wide);
        as_deep = omega (arith, g.as_deep, gs.as_deep);
      },
    )

-- What a pass over the children has done when `m` of `n` are left.
record Passed (t : Direction) (s n : ℕ) (cs : Cells) (m : ℕ) (cs' : Cells) : Type 0 where
  fits : FitsAll cs'
  as_wide : AllSize (other t) s cs'
  used : along t cs' + m ≡ along t cs + n
  left : m ≤ n
  moved : 0 < n → 0 < along t cs → m < n
  as_deep : depth_list cs' ≡ depth_list cs

grow_pass-Grows :
    (t : Direction) (deepest : ℕ) (step : ℕ → Cell → Option Cell) (n s : ℕ) (cs : Cells)
    → Grows t deepest step
    → FitsAll cs
    → AllSize (other t) s cs
    → along t cs + n ≤ 2 ^ 32
    → depth_list cs ≤ deepest
    → (m : ℕ) × (cs' : Cells) × (grow_pass (step 1) n cs ≡ some (m, cs')) × Passed t s n cs m cs'
unfolding grow_pass depth
grow_pass-Grows t deepest step n s nil H f a b d = (
  n,
  nil,
  refl,
  record {
    fits = tt;
    as_wide = tt;
    used = refl;
    left = omega arith;
    moved = λ p q. absurd (omega arith);
    as_deep = refl;
  },
)
grow_pass-Grows t deepest step zero s (cons c cs) H f a b d = (
  0,
  cons c cs,
  refl,
  record {
    fits = f;
    as_wide = a;
    used = refl;
    left = omega arith;
    moved = λ p q. absurd (omega arith);
    as_deep = refl;
  },
)
grow_pass-Grows t deepest step (suc n) s (cons c cs) H f a b d =
    let (c', e, g) = H 1 c f.0 (omega arith) (omega arith) in
    let (m, cs', es, p) =
      grow_pass-Grows t deepest step n s cs H f.1 a.1 (omega arith) (omega arith) in
    let pred_n : suc n - 1 ≡ n = omega arith in
    let more : (suc n == 0) ≡ false = ground arith in
    (
      m,
      cons c' cs',
      rw (more, e, pred_n, es),
      record {
        fits = (g.fits, p.fits);
        as_wide = (omega (arith, g.as_wide, a.0), p.as_wide);
        used = omega (arith, g.longer, p.used);
        left = omega (arith, p.left);
        moved = λ _ _. omega (arith, p.left);
        as_deep = omega (arith, g.as_deep, p.as_deep);
      },
    )

rounds_grow :
    (t : Direction) (deepest : ℕ) (step : ℕ → Cell → Option Cell) (fuel n s : ℕ) (cs : Cells)
    → Grows t deepest step
    → FitsAll cs
    → AllSize (other t) s cs
    → along t cs + n ≤ 2 ^ 32
    → 0 < along t cs
    → depth_list cs ≤ deepest
    → n ≤ fuel
    → (cs' : Cells) × (rounds fuel (grow_pass (step 1)) n cs ≡ some cs') × Passed t s n cs 0 cs'
unfolding rounds
rounds_grow t deepest step fuel zero s cs H f a b c d e = (
  cs,
  refl,
  record {
    fits = f;
    as_wide = a;
    used = refl;
    left = omega arith;
    moved = λ p q. p;
    as_deep = refl;
  },
)
rounds_grow t deepest step zero (suc n) s cs H f a b c d e = absurd (omega arith)
rounds_grow t deepest step (suc fuel) (suc n) s cs H f a b c d e =
    let (m, cs1, e1, p) = grow_pass-Grows t deepest step (suc n) s cs H f a b d in
    let less : m < suc n = p.moved (omega arith) c in
    let (cs2, e2, q) =
      rounds_grow t deepest step fuel m s cs1 H p.fits p.as_wide (omega (arith, p.used))
        (omega (arith, p.used)) (omega (arith, p.as_deep)) (omega (arith, less)) in
    (
      cs2,
      rw (e1, e2),
      record {
        fits = q.fits;
        as_wide = q.as_wide;
        used = omega (arith, p.used, q.used);
        left = omega arith;
        moved = λ h _. h;
        as_deep = omega (arith, p.as_deep, q.as_deep);
      },
    )

-- `layout_resize_adjust` returns for a growing cell whose children fill it, and they fill it after.
adjust_to-Grows : (fuel : ℕ) (t : Direction) → Grows t fuel (λ n. adjust_to fuel t (grow n))
unfolding adjust_to depth
adjust_to-Grows fuel leftright n (leaf g p) f b d = (
  leaf (resized leftright (grow n) g) p,
  refl,
  record { fits = tt; longer = omega arith; as_wide = refl; as_deep = refl },
)
adjust_to-Grows fuel topbottom n (leaf g p) f b d = (
  leaf (resized topbottom (grow n) g) p,
  refl,
  record { fits = tt; longer = omega arith; as_wide = refl; as_deep = refl },
)
adjust_to-Grows zero t n (node u g cs) f b d = absurd (omega arith)
adjust_to-Grows (suc fuel) leftright n (node leftright g cs) f b d =
    let step = λ (k : ℕ). adjust_to fuel leftright (grow k) in
    let (cs', e, p) =
      rounds_grow leftright fuel step n n g.sy cs (adjust_to-Grows fuel leftright) f.0 f.2
        (omega (arith, f.1)) (omega (arith, f.1)) (omega arith) (omega arith) in
    (
      node leftright (resized leftright (grow n) g) cs',
      rw e,
      record {
        fits = (p.fits, omega (arith, f.1, p.used), p.as_wide);
        longer = omega arith;
        as_wide = refl;
        as_deep = omega (arith, p.as_deep);
      },
    )
adjust_to-Grows (suc fuel) leftright n (node topbottom g cs) f b d =
    let step = λ (k : ℕ). adjust_to fuel leftright (grow k) in
    let (cs', e, p) =
      each-Grows leftright fuel step n g.sx cs (adjust_to-Grows fuel leftright) f.0 f.2 b
        (omega arith) in
    let exact : add_uint g.sx n ≡ g.sx + n = omega arith in
    (
      node topbottom (resized leftright (grow n) g) cs',
      rw e,
      record {
        fits = (p.fits, omega (arith, f.1, p.as_wide), rw exact p.longer);
        longer = exact;
        as_wide = refl;
        as_deep = omega (arith, p.as_deep);
      },
    )
adjust_to-Grows (suc fuel) topbottom n (node leftright g cs) f b d =
    let step = λ (k : ℕ). adjust_to fuel topbottom (grow k) in
    let (cs', e, p) =
      each-Grows topbottom fuel step n g.sy cs (adjust_to-Grows fuel topbottom) f.0 f.2 b
        (omega arith) in
    let exact : add_uint g.sy n ≡ g.sy + n = omega arith in
    (
      node leftright (resized topbottom (grow n) g) cs',
      rw e,
      record {
        fits = (p.fits, omega (arith, f.1, p.as_wide), rw exact p.longer);
        longer = exact;
        as_wide = refl;
        as_deep = omega (arith, p.as_deep);
      },
    )
adjust_to-Grows (suc fuel) topbottom n (node topbottom g cs) f b d =
    let step = λ (k : ℕ). adjust_to fuel topbottom (grow k) in
    let (cs', e, p) =
      rounds_grow topbottom fuel step n n g.sx cs (adjust_to-Grows fuel topbottom) f.0 f.2
        (omega (arith, f.1)) (omega (arith, f.1)) (omega arith) (omega arith) in
    (
      node topbottom (resized topbottom (grow n) g) cs',
      rw e,
      record {
        fits = (p.fits, omega (arith, f.1, p.used), p.as_wide);
        longer = omega arith;
        as_wide = refl;
        as_deep = omega (arith, p.as_deep);
      },
    )

-- Where the children of a cell fill it, and the new size is below 2^32, `layout_resize_adjust`
-- returns when a cell is to grow: the cell is larger by the change in that direction and as large in
-- the other, and its children, at every depth, fill it again.
pub adjust_grows :
    (t : Direction) (n : ℕ) (c : Cell)
    → Fits c
    → size t c + n < 2 ^ 32
    → (c' : Cell) × (adjust t (grow n) c ≡ some c') × Grown t n c c'
unfolding adjust
adjust_grows t n c f b = adjust_to-Grows (depth c) t n c f b (omega arith)
