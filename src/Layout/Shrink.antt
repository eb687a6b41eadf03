-- ===== src/Layout/Shrink.antt =====
-- layout.c: shrinking the children of a cell.
pub mod Trees
use tmux_cvs_archived.Prelude.{
  ℕ, sub_uint, zero, suc, ◌+◌, ◌-◌, ◌^◌, ◌≤◌, ◌<◌, ◌≡◌, refl, Option, some, arith, min, ◌==◌, ltb,
  Bool-cases, inl, inr, false,
}
use tmux_cvs_archived.Layout.{
  Direction, leftright, topbottom, Cell, Cells, leaf, node, nil, cons, extent, size, depth,
  depth_list, shrink, each, shrink_pass, rounds, adjust_to, adjust, resized, check, check_sum,
  check_min,
}
use tmux_cvs_archived.Layout.Fits.{other, along, AllSize, Fits, FitsAll}
use tmux_cvs_archived.Layout.Available.{
  check-le, check_sum-le, check_sum_cons, check_min_one, check_min_more,
}

-- `c'` is `c` shrunk by `n` in direction `t`.
pub record Shrunk (t : Direction) (n : ℕ) (c c' : Cell) : Type 0 where
  pub fits : Fits c'
  pub shorter : size t c' + n ≡ size t c
  pub as_wide : size (other t) c' ≡ size (other t) c
  pub as_deep : depth c' ≡ depth c
  pub gives : check t c' + n ≡ check t c

abbrev Shrinks : Direction → ℕ → (ℕ → Cell → Option Cell) → Type 0
Shrinks t deepest step =
    (n : ℕ) (c : Cell)
    → Fits c
    → size t c < 2 ^ 32
    → n ≤ check t c
    → depth c ≤ deepest
    → (c' : Cell) × (step n c ≡ some c') × Shrunk t n c c'

record AllShrunk (t : Direction) (s n : ℕ) (cs cs' : Cells) : Type 0 where
  fits : FitsAll cs'
  shorter : AllSize t (s - n) cs'
  as_wide : along (other t) cs' ≡ along (other t) cs
  as_deep : depth_list cs' ≡ depth_list cs
  gives : check_min t cs' + n ≡ check_min t cs

each-Shrinks :
    (t : Direction) (deepest : ℕ) (step : ℕ → Cell → Option Cell) (n s : ℕ) (c : Cell) (cs : Cells)
    → Shrinks t deepest step
    → FitsAll (cons c cs)
    → AllSize t s (cons c cs)
    → s < 2 ^ 32
    → n ≤ check_min t (cons c cs)
    → depth_list (cons c cs) ≤ deepest
    → (cs' : Cells) × (each (step n) (cons c cs) ≡ some cs') × AllShrunk t s n (cons c cs) cs'
unfolding each depth
each-Shrinks t deepest step n s c nil H f a b m d =
    let low = check-le t c f.0 (omega arith) in
    let one = check_min_one t c (omega arith) in
    let (c', e, g) = H n c f.0 (omega arith) (omega arith) (omega arith) in
    (
      cons c' nil,
      rw e,
      record {
        fits = (g.fits, tt);
        shorter = (omega (arith, g.shorter, a.0), tt);
        as_wide = omega (arith, g.as_wide);
        as_deep = omega (arith, g.as_deep);
        gives = omega (arith, one, g.gives, check_min_one t c' (omega (arith, g.gives)));
      },
    )
each-Shrinks t deepest step n s c (cons d ds) H f a b m dp =
    let both = check_min_more t c (cons d ds) in
    let (c', e, g) = H n c f.0 (omega arith) (omega arith) (omega arith) in
    let (cs', es, gs) =
      each-Shrinks t deepest step n s d ds H f.1 a.1 b (omega arith) (omega arith) in
    (
      cons c' cs',
      rw (e, es),
      record {
        fits = (g.fits, gs.fits);
        shorter = (omega (arith, g.shorter, a.0), gs.shorter);
        as_wide = omega (arith, g.as_wide, gs.as_wide);
        as_deep = omega (arith, g.as_deep, gs.as_deep);
        gives = omega (arith, both, g.gives, gs.gives, check_min_more t c' cs');
      },
    )

-- What a pass over the children has done when `m` of `n` are left to take.
record Taken (t : Direction) (s n : ℕ) (cs : Cells) (m : ℕ) (cs' : Cells) : Type 0 where
  fits : FitsAll cs'
  as_wide : AllSize (other t) s cs'
  used : along t cs' + n ≡ along t cs + m
  gives : check_sum t cs' + n ≡ check_sum t cs + m
  left : m ≤ n
  moved : 0 < n → 0 < check_sum t cs → m < n
  as_deep : depth_list cs' ≡ depth_list cs

shrink_pass-Shrinks :
    (t : Direction) (deepest : ℕ) (step : ℕ → Cell → Option Cell) (n s : ℕ) (cs : Cells)
    → Shrinks t deepest step
    → FitsAll cs
    → AllSize (other t) s cs
    → along t cs ≤ 2 ^ 32
    → depth_list cs ≤ deepest
    → (m : ℕ) × (cs' : Cells) × (shrink_pass t (step 1) n cs ≡ some (m, cs')) × Taken t s n cs m cs'
unfolding shrink_pass depth
shrink_pass-Shrinks t deepest step n s nil H f a b d = (
  n,
  nil,
  refl,
  record {
    fits = tt;
    as_wide = tt;
    used = refl;
    gives = refl;
    left = omega arith;
    moved = λ p q. unfold check in absurd (omega arith);
    as_deep = refl;
  },
)
shrink_pass-Shrinks t deepest step zero s (cons c cs) H f a b d = (
  0,
  cons c cs,
  refl,
  record {
    fits = f;
    as_wide = a;
    used = refl;
    gives = refl;
    left = omega arith;
    moved = λ p q. p;
    as_deep = refl;
  },
)
shrink_pass-Shrinks t deepest step (suc n) s (cons c cs) H f a b d =
    elim (Bool-cases (ltb 0 (check t c))) [
      | inl available ↦
          let some_left : 0 < check t c = ground arith in
          let (c', e, g) = H 1 c f.0 (omega arith) some_left (omega arith) in
          let (m, cs', es, p) =
            shrink_pass-Shrinks t deepest step n s cs H f.1 a.1 (omega arith) (omega arith) in
          let pred_n : suc n - 1 ≡ n = omega arith in
          let more : (suc n == 0) ≡ false = ground arith in
          let used : along t (cons c' cs') + suc n ≡ along t (cons c cs) + m =
            omega (arith, g.shorter, p.used) in
          (
            m,
            cons c' cs',
            rw (more, available, e, pred_n, es),
            record {
              fits = (g.fits, p.fits);
              as_wide = (omega (arith, g.as_wide, a.0), p.as_wide);
              used = used;
              gives = omega (
                arith,
                check_sum_cons t c cs f b,
                check_sum_cons t c' cs' (g.fits, p.fits) (omega (arith, used, p.left)),
                g.gives,
                p.gives,
              );
              left = omega (arith, p.left);
              moved = λ _ _. omega (arith, p.left);
              as_deep = omega (arith, g.as_deep, p.as_deep);
            },
          )
      | inr nothing ↦
          let none_left : check t c ≡ 0 = ground arith in
          let (m, cs', es, p) =
            shrink_pass-Shrinks t deepest step (suc n) s cs H f.1 a.1 (omega arith) (omega arith) in
          let more : (suc n == 0) ≡ false = ground arith in
          let used : along t (cons c cs') + suc n ≡ along t (cons c cs) + m =
            omega (arith, p.used) in
          (
            m,
            cons c cs',
            rw (more, nothing, es),
            record {
              fits = (f.0, p.fits);
              as_wide = (a.0, p.as_wide);
              used = used;
              gives = omega (
                arith,
                check_sum_cons t c cs f b,
                check_sum_cons t c cs' (f.0, p.fits) (omega (arith, used, p.left)),
                p.gives,
              );
              left = p.left;
              moved = λ h k. p.moved h (omega (arith, check_sum_cons t c cs f b));
              as_deep = omega (arith, p.as_deep);
            },
          )
    ]

rounds_shrink :
    (t : Direction) (deepest : ℕ) (step : ℕ → Cell → Option Cell) (fuel n s : ℕ) (cs : Cells)
    → Shrinks t deepest step
    → FitsAll cs
    → AllSize (other t) s cs
    → along t cs ≤ 2 ^ 32
    → n ≤ check_sum t cs
    → depth_list cs ≤ deepest
    → n ≤ fuel
    → (cs' : Cells) × (rounds fuel (shrink_pass t (step 1)) n cs ≡ some cs') × Taken t s n cs 0 cs'
unfolding rounds
rounds_shrink t deepest step fuel zero s cs H f a b c d e = (
  cs,
  refl,
  record {
    fits = f;
    as_wide = a;
    used = refl;
    gives = refl;
    left = omega arith;
    moved = λ p q. p;
    as_deep = refl;
  },
)
rounds_shrink t deepest step zero (suc n) s cs H f a b c d e = absurd (omega arith)
rounds_shrink t deepest step (suc fuel) (suc n) s cs H f a b c d e =
    let (m, cs1, e1, p) = shrink_pass-Shrinks t deepest step (suc n) s cs H f a b d in
    let less : m < suc n = p.moved (omega arith) (omega arith) in
    let (cs2, e2, q) =
      rounds_shrink t deepest step fuel m s cs1 H p.fits p.as_wide (omega (arith, p.used, less))
        (omega (arith, p.gives)) (omega (arith, p.as_deep)) (omega (arith, less)) in
    (
      cs2,
      rw (e1, e2),
      record {
        fits = q.fits;
        as_wide = q.as_wide;
        used = omega (arith, p.used, q.used);
        gives = omega (arith, p.gives, q.gives);
        left = omega arith;
        moved = λ h _. h;
        as_deep = omega (arith, p.as_deep, q.as_deep);
      },
    )
