-- ===== src/Layout/Available.antt =====
-- layout.c: what a cell can give.
use tmux_cvs_archived.Prelude.{ℕ, ◌+◌, ◌-◌, ◌^◌, ◌≤◌, ◌<◌, ◌≡◌, arith, min}
use tmux_cvs_archived.Layout.{
  Direction, leftright, topbottom, Cell, Cells, leaf, node, nil, cons, size, check, check_sum,
  check_min,
}
use tmux_cvs_archived.Layout.Fits.{along, Fits, FitsAll}

pub check_min-le :
    (t : Direction) (s : ℕ) (c : Cell) (cs : Cells)
    → check t c ≤ size t c
    → size t c ≡ s
    → check_min t (cons c cs) ≤ s
unfolding check
check_min-le t s c cs h e = ground arith

-- No more than its size is available from a cell that fits.
mutual
  unfolding check

  pub check-le : (t : Direction) (c : Cell) → Fits c → size t c < 2 ^ 32 → check t c ≤ size t c
  check-le t (leaf g p) f b = ground arith
  check-le leftright (node leftright g cs) f b =
      omega (arith, f.1, check_sum-le leftright cs f.0 (omega (arith, f.1)))
  check-le leftright (node topbottom g nil) f b = absurd (omega (arith, f.1))
  check-le leftright (node topbottom g (cons c cs)) f b =
      check_min-le leftright g.sx c cs (check-le leftright c f.0.0 (omega (arith, f.2.0))) f.2.0
  check-le topbottom (node leftright g nil) f b = absurd (omega (arith, f.1))
  check-le topbottom (node leftright g (cons c cs)) f b =
      check_min-le topbottom g.sy c cs (check-le topbottom c f.0.0 (omega (arith, f.2.0))) f.2.0
  check-le topbottom (node topbottom g cs) f b =
      omega (arith, f.1, check_sum-le topbottom cs f.0 (omega (arith, f.1)))

  pub check_sum-le :
      (t : Direction) (cs : Cells)
      → FitsAll cs
      → along t cs ≤ 2 ^ 32
      → check_sum t cs ≤ along t cs - 1
  check_sum-le t nil f b = omega arith
  check_sum-le t (cons c cs) f b =
      omega (arith, check-le t c f.0 (omega arith), check_sum-le t cs f.1 (omega arith))

pub check_sum_cons :
    (t : Direction) (c : Cell) (cs : Cells)
    → FitsAll (cons c cs)
    → along t (cons c cs) ≤ 2 ^ 32
    → check_sum t (cons c cs) ≡ check t c + check_sum t cs
unfolding check
check_sum_cons t c cs f b =
    omega (arith, check-le t c f.0 (omega arith), check_sum-le t cs f.1 (omega arith))

-- `check_min` of one cell and of more.
pub check_min_one :
    (t : Direction) (c : Cell) → check t c < 2 ^ 32 → check_min t (cons c nil) ≡ check t c
unfolding check
check_min_one t c b = ground arith

pub check_min_more :
    (t : Direction) (c : Cell) (cs : Cells)
    → check_min t (cons c cs) ≡ min (check t c) (check_min t cs)
unfolding check
check_min_more t c cs = ground arith
