-- ===== src/Layout/Fits.antt =====
-- When the cells of a layout fill the space of their parents.
use tmux_cvs_archived.Prelude.{ℕ, ◌+◌, ◌≡◌}
use tmux_cvs_archived.Layout.{
  Direction, leftright, topbottom, Cell, Cells, leaf, node, nil, cons, extent, size,
}

abbrev pub other : Direction → Direction
other leftright = topbottom
other topbottom = leftright

-- The sizes of the cells and a line between each two, and one line more.
abbrev pub along : Direction → Cells → ℕ
along t nil = 0
along t (cons c cs) = size t c + 1 + along t cs

-- Every cell has the size `s`.
abbrev pub AllSize : Direction → ℕ → Cells → Type 0
AllSize t s nil = Unit
AllSize t s (cons c cs) = (size t c ≡ s) × AllSize t s cs

-- The children of a cell fill it: in its direction with a line between each two, and across it.
abbrev mutual
  pub Fits : Cell → Type 0
  Fits (leaf g p) = Unit
  Fits (node u g cs) =
      FitsAll cs × (along u cs ≡ extent u g + 1) × AllSize (other u) (extent (other u) g) cs

  pub FitsAll : Cells → Type 0
  FitsAll nil = Unit
  FitsAll (cons c cs) = Fits c × FitsAll cs
