-- ===== src/Layout/Tests.antt =====
-- The theorems on layouts at a window of two panes, one beside the other.
use tmux_cvs_archived.Prelude.{ℕ, ◌≡◌, refl, none, some, arith}
use tmux_cvs_archived.Layout.{
  leftright, topbottom, Cell, leaf, node, nil, cons, grow, shrink, adjust, check,
}
use tmux_cvs_archived.Layout.Fits.{Fits}
use tmux_cvs_archived.Layout.Resize.{Grown, adjust_grows}
use tmux_cvs_archived.Layout.Shrink.{Shrunk}
use tmux_cvs_archived.Layout.Shrink.Trees.{adjust_shrinks}
use tmux_cvs_archived.Layout.Split.{split_pane, second_size}
use tmux_cvs_archived.Layout.Split.Laws.{OneMore, split_pane_lem}
use tmux_cvs_archived.Layout.Window.Offsets.{Resized, resize_lem}
use tmux_cvs_archived.Layout.Window.{resize}
use tmux_cvs_archived.Layout.Close.{close_pane, left}
use tmux_cvs_archived.Layout.Close.Whole.{ClosedFrom, close_pane_lem}
use tmux_cvs_archived.Layout.Window.{fix_offsets}

abbrev pane : ℕ → ℕ → ℕ → Cell
pane n x w = leaf (record { sx = w; sy = 24; xoff = x; yoff = 0 }) (some n)

-- Panes of the widths 40 and 39 in a window of 80 by 24.
abbrev two_panes : Cell
two_panes =
    node leftright (record { sx = 80; sy = 24; xoff = 0; yoff = 0 })
      (cons (pane 0 0 40) (cons (pane 1 41 39) nil))

two_panes-Fits : Fits two_panes
two_panes-Fits = ((tt, (tt, tt)), refl, (refl, (refl, tt)))

adjust_grows_example :
    (c' : Cell) × (adjust leftright (grow 7) two_panes ≡ some c') × Grown leftright 7 two_panes c'
adjust_grows_example = adjust_grows leftright 7 two_panes two_panes-Fits (omega arith)

can_give : check leftright two_panes ≡ 75
unfolding check
can_give = refl

adjust_shrinks_example :
    (c' : Cell) × (adjust leftright (shrink 75) two_panes ≡ some c')
    × Shrunk leftright 75 two_panes c'
adjust_shrinks_example =
    adjust_shrinks leftright 75 two_panes two_panes-Fits (omega arith) (omega (arith, can_give))

-- The second pane is split into one above the other.
abbrev three_panes : Cell
three_panes =
    node leftright (record { sx = 80; sy = 24; xoff = 0; yoff = 0 })
      (cons (pane 0 0 40) (
        cons
          (node topbottom (record { sx = 39; sy = 24; xoff = 41; yoff = 0 })
            (cons (leaf (record { sx = 39; sy = 12; xoff = 41; yoff = 0 }) (some 1))
              (cons (leaf (record { sx = 39; sy = 11; xoff = 41; yoff = 13 }) none) nil)))
          nil))

splits : split_pane two_panes 1 topbottom none ≡ some three_panes
unfolding split_pane second_size
splits = refl

split_pane_lem_example : OneMore two_panes three_panes
split_pane_lem_example =
    split_pane_lem two_panes three_panes 1 topbottom none two_panes-Fits (omega arith) (omega arith)
      splits

-- Without the first pane, the second takes the whole window.
close_pane_lem_example : ClosedFrom two_panes (close_pane two_panes 0)
close_pane_lem_example =
    close_pane_lem two_panes 0 two_panes-Fits (tt, (tt, (tt, tt))) (omega arith)

one_left :
    close_pane two_panes 0
    ≡ left (some (leaf (record { sx = 80; sy = 24; xoff = 0; yoff = 0 }) (some 1)))
unfolding close_pane adjust fix_offsets
one_left = refl

resize_lem_example :
    (c' : Cell) × (resize two_panes 80 24 100 30 ≡ some c') × Resized two_panes 100 30 c'
resize_lem_example =
    resize_lem two_panes 100 30 two_panes-Fits (omega arith) (omega arith) (omega arith)
      (omega arith)
