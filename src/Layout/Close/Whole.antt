-- ===== src/Layout/Close/Whole.antt =====
-- layout.c: a pane is closed.
use tmux_cvs_archived.Prelude.{ℕ, none, some}
use tmux_cvs_archived.Layout.{leftright, topbottom, Cell, leaf, node}
use tmux_cvs_archived.Layout.Fits.{Fits}
use tmux_cvs_archived.Layout.Window.{fix_offsets}
use tmux_cvs_archived.Layout.Window.Offsets.{Fits-place}
use tmux_cvs_archived.Layout.Close.{
  Removal, missing, stuck, whole, within, Closed, no_such_pane, never, left, at_origin, closed_root,
  remove_cell, close_pane,
}
use tmux_cvs_archived.Layout.Close.Laws.{InPlaceOf, RemovedFrom, Divided, Bounded, remove_cell_lem}

-- The source gets through; where a layout is left, it fits and is as large as the one before.
abbrev pub ClosedFrom : Cell → Closed → Type 0
ClosedFrom c no_such_pane = Unit
ClosedFrom c never = ⊥
ClosedFrom c (left none) = Unit
ClosedFrom c (left (some c')) = InPlaceOf c c'

at_origin_lem : (c c' : Cell) → InPlaceOf c c' → InPlaceOf c (fix_offsets (at_origin c'))
unfolding fix_offsets
at_origin_lem c (leaf g p) i = record { fits = tt; as_long = i.as_long; as_high = i.as_high }
at_origin_lem c (node leftright g cs) i = record {
  fits = Fits-place 0 0 (node leftright g cs) i.fits;
  as_long = i.as_long;
  as_high = i.as_high;
}
at_origin_lem c (node topbottom g cs) i = record {
  fits = Fits-place 0 0 (node topbottom g cs) i.fits;
  as_long = i.as_long;
  as_high = i.as_high;
}

closed_root_lem : (c : Cell) (r : Removal) → RemovedFrom c r → ClosedFrom c (closed_root r)
closed_root_lem c missing h = tt
closed_root_lem c stuck h = h
closed_root_lem c whole h = tt
closed_root_lem c (within c') h = at_origin_lem c c' h

-- In a layout that fits, whose sides are below 2^31 and in which every parent has two cells at least,
-- `layout_close_pane` gets through; where a layout is left, its cells fill it again at every depth,
-- and it is as large as the one before.
pub close_pane_lem :
    (c : Cell) (wp : ℕ) → Fits c → Divided c → Bounded c → ClosedFrom c (close_pane c wp)
unfolding close_pane
close_pane_lem c wp f v b = closed_root_lem c (remove_cell wp c) (remove_cell_lem wp c f v b)
