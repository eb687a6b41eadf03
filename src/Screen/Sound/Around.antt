-- ===== src/Screen/Sound/Around.antt =====
-- screen-write.c: the loops around a cell that is written keep the frame of the grid.
use Prim.Native.Nat.{bit_or}
use tmux_cvs_archived.Prelude.{ℕ, zero, suc, ◌+◌, ◌<◌, arith}
use tmux_cvs_archived.Grid.{Grid, GridUtf8, default_cell}
use tmux_cvs_archived.Grid.Moves.{IsAllocated}
use tmux_cvs_archived.Grid.Sizes.{Keeps, Keeps-refl, Keeps-trans, IsAllocated-Keeps}
use tmux_cvs_archived.Grid.View.{view_set_cell}
use tmux_cvs_archived.Grid.View.Sizes.{view_set_cell-Keeps, view_get_cell_found}
use tmux_cvs_archived.Screen.{Screen}
use tmux_cvs_archived.Screen.Write.{
  grid_flag_padding, overwrite_back, overwrite_forward, overwrite, pad,
}
use tmux_cvs_archived.Screen.Sound.Lines.{if-Keeps}

overwrite_back-Keeps : (g : Grid) (cy n : ℕ) → Keeps g (overwrite_back g cy n)
unfolding overwrite_back
overwrite_back-Keeps g cy zero = view_set_cell-Keeps g 0 cy default_cell
overwrite_back-Keeps g cy (suc n) =
    let written = view_set_cell-Keeps g (suc n) cy default_cell in
    if-Keeps _
      (Keeps-trans written (overwrite_back-Keeps (view_set_cell g (suc n) cy default_cell) cy n))
      written

overwrite_forward-Keeps : (g : Grid) (cy xx n : ℕ) → Keeps g (overwrite_forward g cy xx n)
unfolding overwrite_forward
overwrite_forward-Keeps g cy xx zero = Keeps-refl g
overwrite_forward-Keeps g cy xx (suc n) =
    let written = view_set_cell-Keeps g xx cy default_cell in
    if-Keeps _
      (Keeps-trans written
        (overwrite_forward-Keeps (view_set_cell g xx cy default_cell) cy (xx + 1) n))
      (Keeps-refl g)

pub overwrite-Keeps : (s : Screen) (width : ℕ) → Keeps s.grid (overwrite s width).grid
unfolding overwrite
overwrite-Keeps s width =
    Keeps-trans (if-Keeps _ (overwrite_back-Keeps s.grid s.cy s.cx) (Keeps-refl s.grid))
      (overwrite_forward-Keeps _ s.cy _ _)

pub pad-Keeps :
    (unset : GridUtf8) (g : Grid) (cy xx n : ℕ)
    → IsAllocated g
    → cy < g.sy
    → Keeps g (pad unset g cy xx n)
unfolding pad
pad-Keeps unset g cy xx zero a b = Keeps-refl g
pad-Keeps unset g cy xx (suc n) a b =
    let (gc, h, found, k) = view_get_cell_found g xx cy a b in
    let marked = record gc { flags = bit_or gc.flags grid_flag_padding } in
    let kept = Keeps-trans k (view_set_cell-Keeps h xx cy marked) in
    rw found (
      Keeps-trans kept (
        pad-Keeps unset (view_set_cell h xx cy marked) cy (xx + 1) n (IsAllocated-Keeps kept a)
          (omega (arith, kept.sy, b))))
