-- ===== src/Screen/Sound.antt =====
-- screen.c, screen-write.c: when a screen is in order, and that the operations keep it so.
pub mod Lines
pub mod Around
pub mod Write
pub mod Pieces
pub mod Puts
pub mod Resize
use Prim.Native.Nat.{bit_and}
use tmux_cvs_archived.Prelude.{
  ℕ, zero, suc, ◌+◌, ◌-◌, ◌^◌, ◌≤◌, ◌<◌, ◌≡◌, refl, ◌∙◌, Bool, true, false, not, ltb, leb, ◌==◌,
  if◌then◌else◌, length, set, replicate, arith, length-set, length-replicate, add_uint, sub_uint,
  Bool-cases, inl, inr, ◌&&◌, List,
}
use tmux_cvs_archived.Grid.{Grid, GridLine}
use tmux_cvs_archived.Grid.Moves.{IsAllocated}
use tmux_cvs_archived.Grid.Sizes.{Keeps, clear_lines-Keeps}
use tmux_cvs_archived.Grid.View.Sizes.{Grows}
use tmux_cvs_archived.Screen.{Screen, size_x, size_y, reset_tabs, default_tabs, init, reinit}
use tmux_cvs_archived.Screen.Cursor.{
  cursor_up, cursor_down, cursor_right, cursor_left, backspace, cursor_move, carriage_return,
  scroll_region,
}
use tmux_cvs_archived.Screen.Lines.{with_grid}

-- The screen has `height` lines. Those in use are allocated, and `room` lines more would not make their
-- number wrap around; the screen and the limit of its history are not empty; the cursor is on a line
-- of the screen; the scroll region lies on it; there is a tab stop's bit for each column. The cursor's
-- column may be any number: see `cursor_right_column`.
pub record IsSound (room height : ℕ) (s : Screen) : Type 0 where
  pub tall : s.grid.sy ≡ height
  pub allocated : s.grid.hsize + s.grid.sy ≤ length s.grid.lines
  pub spare : s.grid.hsize + s.grid.sy + room + 1 < 2 ^ 32
  pub limited : 0 < s.grid.hlimit
  pub wide : 0 < s.grid.sx
  pub narrow : s.grid.sx < 2 ^ 32
  pub on_line : s.cy < s.grid.sy
  pub column : s.cx < 2 ^ 32
  pub ordered : s.rupper ≤ s.rlower
  pub inside : s.rlower < s.grid.sy
  pub a_bit_each : length s.tabs ≡ s.grid.sx

pub IsSound-IsAllocated :
    {room height : ℕ} {s : Screen} → IsSound room height s → IsAllocated s.grid
IsSound-IsAllocated v = record { allocated = v.allocated; small = omega (arith, v.spare) }

pub IsSound-le :
    {room height : ℕ} (less : ℕ) {s : Screen}
    → less ≤ room
    → IsSound room height s
    → IsSound less height s
IsSound-le less h v = ground arith

pub with_grid-Keeps :
    {room height : ℕ} (s : Screen) (g : Grid)
    → IsSound room height s
    → Keeps s.grid g
    → IsSound room height (with_grid s g)
with_grid-Keeps s g v k = ground arith

pub with_grid-Grows :
    (k room height : ℕ) (s : Screen) (g : Grid)
    → IsSound (room + k) height s
    → Grows k s.grid g
    → IsSound room height (with_grid s g)
with_grid-Grows k room height s g v w = ground arith

module _ {room height : ℕ} (s : Screen) (v : IsSound room height s) where
  pub cursor_up-IsSound : (ny : ℕ) → IsSound room height (cursor_up s ny)
  unfolding cursor_up
  cursor_up-IsSound ny = ground arith

  pub cursor_down-IsSound : (ny : ℕ) → IsSound room height (cursor_down s ny)
  unfolding cursor_down
  cursor_down-IsSound ny = ground arith

  pub cursor_right-IsSound : (nx : ℕ) → IsSound room height (cursor_right s nx)
  unfolding cursor_right
  cursor_right-IsSound nx = ground arith

  pub cursor_left-IsSound : (nx : ℕ) → IsSound room height (cursor_left s nx)
  unfolding cursor_left
  cursor_left-IsSound nx = ground arith

  pub backspace-IsSound : IsSound room height (backspace s)
  unfolding backspace
  backspace-IsSound = ground arith

  pub cursor_move-IsSound : (px py : ℕ) → IsSound room height (cursor_move s px py)
  unfolding cursor_move
  cursor_move-IsSound px py = ground arith

  pub carriage_return-IsSound : IsSound room height (carriage_return s)
  carriage_return-IsSound = ground arith

  pub scroll_region-IsSound : (upper lower : ℕ) → IsSound room height (scroll_region s upper lower)
  unfolding scroll_region
  scroll_region-IsSound upper lower = ground arith

pub length-default_tabs : (i n : ℕ) → length (default_tabs i n) ≡ n
unfolding default_tabs
length-default_tabs i zero = refl
length-default_tabs i (suc n) = omega (arith, length-default_tabs (i + 1) n)

pub length-reset_tabs : (s : Screen) → length (reset_tabs s).tabs ≡ s.grid.sx
unfolding reset_tabs
length-reset_tabs s = length-default_tabs 0 s.grid.sx

pub reset_tabs-IsSound :
    {room height : ℕ} (s : Screen) → IsSound room height s → IsSound room height (reset_tabs s)
unfolding reset_tabs
reset_tabs-IsSound s v = ground (arith, length-default_tabs 0 s.grid.sx)
