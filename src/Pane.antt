-- ===== src/Pane.antt =====
-- window.c and tmux.h: what a pane keeps of the program that runs in it, and the alternate screen.
pub mod Sound
use Prim.Native.Nat.{bit_or}
use tmux_cvs_archived.Prelude.{
  ℕ, Bool, true, false, Option, none, some, List, ltb, if◌then◌else◌, sub_uint,
}
use tmux_cvs_archived.Utf8.{Utf8Data, Tree}
use tmux_cvs_archived.Grid.{Grid, GridCell, GridUtf8, create, grid_history, default_cell}
use tmux_cvs_archived.Grid.Blocks.{duplicate_lines}
use tmux_cvs_archived.Grid.View.{view_clear}
use tmux_cvs_archived.Screen.{Screen, size_x, size_y, clear_bit}
use tmux_cvs_archived.Screen.Resize.{resize}
use tmux_cvs_archived.Screen.Cursor.{at_most}

-- The states of the input parser: `struct input_state`, by its name.
pub data State : Type 0 where
  ground_state esc_enter esc_intermediate csi_enter csi_parameter csi_intermediate csi_ignore :
      State
  dcs_enter dcs_parameter dcs_intermediate dcs_handler dcs_escape dcs_ignore : State
  osc_string apc_string rename_string consume_st utf8_three utf8_two utf8_one : State

-- `saved_grid`, `saved_cx`, `saved_cy` and `saved_cell` of `struct window_pane`.
pub record Saved : Type 0 where
  pub grid : Grid
  pub cx : ℕ
  pub cy : ℕ
  pub cell : GridCell

-- `struct input_ctx`; the three buffers without their NUL. `discard` is INPUT_DISCARD.
pub record Context : Type 0 where
  pub cell : GridCell
  pub old_cell : GridCell
  pub old_cx : ℕ
  pub old_cy : ℕ
  pub interm : List ℕ
  pub param : List ℕ
  pub input : List ℕ
  pub utf8data : Utf8Data
  pub discard : Bool
  pub state : State

-- The parts of `struct window_pane` and its `struct window` that the input parser reads or writes:
-- the screen below any mode, what the alternate screen replaced, the parser, what is to be sent to
-- the program, PANE_REDRAW, WINDOW_BELL, the window's name and its option automatic-rename.
pub record Pane : Type 0 where
  pub base : Screen
  pub saved : Option Saved
  pub ictx : Context
  pub replies : List ℕ
  pub redraw : Bool
  pub bell : Bool
  pub name : List ℕ
  pub automatic_rename : Bool

-- What the parser takes from elsewhere: `strtonum` and BUFSIZ of the system, the options utf8 and
-- alternate-screen of the window, the tree of `utf8_build`, and what is read where memory has no
-- value: a cell's bytes, and the bits behind the tab stops.
pub record World : Type 0 where
  pub strtonum : List ℕ → ℕ → ℕ → Option ℕ
  pub bufsiz : ℕ
  pub utf8 : Bool
  pub alternate_screen : Bool
  pub utf8_width_root : Tree
  pub unset : GridUtf8
  pub beyond : ℕ → Bool

abbrev pub with_base : Pane → Screen → Pane
with_base p s = record p { base = s }

abbrev pub with_cell : Pane → GridCell → Pane
with_cell p gc = record p { ictx = record (p.ictx) { cell = gc } }

-- `window_pane_alternate_on` behind its guards.
abbrev pub enter_alternate : Pane → Pane
enter_alternate p =
    let s = p.base in
    let copy = duplicate_lines (create (size_x s) (size_y s) 0) 0 s.grid s.grid.hsize (size_y s) in
    let cleared = view_clear s.grid 0 0 (size_x s) (size_y s) in
    record p {
      saved = some (record { grid = copy; cx = s.cx; cy = s.cy; cell = p.ictx.cell });
      base = record s { grid = record cleared { flags = clear_bit cleared.flags grid_history } };
      redraw = true;
    }

-- `window_pane_alternate_on`, by `saved_grid`; the cell is that of the parser, as in each of its calls.
unfoldable pub on_unless : World → Pane → Option Saved → Pane
on_unless w p (some saved) = p
on_unless w p none = if w.alternate_screen then enter_alternate p else p

unfoldable pub alternate_on : World → Pane → Pane
unfolding on_unless
alternate_on w p = on_unless w p p.saved

-- The screen in `window_pane_alternate_off` before and after the history is turned on again.
unfoldable pub restore : Screen → Saved → Screen
restore s saved =
    let small = if ltb saved.grid.sy (size_y s) then resize s (size_x s) saved.grid.sy else s in
    let g = duplicate_lines small.grid small.grid.hsize saved.grid 0 (size_y s) in
    record small {
      grid = record g { flags = bit_or g.flags grid_history };
      cx = at_most (sub_uint g.sx 1) saved.cx;
      cy = at_most (sub_uint g.sy 1) saved.cy;
    }

unfoldable pub leave_alternate : Pane → Saved → Pane
unfolding restore
leave_alternate p saved =
    let s = p.base in
    let restored = restore s saved in
    record p {
      base =
          if ltb saved.grid.sy (size_y s) then resize restored (size_x s) (size_y s) else restored;
      saved = none;
      ictx = record (p.ictx) { cell = saved.cell };
      redraw = true;
    }

-- `window_pane_alternate_off`, by `saved_grid`
unfoldable pub off_from : World → Pane → Option Saved → Pane
unfolding leave_alternate
off_from w p none = p
off_from w p (some saved) = if w.alternate_screen then leave_alternate p saved else p

unfoldable pub alternate_off : World → Pane → Pane
unfolding off_from
alternate_off w p = off_from w p p.saved
