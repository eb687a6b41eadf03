-- ===== src/Screen.antt =====
-- screen.c: a grid with a cursor, a scroll region, modes, tab stops and a selection.
pub mod Resize
pub mod Cursor
pub mod Lines
pub mod Write
pub mod Text
pub mod Puts
pub mod Sound
pub mod Column
use Prim.Native.Nat.{bit_and, bit_or}
use tmux_cvs_archived.Prelude.{
  ℕ, zero, suc, ◌+◌, ◌-◌, ◌%◌, Bool, true, false, ◌&&◌, ◌||◌, not, Option, none, some, List, [],
  ◌∷◌, ltb, leb, ◌==◌, if◌then◌else◌, take, replicate, sub_uint,
}
use tmux_cvs_archived.Grid.{Grid, GridCell, default_cell, create, clear_lines}

-- `struct screen_sel`
pub record Selection : Type 0 where
  pub flag : Bool
  pub rectflag : Bool
  pub sx : ℕ
  pub sy : ℕ
  pub ex : ℕ
  pub ey : ℕ
  pub cell : GridCell

-- `struct screen`. `tabs` has one bit for each column; strings are bytes without the NUL.
pub record Screen : Type 0 where
  pub title : List ℕ
  pub grid : Grid
  pub cx : ℕ
  pub cy : ℕ
  pub cstyle : ℕ
  pub ccolour : List ℕ
  pub rupper : ℕ
  pub rlower : ℕ
  pub mode : ℕ
  pub tabs : List Bool
  pub sel : Selection

-- `screen_size_x` and `screen_size_y`
abbrev pub size_x : Screen → ℕ
size_x s = s.grid.sx

abbrev pub size_y : Screen → ℕ
size_y s = s.grid.sy

-- `MODE_*`
abbrev pub mode_cursor : ℕ
mode_cursor = 0x1

abbrev pub mode_insert : ℕ
mode_insert = 0x2

abbrev pub mode_kcursor : ℕ
mode_kcursor = 0x4

abbrev pub mode_kkeypad : ℕ
mode_kkeypad = 0x8

abbrev pub mode_wrap : ℕ
mode_wrap = 0x10

abbrev pub mode_mouse_standard : ℕ
mode_mouse_standard = 0x20

abbrev pub mode_mouse_button : ℕ
mode_mouse_button = 0x40

abbrev pub mode_mouse_any : ℕ
mode_mouse_any = 0x80

abbrev pub mode_mouse_utf8 : ℕ
mode_mouse_utf8 = 0x100

abbrev pub all_mouse_modes : ℕ
all_mouse_modes = 0xe0

-- `mode & bit`, `mode |= bit` and `mode &= ~bit`, on an `int`.
abbrev pub has_bit : ℕ → ℕ → Bool
has_bit flags bit = not (bit_and flags bit == 0)

abbrev pub clear_bit : ℕ → ℕ → ℕ
clear_bit flags bit = bit_and flags (0xffffffff - bit)

abbrev pub put_bit : Bool → ℕ → ℕ → ℕ
put_bit state flags bit = if state then bit_or flags bit else clear_bit flags bit

-- The tab stops of columns `i` to `i + n - 1`, set at 8, 16 and so on.
unfoldable pub default_tabs : ℕ → ℕ → List Bool
default_tabs i zero = []
default_tabs i (suc n) = (leb 8 i && i % 8 == 0) ∷ default_tabs (i + 1) n

-- `screen_reset_tabs`
unfoldable pub reset_tabs : Screen → Screen
unfolding default_tabs
reset_tabs s = record s { tabs = default_tabs 0 (size_x s) }

-- `screen_clear_selection`
abbrev pub clear_selection : Screen → Screen
clear_selection s = record s { sel = record (s.sel) { flag = false } }

-- `screen_reinit`
unfoldable pub reinit : Screen → Screen
unfolding reset_tabs
reinit s =
    let t = record s {
      cx = 0;
      cy = 0;
      rupper = 0;
      rlower = sub_uint (size_y s) 1;
      mode = bit_or mode_cursor mode_wrap;
    } in
    let u = reset_tabs t in
    clear_selection (record u { grid = clear_lines u.grid u.grid.hsize u.grid.sy })

-- `screen_init`, given what `gethostname` writes, or `none` where it fails. The selection is not set
-- before `screen_clear_selection`; zeros stand for what it holds.
unfoldable pub init : Option (List ℕ) → ℕ → ℕ → ℕ → Screen
unfolding reinit
init hostname sx sy hlimit = reinit (record {
  title = elim hostname [ some hn ↦ hn | none ↦ [] ];
  grid = create sx sy hlimit;
  cx = 0;
  cy = 0;
  cstyle = 0;
  ccolour = [];
  rupper = 0;
  rlower = 0;
  mode = 0;
  tabs = [];
  sel = record {
    flag = false;
    rectflag = false;
    sx = 0;
    sy = 0;
    ex = 0;
    ey = 0;
    cell = default_cell;
  };
})

-- `screen_set_cursor_style`
unfoldable pub set_cursor_style : Screen → ℕ → Screen
set_cursor_style s style = if leb style 4 then record s { cstyle = style } else s

-- `screen_set_cursor_colour`
abbrev pub set_cursor_colour : Screen → List ℕ → Screen
set_cursor_colour s colour_string = record s { ccolour = colour_string }

-- `screen_set_title`; `bufsiz` is the system's BUFSIZ.
abbrev pub set_title : ℕ → Screen → List ℕ → Screen
set_title bufsiz s title = record s { title = take (bufsiz - 1) title }

-- `screen_set_selection`
abbrev pub set_selection : Screen → ℕ → ℕ → ℕ → ℕ → Bool → GridCell → Screen
set_selection s sx sy ex ey rectflag gc = record s {
  sel = record { flag = true; rectflag = rectflag; sx = sx; sy = sy; ex = ex; ey = ey; cell = gc };
}

-- The first part of `screen_check_selection`, the rows, which both kinds of selection share.
abbrev outside_rows : Selection → ℕ → Bool
outside_rows sel py =
    if ltb sel.sy sel.ey
    then ltb py sel.sy || ltb sel.ey py
    else if ltb sel.ey sel.sy
    then ltb sel.sy py || ltb py sel.ey
    else not (py == sel.sy)

-- The columns between the two ends, whichever is on the left.
abbrev outside_columns : Selection → ℕ → Bool
outside_columns sel px =
    if ltb sel.ex sel.sx then ltb px sel.ex || ltb sel.sx px else ltb px sel.sx || ltb sel.ex px

-- The columns of a selection of text, in a row that is in it.
abbrev outside_text : Selection → ℕ → ℕ → Bool
outside_text sel px py =
    if ltb sel.sy sel.ey
    then (py == sel.sy && ltb px sel.sx) || (py == sel.ey && ltb sel.ex px)
    else if ltb sel.ey sel.sy
    then (py == sel.sy && leb sel.sx px) || (py == sel.ey && ltb px sel.ex)
    else outside_columns sel px

-- `screen_check_selection`
unfoldable pub check_selection : Screen → ℕ → ℕ → Bool
check_selection s px py =
    if not s.sel.flag
    then false
    else if outside_rows s.sel py
    then false
    else if s.sel.rectflag
    then not (outside_columns s.sel px)
    else not (outside_text s.sel px py)
