-- ===== src/Pane/Sound.antt =====
-- window.c: when a pane is in order, and that the alternate screen keeps it so.
use tmux_cvs_archived.Prelude.{
  ℕ, ◌+◌, ◌^◌, ◌≤◌, ◌<◌, ◌≡◌, Bool, true, false, Option, none, some, ltb, if◌then◌else◌, arith,
  sub_uint, Bool-cases, inl, inr, max,
}
use tmux_cvs_archived.Grid.{GridCell, create}
use tmux_cvs_archived.Grid.Blocks.{is_utf8, duplicate_lines}
use tmux_cvs_archived.Grid.Sizes.{duplicate_lines-Keeps}
use tmux_cvs_archived.Grid.View.Sizes.{view_clear-Keeps}
use tmux_cvs_archived.Screen.{Screen, size_x, size_y}
use tmux_cvs_archived.Screen.Resize.{resize}
use tmux_cvs_archived.Screen.Cursor.{at_most}
use tmux_cvs_archived.Screen.Sound.{IsSound, IsSound-le, with_grid-Keeps}
use tmux_cvs_archived.Screen.Sound.Resize.{resize-IsSound, same_height}
use tmux_cvs_archived.Pane.{
  State, utf8_three, utf8_two, utf8_one, Saved, Pane, World, with_base, with_cell, enter_alternate,
  on_unless, alternate_on, restore, leave_alternate, off_from, alternate_off,
}

-- The cell of the parser between two characters: no GRID_FLAG_UTF8, and the flags fit a byte.
pub record IsPlain (gc : GridCell) : Type 0 where
  pub small : gc.flags < 256
  pub single : is_utf8 gc ≡ false

-- The number of bytes that each state still wants of a UTF-8 sequence.
unfoldable pub wanted : State → ℕ
wanted utf8_three = 3
wanted utf8_two = 2
wanted utf8_one = 1
wanted _ = 0

-- What the alternate screen replaced.
pub record IsKept (saved : Saved) : Type 0 where
  pub short : saved.grid.sy < 2 ^ 32
  pub cell : IsPlain saved.cell

abbrev pub IsKeptOption : Option Saved → Type 0
IsKeptOption none = Unit
IsKeptOption (some saved) = IsKept saved

pub record IsSoundPane (room height : ℕ) (st : State) (p : Pane) : Type 0 where
  pub screen : IsSound room height p.base
  pub saved : IsKeptOption p.saved
  pub cell : IsPlain p.ictx.cell
  pub old_cell : IsPlain p.ictx.old_cell
  pub state : p.ictx.state ≡ st

pub IsSoundPane-le :
    {room height : ℕ} {st : State} (less : ℕ) {p : Pane}
    → less ≤ room
    → IsSoundPane room height st p
    → IsSoundPane less height st p
IsSoundPane-le less h v = record {
  screen = IsSound-le less h v.screen;
  saved = v.saved;
  cell = v.cell;
  old_cell = v.old_cell;
  state = v.state;
}

pub with_base-IsSoundPane :
    {room more height : ℕ} {st : State} (p : Pane) (s : Screen)
    → IsSoundPane more height st p
    → IsSound room height s
    → IsSoundPane room height st (with_base p s)
with_base-IsSoundPane p s v w = record {
  screen = w;
  saved = v.saved;
  cell = v.cell;
  old_cell = v.old_cell;
  state = v.state;
}

pub with_cell-IsSoundPane :
    {room height : ℕ} {st : State} (p : Pane) (gc : GridCell)
    → IsSoundPane room height st p
    → IsPlain gc
    → IsSoundPane room height st (with_cell p gc)
with_cell-IsSoundPane p gc v w = record {
  screen = v.screen;
  saved = v.saved;
  cell = w;
  old_cell = v.old_cell;
  state = v.state;
}

enter_alternate-IsSoundPane :
    {room height : ℕ} {st : State} (p : Pane)
    → IsSoundPane room height st p
    → IsSoundPane room height st (enter_alternate p)
unfolding create
enter_alternate-IsSoundPane p v =
    let s = p.base in
    let k = view_clear-Keeps s.grid 0 0 (size_x s) (size_y s) in
    let w = with_grid-Keeps s _ v.screen k in
    let c =
      duplicate_lines-Keeps (create (size_x s) (size_y s) 0) 0 s.grid s.grid.hsize (size_y s) in
    record {
      screen = ground arith;
      saved = record { short = omega (arith, c.sy, v.screen.spare); cell = v.cell };
      cell = v.cell;
      old_cell = v.old_cell;
      state = v.state;
    }

pub if-IsSoundPane :
    {room height : ℕ} {st : State} {p q : Pane} (b : Bool)
    → IsSoundPane room height st p
    → IsSoundPane room height st q
    → IsSoundPane room height st (if b then p else q)
if-IsSoundPane true v w = v
if-IsSoundPane false v w = w

pub on_unless-IsSoundPane :
    {room height : ℕ} {st : State} (w : World) (p : Pane) (saved : Option Saved)
    → IsSoundPane room height st p
    → IsSoundPane room height st (on_unless w p saved)
unfolding on_unless
on_unless-IsSoundPane w p (some saved) v = v
on_unless-IsSoundPane w p none v = if-IsSoundPane _ (enter_alternate-IsSoundPane p v) v

-- The screen that comes back, made as low as the saved one where that is lower.
restore-IsSound :
    {room : ℕ} (s : Screen) (saved : Saved) (tall : ℕ)
    → IsSound room tall
        (if ltb saved.grid.sy (size_y s) then resize s (size_x s) saved.grid.sy else s)
    → IsSound room tall (restore s saved)
unfolding restore
restore-IsSound s saved tall v =
    let small = if ltb saved.grid.sy (size_y s) then resize s (size_x s) saved.grid.sy else s in
    let k = duplicate_lines-Keeps small.grid small.grid.hsize saved.grid 0 (size_y s) in
    let w = with_grid-Keeps small _ v k in
    let line_fits : at_most
          (sub_uint (duplicate_lines small.grid small.grid.hsize saved.grid 0 (size_y s)).sy 1)
          saved.cy
        < (duplicate_lines small.grid small.grid.hsize saved.grid 0 (size_y s)).sy =
      ground (arith, w.on_line, w.spare) in
    record {
      tall = w.tall;
      allocated = w.allocated;
      spare = w.spare;
      limited = w.limited;
      wide = w.wide;
      narrow = w.narrow;
      on_line = line_fits;
      column = ground (arith, w.narrow);
      ordered = w.ordered;
      inside = w.inside;
      a_bit_each = w.a_bit_each;
    }

-- The screen that was lower than the pane is grown again.
lower-IsSound :
    {room height : ℕ} (s : Screen) (saved : Saved)
    → IsSound (room + height + height) height s
    → saved.grid.sy < s.grid.sy
    → IsSound room height (resize (restore s saved) (size_x s) (size_y s))
lower-IsSound {room} {height} s saved v h =
    let lower : ltb saved.grid.sy (size_y s) ≡ true = ground (arith, h) in
    let spare =
      IsSound-le (room + height + max saved.grid.sy 1) (omega (arith, v.tall, v.on_line, h)) v in
    let small =
      resize-IsSound {room = room + height} s (size_x s) saved.grid.sy spare v.narrow
        (omega (arith, v.spare, h)) in
    let back =
      restore-IsSound {room = room + height} s saved (max saved.grid.sy 1) (rw lower small) in
    let more = IsSound-le (room + max (size_y s) 1) (omega (arith, v.tall, v.on_line)) back in
    let high : size_y s < 2 ^ 32 = omega (arith, v.spare) in
    let grown =
      resize-IsSound {room = room} (restore s saved) (size_x s) (size_y s) more v.narrow high in
    same_height (omega (arith, v.tall, v.on_line)) grown

as_high-IsSound :
    {room height : ℕ} (s : Screen) (saved : Saved)
    → IsSound room height s
    → ltb saved.grid.sy s.grid.sy ≡ false
    → IsSound room height (restore s saved)
as_high-IsSound {room} {height} s saved v h = restore-IsSound s saved height (rw h v)

left-IsSound :
    {room height : ℕ} (s : Screen) (saved : Saved)
    → IsSound (room + height + height) height s
    → IsSound room height (
        if ltb saved.grid.sy (size_y s)
        then resize (restore s saved) (size_x s) (size_y s)
        else restore s saved)
left-IsSound {room} s saved v = elim (Bool-cases (ltb saved.grid.sy (size_y s))) [
  | inl lower ↦ rw lower (lower-IsSound s saved v (ground (arith, lower)))
  | inr as_high ↦ rw as_high (as_high-IsSound s saved (IsSound-le room (omega arith) v) as_high)
]

pub off_from-IsSoundPane :
    {room height : ℕ} {st : State} (w : World) (p : Pane) (saved : Option Saved)
    → IsSoundPane (room + height + height) height st p
    → IsKeptOption saved
    → IsSoundPane room height st (off_from w p saved)
unfolding off_from leave_alternate
off_from-IsSoundPane {room} w p none v k = IsSoundPane-le room (omega arith) v
off_from-IsSoundPane {room} w p (some saved) v k =
    if-IsSoundPane _
      (record {
        screen = left-IsSound p.base saved v.screen;
        saved = tt;
        cell = k.cell;
        old_cell = v.old_cell;
        state = v.state;
      })
      (IsSoundPane-le room (omega arith) v)

-- The alternate screen is entered and left by a pane in order.
pub alternate_on-IsSoundPane :
    {room height : ℕ} {st : State} (w : World) (p : Pane)
    → IsSoundPane room height st p
    → IsSoundPane room height st (alternate_on w p)
unfolding alternate_on
alternate_on-IsSoundPane w p v = on_unless-IsSoundPane w p p.saved v

pub alternate_off-IsSoundPane :
    {room height : ℕ} {st : State} (w : World) (p : Pane)
    → IsSoundPane (room + height + height) height st p
    → IsSoundPane room height st (alternate_off w p)
unfolding alternate_off
alternate_off-IsSoundPane w p v = off_from-IsSoundPane w p p.saved v v.saved
