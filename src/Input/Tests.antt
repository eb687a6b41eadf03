-- ===== src/Input/Tests.antt =====
-- The theorems about the parser and its screen at a pane of ten columns and three lines.
use tmux_cvs_archived.Prelude.{
  ℕ, zero, suc, ◌+◌, ◌-◌, ◌*◌, ◌/◌, ◌%◌, ◌^◌, ◌<◌, ◌≡◌, refl, true, false, ◌&&◌, none, some, List,
  [], ◌∷◌, ◌++◌, arith, ltb, leb, if◌then◌else◌, replicate, print_uint, digits_of, Bool-cases, inl,
  inr, min, max, ◌⊎◌,
}
use native.Mathlib.Nat.{pow-suc}
use tmux_cvs_archived.Utf8.{null}
use tmux_cvs_archived.Screen.{Screen, init}
use tmux_cvs_archived.Screen.Cursor.{cursor_move, cursor_right}
use tmux_cvs_archived.Screen.Column.{cursor_right_column}
use tmux_cvs_archived.Screen.Resize.{resize}
use tmux_cvs_archived.Screen.Sound.{IsSound}
use tmux_cvs_archived.Grid.{GridLine, default_cell, clear_lines, create, peek_cell, peek_utf8}
use tmux_cvs_archived.Grid.View.{view_peek_cell, view_peek_utf8}
use tmux_cvs_archived.Screen.Write.{write_cell}
use tmux_cvs_archived.Screen.Sound.Resize.{resize-IsSound}
use tmux_cvs_archived.Pane.{World, Pane, ground_state}
use tmux_cvs_archived.Input.Sgr.{int_max}
use tmux_cvs_archived.Input.Parse.{fresh_pane, parse_bytes}
use tmux_cvs_archived.Input.Sequence.{AreParams, long_sequence_ignored}
use tmux_cvs_archived.Input.Position.{ReadsNumbers, cursor_position}
use tmux_cvs_archived.Input.Sound.{IsReady}
use tmux_cvs_archived.Input.Sound.Bytes.{EndsUnreadable}
use tmux_cvs_archived.Input.Sound.Fresh.{init-IsSound, fresh_pane-IsReady}
use tmux_cvs_archived.Input.Sound.Recover.{terminator_recovers}

-- A decimal reader with the bounds of `strtonum`, in its place.
decimal : List ℕ → ℕ → ℕ
decimal [] n = n
decimal (c ∷ cs) n = decimal cs (n * 10 + (c - b'0'))

decimal_append :
    (xs : List ℕ) (c n : ℕ) → decimal (xs ++ (c ∷ [])) n ≡ decimal xs n * 10 + (c - b'0')
unfolding decimal
decimal_append [] c n = refl
decimal_append (x ∷ xs) c n = decimal_append xs c (n * 10 + (x - b'0'))

decimal-digits_of : (f n : ℕ) → n < 10 ^ f → decimal (digits_of f n) 0 ≡ n
unfolding digits_of decimal
decimal-digits_of zero n h = omega arith
decimal-digits_of (suc f) n h =
    let less : n / 10 < 10 ^ f = omega (arith, h, pow-suc 10 f) in
    elim (Bool-cases (ltb n 10)) [
      | inl one ↦ rw one (omega arith)
      | inr more ↦
          rw
            (
              more,
              decimal_append (digits_of f (n / 10)) (b'0' + n % 10) 0,
              decimal-digits_of f (n / 10) less,
            )
            (omega arith)
    ]

abbrev world : World
world = record {
  strtonum = λ s low high.
      if leb low (decimal s 0) && leb (decimal s 0) high then some (decimal s 0) else none;
  bufsiz = 1024;
  utf8 = true;
  alternate_screen = true;
  utf8_width_root = null;
  unset = record { width = 0; bytes = [] };
  beyond = λ i. false;
}

world-ReadsNumbers : ReadsNumbers world
unfolding print_uint
world-ReadsNumbers n h =
    let e = decimal-digits_of 10 n (omega (arith, h)) in
    let fits : (leb 0 n && leb n int_max) ≡ true = ground (arith, h) in rw (e, fits) refl

abbrev screen : Screen
screen = init none 10 3 100

screen-IsSound : (room : ℕ) → room < 2 ^ 31 → IsSound room 3 screen
screen-IsSound room h =
    init-IsSound room none 10 3 100 (omega arith) (omega arith) (omega arith) (omega arith)
      (omega (arith, h))

abbrev pane : Pane
pane = fresh_pane screen [] true

pane-IsReady : (room : ℕ) → room < 2 ^ 31 → IsReady room 3 pane
pane-IsReady room h = fresh_pane-IsReady screen [] true (screen-IsSound room h)

pane-state : pane.ictx.state ≡ ground_state
unfolding fresh_pane
pane-state = refl

-- A character, a sequence that moves the cursor, a byte of a UTF-8 character that does not come.
abbrev bytes : List ℕ
bytes = b'A' ∷ 0x1b ∷ b'[' ∷ b'H' ∷ 0xe2 ∷ []

terminator_recovers_example :
    ((q : Pane) × (parse_bytes world pane (0x1b ∷ 0x5c ∷ 0x1b ∷ 0x5c ∷ []) ≡ some q)
      × IsReady 7 3 q
      × (q.ictx.state ≡ ground_state))
    ⊎ EndsUnreadable world pane (0x1b ∷ 0x5c ∷ 0x1b ∷ 0x5c ∷ []) 3
terminator_recovers_example = terminator_recovers 7 world pane (pane-IsReady _ (omega arith))

ones-AreParams : (n : ℕ) → AreParams (replicate n b'1')
ones-AreParams zero = tt
ones-AreParams (suc n) = (inl (omega arith, omega arith), ones-AreParams n)

long_sequence_ignored_example :
    (q : Pane) × (parse_bytes world pane (0x1b ∷ b'[' ∷ b'1' ∷ (replicate 63 b'1' ++ (b'J' ∷ [])))
      ≡ some q)
    × (q.base ≡ pane.base)
    × (q.saved ≡ pane.saved)
    × (q.replies ≡ pane.replies)
    × (q.ictx.cell ≡ pane.ictx.cell)
    × (q.ictx.state ≡ ground_state)
long_sequence_ignored_example =
    long_sequence_ignored world pane b'1' (replicate 63 b'1') b'J' pane-state
      (omega arith, omega arith) (ones-AreParams 63) (omega arith) (omega arith, omega arith)

cursor_position_example :
    (q : Pane) × (parse_bytes world pane
        (0x1b ∷ b'[' ∷ (print_uint 2 ++ (b';' ∷ (print_uint 30 ++ (b'H' ∷ [])))))
      ≡ some q)
    × (q.base ≡ cursor_move pane.base 29 1)
    × (q.ictx.state ≡ ground_state)
cursor_position_example =
    cursor_position world pane 2 30 world-ReadsNumbers pane-state (omega arith, omega arith)
      (omega arith, omega arith)

-- The cursor behind the last column of ten, sent seventy columns to the right.
abbrev pending_wrap : Screen
pending_wrap = record screen { cx = 10 }

cursor_right_column_example :
    ((cursor_right pending_wrap 70).cx ≡ (
      if ltb pending_wrap.cx pending_wrap.grid.sx
      then min (pending_wrap.grid.sx - 1) (pending_wrap.cx + max 1 70)
      else pending_wrap.cx + max 1 70))
    × ((cursor_right pending_wrap 70).cy ≡ pending_wrap.cy)
cursor_right_column_example =
    cursor_right_column pending_wrap 70 (screen-IsSound 0 (omega arith)).wide
      (screen-IsSound 0 (omega arith)).narrow (omega arith)

resize-IsSound_example : IsSound 5 7 (resize screen 4 7)
resize-IsSound_example =
    resize-IsSound {room = 5} screen 4 7 (screen-IsSound 12 (omega arith)) (omega arith)
      (omega arith)

-- A screen in order of two columns whose first line is all padding, its first cell marked as UTF-8
-- too: a character that is written to it ends the program.
abbrev padded_line : GridLine
padded_line = record {
  cells = record default_cell { flags = 12 } ∷ record default_cell { flags = 4 } ∷ [];
  utf8 = [];
  flags = 0;
}

abbrev padded : Screen
padded = record (init none 2 3 100) {
  grid = record ((init none 2 3 100).grid) { lines = padded_line ∷ padded_line ∷ padded_line ∷ [] };
}

padded-IsSound : IsSound 0 3 padded
unfolding init clear_lines create
padded-IsSound = record {
  tall = refl;
  allocated = omega arith;
  spare = omega arith;
  limited = omega arith;
  wide = omega arith;
  narrow = omega arith;
  on_line = omega arith;
  column = omega arith;
  ordered = omega arith;
  inside = omega arith;
  a_bit_each = refl;
}

padded_ends : write_cell world.unset padded default_cell none ≡ none
unfolding write_cell init clear_lines create view_peek_cell peek_cell view_peek_utf8 peek_utf8
padded_ends = refl
