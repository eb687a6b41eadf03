-- ===== src/Screen/Sound/Puts.antt =====
-- screen-write.c: a text that is written to a screen in order.
use tmux_cvs_archived.Prelude.{ℕ, ◌≡◌, Option, none, some, inl, inr, ◌⊎◌}
use tmux_cvs_archived.Utf8.{Utf8Data}
use tmux_cvs_archived.Grid.{GridCell, GridUtf8}
use tmux_cvs_archived.Screen.{Screen}
use tmux_cvs_archived.Screen.Sound.{IsSound}
use tmux_cvs_archived.Screen.Write.{save_last, write_cell}
use tmux_cvs_archived.Screen.Puts.{Written}
use tmux_cvs_archived.Pane.Sound.{IsPlain}

-- What a text leaves: a screen in order and a cell without GRID_FLAG_UTF8.
record IsWritten (room height : ℕ) (r : Screen × GridCell) : Type 0 where
  screen : IsSound room height (r.0)
  cell : IsPlain (r.1)

-- The screens that cells written one after the other lead to.
data Reaches (unset : GridUtf8) : Screen → Screen → Type 0 where
  here : (s : Screen) → Reaches unset s s
  by_cell :
      (s t u : Screen) (gc : GridCell) (ud : Option Utf8Data)
      → write_cell unset s gc ud ≡ some t
      → Reaches unset t u
      → Reaches unset s u

module _ (unset : GridUtf8) where
  -- Where the program ends in the middle of a text: at a screen in order that the cells before lead
  -- to, where the last cell of the cursor's line, which is to be saved before a cell is written, has
  -- no bytes, and at a cell.
  pub record EndsWriting (height : ℕ) (s : Screen) : Type 0 where
    at : Screen
    reached : Reaches unset s at
    sound : IsSound 0 height at
    unreadable : save_last at ≡ none
    gc : GridCell
    ud : Option Utf8Data
    ends : write_cell unset at gc ud ≡ none

  -- What a text leaves, or where the program ends.
  abbrev WritesOr : ℕ → ℕ → Screen → Written → Type 0
  WritesOr room height s result =
      ((r : Screen × GridCell) × (result ≡ some r)
        × IsWritten room height r
        × Reaches unset s (r.0))
      ⊎ ((result ≡ none) × EndsWriting height s)

  Reaches-trans : {s t u : Screen} → Reaches unset s t → Reaches unset t u → Reaches unset s u
  Reaches-trans (here s) way = way
  Reaches-trans (by_cell s t u gc ud e more) way = by_cell s t _ gc ud e (Reaches-trans more way)

  later :
      {height : ℕ} {s t : Screen} → Reaches unset s t → EndsWriting height t → EndsWriting height s
  later way x = record {
    at = x.at;
    reached = Reaches-trans way x.reached;
    sound = x.sound;
    unreadable = x.unreadable;
    gc = x.gc;
    ud = x.ud;
    ends = x.ends;
  }

  -- The texts go on where the pieces before lead to.
  after :
      {room height : ℕ} {s t : Screen} {result : Written}
      → Reaches unset s t
      → WritesOr room height t result
      → WritesOr room height s result
  after way x = elim x [
    | inl (r, e, u, more) ↦ inl (r, e, u, Reaches-trans way more)
    | inr (e, ends) ↦ inr (e, later way ends)
  ]
