-- ===== src/Input/Escape.antt =====
-- input.c: control characters and escape sequences.
use tmux_cvs_archived.Prelude.{
  ℕ, zero, suc, ◌+◌, ◌-◌, Bool, true, false, ◌&&◌, ◌||◌, Option, none, some, List, [], ◌∷◌, ltb,
  leb, ◌==◌, if◌then◌else◌, length, get_or, set, codes, sub_uint,
}
use tmux_cvs_archived.Grid.{default_cell}
use tmux_cvs_archived.Screen.{
  Screen, size_x, size_y, reset_tabs, mode_insert, mode_kcursor, mode_kkeypad,
}
use tmux_cvs_archived.Screen.Cursor.{
  backspace, carriage_return, cursor_move, scroll_region, set_mode, mouse_mode_off,
}
use tmux_cvs_archived.Screen.Lines.{line_feed, reverse_index, alignment_test, clear_screen}
use tmux_cvs_archived.Pane.{World, Pane, with_base, with_cell}
use tmux_cvs_archived.Input.Sgr.{grid_attr_charset, add_attr, drop_attr}

-- `bit_test(s->tabs, i)`: behind the array memory is read that belongs to something else.
abbrev pub tab_at : World → Screen → ℕ → Bool
tab_at w s i = if ltb i (length s.tabs) then get_or s.tabs i false else w.beyond i

-- "Find the next tab point, or use the last column if none", `n` columns being left.
unfoldable pub next_tab : World → Screen → ℕ → ℕ → ℕ
next_tab w s cx zero = cx
next_tab w s cx (suc n) =
    let further = next_tab w s (cx + 1) n in if tab_at w s (cx + 1) then cx + 1 else further

unfoldable pub tab : World → Screen → Screen
unfolding next_tab
tab w s =
    let last = sub_uint (size_x s) 1 in
    if leb last s.cx then s else record s { cx = next_tab w s s.cx (last - s.cx) }

-- `input_c0_dispatch`
unfoldable pub c0_dispatch : World → ℕ → Pane → Pane
c0_dispatch w ch p =
    let s = p.base in
    if ch == 0x07
    then record p { bell = true }
    else if ch == 0x08
    then with_base p (backspace s)
    else if ch == 0x09
    then with_base p (tab w s)
    else if ch == 0x0a || ch == 0x0b || ch == 0x0c
    then with_base p (line_feed s false)
    else if ch == 0x0d
    then with_base p (carriage_return s)
    else if ch == 0x0e
    then with_cell p (add_attr p.ictx.cell grid_attr_charset)
    else if ch == 0x0f
    then with_cell p (drop_attr p.ictx.cell grid_attr_charset)
    else p

-- `enum input_esc_type`
pub data EscType : Type 0 where
  decaln deckpam deckpnm decrc decsc hts ind nel ri ris scsoff_g0 scson_g0 : EscType

-- `input_esc_table`
abbrev pub esc_table : List (ℕ × List ℕ × EscType)
esc_table =
    (b'0', codes "(", scsoff_g0)
    ∷ (b'7', [], decsc)
    ∷ (b'8', [], decrc)
    ∷ (b'8', codes "#", decaln)
    ∷ (b'=', [], deckpam)
    ∷ (b'>', [], deckpnm)
    ∷ (b'B', codes "(", scson_g0)
    ∷ (b'D', [], ind)
    ∷ (b'E', [], nel)
    ∷ (b'H', [], hts)
    ∷ (b'M', [], ri)
    ∷ (b'c', [], ris)
    ∷ []

-- `strcmp` of two strings, as a test for equality.
unfoldable pub same_string : List ℕ → List ℕ → Bool
same_string [] [] = true
same_string [] (y ∷ ys) = false
same_string (x ∷ xs) [] = false
same_string (x ∷ xs) (y ∷ ys) = x == y && same_string xs ys

-- `bsearch` with `input_table_compare`: the entry of a table, which has each key once.
unfoldable pub find_entry {ℓ} : {A : Type ℓ} → List (ℕ × List ℕ × A) → ℕ → List ℕ → Option A
unfolding same_string
find_entry [] ch interm = none
find_entry ((c, i, type) ∷ rest) ch interm =
    if c == ch && same_string interm i then some type else find_entry rest ch interm

-- INPUT_ESC_RIS
abbrev pub reset_screen : Screen → Screen
reset_screen s =
    let t = scroll_region (reset_tabs s) 0 (sub_uint (size_y s) 1) in
    let u =
      set_mode mode_kkeypad (set_mode mode_kcursor (set_mode mode_insert t false) false) false in
    cursor_move (clear_screen (mouse_mode_off u)) 0 0

abbrev pub full_reset : Pane → Pane
full_reset p = record p {
  base = reset_screen p.base;
  ictx = record (p.ictx) { cell = default_cell; old_cell = default_cell; old_cx = 0; old_cy = 0 };
}

-- INPUT_ESC_HTS
abbrev pub set_tab : Screen → Bool → Screen
set_tab s state = if ltb s.cx (size_x s) then record s { tabs = set s.tabs s.cx state } else s

-- The `switch` of `input_esc_dispatch`.
unfoldable pub escape : EscType → Pane → Pane
escape ris p = full_reset p
escape ind p = with_base p (line_feed p.base false)
escape nel p = with_base p (line_feed (carriage_return p.base) false)
escape hts p = with_base p (set_tab p.base true)
escape ri p = with_base p (reverse_index p.base)
escape deckpam p = with_base p (set_mode mode_kkeypad p.base true)
escape deckpnm p = with_base p (set_mode mode_kkeypad p.base false)
escape decsc p = record p {
  ictx = record (p.ictx) { old_cell = p.ictx.cell; old_cx = p.base.cx; old_cy = p.base.cy };
}
escape decrc p =
    with_base (with_cell p p.ictx.old_cell) (cursor_move p.base p.ictx.old_cx p.ictx.old_cy)
escape decaln p = with_base p (alignment_test p.base)
escape scson_g0 p = with_cell p (drop_attr p.ictx.cell grid_attr_charset)
escape scsoff_g0 p = with_cell p (add_attr p.ictx.cell grid_attr_charset)

-- `input_esc_dispatch`
unfoldable pub esc_dispatch : ℕ → Pane → Pane
unfolding escape find_entry
esc_dispatch ch p =
    if p.ictx.discard
    then p
    else elim (find_entry esc_table ch p.ictx.interm) [ none ↦ p | some type ↦ escape type p ]
