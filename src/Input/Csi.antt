-- ===== src/Input/Csi.antt =====
-- input.c: control sequences.
use tmux_cvs_archived.Prelude.{
  ℕ, zero, suc, ◌-◌, Bool, true, false, ◌&&◌, ◌||◌, Option, none, some, List, [], ◌∷◌, ◌++◌, leb,
  ◌==◌, if◌then◌else◌, length, replicate, codes, print_uint, add_uint,
}
use tmux_cvs_archived.Screen.{
  Screen, size_y, set_cursor_style, mode_insert, mode_kcursor, mode_cursor, mode_mouse_utf8,
  mode_mouse_standard, mode_mouse_button, mode_mouse_any,
}
use tmux_cvs_archived.Screen.Cursor.{
  cursor_up, cursor_down, cursor_left, cursor_right, cursor_move, scroll_region, set_mode,
  mouse_mode_off, mouse_mode_on,
}
use tmux_cvs_archived.Screen.Lines.{
  insert_character, delete_character, insert_line, delete_line, clear_line, clear_end_of_line,
  clear_start_of_line, clear_end_of_screen, clear_start_of_screen, clear_screen,
}
use tmux_cvs_archived.Pane.{World, Pane, with_base, with_cell, alternate_on, alternate_off}
use tmux_cvs_archived.Input.Sgr.{input_split, input_get, input_get_maybe, sgr}
use tmux_cvs_archived.Input.Escape.{tab_at, set_tab, find_entry}

-- `enum input_csi_type`
pub data CsiType : Type 0 where
  cbt cub cud cuf cup cuu da dch decscusr decstbm dl dsr ed el hpa ich il rm rm_private : CsiType
  sgr_type sm sm_private tbc vpa : CsiType

-- `input_csi_table`
abbrev pub csi_table : List (ℕ × List ℕ × CsiType)
csi_table =
    (b'@', [], ich)
    ∷ (b'A', [], cuu)
    ∷ (b'B', [], cud)
    ∷ (b'C', [], cuf)
    ∷ (b'D', [], cub)
    ∷ (b'G', [], hpa)
    ∷ (b'H', [], cup)
    ∷ (b'J', [], ed)
    ∷ (b'K', [], el)
    ∷ (b'L', [], il)
    ∷ (b'M', [], dl)
    ∷ (b'P', [], dch)
    ∷ (b'Z', [], cbt)
    ∷ (b'c', [], da)
    ∷ (b'd', [], vpa)
    ∷ (b'f', [], cup)
    ∷ (b'g', [], tbc)
    ∷ (b'h', [], sm)
    ∷ (b'h', codes "?", sm_private)
    ∷ (b'l', [], rm)
    ∷ (b'l', codes "?", rm_private)
    ∷ (b'm', [], sgr_type)
    ∷ (b'n', [], dsr)
    ∷ (b'q', codes " ", decscusr)
    ∷ (b'r', [], decstbm)
    ∷ []

-- The inner loop of INPUT_CSI_CBT: the tab stop before column `cx`.
unfoldable pub previous_tab : World → Screen → ℕ → ℕ
previous_tab w s zero = 0
previous_tab w s (suc n) =
    let further = previous_tab w s n in if n == 0 || tab_at w s n then n else further

-- The outer loop, `n` times at most.
unfoldable pub back_tabs : World → Screen → ℕ → ℕ → ℕ
unfolding previous_tab
back_tabs w s cx zero = cx
back_tabs w s cx (suc n) =
    let further = back_tabs w s (previous_tab w s cx) n in if cx == 0 then 0 else further

-- `input_reply`
abbrev pub reply : Pane → List ℕ → Pane
reply p text = record p { replies = p.replies ++ text }

abbrev pub escaped : List ℕ → List ℕ
escaped text = 0x1b ∷ text

-- INPUT_CSI_DSR
abbrev pub report : ℕ → Pane → Pane
report n p =
    if n == 5
    then reply p (escaped (codes "[0n"))
    else if n == 6
    then reply p (
        escaped (
          codes "["
          ++ (print_uint (add_uint p.base.cy 1)
              ++ (codes ";" ++ (print_uint (add_uint p.base.cx 1) ++ codes "R")))))
    else p

-- INPUT_CSI_RM and INPUT_CSI_SM; `none` is -1.
abbrev pub ansi_mode : Bool → Option ℕ → Pane → Pane
ansi_mode state none p = p
ansi_mode state (some n) p = if n == 4 then with_base p (set_mode mode_insert p.base state) else p

abbrev pub home_and_clear : Pane → Pane
home_and_clear p = with_base p (clear_screen (cursor_move p.base 0 0))

-- INPUT_CSI_RM_PRIVATE
unfoldable pub reset_private : World → Option ℕ → Pane → Pane
reset_private w none p = p
reset_private w (some n) p =
    if n == 1
    then with_base p (set_mode mode_kcursor p.base false)
    else if n == 3
    then home_and_clear p
    else if n == 25
    then with_base p (set_mode mode_cursor p.base false)
    else if leb 1000 n && leb n 1003
    then with_base p (mouse_mode_off p.base)
    else if n == 1005
    then with_base p (set_mode mode_mouse_utf8 p.base false)
    else if n == 1049
    then alternate_off w p
    else p

-- INPUT_CSI_SM_PRIVATE
unfoldable pub set_private : World → Option ℕ → Pane → Pane
set_private w none p = p
set_private w (some n) p =
    if n == 1
    then with_base p (set_mode mode_kcursor p.base true)
    else if n == 3
    then home_and_clear p
    else if n == 25
    then with_base p (set_mode mode_cursor p.base true)
    else if n == 1000
    then with_base p (mouse_mode_on p.base mode_mouse_standard)
    else if n == 1002
    then with_base p (mouse_mode_on p.base mode_mouse_button)
    else if n == 1003
    then with_base p (mouse_mode_on p.base mode_mouse_any)
    else if n == 1005
    then with_base p (set_mode mode_mouse_utf8 p.base true)
    else if n == 1049
    then alternate_on w p
    else p

-- INPUT_CSI_ED, INPUT_CSI_EL and INPUT_CSI_TBC
abbrev pub erase_display : ℕ → Screen → Screen
erase_display n s =
    if n == 0
    then clear_end_of_screen s
    else if n == 1
    then clear_start_of_screen s
    else if n == 2
    then clear_screen s
    else s

abbrev pub erase_line : ℕ → Screen → Screen
erase_line n s =
    if n == 0
    then clear_end_of_line s
    else if n == 1
    then clear_start_of_line s
    else if n == 2
    then clear_line s
    else s

abbrev pub clear_tabs : ℕ → Screen → Screen
clear_tabs n s =
    if n == 0
    then set_tab s false
    else if n == 3
    then record s { tabs = replicate (length s.tabs) false }
    else s

-- The types that only change the screen.
unfoldable pub on_screen : World → CsiType → List (Option ℕ) → Screen → Screen
unfolding back_tabs
on_screen w cbt ps s = record s { cx = back_tabs w s s.cx (input_get ps 0 1 1) }
on_screen w cub ps s = cursor_left s (input_get ps 0 1 1)
on_screen w cud ps s = cursor_down s (input_get ps 0 1 1)
on_screen w cuf ps s = cursor_right s (input_get ps 0 1 1)
on_screen w cup ps s = cursor_move s (input_get ps 1 1 1 - 1) (input_get ps 0 1 1 - 1)
on_screen w cuu ps s = cursor_up s (input_get ps 0 1 1)
on_screen w dch ps s = delete_character s (input_get ps 0 1 1)
on_screen w decstbm ps s =
    scroll_region s (input_get ps 0 1 1 - 1) (input_get ps 1 1 (size_y s) - 1)
on_screen w dl ps s = delete_line s (input_get ps 0 1 1)
on_screen w ed ps s = erase_display (input_get ps 0 0 0) s
on_screen w el ps s = erase_line (input_get ps 0 0 0) s
on_screen w hpa ps s = cursor_move s (input_get ps 0 1 1 - 1) s.cy
on_screen w ich ps s = insert_character s (input_get ps 0 1 1)
on_screen w il ps s = insert_line s (input_get ps 0 1 1)
on_screen w tbc ps s = clear_tabs (input_get ps 0 0 0) s
on_screen w vpa ps s = cursor_move s s.cx (input_get ps 0 1 1 - 1)
on_screen w decscusr ps s = set_cursor_style s (input_get ps 0 0 0)
on_screen w da ps s = s
on_screen w dsr ps s = s
on_screen w rm ps s = s
on_screen w rm_private ps s = s
on_screen w sgr_type ps s = s
on_screen w sm ps s = s
on_screen w sm_private ps s = s

-- The `switch` of `input_csi_dispatch`.
unfoldable pub control : World → CsiType → List (Option ℕ) → Pane → Pane
unfolding on_screen reset_private set_private
control w da ps p = if input_get ps 0 0 0 == 0 then reply p (escaped (codes "[?1;2c")) else p
control w dsr ps p = report (input_get ps 0 0 0) p
control w rm ps p = ansi_mode false (input_get_maybe ps 0) p
control w sm ps p = ansi_mode true (input_get_maybe ps 0) p
control w rm_private ps p = reset_private w (input_get_maybe ps 0) p
control w sm_private ps p = set_private w (input_get_maybe ps 0) p
control w sgr_type ps p = with_cell p (sgr ps p.ictx.cell)
control w type ps p = with_base p (on_screen w type ps p.base)

-- `input_csi_dispatch`
unfoldable pub csi_dispatch : World → ℕ → Pane → Pane
unfolding control
csi_dispatch w ch p = if p.ictx.discard then p else elim (input_split w p.ictx.param) [
  | none ↦ p
  | some ps ↦ elim (find_entry csi_table ch p.ictx.interm) [
    | none ↦ p
    | some type ↦ control w type ps p
  ]
]
