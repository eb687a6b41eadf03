-- ===== src/Input/Sound/Csi.antt =====
-- input.c: control sequences keep a pane in order.
use tmux_cvs_archived.Prelude.{
  ℕ, zero, suc, ◌+◌, ◌≤◌, Bool, true, false, Option, none, some, List, leb, ◌==◌, length, replicate,
  length-replicate, arith, ◌&&◌,
}
use tmux_cvs_archived.Screen.{Screen, set_cursor_style}
use tmux_cvs_archived.Screen.Sound.{
  IsSound, IsSound-le, cursor_up-IsSound, cursor_down-IsSound, cursor_left-IsSound,
  cursor_right-IsSound, cursor_move-IsSound, scroll_region-IsSound,
}
use tmux_cvs_archived.Screen.Sound.Lines.{
  if-IsSound, insert_character-IsSound, delete_character-IsSound, insert_line-IsSound,
  delete_line-IsSound, clear_line-IsSound, clear_end_of_line-IsSound, clear_start_of_line-IsSound,
  clear_screen-IsSound, clear_end_of_screen-IsSound, clear_start_of_screen-IsSound,
}
use tmux_cvs_archived.Pane.{State, World, Pane, with_base}
use tmux_cvs_archived.Pane.Sound.{
  IsSoundPane, IsSoundPane-le, if-IsSoundPane, with_base-IsSoundPane, with_cell-IsSoundPane,
  alternate_on-IsSoundPane, alternate_off-IsSoundPane,
}
use tmux_cvs_archived.Input.Sgr.{input_get, input_get_maybe}
use tmux_cvs_archived.Input.Csi.{
  CsiType, cbt, cub, cud, cuf, cup, cuu, da, dch, decscusr, decstbm, dl, dsr, ed, el, hpa, ich, il,
  rm, rm_private, sgr_type, sm, sm_private, tbc, vpa, previous_tab, back_tabs, reply, report,
  ansi_mode, home_and_clear, reset_private, set_private, erase_display, erase_line, clear_tabs,
  on_screen, control, csi_dispatch,
}
use tmux_cvs_archived.Input.Sound.Sgr.{sgr-IsPlain}
use tmux_cvs_archived.Input.Sound.Escape.{set_mode-IsSound, moved_to-IsSound, set_tab-IsSound}

previous_tab-le : (w : World) (s : Screen) (n : ℕ) → previous_tab w s n ≤ n
unfolding previous_tab
previous_tab-le w s zero = omega arith
previous_tab-le w s (suc n) = ground (arith, previous_tab-le w s n)

back_tabs-le : (w : World) (s : Screen) (cx n : ℕ) → back_tabs w s cx n ≤ cx
unfolding back_tabs
back_tabs-le w s cx zero = omega arith
back_tabs-le w s cx (suc n) =
    ground (arith, back_tabs-le w s (previous_tab w s cx) n, previous_tab-le w s cx)

no_tabs-IsSound :
    {room height : ℕ} (s : Screen)
    → IsSound room height s
    → IsSound room height (record s { tabs = replicate (length s.tabs) false })
no_tabs-IsSound s v = ground (arith, length-replicate (length s.tabs) false)

clear_tabs-IsSound :
    {room height : ℕ} (s : Screen) (n : ℕ)
    → IsSound room height s
    → IsSound room height (clear_tabs n s)
clear_tabs-IsSound s n v =
    if-IsSound _ (set_tab-IsSound s false v) (if-IsSound _ (no_tabs-IsSound s v) v)

style-IsSound :
    {room height : ℕ} (s : Screen) (n : ℕ)
    → IsSound room height s
    → IsSound room height (set_cursor_style s n)
unfolding set_cursor_style
style-IsSound s n v = ground arith

module _ {room height : ℕ} (w : World) (s : Screen) (v : IsSound (room + height) height s) where
  less : IsSound room height s
  less = IsSound-le room (omega arith) v

  erase_display-IsSound : (n : ℕ) → IsSound room height (erase_display n s)
  erase_display-IsSound n = if-IsSound _ (clear_end_of_screen-IsSound s v) (
      if-IsSound _ (clear_start_of_screen-IsSound s less)
        (if-IsSound _ (clear_screen-IsSound s v) less))

  erase_line-IsSound : (n : ℕ) → IsSound room height (erase_line n s)
  erase_line-IsSound n = if-IsSound _ (clear_end_of_line-IsSound s less) (
      if-IsSound _ (clear_start_of_line-IsSound s less)
        (if-IsSound _ (clear_line-IsSound s less) less))

  on_screen-IsSound :
      (type : CsiType) (ps : List (Option ℕ)) → IsSound room height (on_screen w type ps s)
  unfolding on_screen
  on_screen-IsSound cbt ps =
      moved_to-IsSound s _ less
        (omega (arith, back_tabs-le w s s.cx (input_get ps 0 1 1), v.column))
  on_screen-IsSound cub ps = cursor_left-IsSound s less _
  on_screen-IsSound cud ps = cursor_down-IsSound s less _
  on_screen-IsSound cuf ps = cursor_right-IsSound s less _
  on_screen-IsSound cup ps = cursor_move-IsSound s less _ _
  on_screen-IsSound cuu ps = cursor_up-IsSound s less _
  on_screen-IsSound dch ps = delete_character-IsSound s less _
  on_screen-IsSound decstbm ps = scroll_region-IsSound s less _ _
  on_screen-IsSound dl ps = delete_line-IsSound s less _
  on_screen-IsSound ed ps = erase_display-IsSound (input_get ps 0 0 0)
  on_screen-IsSound el ps = erase_line-IsSound (input_get ps 0 0 0)
  on_screen-IsSound hpa ps = cursor_move-IsSound s less _ _
  on_screen-IsSound ich ps = insert_character-IsSound s less _
  on_screen-IsSound il ps = insert_line-IsSound s less _
  on_screen-IsSound tbc ps = clear_tabs-IsSound s (input_get ps 0 0 0) less
  on_screen-IsSound vpa ps = cursor_move-IsSound s less _ _
  on_screen-IsSound decscusr ps = style-IsSound s (input_get ps 0 0 0) less
  on_screen-IsSound da ps = less
  on_screen-IsSound dsr ps = less
  on_screen-IsSound rm ps = less
  on_screen-IsSound rm_private ps = less
  on_screen-IsSound sgr_type ps = less
  on_screen-IsSound sm ps = less
  on_screen-IsSound sm_private ps = less

with_room :
    {height : ℕ} (room : ℕ) {s : Screen}
    → IsSound (room + height + height) height s
    → IsSound (room + height) height s
with_room {height} room v = IsSound-le (room + height) (omega arith) v

module _ {room height : ℕ} {st : State} (w : World) (p : Pane)
    (v : IsSoundPane (room + height + height) height st p) where
  fewer : IsSoundPane room height st p
  fewer = IsSoundPane-le room (omega arith) v

  based : (s : Screen) → IsSound room height s → IsSoundPane room height st (with_base p s)
  based s u = with_base-IsSoundPane p s v u

  mode-IsSoundPane :
      (bits : ℕ) → IsSoundPane room height st (with_base p (record (p.base) { mode = bits }))
  mode-IsSoundPane bits = based _ (set_mode-IsSound p.base bits fewer.screen)

  reply-IsSoundPane : (text : List ℕ) → IsSoundPane room height st (reply p text)
  reply-IsSoundPane text = record {
    screen = fewer.screen;
    saved = v.saved;
    cell = v.cell;
    old_cell = v.old_cell;
    state = v.state;
  }

  report-IsSoundPane : (n : ℕ) → IsSoundPane room height st (report n p)
  report-IsSoundPane n =
      if-IsSoundPane (n == 5) (reply-IsSoundPane _)
        (if-IsSoundPane (n == 6) (reply-IsSoundPane _) fewer)

  home-IsSoundPane : IsSoundPane room height st (home_and_clear p)
  home-IsSoundPane =
      based _ (clear_screen-IsSound _ (cursor_move-IsSound p.base (with_room room v.screen) 0 0))

  ansi_mode-IsSoundPane :
      (state : Bool) (n : Option ℕ) → IsSoundPane room height st (ansi_mode state n p)
  ansi_mode-IsSoundPane state none = fewer
  ansi_mode-IsSoundPane state (some n) = if-IsSoundPane _ (mode-IsSoundPane _) fewer

  reset_private-IsSoundPane : (n : Option ℕ) → IsSoundPane room height st (reset_private w n p)
  unfolding reset_private
  reset_private-IsSoundPane none = fewer
  reset_private-IsSoundPane (some n) = if-IsSoundPane (n == 1) (mode-IsSoundPane _) (
      if-IsSoundPane (n == 3) home-IsSoundPane (
        if-IsSoundPane (n == 25) (mode-IsSoundPane _) (
          if-IsSoundPane (leb 1000 n && leb n 1003) (mode-IsSoundPane _) (
            if-IsSoundPane (n == 1005) (mode-IsSoundPane _)
              (if-IsSoundPane (n == 1049) (alternate_off-IsSoundPane w p v) fewer)))))

  set_private-IsSoundPane : (n : Option ℕ) → IsSoundPane room height st (set_private w n p)
  unfolding set_private
  set_private-IsSoundPane none = fewer
  set_private-IsSoundPane (some n) = if-IsSoundPane (n == 1) (mode-IsSoundPane _) (
      if-IsSoundPane (n == 3) home-IsSoundPane (
        if-IsSoundPane (n == 25) (mode-IsSoundPane _) (
          if-IsSoundPane (n == 1000) (mode-IsSoundPane _) (
            if-IsSoundPane (n == 1002) (mode-IsSoundPane _) (
              if-IsSoundPane (n == 1003) (mode-IsSoundPane _) (
                if-IsSoundPane (n == 1005) (mode-IsSoundPane _)
                  (if-IsSoundPane (n == 1049) (alternate_on-IsSoundPane w p fewer) fewer)))))))

  screen-IsSoundPane :
      (type : CsiType) (ps : List (Option ℕ))
      → IsSoundPane room height st (with_base p (on_screen w type ps p.base))
  screen-IsSoundPane type ps =
      based _ (on_screen-IsSound w p.base (with_room room v.screen) type ps)

  control-IsSoundPane :
      (type : CsiType) (ps : List (Option ℕ)) → IsSoundPane room height st (control w type ps p)
  unfolding control
  control-IsSoundPane da ps = if-IsSoundPane _ (reply-IsSoundPane _) fewer
  control-IsSoundPane dsr ps = report-IsSoundPane (input_get ps 0 0 0)
  control-IsSoundPane rm ps = ansi_mode-IsSoundPane false (input_get_maybe ps 0)
  control-IsSoundPane sm ps = ansi_mode-IsSoundPane true (input_get_maybe ps 0)
  control-IsSoundPane rm_private ps = reset_private-IsSoundPane (input_get_maybe ps 0)
  control-IsSoundPane sm_private ps = set_private-IsSoundPane (input_get_maybe ps 0)
  control-IsSoundPane sgr_type ps =
      with_cell-IsSoundPane p _ fewer (sgr-IsPlain ps p.ictx.cell v.cell)
  control-IsSoundPane cbt ps = screen-IsSoundPane cbt ps
  control-IsSoundPane cub ps = screen-IsSoundPane cub ps
  control-IsSoundPane cud ps = screen-IsSoundPane cud ps
  control-IsSoundPane cuf ps = screen-IsSoundPane cuf ps
  control-IsSoundPane cup ps = screen-IsSoundPane cup ps
  control-IsSoundPane cuu ps = screen-IsSoundPane cuu ps
  control-IsSoundPane dch ps = screen-IsSoundPane dch ps
  control-IsSoundPane decstbm ps = screen-IsSoundPane decstbm ps
  control-IsSoundPane dl ps = screen-IsSoundPane dl ps
  control-IsSoundPane ed ps = screen-IsSoundPane ed ps
  control-IsSoundPane el ps = screen-IsSoundPane el ps
  control-IsSoundPane hpa ps = screen-IsSoundPane hpa ps
  control-IsSoundPane ich ps = screen-IsSoundPane ich ps
  control-IsSoundPane il ps = screen-IsSoundPane il ps
  control-IsSoundPane tbc ps = screen-IsSoundPane tbc ps
  control-IsSoundPane vpa ps = screen-IsSoundPane vpa ps
  control-IsSoundPane decscusr ps = screen-IsSoundPane decscusr ps

  found-IsSoundPane :
      (ps : Option (List (Option ℕ))) (type : Option CsiType)
      → IsSoundPane room height st (elim ps [
        | none ↦ p
        | some ps ↦ elim type [ none ↦ p | some type ↦ control w type ps p ]
      ])
  found-IsSoundPane none type = fewer
  found-IsSoundPane (some ps) none = fewer
  found-IsSoundPane (some ps) (some type) = control-IsSoundPane type ps

  pub csi_dispatch-IsSoundPane : (ch : ℕ) → IsSoundPane room height st (csi_dispatch w ch p)
  unfolding csi_dispatch
  csi_dispatch-IsSoundPane ch = if-IsSoundPane _ fewer (found-IsSoundPane _ _)
