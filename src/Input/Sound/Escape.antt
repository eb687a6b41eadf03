-- ===== src/Input/Sound/Escape.antt =====
-- input.c: control characters and escape sequences keep a pane in order.
use tmux_cvs_archived.Prelude.{
  ℕ, zero, suc, ◌+◌, ◌-◌, ◌^◌, ◌≤◌, ◌<◌, ◌≡◌, refl, Bool, true, false, none, some, leb, length-set,
  arith, sub_uint, Bool-cases, inl, inr,
}
use tmux_cvs_archived.Grid.{GridCell}
use tmux_cvs_archived.Screen.{Screen, size_x, size_y, reset_tabs}
use tmux_cvs_archived.Screen.Cursor.{carriage_return}
use tmux_cvs_archived.Screen.Lines.{line_feed}
use tmux_cvs_archived.Screen.Sound.{
  IsSound, IsSound-le, backspace-IsSound, cursor_move-IsSound, carriage_return-IsSound,
  scroll_region-IsSound, reset_tabs-IsSound,
}
use tmux_cvs_archived.Screen.Sound.Lines.{
  line_feed-IsSound, reverse_index-IsSound, alignment_test-IsSound, clear_screen-IsSound,
}
use tmux_cvs_archived.Pane.{State, World, Pane, with_base, with_cell}
use tmux_cvs_archived.Pane.Sound.{
  IsSoundPane, IsSoundPane-le, if-IsSoundPane, with_base-IsSoundPane, with_cell-IsSoundPane,
}
use tmux_cvs_archived.Input.Sgr.{grid_attr_charset, add_attr, drop_attr}
use tmux_cvs_archived.Input.Escape.{
  next_tab, tab, c0_dispatch, EscType, decaln, deckpam, deckpnm, decrc, decsc, hts, ind, nel, ri,
  ris, scsoff_g0, scson_g0, esc_table, find_entry, reset_screen, set_tab, escape, esc_dispatch,
}
use tmux_cvs_archived.Input.Sound.Sgr.{default-IsPlain}

-- A mode does not matter.
pub set_mode-IsSound :
    {room height : ℕ} (s : Screen) (bits : ℕ)
    → IsSound room height s
    → IsSound room height (record s { mode = bits })
set_mode-IsSound s bits v = ground arith

next_tab-le : (w : World) (s : Screen) (cx n : ℕ) → next_tab w s cx n ≤ cx + n
unfolding next_tab
next_tab-le w s cx zero = omega arith
next_tab-le w s cx (suc n) = ground (arith, next_tab-le w s (cx + 1) n)

pub moved_to-IsSound :
    {room height : ℕ} (s : Screen) (x : ℕ)
    → IsSound room height s
    → x < 2 ^ 32
    → IsSound room height (record s { cx = x })
moved_to-IsSound s x v h = ground arith

tab-IsSound :
    {room height : ℕ} (w : World) (s : Screen)
    → IsSound room height s
    → IsSound room height (tab w s)
unfolding tab
tab-IsSound w s v = elim (Bool-cases (leb (sub_uint (size_x s) 1) s.cx)) [
  | inl last ↦ rw last v
  | inr before ↦ rw before (
      moved_to-IsSound s _ v (
        ground
          (arith, before, next_tab-le w s s.cx (sub_uint (size_x s) 1 - s.cx), v.wide, v.narrow)))
]

pub set_tab-IsSound :
    {room height : ℕ} (s : Screen) (state : Bool)
    → IsSound room height s
    → IsSound room height (set_tab s state)
set_tab-IsSound s state v = ground (arith, length-set s.tabs s.cx state)

module _ {room height : ℕ} {st : State} (p : Pane)
    (v : IsSoundPane (room + height + height) height st p) where
  less : IsSoundPane room height st p
  less = IsSoundPane-le room (omega arith) v

  on_base : (s : Screen) → IsSound room height s → IsSoundPane room height st (with_base p s)
  on_base s w = with_base-IsSoundPane p s v w

  fed :
      (s : Screen)
      → IsSound (room + height + height) height s
      → IsSound room height (line_feed s false)
  fed s w = line_feed-IsSound s false (IsSound-le (room + 1) (omega (arith, w.tall, w.on_line)) w)

  charset :
      (gc : GridCell) → gc.flags ≡ p.ictx.cell.flags → IsSoundPane room height st (with_cell p gc)
  charset gc e =
      with_cell-IsSoundPane p gc less
        (record { small = rw e v.cell.small; single = rw e v.cell.single })

  pub c0_dispatch-IsSoundPane :
      (w : World) (ch : ℕ) → IsSoundPane room height st (c0_dispatch w ch p)
  unfolding c0_dispatch
  c0_dispatch-IsSoundPane w ch =
      if-IsSoundPane _
        (record {
          screen = less.screen;
          saved = v.saved;
          cell = v.cell;
          old_cell = v.old_cell;
          state = v.state;
        })
        (if-IsSoundPane _ (on_base _ (backspace-IsSound p.base less.screen)) (
          if-IsSoundPane _ (on_base _ (tab-IsSound w p.base less.screen)) (
            if-IsSoundPane _ (on_base _ (fed p.base v.screen)) (
              if-IsSoundPane _ (on_base _ (carriage_return-IsSound p.base less.screen)) (
                if-IsSoundPane _ (charset (add_attr p.ictx.cell grid_attr_charset) refl) (
                  if-IsSoundPane _ (charset (drop_attr p.ictx.cell grid_attr_charset) refl)
                    less))))))

  reset_screen-IsSound : IsSound room height (reset_screen p.base)
  reset_screen-IsSound =
      let much = IsSound-le (room + height) (omega arith) v.screen in
      let tabs = reset_tabs-IsSound p.base much in
      let t = scroll_region-IsSound (reset_tabs p.base) tabs 0 (sub_uint (size_y p.base) 1) in
      let u = set_mode-IsSound _ _ t in cursor_move-IsSound _ (clear_screen-IsSound _ u) 0 0

  escape-IsSoundPane : (type : EscType) → IsSoundPane room height st (escape type p)
  unfolding escape
  escape-IsSoundPane ris = record {
    screen = reset_screen-IsSound;
    saved = v.saved;
    cell = default-IsPlain;
    old_cell = default-IsPlain;
    state = v.state;
  }
  escape-IsSoundPane ind = on_base _ (fed p.base v.screen)
  escape-IsSoundPane nel =
      on_base _ (fed (carriage_return p.base) (carriage_return-IsSound p.base v.screen))
  escape-IsSoundPane hts = on_base _ (set_tab-IsSound p.base true less.screen)
  escape-IsSoundPane ri = on_base _ (reverse_index-IsSound p.base less.screen)
  escape-IsSoundPane deckpam = on_base _ (set_mode-IsSound p.base _ less.screen)
  escape-IsSoundPane deckpnm = on_base _ (set_mode-IsSound p.base _ less.screen)
  escape-IsSoundPane decsc = record {
    screen = less.screen;
    saved = v.saved;
    cell = v.cell;
    old_cell = v.cell;
    state = v.state;
  }
  escape-IsSoundPane decrc = record {
    screen = cursor_move-IsSound p.base less.screen _ _;
    saved = v.saved;
    cell = v.old_cell;
    old_cell = v.old_cell;
    state = v.state;
  }
  escape-IsSoundPane decaln = on_base _ (alignment_test-IsSound p.base less.screen)
  escape-IsSoundPane scson_g0 = charset (drop_attr p.ictx.cell grid_attr_charset) refl
  escape-IsSoundPane scsoff_g0 = charset (add_attr p.ictx.cell grid_attr_charset) refl

  pub esc_dispatch-IsSoundPane : (ch : ℕ) → IsSoundPane room height st (esc_dispatch ch p)
  unfolding esc_dispatch
  esc_dispatch-IsSoundPane ch =
      if-IsSoundPane _ less
        (elim (find_entry esc_table ch p.ictx.interm)
          as (λ o. IsSoundPane room height st (elim o [ none ↦ p | some type ↦ escape type p ])) [
            | none ↦ less
            | some type ↦ escape-IsSoundPane type
          ])
