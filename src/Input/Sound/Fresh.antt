-- ===== src/Input/Sound/Fresh.antt =====
-- screen.c, input.c: a new pane is in order.
use tmux_cvs_archived.Prelude.{
  ℕ, ◌+◌, ◌^◌, ◌<◌, ◌≡◌, refl, Bool, Option, List, length, length-replicate, arith, replicate, sym,
  ◌∙◌,
}
use tmux_cvs_archived.Grid.{create, clear_lines, empty_line}
use tmux_cvs_archived.Grid.Sizes.{clear_lines-Keeps}
use tmux_cvs_archived.Screen.{Screen, init, reinit}
use tmux_cvs_archived.Screen.Sound.{IsSound, length-default_tabs}
use tmux_cvs_archived.Pane.Sound.{wanted}
use tmux_cvs_archived.Input.Parse.{fresh_pane}
use tmux_cvs_archived.Input.Sound.{IsReady}
use tmux_cvs_archived.Input.Sound.Sgr.{default-IsPlain}

pub init-IsSound :
    (room : ℕ) (hostname : Option (List ℕ)) (sx sy hlimit : ℕ)
    → 0 < sx
    → sx < 2 ^ 32
    → 0 < sy
    → 0 < hlimit
    → sy + room + 1 < 2 ^ 32
    → IsSound room sy (init hostname sx sy hlimit)
unfolding init reinit create
init-IsSound room hostname sx sy hlimit a b c d e =
    let k = clear_lines-Keeps (create sx sy hlimit) 0 sy in
    let l = length-replicate sy empty_line in
    let tabs : length (init hostname sx sy hlimit).tabs
        ≡ (clear_lines (create sx sy hlimit) 0 sy).sx =
      length-default_tabs 0 sx ∙ sym k.sx in
    let lines : length (replicate sy empty_line)
        ≡ length (clear_lines (create sx sy hlimit) 0 sy).lines =
      sym k.lines in
    record {
      tall = k.sy;
      allocated = omega (arith, k.hsize, k.sy, l, lines);
      spare = omega (arith, k.hsize, k.sy, e);
      limited = omega (arith, k.hlimit, d);
      wide = omega (arith, k.sx, a);
      narrow = omega (arith, k.sx, b);
      on_line = omega (arith, k.sy, c);
      column = omega arith;
      ordered = omega arith;
      inside = omega (arith, k.sy, c, e);
      a_bit_each = tabs;
    }

pub fresh_pane-IsReady :
    {room height : ℕ} (s : Screen) (name : List ℕ) (automatic : Bool)
    → IsSound room height s
    → IsReady room height (fresh_pane s name automatic)
unfolding fresh_pane wanted
fresh_pane-IsReady s name automatic v = record {
  pane = record {
    screen = v;
    saved = tt;
    cell = default-IsPlain;
    old_cell = default-IsPlain;
    state = refl;
  };
  pending = λ h. absurd (omega (arith, h));
}
