-- ===== src/Input/Parse.antt =====
-- input.c: `input_parse`.
use Prim.Native.Nat.{bit_and, bit_or}
use tmux_cvs_archived.Prelude.{
  ℕ, ◌+◌, ◌*◌, ◌-◌, ◌%◌, ◌^◌, Bool, true, false, ◌&&◌, ◌||◌, Option, none, some, ◌>>=◌, List, [],
  ◌∷◌, ◌++◌, ltb, leb, ◌==◌, if◌then◌else◌, length, get_or,
}
use tmux_cvs_archived.Utf8.{open_utf8, append}
use tmux_cvs_archived.Grid.{default_cell}
use tmux_cvs_archived.Screen.{Screen, set_title, set_cursor_colour}
use tmux_cvs_archived.Screen.Write.{write_cell, grid_flag_utf8}
use tmux_cvs_archived.Pane.{
  World, Context, Pane, State, with_base, with_cell, ground_state, esc_enter, csi_enter, dcs_enter,
  osc_string, apc_string, rename_string,
}
use tmux_cvs_archived.Input.{
  Handler, c0_dispatch, print, intermediate, parameter, input, esc_dispatch, csi_dispatch,
  dcs_dispatch, utf8_open, utf8_add, utf8_close, transitions, find_transition,
}
use tmux_cvs_archived.Input.Escape as Escape
use tmux_cvs_archived.Input.Csi as Csi

abbrev pub with_ictx : Pane → Context → Pane
with_ictx p c = record p { ictx = c }

-- `input_init`; the buffers for input and UTF-8 are not set there.
unfoldable pub init : Context
init = record {
  cell = default_cell;
  old_cell = default_cell;
  old_cx = 0;
  old_cy = 0;
  interm = [];
  param = [];
  input = [];
  utf8data = record { bytes = []; size = 0; width = 0 };
  discard = false;
  state = ground_state;
}

-- The fields above of a pane that `window_pane_create` has made, with `input_init`, for a screen, the
-- window's name and its option automatic-rename.
unfoldable pub fresh_pane : Screen → List ℕ → Bool → Pane
unfolding init
fresh_pane s name automatic = record {
  base = s;
  saved = none;
  ictx = init;
  replies = [];
  redraw = false;
  bell = false;
  name = name;
  automatic_rename = automatic;
}

-- `input_clear`
abbrev pub clear : Context → Context
clear c = record c { interm = []; param = []; input = []; discard = false }

-- `input_intermediate`, `input_parameter` and `input_input`: a byte more, or INPUT_DISCARD where
-- the buffer is full.
abbrev pub add_interm : ℕ → Context → Context
add_interm ch c =
    if length c.interm == 3
    then record c { discard = true }
    else record c { interm = c.interm ++ (ch ∷ []) }

abbrev pub add_param : ℕ → Context → Context
add_param ch c =
    if length c.param == 63
    then record c { discard = true }
    else record c { param = c.param ++ (ch ∷ []) }

abbrev pub add_input : ℕ → Context → Context
add_input ch c =
    if length c.input == 255
    then record c { discard = true }
    else record c { input = c.input ++ (ch ∷ []) }

-- The digits at the start of an OSC string, as an `int` that wraps around, and what is behind them.
pub osc_option : List ℕ → ℕ → ℕ × List ℕ
osc_option [] option = (option, [])
osc_option (c ∷ cs) option =
    let further = osc_option cs ((option * 10 + (c - b'0')) % 2 ^ 32) in
    if leb b'0' c && leb c b'9' then further else (option, c ∷ cs)

abbrev pub skip_semicolon : List ℕ → List ℕ
skip_semicolon [] = []
skip_semicolon (c ∷ cs) = if c == b';' then cs else c ∷ cs

-- The `switch` of `input_exit_osc`.
abbrev pub osc : World → ℕ → List ℕ → Screen → Screen
osc w option text s =
    if option == 0 || option == 2
    then set_title w.bufsiz s text
    else if option == 12
    then set_cursor_colour s text
    else if option == 112 && length text == 0
    then set_cursor_colour s []
    else s

-- `input_exit_osc`
unfoldable pub exit_osc : World → Pane → Pane
unfolding osc_option
exit_osc w p =
    let first = get_or p.ictx.input 0 0 in
    let (option, rest) = osc_option p.ictx.input 0 in
    if p.ictx.discard || length p.ictx.input == 0 || ltb first b'0' || ltb b'9' first
    then p
    else with_base p (osc w option (skip_semicolon rest) p.base)

-- `input_exit_apc`
abbrev pub exit_apc : World → Pane → Pane
exit_apc w p = if p.ictx.discard then p else with_base p (set_title w.bufsiz p.base p.ictx.input)

-- `input_exit_rename`
abbrev pub exit_rename : Pane → Pane
exit_rename p =
    if p.ictx.discard then p else record p { name = p.ictx.input; automatic_rename = false }

-- `exit` and `enter` of a state.
unfoldable pub exit_state : World → State → Pane → Pane
unfolding exit_osc
exit_state w osc_string p = exit_osc w p
exit_state w apc_string p = exit_apc w p
exit_state w rename_string p = exit_rename p
exit_state w _ p = p

unfoldable pub enter_state : State → Pane → Pane
enter_state esc_enter p = with_ictx p (clear p.ictx)
enter_state csi_enter p = with_ictx p (clear p.ictx)
enter_state dcs_enter p = with_ictx p (clear p.ictx)
enter_state osc_string p = with_ictx p (clear p.ictx)
enter_state apc_string p = with_ictx p (clear p.ictx)
enter_state rename_string p = with_ictx p (clear p.ictx)
enter_state _ p = p

-- `input_print`; the byte stays in the parser's cell.
unfoldable pub print_byte : World → ℕ → Pane → Option Pane
print_byte w ch p =
    let gc = record (p.ictx.cell) { byte = ch } in
    write_cell w.unset p.base gc none >>= λ s. some (with_base (with_cell p gc) s)

-- `input_utf8_open`, and whether it returns -1.
unfoldable pub open_byte : World → ℕ → Pane → Option (Pane × Bool)
unfolding print_byte
open_byte w ch p =
    if w.utf8
    then (open_utf8 w.utf8_width_root ch >>= λ ud.
        some (with_ictx p (record (p.ictx) { utf8data = ud }), false))
    else (print_byte w ch p >>= λ p'. some (p', true))

-- `input_utf8_add`
unfoldable pub add_byte : World → ℕ → Pane → Option Pane
add_byte w ch p = append w.utf8_width_root p.ictx.utf8data ch >>= λ r.
    some (with_ictx p (record (p.ictx) { utf8data = r.1 }))

-- `input_utf8_close`
unfoldable pub close_byte : World → ℕ → Pane → Option Pane
unfolding add_byte
close_byte w ch p = add_byte w ch p >>= λ q.
    let gc = q.ictx.cell in
    let marked = record gc { flags = bit_or gc.flags grid_flag_utf8 } in
    write_cell w.unset q.base marked (some q.ictx.utf8data) >>= λ s.
    some (
      with_base (with_cell q (record gc { flags = bit_and marked.flags (0xff - grid_flag_utf8) }))
        s)

-- A handler that returns 0.
abbrev pub handled : Pane → Option (Pane × Bool)
handled p = some (p, false)

abbrev pub handled_option : Option Pane → Option (Pane × Bool)
handled_option none = none
handled_option (some p) = some (p, false)

-- A handler: the pane, and whether it returns other than 0; `none` where the program ends. What
-- `input_dcs_dispatch` sends to the terminal leaves the pane as it is.
unfoldable pub handle : World → Handler → ℕ → Pane → Option (Pane × Bool)
unfolding print_byte open_byte add_byte close_byte
handle w c0_dispatch ch p = handled (Escape.c0_dispatch w ch p)
handle w print ch p = handled_option (print_byte w ch p)
handle w intermediate ch p = handled (with_ictx p (add_interm ch p.ictx))
handle w parameter ch p = handled (with_ictx p (add_param ch p.ictx))
handle w input ch p = handled (with_ictx p (add_input ch p.ictx))
handle w esc_dispatch ch p = handled (Escape.esc_dispatch ch p)
handle w csi_dispatch ch p = handled (Csi.csi_dispatch w ch p)
handle w dcs_dispatch ch p = handled p
handle w utf8_open ch p = open_byte w ch p
handle w utf8_add ch p = handled_option (add_byte w ch p)
handle w utf8_close ch p = handled_option (close_byte w ch p)

abbrev pub run_handler : World → Option Handler → ℕ → Pane → Option (Pane × Bool)
run_handler w none ch p = handled p
run_handler w (some h) ch p = handle w h ch p

-- "And switch state, if necessary."
unfoldable pub switch_state : World → Option State → Pane → Pane
unfolding exit_state enter_state
switch_state w none p = p
switch_state w (some next) p =
    let left = exit_state w p.ictx.state p in
    enter_state next (with_ictx left (record (left.ictx) { state = next }))

-- The body of the loop of `input_parse`; `none` is `fatalx`, in a handler or where there is no
-- transition.
unfoldable pub parse_byte : World → Pane → ℕ → Option Pane
unfolding handle switch_state
parse_byte w p ch = find_transition (transitions p.ictx.state) ch >>= λ itr.
    run_handler w itr.handler ch p >>= λ r.
    some (if r.1 then r.0 else switch_state w itr.state (r.0))

-- The loop.
unfoldable pub parse_bytes : World → Pane → List ℕ → Option Pane
unfolding parse_byte
parse_bytes w p [] = some p
parse_bytes w p (ch ∷ rest) = parse_byte w p ch >>= λ q. parse_bytes w q rest
