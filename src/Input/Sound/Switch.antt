-- ===== src/Input/Sound/Switch.antt =====
-- input.c: leaving and entering a state of the parser keep a pane in order.
use tmux_cvs_archived.Prelude.{
  ℕ, ◌∙◌, ap, ◌≡◌, refl, Bool, true, false, Option, none, some, List, [], ltb, ◌==◌, if◌then◌else◌,
  length, get_or, arith, ◌&&◌, ◌||◌,
}
use tmux_cvs_archived.Screen.{Screen, set_title, set_cursor_colour}
use tmux_cvs_archived.Screen.Sound.{IsSound}
use tmux_cvs_archived.Screen.Sound.Lines.{if-IsSound}
use tmux_cvs_archived.Pane.{
  State, ground_state, esc_enter, esc_intermediate, csi_enter, csi_parameter, csi_intermediate,
  csi_ignore, dcs_enter, dcs_parameter, dcs_intermediate, dcs_handler, dcs_escape, dcs_ignore,
  osc_string, apc_string, rename_string, consume_st, utf8_three, utf8_two, utf8_one, World, Pane,
  with_base,
}
use tmux_cvs_archived.Pane.Sound.{IsSoundPane, wanted}
use tmux_cvs_archived.Input.Sound.{wanted_after, IsPending, IsReady}
use tmux_cvs_archived.Input.Parse.{
  with_ictx, clear, osc, osc_option, skip_semicolon, exit_osc, exit_state, enter_state,
  switch_state,
}

set_title-IsSound :
    {room height : ℕ} (bufsiz : ℕ) (s : Screen) (title : List ℕ)
    → IsSound room height s
    → IsSound room height (set_title bufsiz s title)
set_title-IsSound bufsiz s title v = ground arith

colour-IsSound :
    {room height : ℕ} (s : Screen) (colour : List ℕ)
    → IsSound room height s
    → IsSound room height (set_cursor_colour s colour)
colour-IsSound s colour v = ground arith

osc-IsSound :
    {room height : ℕ} (w : World) (option : ℕ) (text : List ℕ) (s : Screen)
    → IsSound room height s
    → IsSound room height (osc w option text s)
osc-IsSound w option text s v =
    if-IsSound (option == 0 || option == 2) (set_title-IsSound w.bufsiz s text v) (
      if-IsSound (option == 12) (colour-IsSound s text v)
        (if-IsSound (option == 112 && length text == 0) (colour-IsSound s [] v) v))

-- A pane that is in order where `p` is, with the same parser.
record IsLike (room height : ℕ) (st : State) (p q : Pane) : Type 0 where
  pane : IsSoundPane room height st p → IsSoundPane room height st q
  ictx : q.ictx ≡ p.ictx

module _ {room height : ℕ} {here : State} where
  IsLike-refl : (p : Pane) → IsLike room height here p p
  IsLike-refl p = record { pane = λ v. v; ictx = refl }

  if-IsLike :
      {p q r : Pane} (b : Bool)
      → IsLike room height here p q
      → IsLike room height here p r
      → IsLike room height here p (if b then q else r)
  if-IsLike true u v = u
  if-IsLike false u v = v

  IsLike-screen :
      (p : Pane) {s : Screen}
      → (IsSound room height p.base → IsSound room height s)
      → IsLike room height here p (with_base p s)
  IsLike-screen p h = record {
    pane = λ v. record {
      screen = h v.screen;
      saved = v.saved;
      cell = v.cell;
      old_cell = v.old_cell;
      state = v.state;
    };
    ictx = refl;
  }

  exit_osc-IsLike : (w : World) (p : Pane) → IsLike room height here p (exit_osc w p)
  unfolding exit_osc
  exit_osc-IsLike w p =
      let first = get_or p.ictx.input 0 0 in
      let parsed = osc_option p.ictx.input 0 in
      if-IsLike (p.ictx.discard || length p.ictx.input == 0 || ltb first b'0' || ltb b'9' first)
        (IsLike-refl p) (IsLike-screen p (osc-IsSound w parsed.0 (skip_semicolon parsed.1) p.base))

  exit_state-IsLike :
      (w : World) (st : State) (p : Pane) → IsLike room height here p (exit_state w st p)
  unfolding exit_state
  exit_state-IsLike w ground_state p = IsLike-refl p
  exit_state-IsLike w esc_enter p = IsLike-refl p
  exit_state-IsLike w esc_intermediate p = IsLike-refl p
  exit_state-IsLike w csi_enter p = IsLike-refl p
  exit_state-IsLike w csi_parameter p = IsLike-refl p
  exit_state-IsLike w csi_intermediate p = IsLike-refl p
  exit_state-IsLike w csi_ignore p = IsLike-refl p
  exit_state-IsLike w dcs_enter p = IsLike-refl p
  exit_state-IsLike w dcs_parameter p = IsLike-refl p
  exit_state-IsLike w dcs_intermediate p = IsLike-refl p
  exit_state-IsLike w dcs_handler p = IsLike-refl p
  exit_state-IsLike w dcs_escape p = IsLike-refl p
  exit_state-IsLike w dcs_ignore p = IsLike-refl p
  exit_state-IsLike w osc_string p = exit_osc-IsLike w p
  exit_state-IsLike w apc_string p =
      if-IsLike p.ictx.discard (IsLike-refl p)
        (IsLike-screen p (set_title-IsSound w.bufsiz p.base p.ictx.input))
  exit_state-IsLike w rename_string p = if-IsLike _ (IsLike-refl p) (record {
    pane = λ v. record {
      screen = v.screen;
      saved = v.saved;
      cell = v.cell;
      old_cell = v.old_cell;
      state = v.state;
    };
    ictx = refl;
  })
  exit_state-IsLike w consume_st p = IsLike-refl p
  exit_state-IsLike w utf8_three p = IsLike-refl p
  exit_state-IsLike w utf8_two p = IsLike-refl p
  exit_state-IsLike w utf8_one p = IsLike-refl p

-- Nothing but the buffers is cleared.
record IsCleared (p q : Pane) : Type 0 where
  pane :
      (room height : ℕ) (st : State) → IsSoundPane room height st p → IsSoundPane room height st q
  state : q.ictx.state ≡ p.ictx.state
  utf8data : q.ictx.utf8data ≡ p.ictx.utf8data

IsCleared-refl : (p : Pane) → IsCleared p p
IsCleared-refl p = record { pane = λ r h m v. v; state = refl; utf8data = refl }

clear-IsCleared : (p : Pane) → IsCleared p (with_ictx p (clear p.ictx))
clear-IsCleared p = record {
  pane = λ r h m v. record {
    screen = v.screen;
    saved = v.saved;
    cell = v.cell;
    old_cell = v.old_cell;
    state = v.state;
  };
  state = refl;
  utf8data = refl;
}

enter_state-IsCleared : (st : State) (p : Pane) → IsCleared p (enter_state st p)
unfolding enter_state
enter_state-IsCleared ground_state p = IsCleared-refl p
enter_state-IsCleared esc_enter p = clear-IsCleared p
enter_state-IsCleared esc_intermediate p = IsCleared-refl p
enter_state-IsCleared csi_enter p = clear-IsCleared p
enter_state-IsCleared csi_parameter p = IsCleared-refl p
enter_state-IsCleared csi_intermediate p = IsCleared-refl p
enter_state-IsCleared csi_ignore p = IsCleared-refl p
enter_state-IsCleared dcs_enter p = clear-IsCleared p
enter_state-IsCleared dcs_parameter p = IsCleared-refl p
enter_state-IsCleared dcs_intermediate p = IsCleared-refl p
enter_state-IsCleared dcs_handler p = IsCleared-refl p
enter_state-IsCleared dcs_escape p = IsCleared-refl p
enter_state-IsCleared dcs_ignore p = IsCleared-refl p
enter_state-IsCleared osc_string p = clear-IsCleared p
enter_state-IsCleared apc_string p = clear-IsCleared p
enter_state-IsCleared rename_string p = clear-IsCleared p
enter_state-IsCleared consume_st p = IsCleared-refl p
enter_state-IsCleared utf8_three p = IsCleared-refl p
enter_state-IsCleared utf8_two p = IsCleared-refl p
enter_state-IsCleared utf8_one p = IsCleared-refl p

-- The parser goes on to the next state, if the transition has one.
pub switch_state-IsReady :
    {room height : ℕ} {st : State} (w : World) (next : Option State) (p : Pane)
    → IsSoundPane room height st p
    → IsPending (wanted_after (wanted st) next) p.ictx.utf8data
    → IsReady room height (switch_state w next p)
unfolding switch_state
switch_state-IsReady w none p v pending = record {
  pane = record {
    screen = v.screen;
    saved = v.saved;
    cell = v.cell;
    old_cell = v.old_cell;
    state = refl;
  };
  pending = rw v.state pending;
}
switch_state-IsReady {room} {height} {st} w (some next) p v pending =
    let exit = exit_state-IsLike {room = room} {height = height} {here = st} w p.ictx.state p in
    let left = exit_state w p.ictx.state p in
    let u = exit.pane v in
    let moved = with_ictx left (record (left.ictx) { state = next }) in
    let m : IsSoundPane room height next moved = record {
      screen = u.screen;
      saved = u.saved;
      cell = u.cell;
      old_cell = u.old_cell;
      state = refl;
    } in
    let enter = enter_state-IsCleared next moved in
    let same : (enter_state next moved).ictx.utf8data ≡ p.ictx.utf8data =
      enter.utf8data ∙ ap (λ c. c.utf8data) exit.ictx in
    record {
      pane = rw enter.state (enter.pane room height next m);
      pending = rw (enter.state, same) pending;
    }

abbrev pub state_after : State → Option State → State
state_after st none = st
state_after st (some next) = next

pub switch_state-state :
    (w : World) (next : Option State) (p : Pane)
    → (switch_state w next p).ictx.state ≡ state_after p.ictx.state next
unfolding switch_state
switch_state-state w none p = refl
switch_state-state w (some next) p = (enter_state-IsCleared next _).state
