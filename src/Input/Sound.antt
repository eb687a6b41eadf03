-- ===== src/Input/Sound.antt =====
-- input.c: what each step of the parser keeps.
pub mod Sgr
pub mod Escape
pub mod Csi
pub mod Switch
pub mod Parse
pub mod Bytes
pub mod Fresh
pub mod Recover
use Prim.Native.Nat.{bit_and, bit_or}
use tmux_cvs_archived.Prelude.{
  ℕ, length, zero, suc, ◌+◌, ◌-◌, ◌^◌, ◌≤◌, ◌<◌, ◌≡◌, refl, Bool, true, false, not, Option, none,
  some, List, [], ◌∷◌, ltb, leb, ◌==◌, if◌then◌else◌, arith, all_below, all_below_sound, Bool-cases,
  inl, inr, ◌&&◌, ◌||◌,
}
use tmux_cvs_archived.Utf8.{Utf8Data, open_size}
use tmux_cvs_archived.Pane.{
  State, ground_state, esc_enter, esc_intermediate, csi_enter, csi_parameter, csi_intermediate,
  csi_ignore, dcs_enter, dcs_parameter, dcs_intermediate, dcs_handler, dcs_escape, dcs_ignore,
  osc_string, apc_string, rename_string, consume_st, utf8_three, utf8_two, utf8_one, Pane,
}
use tmux_cvs_archived.Pane.Sound.{wanted, IsSoundPane}
use tmux_cvs_archived.Input.{
  Handler, utf8_open, utf8_add, utf8_close, Transition, transitions, find_transition,
}

-- The bytes that are wanted after a transition, where `missing` are before it.
abbrev pub wanted_after : ℕ → Option State → ℕ
wanted_after missing none = missing
wanted_after missing (some next) = wanted next

-- A sequence is opened where none is read, by a first byte of as many bytes as the next state wants and
-- one; a byte is added where one more is wanted, and the last one closes it. No other handler leads to
-- a state inside a sequence.
abbrev pub handler_fits : State → ℕ → Option Handler → Option State → Bool
handler_fits st ch (some utf8_open) next =
    wanted st == 0
    && (ltb 0 (wanted_after (wanted st) next) && open_size ch == wanted_after (wanted st) next + 1)
handler_fits st ch (some utf8_add) next =
    ltb 0 (wanted_after (wanted st) next) && wanted st == wanted_after (wanted st) next + 1
handler_fits st ch (some utf8_close) next = wanted st == 1 && wanted_after (wanted st) next == 0
handler_fits st ch _ next = wanted_after (wanted st) next == 0

abbrev pub transition_fits : State → ℕ → Option Transition → Bool
transition_fits st ch none = false
transition_fits st ch (some itr) = handler_fits st ch itr.handler itr.state

abbrev row_fits : State → ℕ → Bool
row_fits st ch = transition_fits st ch (find_transition (transitions st) ch)

tables_fit : (st : State) → all_below 256 (row_fits st) ≡ true
unfolding all_below transitions find_transition wanted open_size
tables_fit ground_state = refl
tables_fit esc_enter = refl
tables_fit esc_intermediate = refl
tables_fit csi_enter = refl
tables_fit csi_parameter = refl
tables_fit csi_intermediate = refl
tables_fit csi_ignore = refl
tables_fit dcs_enter = refl
tables_fit dcs_parameter = refl
tables_fit dcs_intermediate = refl
tables_fit dcs_handler = refl
tables_fit dcs_escape = refl
tables_fit dcs_ignore = refl
tables_fit osc_string = refl
tables_fit apc_string = refl
tables_fit rename_string = refl
tables_fit consume_st = refl
tables_fit utf8_three = refl
tables_fit utf8_two = refl
tables_fit utf8_one = refl

-- Each state has a transition for each byte.
pub find_transition_fits :
    (st : State) (ch : ℕ)
    → ch < 256
    → transition_fits st ch (find_transition (transitions st) ch) ≡ true
find_transition_fits st ch h = all_below_sound 256 (row_fits st) ch (tables_fit st) h

-- Where a state wants more bytes of a UTF-8 sequence, the others are there, and it is of four at most.
abbrev pub IsPending : ℕ → Utf8Data → Type 0
IsPending missing ud = 0 < missing → (length ud.bytes + missing ≡ ud.size) × (ud.size ≤ 4)

-- A pane between two bytes.
pub record IsReady (room height : ℕ) (p : Pane) : Type 0 where
  pub pane : IsSoundPane room height p.ictx.state p
  pub pending : IsPending (wanted p.ictx.state) p.ictx.utf8data
