-- ===== src/Input.antt =====
-- input.c: the state machine that reads what the program in a pane writes.
pub mod Sgr
pub mod Escape
pub mod Csi
pub mod Parse
pub mod Sequence
pub mod Position
pub mod Sound
mod Tests
use tmux_cvs_archived.Prelude.{
  ℕ, Bool, true, false, ◌&&◌, Option, none, some, List, [], ◌∷◌, ◌++◌, leb, if◌then◌else◌,
}
use tmux_cvs_archived.Pane.{
  State, ground_state, esc_enter, esc_intermediate, csi_enter, csi_parameter, csi_intermediate,
  csi_ignore, dcs_enter, dcs_parameter, dcs_intermediate, dcs_handler, dcs_escape, dcs_ignore,
  osc_string, apc_string, rename_string, consume_st, utf8_three, utf8_two, utf8_one,
}

-- The handlers that the tables name.
pub data Handler : Type 0 where
  c0_dispatch print intermediate parameter input esc_dispatch csi_dispatch dcs_dispatch : Handler
  utf8_open utf8_add utf8_close : Handler

-- `struct input_transition`; NULL is `none`.
pub record Transition : Type 0 where
  pub first : ℕ
  pub last : ℕ
  pub handler : Option Handler
  pub state : Option State

-- The four kinds of rows: with a handler, with a state, with both, and with none.
abbrev pub calls : ℕ → ℕ → Handler → Transition
calls a b h = record { first = a; last = b; handler = some h; state = none }

abbrev pub goes : ℕ → ℕ → State → Transition
goes a b s = record { first = a; last = b; handler = none; state = some s }

abbrev pub calls_goes : ℕ → ℕ → Handler → State → Transition
calls_goes a b h s = record { first = a; last = b; handler = some h; state = some s }

abbrev pub drops : ℕ → ℕ → Transition
drops a b = record { first = a; last = b; handler = none; state = none }

-- INPUT_STATE_ANYWHERE
abbrev pub anywhere : List Transition
anywhere =
    calls_goes 0x18 0x18 c0_dispatch ground_state
    ∷ calls_goes 0x1a 0x1a c0_dispatch ground_state
    ∷ goes 0x1b 0x1b esc_enter
    ∷ []

abbrev pub c0_rows : List Transition
c0_rows =
    calls 0x00 0x17 c0_dispatch ∷ calls 0x19 0x19 c0_dispatch ∷ calls 0x1c 0x1f c0_dispatch ∷ []

abbrev pub c0_drops : List Transition
c0_drops = drops 0x00 0x17 ∷ drops 0x19 0x19 ∷ drops 0x1c 0x1f ∷ []

-- `input_state_ground_table`
abbrev pub ground_table : List Transition
ground_table =
    calls 0x20 0x7e print
    ∷ drops 0x7f 0x7f
    ∷ calls 0x80 0xc1 print
    ∷ calls_goes 0xc2 0xdf utf8_open utf8_one
    ∷ calls_goes 0xe0 0xef utf8_open utf8_two
    ∷ calls_goes 0xf0 0xf4 utf8_open utf8_three
    ∷ calls 0xf5 0xff print
    ∷ []

-- `input_state_esc_enter_table` and `input_state_esc_intermediate_table`
abbrev pub esc_enter_table : List Transition
esc_enter_table =
    calls_goes 0x20 0x2f intermediate esc_intermediate
    ∷ calls_goes 0x30 0x4f esc_dispatch ground_state
    ∷ goes 0x50 0x50 dcs_enter
    ∷ calls_goes 0x51 0x57 esc_dispatch ground_state
    ∷ goes 0x58 0x58 consume_st
    ∷ calls_goes 0x59 0x59 esc_dispatch ground_state
    ∷ calls_goes 0x5a 0x5a esc_dispatch ground_state
    ∷ goes 0x5b 0x5b csi_enter
    ∷ calls_goes 0x5c 0x5c esc_dispatch ground_state
    ∷ goes 0x5d 0x5d osc_string
    ∷ goes 0x5e 0x5e consume_st
    ∷ goes 0x5f 0x5f apc_string
    ∷ calls_goes 0x60 0x6a esc_dispatch ground_state
    ∷ goes 0x6b 0x6b rename_string
    ∷ calls_goes 0x6c 0x7e esc_dispatch ground_state
    ∷ drops 0x7f 0xff
    ∷ []

abbrev pub esc_intermediate_table : List Transition
esc_intermediate_table =
    calls 0x20 0x2f intermediate
    ∷ calls_goes 0x30 0x7e esc_dispatch ground_state
    ∷ drops 0x7f 0xff
    ∷ []

-- `input_state_csi_enter_table` and the three behind it
abbrev pub csi_enter_table : List Transition
csi_enter_table =
    calls_goes 0x20 0x2f intermediate csi_intermediate
    ∷ calls_goes 0x30 0x39 parameter csi_parameter
    ∷ goes 0x3a 0x3a csi_ignore
    ∷ calls_goes 0x3b 0x3b parameter csi_parameter
    ∷ calls_goes 0x3c 0x3f intermediate csi_parameter
    ∷ calls_goes 0x40 0x7e csi_dispatch ground_state
    ∷ drops 0x7f 0xff
    ∷ []

abbrev pub csi_parameter_table : List Transition
csi_parameter_table =
    calls_goes 0x20 0x2f intermediate csi_intermediate
    ∷ calls 0x30 0x39 parameter
    ∷ goes 0x3a 0x3a csi_ignore
    ∷ calls 0x3b 0x3b parameter
    ∷ goes 0x3c 0x3f csi_ignore
    ∷ calls_goes 0x40 0x7e csi_dispatch ground_state
    ∷ drops 0x7f 0xff
    ∷ []

abbrev pub csi_intermediate_table : List Transition
csi_intermediate_table =
    calls 0x20 0x2f intermediate
    ∷ goes 0x30 0x3f csi_ignore
    ∷ calls_goes 0x40 0x7e csi_dispatch ground_state
    ∷ drops 0x7f 0xff
    ∷ []

abbrev pub csi_ignore_table : List Transition
csi_ignore_table = drops 0x20 0x3f ∷ goes 0x40 0x7e ground_state ∷ drops 0x7f 0xff ∷ []

-- `input_state_dcs_enter_table` and the five behind it
abbrev pub dcs_enter_table : List Transition
dcs_enter_table =
    calls_goes 0x20 0x2f intermediate dcs_intermediate
    ∷ calls_goes 0x30 0x39 parameter dcs_parameter
    ∷ goes 0x3a 0x3a dcs_ignore
    ∷ calls_goes 0x3b 0x3b parameter dcs_parameter
    ∷ calls_goes 0x3c 0x3f intermediate dcs_parameter
    ∷ calls_goes 0x40 0x7e input dcs_handler
    ∷ drops 0x7f 0xff
    ∷ []

abbrev pub dcs_parameter_table : List Transition
dcs_parameter_table =
    calls_goes 0x20 0x2f intermediate dcs_intermediate
    ∷ calls 0x30 0x39 parameter
    ∷ goes 0x3a 0x3a dcs_ignore
    ∷ calls 0x3b 0x3b parameter
    ∷ goes 0x3c 0x3f dcs_ignore
    ∷ calls_goes 0x40 0x7e input dcs_handler
    ∷ drops 0x7f 0xff
    ∷ []

abbrev pub dcs_intermediate_table : List Transition
dcs_intermediate_table =
    calls 0x20 0x2f intermediate
    ∷ goes 0x30 0x3f dcs_ignore
    ∷ calls_goes 0x40 0x7e input dcs_handler
    ∷ drops 0x7f 0xff
    ∷ []

abbrev pub dcs_handler_table : List Transition
dcs_handler_table = calls 0x00 0x1a input ∷ goes 0x1b 0x1b dcs_escape ∷ calls 0x1c 0xff input ∷ []

abbrev pub dcs_escape_table : List Transition
dcs_escape_table =
    calls_goes 0x00 0x5b input dcs_handler
    ∷ calls_goes 0x5c 0x5c dcs_dispatch ground_state
    ∷ calls_goes 0x5d 0xff input dcs_handler
    ∷ []

-- `input_state_osc_string_table`, `input_state_apc_string_table` (and, with the same rows,
-- `input_state_rename_string_table`), and `input_state_consume_st_table` (and
-- `input_state_dcs_ignore_table`)
abbrev pub osc_string_table : List Transition
osc_string_table =
    drops 0x00 0x06
    ∷ goes 0x07 0x07 ground_state
    ∷ drops 0x08 0x17
    ∷ drops 0x19 0x19
    ∷ drops 0x1c 0x1f
    ∷ calls 0x20 0xff input
    ∷ []

abbrev pub string_table : List Transition
string_table = calls 0x20 0xff input ∷ []

abbrev pub ignore_table : List Transition
ignore_table = drops 0x20 0xff ∷ []

-- `input_state_utf8_three_table` and the two behind it
abbrev pub utf8_three_table : List Transition
utf8_three_table =
    goes 0x00 0x7f ground_state
    ∷ calls_goes 0x80 0xbf utf8_add utf8_two
    ∷ goes 0xc0 0xff ground_state
    ∷ []

abbrev pub utf8_two_table : List Transition
utf8_two_table =
    goes 0x00 0x7f ground_state
    ∷ calls_goes 0x80 0xbf utf8_add utf8_one
    ∷ goes 0xc0 0xff ground_state
    ∷ []

abbrev pub utf8_one_table : List Transition
utf8_one_table =
    goes 0x00 0x7f ground_state
    ∷ calls_goes 0x80 0xbf utf8_close ground_state
    ∷ goes 0xc0 0xff ground_state
    ∷ []

-- `transitions` of each state.
unfoldable pub transitions : State → List Transition
transitions ground_state = anywhere ++ (c0_rows ++ ground_table)
transitions esc_enter = anywhere ++ (c0_rows ++ esc_enter_table)
transitions esc_intermediate = anywhere ++ (c0_rows ++ esc_intermediate_table)
transitions csi_enter = anywhere ++ (c0_rows ++ csi_enter_table)
transitions csi_parameter = anywhere ++ (c0_rows ++ csi_parameter_table)
transitions csi_intermediate = anywhere ++ (c0_rows ++ csi_intermediate_table)
transitions csi_ignore = anywhere ++ (c0_rows ++ csi_ignore_table)
transitions dcs_enter = anywhere ++ (c0_drops ++ dcs_enter_table)
transitions dcs_parameter = anywhere ++ (c0_drops ++ dcs_parameter_table)
transitions dcs_intermediate = anywhere ++ (c0_drops ++ dcs_intermediate_table)
transitions dcs_handler = dcs_handler_table
transitions dcs_escape = dcs_escape_table
transitions dcs_ignore = anywhere ++ (c0_drops ++ ignore_table)
transitions osc_string = anywhere ++ osc_string_table
transitions apc_string = anywhere ++ (c0_drops ++ string_table)
transitions rename_string = anywhere ++ (c0_drops ++ string_table)
transitions consume_st = anywhere ++ (c0_drops ++ ignore_table)
transitions utf8_three = utf8_three_table
transitions utf8_two = utf8_two_table
transitions utf8_one = utf8_one_table

-- The loop of `input_parse` that finds the row of a byte.
unfoldable pub find_transition : List Transition → ℕ → Option Transition
find_transition [] ch = none
find_transition (t ∷ ts) ch =
    if leb t.first ch && leb ch t.last then some t else find_transition ts ch
