-- ===== src/Input/Sound/Recover.antt =====
-- input.c: the state machine comes back to its first state.
use tmux_cvs_archived.Prelude.{
  ℕ, ◌+◌, ◌*◌, ◌≡◌, refl, ◌∙◌, false, some, List, [], ◌∷◌, arith, ◌⊎◌, inl, inr,
}
use tmux_cvs_archived.Pane.{
  State, ground_state, esc_enter, esc_intermediate, csi_enter, csi_parameter, csi_intermediate,
  csi_ignore, dcs_enter, dcs_parameter, dcs_intermediate, dcs_handler, dcs_escape, dcs_ignore,
  osc_string, apc_string, rename_string, consume_st, utf8_three, utf8_two, utf8_one, World, Pane,
}
use tmux_cvs_archived.Input.{transitions, find_transition}
use tmux_cvs_archived.Input.Parse.{parse_bytes}
use tmux_cvs_archived.Input.Sound.{IsReady}
use tmux_cvs_archived.Input.Sound.Bytes.{
  opens_at, states_after, NoneOpens, parse_bytes_found, EndsUnreadable,
}

-- Neither of the two bytes opens a UTF-8 character.
escape_opens : (st : State) → opens_at (find_transition (transitions st) 0x1b) ≡ false
unfolding transitions find_transition
escape_opens ground_state = refl
escape_opens esc_enter = refl
escape_opens esc_intermediate = refl
escape_opens csi_enter = refl
escape_opens csi_parameter = refl
escape_opens csi_intermediate = refl
escape_opens csi_ignore = refl
escape_opens dcs_enter = refl
escape_opens dcs_parameter = refl
escape_opens dcs_intermediate = refl
escape_opens dcs_handler = refl
escape_opens dcs_escape = refl
escape_opens dcs_ignore = refl
escape_opens osc_string = refl
escape_opens apc_string = refl
escape_opens rename_string = refl
escape_opens consume_st = refl
escape_opens utf8_three = refl
escape_opens utf8_two = refl
escape_opens utf8_one = refl

backslash_opens : (st : State) → opens_at (find_transition (transitions st) 0x5c) ≡ false
unfolding transitions find_transition
backslash_opens ground_state = refl
backslash_opens esc_enter = refl
backslash_opens esc_intermediate = refl
backslash_opens csi_enter = refl
backslash_opens csi_parameter = refl
backslash_opens csi_intermediate = refl
backslash_opens csi_ignore = refl
backslash_opens dcs_enter = refl
backslash_opens dcs_parameter = refl
backslash_opens dcs_intermediate = refl
backslash_opens dcs_handler = refl
backslash_opens dcs_escape = refl
backslash_opens dcs_ignore = refl
backslash_opens osc_string = refl
backslash_opens apc_string = refl
backslash_opens rename_string = refl
backslash_opens consume_st = refl
backslash_opens utf8_three = refl
backslash_opens utf8_two = refl
backslash_opens utf8_one = refl

abbrev terminators : List ℕ
terminators = 0x1b ∷ 0x5c ∷ 0x1b ∷ 0x5c ∷ []

twice : (st : State) → states_after st terminators ≡ ground_state
unfolding transitions find_transition
twice ground_state = refl
twice esc_enter = refl
twice esc_intermediate = refl
twice csi_enter = refl
twice csi_parameter = refl
twice csi_intermediate = refl
twice csi_ignore = refl
twice dcs_enter = refl
twice dcs_parameter = refl
twice dcs_intermediate = refl
twice dcs_handler = refl
twice dcs_escape = refl
twice dcs_ignore = refl
twice osc_string = refl
twice apc_string = refl
twice rename_string = refl
twice consume_st = refl
twice utf8_three = refl
twice utf8_two = refl
twice utf8_one = refl

-- From any state, also in the middle of a string, a sequence or a UTF-8 character, the string
-- terminator (ESC and a backslash) sent twice brings the parser of a pane in order back to its ground
-- state, and the pane stays in order; or the program ends at the one null pointer of writing a cell,
-- where the last cell of the cursor's line is marked as UTF-8 and has no bytes. The history limit is
-- not 0, and there is room in 32 bits for a history longer by eight times the pane's lines.
pub terminator_recovers :
    (room : ℕ) {height : ℕ} (w : World) (p : Pane)
    → IsReady (room + 4 * (height + height)) height p
    → ((q : Pane) × (parse_bytes w p (0x1b ∷ 0x5c ∷ 0x1b ∷ 0x5c ∷ []) ≡ some q)
        × IsReady room height q
        × (q.ictx.state ≡ ground_state))
      ⊎ EndsUnreadable w p (0x1b ∷ 0x5c ∷ 0x1b ∷ 0x5c ∷ []) height
terminator_recovers room w p v =
    elim (parse_bytes_found room w p terminators
      (omega arith, (omega arith, (omega arith, (omega arith, tt)))) v) [
        | inl (q, read, ready, state) ↦
            let st = p.ictx.state in
            let opens : NoneOpens st terminators =
              (escape_opens st, (backslash_opens _, (escape_opens _, (backslash_opens _, tt)))) in
            inl (q, read, ready, state opens ∙ twice st)
        | inr ends ↦ inr ends
      ]
