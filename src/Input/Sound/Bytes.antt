-- ===== src/Input/Sound/Bytes.antt =====
-- input.c: `input_parse` keeps a pane in order, or meets the one null pointer of writing a cell.
use tmux_cvs_archived.Prelude.{
  ℕ, ap, ◌+◌, ◌*◌, ◌≤◌, ◌<◌, ◌≡◌, refl, ◌∙◌, Bool, true, false, Option, none, some, List, [], ◌∷◌,
  length, arith, Bool-cases, inl, inr, ◌⊎◌, ◌++◌, subst, sym,
}
use tmux_cvs_archived.Screen.Write.{save_last}
use tmux_cvs_archived.Screen.Sound.Write.{OrUnreadable}
use tmux_cvs_archived.Pane.{State, World, Pane}
use tmux_cvs_archived.Pane.Sound.{wanted, IsSoundPane, IsSoundPane-le}
use tmux_cvs_archived.Input.{Transition, transitions, find_transition}
use tmux_cvs_archived.Input.Parse.{parse_byte, parse_bytes}
use tmux_cvs_archived.Input.Sound.{IsReady, transition_fits, find_transition_fits}
use tmux_cvs_archived.Input.Sound.Parse.{opens, run_handler_found}
use tmux_cvs_archived.Input.Sound.Switch.{switch_state-IsReady, state_after, switch_state-state}

stay-IsReady :
    {room height : ℕ} {st : State} (p : Pane)
    → IsSoundPane room height st p
    → wanted st ≡ 0
    → IsReady room height p
stay-IsReady p v e = record {
  pane = record {
    screen = v.screen;
    saved = v.saved;
    cell = v.cell;
    old_cell = v.old_cell;
    state = refl;
  };
  pending = λ h. absurd (omega (arith, h, ap wanted v.state, e));
}

pub IsReady-le :
    {room height : ℕ} {less : ℕ} {p : Pane}
    → less ≤ room
    → IsReady room height p
    → IsReady less height p
IsReady-le {less = less} h v = record { pane = IsSoundPane-le less h v.pane; pending = v.pending }

abbrev pub opens_at : Option Transition → Bool
opens_at none = false
opens_at (some itr) = opens itr.handler

abbrev pub goes_to : State → Option Transition → State
goes_to st none = st
goes_to st (some itr) = state_after st itr.state

-- What a byte leaves, at a transition that the tables give: a pane in order, in the state of the
-- table where no UTF-8 character is opened.
pub record IsRead (room height : ℕ) (st : State) (found : Option Transition) (q : Pane)
    : Type 0 where
  pub ready : IsReady room height q
  pub state : opens_at found ≡ false → q.ictx.state ≡ goes_to st found

transition_found :
    {room height : ℕ} (w : World) (p : Pane) (ch : ℕ) (found : Option Transition)
    → IsReady (room + height + height) height p
    → transition_fits p.ictx.state ch found ≡ true
    → find_transition (transitions p.ictx.state) ch ≡ found
    → OrUnreadable p.base (parse_byte w p ch) (IsRead room height p.ictx.state found)
unfolding parse_byte
transition_found w p ch none v fits e = absurd (cc fits)
transition_found {room} {height} w p ch (some itr) v fits e =
    elim (run_handler_found {room = room} w p ch v.pane itr.handler itr.state v.pending fits) [
      | inr (ends, unreadable) ↦ inr (rw (e, ends) refl, unreadable)
      | inl (r, handled, u) ↦ elim (Bool-cases (r.1)) [
        | inl stays ↦ inl (
            rw (e, handled, stays)
              (
                r.0,
                refl,
                record {
                  ready = stay-IsReady (r.0) u.pane (u.stays stays).0;
                  state = λ o. absurd (cc (o, (u.stays stays).1));
                },
              ))
        | inr goes ↦ inl (
            rw (e, handled, goes)
              (
                _,
                refl,
                record {
                  ready = switch_state-IsReady w itr.state (r.0) u.pane (u.pending goes);
                  state = λ o.
                      switch_state-state w itr.state (r.0)
                      ∙ ap (λ s. state_after s itr.state) u.pane.state;
                },
              ))
      ]
    ]

-- Bytes.
abbrev pub AreBytes : List ℕ → Type 0
AreBytes [] = Unit
AreBytes (b ∷ bs) = (b < 256) × AreBytes bs

-- The state behind bytes, as the tables say, where none of them opens a UTF-8 character.
abbrev pub states_after : State → List ℕ → State
states_after st [] = st
states_after st (b ∷ bs) = states_after (goes_to st (find_transition (transitions st) b)) bs

abbrev pub NoneOpens : State → List ℕ → Type 0
NoneOpens st [] = Unit
NoneOpens st (b ∷ bs) =
    (opens_at (find_transition (transitions st) b) ≡ false)
    × NoneOpens (goes_to st (find_transition (transitions st) b)) bs

-- Where the program ends at one of the bytes: the pane `q` has read those before it and is in order,
-- the byte `b` is the one that ends it, and the last cell of the cursor's line, which is to be saved
-- before a cell is written, has no bytes.
pub record EndsUnreadable (w : World) (p : Pane) (bytes : List ℕ) (height : ℕ) : Type 0 where
  pub before : List ℕ
  pub b : ℕ
  pub after : List ℕ
  pub q : Pane
  pub split : bytes ≡ before ++ (b ∷ after)
  pub read : parse_bytes w p before ≡ some q
  pub ready : IsReady 0 height q
  pub unreadable : save_last q.base ≡ none
  pub ends : parse_byte w q b ≡ none
  pub whole : parse_bytes w p bytes ≡ none

here :
    {height : ℕ} (w : World) (p : Pane) (b : ℕ) (bs : List ℕ)
    → IsReady 0 height p
    → save_last p.base ≡ none
    → parse_byte w p b ≡ none
    → EndsUnreadable w p (b ∷ bs) height
unfolding parse_bytes
here w p b bs v f e = record {
  before = [];
  b = b;
  after = bs;
  q = p;
  split = refl;
  read = refl;
  ready = v;
  unreadable = f;
  ends = e;
  whole = rw e refl;
}

later :
    {height : ℕ} (w : World) (p q : Pane) (b : ℕ) (bs : List ℕ)
    → parse_byte w p b ≡ some q
    → EndsUnreadable w q bs height
    → EndsUnreadable w p (b ∷ bs) height
unfolding parse_bytes
later w p q b bs e x = record {
  before = b ∷ x.before;
  b = x.b;
  after = x.after;
  q = x.q;
  split = ap (λ r. b ∷ r) x.split;
  read = rw e x.read;
  ready = x.ready;
  unreadable = x.unreadable;
  ends = x.ends;
  whole = rw e x.whole;
}

-- A pane in order reads bytes, with the states of the tables where no UTF-8 character is opened; or
-- the program ends at one of them.
pub parse_bytes_found :
    (room : ℕ) {height : ℕ} (w : World) (p : Pane) (bytes : List ℕ)
    → AreBytes bytes
    → IsReady (room + length bytes * (height + height)) height p
    → ((q : Pane) × (parse_bytes w p bytes ≡ some q)
        × IsReady room height q
        × (NoneOpens p.ictx.state bytes → q.ictx.state ≡ states_after p.ictx.state bytes))
      ⊎ EndsUnreadable w p bytes height
unfolding parse_bytes
parse_bytes_found room w p [] _ v = inl (p, refl, IsReady-le (omega arith) v, λ _. refl)
parse_bytes_found room {height} w p (b ∷ bs) (byte, rest) v =
    let left = room + length bs * (height + height) in
    let found = find_transition (transitions p.ictx.state) b in
    let lines : length (b ∷ bs) * (height + height)
        ≡ length bs * (height + height) + height + height =
      grind arith in
    let more : IsReady (left + height + height) height p = IsReady-le (omega (arith, lines)) v in
    elim (transition_found {room = left} w p b found more (find_transition_fits p.ictx.state b byte)
      refl) [
        | inr (e, f) ↦ inr (here w p b bs (IsReady-le (omega arith) v) f e)
        | inl (q, parsed, u) ↦ elim (parse_bytes_found room w q bs rest u.ready) [
          | inl (r, read, ready, state) ↦ inl (
            r,
            rw parsed read,
            ready,
            λ (o, os).
                let e = u.state o in
                state (subst (λ s. NoneOpens s bs) (sym e) os) ∙ ap (λ s. states_after s bs) e,
          )
          | inr ends ↦ inr (later w p q b bs parsed ends)
        ]
      ]
