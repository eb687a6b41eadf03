-- ===== src/Session.antt =====
-- session.c: a session, its windows, the current one and the stack of those before it. The groups of
-- sessions and the creation of windows are in Session/Group. Name, size, options, environment and
-- times of a session are left out.
pub mod Sound
pub mod Moves
pub mod Unlink
pub mod Back
pub mod Leave
pub mod Alerts
pub mod Group
pub mod Server
mod Tests
use tmux_cvs_archived.Prelude.{
  ℕ, zero, suc, Bool, true, false, not, Option, none, some, List, [], ◌∷◌, ◌==◌, if◌then◌else◌,
}
use tmux_cvs_archived.Winlink.{
  Winlink, alert_bits, find_by_index, next, previous, first, last, or_else, count, remove,
  clear_alerts, stack_remove, stack_push,
}

-- The windows of `struct session`: the tree, the current winlink and the stack of the last ones. A
-- pointer to a winlink is its index.
pub record Session : Type 0 where
  pub windows : List Winlink
  pub curw : Option ℕ
  pub lastw : List ℕ

-- The results 0, 1 and -1 of the moves.
pub data Moved : Type 0 where
  moved same failed : Moved

abbrev pub alerted : Winlink → Bool
alerted wl = not (alert_bits wl.flags == 0)

-- `session_next_alert` and `session_previous_alert`. Every round goes to another winlink of the
-- tree, so as many rounds as there are winlinks are enough after the first.
unfoldable pub next_alert : ℕ → List Winlink → Option Winlink → Option Winlink
next_alert fuel wwl none = none
next_alert zero wwl (some wl) = none
next_alert (suc fuel) wwl (some wl) =
    let rest = next_alert fuel wwl (next wwl wl.idx) in if alerted wl then some wl else rest

unfoldable pub previous_alert : ℕ → List Winlink → Option Winlink → Option Winlink
previous_alert fuel wwl none = none
previous_alert zero wwl (some wl) = none
previous_alert (suc fuel) wwl (some wl) =
    let rest = previous_alert fuel wwl (previous wwl wl.idx) in if alerted wl then some wl else rest

-- The end of all four moves: the winlink leaves the stack, the current one goes onto it.
unfoldable pub go : Session → ℕ → Session
unfolding clear_alerts stack_remove stack_push
go s i = record {
  windows = clear_alerts s.windows i;
  curw = some i;
  lastw = stack_push (stack_remove s.lastw i) s.curw;
}

abbrev pub is_current : Session → ℕ → Bool
is_current s i = elim (s.curw) [ none ↦ false | some c ↦ i == c ]

-- The end of a move to the winlink that was found; NULL is `none`.
unfoldable pub move_to : Session → Option Winlink → Moved × Session
unfolding go
move_to s none = (failed, s)
move_to s (some wl) = if is_current s wl.idx then (same, s) else (moved, go s wl.idx)

-- The searches of `session_next` and `session_previous`. NULL is `none`: without `alert` the code
-- goes on with RB_MIN and RB_MAX, which are not NULL, since the current winlink is in the tree.
unfoldable pub next_target : Session → ℕ → Bool → Option Winlink
unfolding next_alert next first
next_target s c false = or_else (next s.windows c) (first s.windows)
next_target s c true =
    let fuel = suc (count s.windows) in
    or_else (next_alert fuel s.windows (next s.windows c))
      (next_alert fuel s.windows (first s.windows))

unfoldable pub previous_target : Session → ℕ → Bool → Option Winlink
unfolding previous_alert previous last
previous_target s c false = or_else (previous s.windows c) (last s.windows)
previous_target s c true =
    let fuel = suc (count s.windows) in
    or_else (previous_alert fuel s.windows (previous s.windows c))
      (previous_alert fuel s.windows (last s.windows))

-- Without a current window, which is NULL, the moves fail.
from_current : Session → Option ℕ → (ℕ → Option Winlink) → Moved × Session
unfolding move_to
from_current s none target = (failed, s)
from_current s (some c) target = move_to s (target c)

-- `session_next` and `session_previous`
unfoldable pub next_window : Session → Bool → Moved × Session
unfolding next_target from_current
next_window s alert = from_current s s.curw (λ c. next_target s c alert)

unfoldable pub previous_window : Session → Bool → Moved × Session
unfolding previous_target from_current
previous_window s alert = from_current s s.curw (λ c. previous_target s c alert)

-- `session_select`, for an index that is not negative.
unfoldable pub select : Session → ℕ → Moved × Session
unfolding find_by_index move_to
select s idx = move_to s (find_by_index s.windows idx)

-- `session_last`, on the stack of the session.
to_top : Session → List ℕ → Moved × Session
unfolding go
to_top s [] = (failed, s)
to_top s (i ∷ stack) = if is_current s i then (same, s) else (moved, go s i)

unfoldable pub last_window : Session → Moved × Session
unfolding to_top
last_window s = to_top s s.lastw

abbrev pub is_moved : Moved → Bool
is_moved moved = true
is_moved same = false
is_moved failed = false

-- `if (session_last(s) != 0 && session_previous(s, 0) != 0) session_next(s, 0);`
unfoldable pub leave : Session → Session
unfolding last_window previous_window next_window
leave s =
    let l = last_window s in
    let p = previous_window l.1 false in
    if is_moved l.0 then l.1 else if is_moved p.0 then p.1 else (next_window p.1 false).1

-- `session_detach` up to the groups, for a winlink of the session: another window becomes the current
-- one, then the winlink at `i` goes.
unfoldable pub dropped : Session → ℕ → Session
unfolding clear_alerts stack_remove remove
dropped s i = record s {
  windows = remove (clear_alerts s.windows i) i;
  lastw = stack_remove s.lastw i;
}

unfoldable pub unlink : Session → ℕ → Session
unfolding leave dropped
unlink s i = dropped (if is_current s i then leave s else s) i
