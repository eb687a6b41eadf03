-- ===== src/Session/Server.antt =====
-- session.c: the sessions of the server, their windows and their groups. A session that is not there
-- is a pointer that leads nowhere: its use is `none`, as are the fatal errors.
pub mod Sessions
pub mod Pair
pub mod Synced
pub mod InLine
pub mod Resync
pub mod Attach
pub mod New
pub mod Detach
pub mod Destroy
use tmux_cvs_archived.Prelude.{
  ℕ, Bool, true, false, Option, none, some, ◌>>=◌, List, [], ◌∷◌, ◌==◌, if◌then◌else◌,
}
use tmux_cvs_archived.Session.{Session, unlink}
use tmux_cvs_archived.Session.Group.{
  Store, put, link, release, free_links, synchronize1, group_find, group_remove,
}
use tmux_cvs_archived.Winlink.{Winlink, ℤ, find_by_index, add, set_window, remove}

-- The global `sessions`, `session_groups` and `windows`.
pub record Server : Type 0 where
  pub sessions : List (ℕ × Session)
  pub groups : List (List ℕ)
  pub refs : Store

unfoldable pub find_session : List (ℕ × Session) → ℕ → Option Session
find_session [] s = none
find_session ((t, v) ∷ all) s = if t == s then some v else find_session all s

unfoldable pub put_session : List (ℕ × Session) → ℕ → Session → List (ℕ × Session)
put_session [] s v = []
put_session ((t, u) ∷ all) s v =
    let rest = (t, u) ∷ put_session all s v in if t == s then (t, v) ∷ all else rest

unfoldable pub drop_session : List (ℕ × Session) → ℕ → List (ℕ × Session)
drop_session [] s = []
drop_session ((t, u) ∷ all) s =
    let rest = (t, u) ∷ drop_session all s in if t == s then all else rest

-- `session_group_synchronize1`, on two sessions of the server.
unfoldable pub synchronize_pair : Server → ℕ → ℕ → Option Server
unfolding find_session put_session
synchronize_pair sv target s = find_session sv.sessions target >>= λ t.
    find_session sv.sessions s >>= λ v. synchronize1 t v sv.refs >>= λ (v', refs).
    some (record sv { sessions = put_session sv.sessions s v'; refs = refs })

-- The loop of `session_group_synchronize_from`.
unfoldable pub synchronize_each : Server → ℕ → List ℕ → Option Server
unfolding synchronize_pair
synchronize_each sv target [] = some sv
synchronize_each sv target (s ∷ group) =
    if s == target
    then synchronize_each sv target group
    else (synchronize_pair sv target s >>= λ sv'. synchronize_each sv' target group)

-- `session_group_synchronize_from`
unfoldable pub synchronize_from : Server → ℕ → Option Server
unfolding synchronize_each
synchronize_from sv target = elim (group_find sv.groups target) [
  | none ↦ some sv
  | some group ↦ synchronize_each sv target group
]

-- The first session of a group that is not `s`.
unfoldable pub first_other : List ℕ → ℕ → Option ℕ
first_other [] s = none
first_other (t ∷ group) s = if t == s then first_other group s else some t

-- `session_group_synchronize_to`; the code reads through NULL where there is no other session.
unfoldable pub synchronize_to : Server → ℕ → Option Server
unfolding synchronize_pair first_other
synchronize_to sv s = elim (group_find sv.groups s) [
  | none ↦ some sv
  | some group ↦ first_other group s >>= λ target. synchronize_pair sv target s
]

-- The end of `session_attach` and of `session_new`, with the winlink at `i` in the tree.
unfoldable pub attach_at : Server → ℕ → Session → ℕ → List Winlink → ℕ → Option Server
unfolding set_window link put_session synchronize_from
attach_at sv s v w added i = link sv.refs w >>= λ refs.
    let v' = record v { windows = set_window added i w } in
    synchronize_from (record sv { sessions = put_session sv.sessions s v'; refs = refs }) s

-- `session_attach`: the index of the winlink; NULL, where the index is in use, is `none` inside.
attach_with : Server → ℕ → Session → ℕ → Option (ℕ × List Winlink) → Option (Option ℕ × Server)
unfolding attach_at
attach_with sv s v w none = some (none, sv)
attach_with sv s v w (some (i, added)) = attach_at sv s v w added i >>= λ sv'. some (some i, sv')

unfoldable pub attach : Server → ℕ → ℕ → ℤ → Option (Option ℕ × Server)
unfolding find_session add attach_with
attach sv s w idx = find_session sv.sessions s >>= λ v. attach_with sv s v w (add v.windows idx)

-- `session_new`: `created` is the window that `window_create` returned, whose number no other window
-- has, or NULL, with which the winlink is taken back. Shell, environment and options are left out.
new_with : Server → ℕ → Session → Option ℕ → Option (ℕ × List Winlink) → Option (Option ℕ × Server)
unfolding attach_at remove put_session
new_with sv s v created none = some (none, sv)
new_with sv s v none (some (i, added)) =
    let v' = record v { windows = remove added i } in
    some (none, record sv { sessions = put_session sv.sessions s v' })
new_with sv s v (some w) (some (i, added)) =
    attach_at (record sv { refs = put sv.refs w (some 0) }) s v w added i >>= λ sv'.
    some (some i, sv')

unfoldable pub new_window : Server → ℕ → ℤ → Option ℕ → Option (Option ℕ × Server)
unfolding find_session add new_with
new_window sv s idx created =
    find_session sv.sessions s >>= λ v. new_with sv s v created (add v.windows idx)

-- `session_destroy`, without the options, the environment and the list of dead sessions.
unfoldable pub destroy : Server → ℕ → Option Server
unfolding find_session group_remove free_links drop_session
destroy sv s = find_session sv.sessions s >>= λ v. group_remove sv.groups s >>= λ groups.
    free_links v.windows sv.refs >>= λ refs.
    some (record { sessions = drop_session sv.sessions s; groups = groups; refs = refs })

-- `session_detach`, of a winlink of the session: 1, where the session was destroyed, is true.
unfoldable pub detach_end : Server → ℕ → List Winlink → Option (Bool × Server)
unfolding destroy
detach_end sv s [] = destroy sv s >>= λ sv'. some (true, sv')
detach_end sv s (wl ∷ wwl) = some (false, sv)

unfoldable pub detach : Server → ℕ → ℕ → Option (Bool × Server)
unfolding find_session find_by_index unlink release put_session synchronize_from detach_end
detach sv s i = find_session sv.sessions s >>= λ v. find_by_index v.windows i >>= λ wl.
    release sv.refs wl.window >>= λ refs.
    let v' = unlink v i in
    synchronize_from (record sv { sessions = put_session sv.sessions s v'; refs = refs }) s
    >>= λ sv'. detach_end sv' s v'.windows
