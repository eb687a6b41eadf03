-- ===== src/Session/Leave.antt =====
-- What a move of session.c keeps, and so what leaving a window keeps.
use tmux_cvs_archived.Prelude.{ℕ, false, Option, none, some, List, [], ◌∷◌, Bool-cases, inl, inr}
use tmux_cvs_archived.Session.{
  Session, go, is_current, is_moved, move_to, from_current, to_top, next_target, previous_target,
  next_window, previous_window, last_window, leave,
}
use tmux_cvs_archived.Session.Sound.{
  IsSound, next_window-IsSound, previous_window-IsSound, last_window-IsSound,
}
use tmux_cvs_archived.Winlink.{Winlink}

-- What every move to a window keeps is kept by leaving one.
module _ {P : Session → Type 0} (kept : (s : Session) (i : ℕ) → P s → P (go s i)) where
  move_to_keeps : (s : Session) (o : Option Winlink) → P s → P (move_to s o).1
  unfolding move_to
  move_to_keeps s none h = h
  move_to_keeps s (some wl) h = elim (Bool-cases (is_current s wl.idx)) [
    | inl e ↦ rw e h
    | inr e ↦ rw e (kept s wl.idx h)
  ]

  from_current_keeps :
      (s : Session) (o : Option ℕ) (target : ℕ → Option Winlink)
      → P s
      → P (from_current s o target).1
  unfolding from_current
  from_current_keeps s none target h = h
  from_current_keeps s (some c) target h = move_to_keeps s (target c) h

  to_top_keeps : (s : Session) (xs : List ℕ) → P s → P (to_top s xs).1
  unfolding to_top
  to_top_keeps s [] h = h
  to_top_keeps s (i ∷ xs) h = elim (Bool-cases (is_current s i)) [
    | inl e ↦ rw e h
    | inr e ↦ rw e (kept s i h)
  ]

  pub leave_keeps : (s : Session) → P s → P (leave s)
  unfolding leave last_window previous_window next_window
  leave_keeps s h =
      let l = last_window s in
      let p = previous_window l.1 false in
      let hl = to_top_keeps s s.lastw h in
      let hp = from_current_keeps l.1 l.1.curw (λ c. previous_target l.1 c false) hl in
      let hn = from_current_keeps p.1 p.1.curw (λ c. next_target p.1 c false) hp in
      elim (Bool-cases (is_moved l.0)) [
        | inl e ↦ rw e hl
        | inr e ↦ elim (Bool-cases (is_moved p.0)) [
          | inl e' ↦ rw (e, e') hp
          | inr e' ↦ rw (e, e') hn
        ]
      ]

pub leave-IsSound : (s : Session) → IsSound s → IsSound (leave s)
unfolding leave
leave-IsSound s h =
    let l = last_window s in
    let p = previous_window l.1 false in
    let hl = last_window-IsSound s h in
    let hp = previous_window-IsSound l.1 false hl in
    elim (Bool-cases (is_moved l.0)) [
      | inl e ↦ rw e hl
      | inr e ↦ elim (Bool-cases (is_moved p.0)) [
        | inl e' ↦ rw (e, e') hp
        | inr e' ↦ rw (e, e') (next_window-IsSound p.1 false hp)
      ]
    ]
