-- ===== src/Session/Back.antt =====
-- Moving to the next window and back in session.c.
use tmux_cvs_archived.Prelude.{
  Option-cases, Bool-cases, ℕ, zero, suc, true, false, ◌+◌, ◌-◌, ◌%◌, ◌<◌, ◌≡◌, ◌≢◌, refl, ◌∙◌, sym,
  ap, subst, some, List, [], ◌∷◌, ◌==◌, arith, get_elem?, Bool-cases, inl, inr,
}
use native.Mathlib.Nat.{mod-add-mod, add-mod_right, mod-eq_of_lt}
use tmux_cvs_archived.Session.{
  select, Session, moved, go, next_target, previous_target, next_window, previous_window,
  is_current, move_to, last_window,
}
use tmux_cvs_archived.Session.Moves.{
  next_window_lem, previous_window_lem, curw-go, has-go, next-none, first_min, last_window-cons,
  lastw-go,
}
use tmux_cvs_archived.Session.Sound.{IsSound}
use tmux_cvs_archived.Winlink.{
  next, Winlink, has, next_around, previous_around, count, clear_alerts, find_by_index,
}
use tmux_cvs_archived.Winlink.Around.{previous_around_position}
use tmux_cvs_archived.Winlink.Order.{From, clear_alerts-From}
use tmux_cvs_archived.Winlink.Steps.{next_around_position, count_pos, next-has}

next_other :
    (s : Session) (c j : ℕ)
    → From 0 s.windows
    → has s.windows j ≡ true
    → j ≢ c
    → (wl : Winlink) × (next_target s c false ≡ some wl) × (wl.idx ≢ c)
unfolding next_target
next_other s c j f h n = elim (Option-cases (next s.windows c)) [
  | inl e ↦
      let (wl, at_start, least) = first_min 0 s.windows j f h in
      let high = next-none 0 s.windows c j f e h in
      (wl, rw (next_target, e, at_start) refl, λ q. n (omega arith))
  | inr (wl, e) ↦
      let (above, ours) = next-has s.windows c wl e in
      (wl, rw (next_target, e) refl, λ q. absurd (omega arith))
]

position :
    (wwl : List Winlink) (i : ℕ)
    → has wwl i ≡ true
    → (p : ℕ) × (wl : Winlink) × (get_elem? wwl p ≡ some wl) × (wl.idx ≡ i)
position [] i h = absurd (ground arith)
position (v ∷ wwl) i h = elim (Bool-cases (v.idx == i)) [
  | inl e ↦ (0, v, refl, ground arith)
  | inr e ↦ let (p, wl, at, eq) = position wwl i (ground arith) in (suc p, wl, at, eq)
]

elem-clear_alerts :
    (wwl : List Winlink) (i p : ℕ) (wl : Winlink)
    → get_elem? wwl p ≡ some wl
    → (v : Winlink) × (get_elem? (clear_alerts wwl i) p ≡ some v) × (v.idx ≡ wl.idx)
unfolding clear_alerts
elem-clear_alerts [] i p wl e = absurd (ground arith)
elem-clear_alerts (w ∷ wwl) i zero wl e = elim (Bool-cases (w.idx == i)) [
  | inl h ↦ rw h (_, refl, ground arith)
  | inr h ↦ rw h (w, refl, ground arith)
]
elem-clear_alerts (w ∷ wwl) i (suc p) wl e = elim (Bool-cases (w.idx == i)) [
  | inl h ↦ rw h (wl, e, refl)
  | inr h ↦ rw h (elem-clear_alerts wwl i p wl e)
]

count-clear_alerts : (wwl : List Winlink) (i : ℕ) → count (clear_alerts wwl i) ≡ count wwl
unfolding clear_alerts count
count-clear_alerts [] i = refl
count-clear_alerts (w ∷ wwl) i = ground (arith, count-clear_alerts wwl i)

next_target_around : (s : Session) (c : ℕ) → next_target s c false ≡ next_around s.windows c
unfolding next_target next_around
next_target_around s c = refl

previous_target_around :
    (s : Session) (c : ℕ) → previous_target s c false ≡ previous_around s.windows c
unfolding previous_target previous_around
previous_target_around s c = refl

-- The step on and the step back add up to a round.
there_and_back : (n p : ℕ) → p < n → (suc p % n + (n - 1)) % n ≡ p
there_and_back n p h =
    mod-add-mod (suc p) n (n - 1)
    ∙ ap (λ k. k % n) (omega arith)
    ∙ add-mod_right p n
    ∙ mod-eq_of_lt h

-- From the winlink after `c`, whose alerts were cleared, the previous one is `c` again.
back :
    (s : Session) (p : ℕ) (wl next_one : Winlink)
    → From 0 s.windows
    → get_elem? s.windows p ≡ some wl
    → next_target s wl.idx false ≡ some next_one
    → (v : Winlink) × (previous_target (go s next_one.idx) next_one.idx false ≡ some v)
      × (v.idx ≡ wl.idx)
unfolding go
back s p wl next_one f at_p e =
    let inside = count_pos s.windows p wl at_p in
    let n = count s.windows in
    let q = suc p % n in
    let i = next_one.idx in
    let cleared = clear_alerts s.windows i in
    let at_q : get_elem? s.windows q ≡ some next_one =
      sym (next_around_position s.windows p wl f at_p) ∙ sym (next_target_around s wl.idx) ∙ e in
    let (u, at_u, same) = elem-clear_alerts s.windows i q next_one at_q in
    let (v, at_v, home) = elem-clear_alerts s.windows i p wl at_p in
    let around : (q + (count cleared - 1)) % count cleared ≡ p =
      ap (λ k. (q + (k - 1)) % k) (count-clear_alerts s.windows i) ∙ there_and_back n p inside in
    (
      v,
      previous_target_around (go s i) i
          ∙ ap (previous_around cleared) (sym same)
          ∙ previous_around_position cleared q u (clear_alerts-From 0 s.windows i f) at_u
          ∙ ap (get_elem? cleared) around
          ∙ at_v,
      home,
    )

-- Where the pointers of a session are sound and it has another winlink beside the current one,
-- `session_next` moves to another one, `session_previous` moves from there back to the first, and
-- the session has the same winlinks.
pub previous_window-next_window :
    (s : Session) (c j : ℕ)
    → IsSound s
    → s.curw ≡ some c
    → has s.windows j ≡ true
    → j ≢ c
    → (t : Session) × (u : Session) × (next_window s false ≡ (moved, t))
      × (t.curw ≢ some c)
      × (previous_window t false ≡ (moved, u))
      × (u.curw ≡ some c)
      × ((k : ℕ) → has u.windows k ≡ has s.windows k)
previous_window-next_window s c j h e m n =
    let (p, wl, at_p, here) = position s.windows c (h.current c e) in
    let (next_one, to, other) = next_other s c j h.ordered m n in
    let to' = subst (λ x. next_target s x false ≡ some next_one) (sym here) to in
    let (v, from, home) = back s p wl next_one h.ordered at_p to' in
    let t = go s next_one.idx in
    let back_home : v.idx ≡ c = home ∙ here in
    (
      t,
      go t v.idx,
      next_window_lem s c next_one false e to other,
      λ q. other (ground (arith, q, curw-go s next_one.idx)),
      previous_window_lem t next_one.idx v false (curw-go s next_one.idx) from
          (λ q. other (sym q ∙ back_home)),
      curw-go t v.idx ∙ ap some back_home,
      λ k. has-go t v.idx k ∙ has-go s next_one.idx k,
    )

-- After `session_select` moved from a window to another, `session_last` moves back to it.
last_window-select :
    (s t : Session) (c i : ℕ)
    → s.curw ≡ some c
    → select s i ≡ (moved, t)
    → (u : Session) × (last_window t ≡ (moved, u)) × (u.curw ≡ some c)
unfolding select move_to
last_window-select s t c i e p = elim (Option-cases (find_by_index s.windows i)) [
  | inl missing ↦ absurd (ground (arith, missing, p))
  | inr (wl, found) ↦ elim (Bool-cases (is_current s wl.idx)) [
    | inl here ↦ absurd (ground (arith, found, here, p))
    | inr other ↦
        let to : t ≡ go s wl.idx = ground (arith, found, other, p) in
        let away : c ≢ wl.idx = λ q. absurd (ground (arith, e, other, q)) in
        subst (λ x. (u : Session) × (last_window x ≡ (moved, u)) × (u.curw ≡ some c)) (sym to)
          (
            go (go s wl.idx) c,
            last_window-cons (go s wl.idx) wl.idx c _ (curw-go s wl.idx) (lastw-go s wl.idx c e)
                away,
            curw-go (go s wl.idx) c,
          )
  ]
]
