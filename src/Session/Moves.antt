-- ===== src/Session/Moves.antt =====
-- Where the moves of session.c lead: back again, and away from a window that goes.
use tmux_cvs_archived.Prelude.{
  ℕ, suc, Bool, true, false, ◌≤◌, ◌≡◌, ◌≢◌, refl, ◌∙◌, ap, none, some, List, [], ◌∷◌, ltb, arith,
  Bool-cases, Option-cases, inl, inr,
}
use tmux_cvs_archived.Session.{
  Session, moved, failed, go, is_current, move_to, next_target, previous_target, from_current,
  to_top, next_window, previous_window, last_window, leave,
}
use tmux_cvs_archived.Session.Sound.{IsSound}
use tmux_cvs_archived.Winlink.{Winlink, has, next, previous, first, last, stack_remove, stack_push}
use tmux_cvs_archived.Winlink.Order.{From, has_below, has-clear_alerts}
use tmux_cvs_archived.Winlink.Steps.{previous-has, last-has}

previous-none :
    (b : ℕ) (wwl : List Winlink) (i j : ℕ)
    → From b wwl
    → previous wwl i ≡ none
    → has wwl j ≡ true
    → i ≤ j
unfolding previous
previous-none b [] i j f e h = ground arith
previous-none b (v ∷ wwl) i j f e h =
    ground (arith, Bool-cases (ltb j (suc v.idx)), has_below (suc v.idx) wwl j f.1)

last_max :
    (b : ℕ) (wwl : List Winlink) (j : ℕ)
    → From b wwl
    → has wwl j ≡ true
    → (wl : Winlink) × (last wwl ≡ some wl) × (j ≤ wl.idx)
unfolding last
last_max b [] j f h = ground arith
last_max b (v ∷ wwl) j f h = elim (Option-cases (last wwl)) [
  | inl e ↦ (v, rw e refl, ground (arith, last_max (suc v.idx) wwl j f.1))
  | inr (wl, e) ↦ (
    wl,
    rw e refl,
    ground (
      arith,
      last_max (suc v.idx) wwl j f.1,
      last-has wwl wl e,
      has_below (suc v.idx) wwl wl.idx f.1,
    ),
  )
]

pub next-none :
    (b : ℕ) (wwl : List Winlink) (i j : ℕ)
    → From b wwl
    → next wwl i ≡ none
    → has wwl j ≡ true
    → j ≤ i
unfolding next
next-none b [] i j f e h = ground arith
next-none b (v ∷ wwl) i j f e h = ground (arith, next-none (suc v.idx) wwl i j f.1)

pub first_min :
    (b : ℕ) (wwl : List Winlink) (j : ℕ)
    → From b wwl
    → has wwl j ≡ true
    → (wl : Winlink) × (first wwl ≡ some wl) × (wl.idx ≤ j)
unfolding first
first_min b [] j f h = ground arith
first_min b (v ∷ wwl) j f h =
    (v, refl, ground (arith, Bool-cases (ltb j (suc v.idx)), has_below (suc v.idx) wwl j f.1))

-- A move to another winlink of the session succeeds.
move_to_other :
    (s : Session) (wl : Winlink)
    → is_current s wl.idx ≡ false
    → move_to s (some wl) ≡ (moved, go s wl.idx)
unfolding move_to
move_to_other s wl h = rw h refl

pub other_current : (s : Session) (c i : ℕ) → s.curw ≡ some c → i ≢ c → is_current s i ≡ false
other_current s c i e n = ground (arith, e, n)

-- With another winlink beside the current one, `session_previous` finds one of them.
previous_other :
    (s : Session) (c j : ℕ)
    → From 0 s.windows
    → has s.windows j ≡ true
    → j ≢ c
    → (wl : Winlink) × (previous_target s c false ≡ some wl)
      × (has s.windows wl.idx ≡ true)
      × (wl.idx ≢ c)
unfolding previous_target
previous_other s c j f h n = elim (Option-cases (previous s.windows c)) [
  | inl e ↦
      let (wl, at_end, most) = last_max 0 s.windows j f h in
      let low = previous-none 0 s.windows c j f e h in
      (wl, rw (previous_target, e, at_end) refl, last-has s.windows wl at_end, λ q. n (omega arith))
  | inr (wl, e) ↦
      let (below, ours) = previous-has s.windows c wl e in
      (wl, rw (previous_target, e) refl, ours, λ q. absurd (omega arith))
]

pub next_window_lem :
    (s : Session) (c : ℕ) (wl : Winlink) (alert : Bool)
    → s.curw ≡ some c
    → next_target s c alert ≡ some wl
    → wl.idx ≢ c
    → next_window s alert ≡ (moved, go s wl.idx)
unfolding next_window from_current
next_window_lem s c wl alert e t n =
    ap (λ o. from_current s o (λ x. next_target s x alert)) e
    ∙ ap (move_to s) t
    ∙ move_to_other s wl (other_current s c wl.idx e n)

pub previous_window_lem :
    (s : Session) (c : ℕ) (wl : Winlink) (alert : Bool)
    → s.curw ≡ some c
    → previous_target s c alert ≡ some wl
    → wl.idx ≢ c
    → previous_window s alert ≡ (moved, go s wl.idx)
unfolding previous_window from_current
previous_window_lem s c wl alert e t n =
    ap (λ o. from_current s o (λ x. previous_target s x alert)) e
    ∙ ap (move_to s) t
    ∙ move_to_other s wl (other_current s c wl.idx e n)

last_window-nil : (s : Session) → s.lastw ≡ [] → last_window s ≡ (failed, s)
unfolding last_window to_top
last_window-nil s e = ap (to_top s) e

pub last_window-cons :
    (s : Session) (c k : ℕ) (xs : List ℕ)
    → s.curw ≡ some c
    → s.lastw ≡ k ∷ xs
    → k ≢ c
    → last_window s ≡ (moved, go s k)
unfolding last_window to_top
last_window-cons s c k xs e x n = ap (to_top s) x ∙ rw (other_current s c k e n) refl

leave_last : (s t : Session) → last_window s ≡ (moved, t) → leave s ≡ t
unfolding leave
leave_last s t e = rw e refl

leave_previous :
    (s t : Session)
    → last_window s ≡ (failed, s)
    → previous_window s false ≡ (moved, t)
    → leave s ≡ t
unfolding leave
leave_previous s t e p = rw (e, p) refl

pub leave_from :
    (s : Session) (c j : ℕ) (xs : List ℕ)
    → IsSound s
    → s.curw ≡ some c
    → s.lastw ≡ xs
    → has s.windows j ≡ true
    → j ≢ c
    → (i : ℕ) × (leave s ≡ go s i) × (has s.windows i ≡ true) × (i ≢ c)
leave_from s c j [] h e x m n =
    let (wl, found, ours, other) = previous_other s c j h.ordered m n in
    (
      wl.idx,
      leave_previous s (go s wl.idx) (last_window-nil s x)
          (previous_window_lem s c wl false e found other),
      ours,
      other,
    )
leave_from s c j (k ∷ xs) h e x m n =
    let other : k ≢ c = λ q. absurd (ground (arith, h.apart c e, x, q)) in
    (
      k,
      leave_last s (go s k) (last_window-cons s c k xs e x other),
      h.stacked k (ground (arith, x)),
      other,
    )

pub has-go : (s : Session) (k j : ℕ) → has (go s k).windows j ≡ has s.windows j
unfolding go
has-go s k j = has-clear_alerts s.windows k j

pub curw-go : (s : Session) (k : ℕ) → (go s k).curw ≡ some k
unfolding go
curw-go s k = refl

pub lastw-go :
    (s : Session) (k c : ℕ)
    → s.curw ≡ some c
    → (go s k).lastw ≡ c ∷ stack_remove (stack_remove s.lastw k) c
unfolding go stack_push
lastw-go s k c e = rw (stack_push, e) refl
