-- ===== src/Session/Unlink.antt =====
-- A window that goes from a session in session.c: another one is current, and the pointers are sound.
use tmux_cvs_archived.Prelude.{
  ℕ, true, not, ◌&&◌, ◌≡◌, ◌≢◌, refl, ◌∙◌, ap, some, ◌==◌, arith, Bool-cases, inl, inr,
}
use tmux_cvs_archived.Session.{Session, go, is_current, leave, dropped, unlink}
use tmux_cvs_archived.Session.Moves.{other_current, leave_from, has-go, curw-go}
use tmux_cvs_archived.Session.Sound.{IsSound, go-IsSound, mem-stack_remove, distinct-stack_remove}
use tmux_cvs_archived.Winlink.{has, clear_alerts}
use tmux_cvs_archived.Winlink.Order.{
  From, remove-From, has-remove, clear_alerts-From, has-clear_alerts,
}

dropped-IsSound : (s : Session) (i : ℕ) → IsSound s → s.curw ≢ some i → IsSound (dropped s i)
unfolding dropped
dropped-IsSound s i h n =
    let f = clear_alerts-From 0 s.windows i h.ordered in
    let left = λ (j : ℕ). has-remove 0 (clear_alerts s.windows i) i j f in
    record {
      ordered = remove-From 0 (clear_alerts s.windows i) i f;
      current = λ c e.
          left c
          ∙ ground
              (arith, has-clear_alerts s.windows i c, h.current c e, Bool-cases (i == c), n, e);
      stacked = λ j m.
          left j
          ∙ ground (
            arith,
            has-clear_alerts s.windows i j,
            mem-stack_remove s.lastw i j h.unique,
            h.stacked j,
          );
      unique = distinct-stack_remove s.lastw i h.unique;
      apart = λ c e. ground (arith, mem-stack_remove s.lastw i c h.unique, h.apart c e);
    }

has-dropped :
    (s : Session) (i j : ℕ)
    → From 0 s.windows
    → has (dropped s i).windows j ≡ (has s.windows j && not (i == j))
unfolding dropped
has-dropped s i j f =
    has-remove 0 (clear_alerts s.windows i) i j (clear_alerts-From 0 s.windows i f)
    ∙ ap (λ b. b && not (i == j)) (has-clear_alerts s.windows i j)

is_current-some : (s : Session) (i : ℕ) → is_current s i ≡ true → s.curw ≡ some i
is_current-some s i e = ground (arith, e)

-- The session `t` is `s` without the winlink at `i`: the others are there, and there is a current one
-- if there was.
pub record Unlinked (s : Session) (i : ℕ) (t : Session) : Type 0 where
  pub sound : IsSound t
  pub members : (j : ℕ) → has t.windows j ≡ (has s.windows j && not (i == j))
  pub current : (c : ℕ) → s.curw ≡ some c → (k : ℕ) × (t.curw ≡ some k)

dropped-Unlinked :
    (s t : Session) (i : ℕ)
    → IsSound t
    → t.curw ≢ some i
    → ((j : ℕ) → has t.windows j ≡ has s.windows j)
    → ((c : ℕ) → s.curw ≡ some c → (k : ℕ) × (t.curw ≡ some k))
    → Unlinked s i (dropped t i)
unfolding dropped
dropped-Unlinked s t i h n m c = record {
  sound = dropped-IsSound t i h n;
  members = λ j. has-dropped t i j h.ordered ∙ ap (λ b. b && not (i == j)) (m j);
  current = c;
}

-- Where a session has another winlink `j` beside the one at `i`, `session_detach` takes just the one
-- at `i` away and keeps the pointers sound; if it was the current one, another one is after it.
pub unlink-Unlinked :
    (s : Session) (i j : ℕ) → IsSound s → has s.windows j ≡ true → j ≢ i → Unlinked s i (unlink s i)
unfolding unlink
unlink-Unlinked s i j h m n = elim (Bool-cases (is_current s i)) [
  | inl e ↦
      let cur = is_current-some s i e in
      let (k, to, ours, other) = leave_from s i j s.lastw h cur refl m n in
      let sound = go-IsSound s k h ours (other_current s i k cur other) in
      let moves : leave s ≡ go s k = to in
      rw (e, moves)
        (dropped-Unlinked s (go s k) i sound (λ q. other (ground (arith, q, curw-go s k)))
          (has-go s k) (λ c p. (k, curw-go s k)))
  | inr e ↦
      rw e
        (dropped-Unlinked s s i h (λ q. absurd (ground (arith, e, q))) (λ j. refl) (λ c p. (c, p)))
]
