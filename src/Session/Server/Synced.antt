-- ===== src/Session/Server/Synced.antt =====
-- All sessions of a group brought in line: `session_group_synchronize_from` of session.c.
use tmux_cvs_archived.Prelude.{
  ℕ, true, false, ◌≤◌, ◌≡◌, ◌≢◌, refl, ◌∙◌, sym, ap, some, List, [], ◌∷◌, ◌==◌, ==_iff, arith,
  Bool-cases, inl, inr,
}
use tmux_cvs_archived.Session.{Session}
use tmux_cvs_archived.Session.Group.{member}
use tmux_cvs_archived.Session.Group.Members.{occurs, member-occurs}
use tmux_cvs_archived.Session.Group.Synchronize.{Near}
use tmux_cvs_archived.Session.Server.{Server, find_session, synchronize_pair, synchronize_each}
use tmux_cvs_archived.Session.Server.Pair.{IsExact, view, synchronize_pair-Changed}

-- The session is there, and the copy from `t` leaves it a current window.
abbrev pub Ready : Server → Session → ℕ → Type 0
Ready sv t s =
    (v : Session) × (find_session sv.sessions s ≡ some v) × ((c : ℕ) → v.curw ≡ some c → Near t v c)

-- The sessions of a list have the windows of the target, and all others are as they were.
pub record Synced (k : ℕ) (sv : Server) (target : ℕ) (t : Session) (group : List ℕ) (new : Server)
    : Type 0 where
  pub exact : IsExact k new
  pub groups : new.groups ≡ sv.groups
  pub views :
      (s : ℕ)
      → member s group ≡ true
      → s ≢ target
      → (u : Session) × (find_session new.sessions s ≡ some u) × (view u.windows ≡ view t.windows)
  pub others :
      (q : ℕ)
      → (q ≢ target → member q group ≡ false)
      → find_session new.sessions q ≡ find_session sv.sessions q

each_step :
    (sv sv' : Server) (target s : ℕ) (group : List ℕ)
    → s ≢ target
    → synchronize_pair sv target s ≡ some sv'
    → synchronize_each sv target (s ∷ group) ≡ synchronize_each sv' target group
unfolding synchronize_each
each_step sv sv' target s group n e =
    let other : (s == target) ≡ false = ground (arith, n) in rw (synchronize_each, other, e) refl

each_skip :
    (sv : Server) (target s : ℕ) (group : List ℕ)
    → (s == target) ≡ true
    → synchronize_each sv target (s ∷ group) ≡ synchronize_each sv target group
unfolding synchronize_each
each_skip sv target s group e = rw (synchronize_each, e) refl

in_tail : (s q : ℕ) (group : List ℕ) → member q (s ∷ group) ≡ true → q ≢ s → member q group ≡ true
in_tail s q group m n = ground (arith, m, n)

not_again : (s : ℕ) (group : List ℕ) → ((p : ℕ) → occurs (s ∷ group) p ≤ 1) → member s group ≡ false
not_again s group once = elim (Bool-cases (member s group)) [
  | inl m ↦ absurd (ground (arith, once s, member-occurs group s m))
  | inr e ↦ e
]

not_same : (s q : ℕ) (group : List ℕ) → member s group ≡ false → member q group ≡ true → q ≢ s
not_same s q group f m e = absurd (ground (arith, f, m, ap (λ x. member x group) e))

still-Ready :
    (sv sv' : Server) (t : Session) (q : ℕ)
    → find_session sv'.sessions q ≡ find_session sv.sessions q
    → Ready sv t q
    → Ready sv' t q
still-Ready sv sv' t q e (v, at_q, near) = (v, e ∙ at_q, near)

-- The session at the head was done before the others, who left it alone.
view_of :
    (k : ℕ) (sv : Server) (target : ℕ) (t : Session) (s : ℕ) (u : Session) (group : List ℕ)
    (new : Server)
    → Synced k sv target t group new
    → find_session sv.sessions s ≡ some u
    → member s group ≡ false
    → view u.windows ≡ view t.windows
    → (q : ℕ) → member q (s ∷ group) ≡ true
    → q ≢ target
    → (w : Session) × (find_session new.sessions q ≡ some w) × (view w.windows ≡ view t.windows)
view_of k sv target t s u group new r at_s alone same q m d = elim (Bool-cases (q == s)) [
  | inl e ↦
      let q_is_s : q ≡ s = (==_iff q s).0 e in
      (u, ap (find_session new.sessions) q_is_s ∙ r.others s (λ _. alone) ∙ at_s, same)
  | inr e ↦ r.views q (ground (arith, m, e)) d
]

pub synchronize_each-Synced :
    (k : ℕ) (sv : Server) (target : ℕ) (t : Session) (group : List ℕ)
    → IsExact k sv
    → find_session sv.sessions target ≡ some t
    → ((p : ℕ) → occurs group p ≤ 1)
    → ((s : ℕ) → member s group ≡ true → s ≢ target → Ready sv t s)
    → (new : Server) × (synchronize_each sv target group ≡ some new)
      × Synced k sv target t group new
unfolding synchronize_each
synchronize_each-Synced k sv target t [] h at_t once ready = (
  sv,
  refl,
  record {
    exact = h;
    groups = refl;
    views = λ s m n. absurd (ground (arith, m));
    others = λ q n. refl;
  },
)
synchronize_each-Synced k sv target t (s ∷ group) h at_t once ready =
    elim (Bool-cases (s == target)) [
      | inl same ↦
          let is_target : s ≡ target = (==_iff s target).0 same in
          let (new, runs, r) =
            synchronize_each-Synced k sv target t group h at_t (λ p. omega (arith, once p))
              (λ q m n. ready q (ground (arith, m)) n) in
          (
            new,
            each_skip sv target s group same ∙ runs,
            record {
              exact = r.exact;
              groups = r.groups;
              views = λ q m n. r.views q (in_tail s q group m (λ e. n (e ∙ is_target))) n;
              others = λ q n. r.others q (λ d. ground (arith, n d));
            },
          )
      | inr differs ↦
          let n : s ≢ target = λ e. absurd (ground (arith, differs, e)) in
          let (v, at_s, near) = ready s (ground arith) n in
          let (sv', u, step, c, same_view) =
            synchronize_pair-Changed k sv target s t v h (λ e. n (sym e)) at_t at_s near in
          let alone : member s group ≡ false = not_again s group once in
          let (new, runs, r) =
            synchronize_each-Synced k sv' target t group c.exact
              (c.others target (λ e. n (sym e)) ∙ at_t) (λ p. omega (arith, once p))
              (λ q m d.
                still-Ready sv sv' t q (c.others q (not_same s q group alone m))
                  (ready q (ground (arith, m)) d)) in
          (
            new,
            each_step sv sv' target s group n step ∙ runs,
            record {
              exact = r.exact;
              groups = r.groups ∙ c.groups;
              views =
                  λ q m d. view_of k sv' target t s u group new r c.session alone same_view q m d;
              others = λ q d.
                  r.others q (λ e. ground (arith, d e))
                  ∙ c.others q (λ e. absurd (ground (arith, d (λ x. n (sym e ∙ x)), e)));
            },
          )
    ]
