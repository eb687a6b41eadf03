-- ===== src/Session/Server/Resync.antt =====
-- A session of session.c changed, and its group brought in line again.
use tmux_cvs_archived.Prelude.{
  ℕ, true, false, ◌≤◌, ◌<◌, ◌≡◌, ◌≢◌, refl, ◌∙◌, sym, ap, subst, Option, none, some, List, ◌==◌,
  ==_iff, arith, Bool-cases, Option-cases, inl, inr,
}
use tmux_cvs_archived.Session.{Session}
use tmux_cvs_archived.Session.Group.{member, group_find}
use tmux_cvs_archived.Session.Group.Members.{occurs, occurs_in, AreGroups, member-occurs, find_some}
use tmux_cvs_archived.Session.Server.{Server, find_session, synchronize_each, synchronize_from}
use tmux_cvs_archived.Session.Server.InLine.{InSync, occurs_find, same_group, OneStep, Near-view}
use tmux_cvs_archived.Session.Server.Pair.{IsExact, IsWhole, view, Changed}
use tmux_cvs_archived.Session.Server.Sessions.{find-AllSessions}
use tmux_cvs_archived.Session.Server.Synced.{Ready, Synced, synchronize_each-Synced}

-- What is left after a session changed and its group was brought in line.
pub record Resynced (k : ℕ) (target : ℕ) (t : Session) (new : Server) : Type 0 where
  pub exact : IsExact k new
  pub in_sync : InSync new
  pub session : find_session new.sessions target ≡ some t

same_found : {o : Option Session} {a b : Session} → o ≡ some a → o ≡ some b → a ≡ b
same_found e f = ground (arith, e, f)

alone-InSync :
    (k : ℕ) (sv sv' : Server) (target : ℕ) (t : Session)
    → InSync sv
    → Changed k sv target t sv'
    → group_find sv.groups target ≡ none
    → InSync sv'
alone-InSync k sv sv' target t h c e = record {
  groups = subst AreGroups (sym c.groups) h.groups;
  known = λ p o. elim (Bool-cases (p == target)) [
    | inl same ↦ (t, ap (find_session sv'.sessions) ((==_iff p target).0 same) ∙ c.session)
    | inr other ↦
        let (v, at) = h.known p (subst (λ g. 0 < occurs_in g p) c.groups o) in
        (v, c.others p (λ q. ground (arith, other, q)) ∙ at)
  ];
  views = λ p q g a b found m at_p at_q.
      let found' = subst (λ x. group_find x p ≡ some g) c.groups found in
      let np : p ≢ target = λ x. absurd (ground (arith, found', e, ap (group_find sv.groups) x)) in
      let nq : q ≢ target = λ x. absurd (
        ground (
          arith,
          same_group sv.groups p q g h.groups.once found' m,
          e,
          ap (group_find sv.groups) x,
        )) in
      h.views p q g a b found' m (sym (c.others p np) ∙ at_p) (sym (c.others q nq) ∙ at_q);
}

module _ (k : ℕ) (sv sv' new : Server) (target : ℕ) (v t : Session) (g : List ℕ) (h : InSync sv)
    (c : Changed k sv target t sv') (e : group_find sv.groups target ≡ some g)
    (r : Synced k sv' target t g new) where
  at_target : find_session new.sessions target ≡ some t
  at_target = r.others target (λ n. absurd (n refl)) ∙ c.session

  view_in :
      (s : ℕ) (a : Session)
      → member s g ≡ true
      → find_session new.sessions s ≡ some a
      → view a.windows ≡ view t.windows
  view_in s a m at_s = elim (Bool-cases (s == target)) [
    | inl same ↦
        let here = ap (find_session new.sessions) (sym ((==_iff s target).0 same)) ∙ at_s in
        ap (λ x. view x.windows) (same_found here at_target)
    | inr other ↦
        let (u, at_u, e) = r.views s m (λ q. ground (arith, other, q)) in
        ap (λ x. view x.windows) (same_found at_s at_u) ∙ e
  ]

  target_in : member target g ≡ true
  target_in = (find_some sv.groups target g e).1

  outside : (q : ℕ) → member q g ≡ false → find_session new.sessions q ≡ find_session sv.sessions q
  outside q f =
      r.others q (λ _. f)
      ∙ c.others q (λ x. absurd (ground (arith, f, target_in, ap (λ y. member y g) x)))

  known_again :
      (p : ℕ) → 0 < occurs_in sv.groups p → (u : Session) × (find_session new.sessions p ≡ some u)
  known_again p o = elim (Bool-cases (member p g)) [
    | inl m ↦ elim (Bool-cases (p == target)) [
      | inl same ↦ (t, ap (find_session new.sessions) ((==_iff p target).0 same) ∙ at_target)
      | inr other ↦ let (u, at_u, _) = r.views p m (λ q. ground (arith, other, q)) in (u, at_u)
    ]
    | inr f ↦ let (u, at_u) = h.known p o in (u, outside p f ∙ at_u)
  ]

  views_again :
      (p q : ℕ) (f : List ℕ) (a b : Session)
      → group_find sv.groups p ≡ some f
      → member q f ≡ true
      → find_session new.sessions p ≡ some a
      → find_session new.sessions q ≡ some b
      → view a.windows ≡ view b.windows
  views_again p q f a b found m at_p at_q =
      let once = h.groups.once in
      let in_f = (find_some sv.groups p f found).1 in
      let q_in_f = same_group sv.groups p q f once found m in
      elim (Bool-cases (member p g)) [
        | inl pm ↦
            let same : g ≡ f = ground (arith, same_group sv.groups target p g once e pm, found) in
            let qm : member q g ≡ true = ap (member q) same ∙ m in
            view_in p a pm at_p ∙ sym (view_in q b qm at_q)
        | inr pf ↦ elim (Bool-cases (member q g)) [
          | inl qm ↦
              let same : g ≡ f =
                ground (arith, same_group sv.groups target q g once e qm, q_in_f) in
              absurd (ground (arith, pf, in_f, ap (member p) same))
          | inr qf ↦
              h.views p q f a b found m (sym (outside p pf) ∙ at_p) (sym (outside q qf) ∙ at_q)
        ]
      ]

  pub group-InSync : InSync new
  group-InSync =
      let same = r.groups ∙ c.groups in
      record {
        groups = subst AreGroups (sym same) h.groups;
        known = λ p o. known_again p (subst (λ x. 0 < occurs_in x p) same o);
        views = λ p q f a b found m at_p at_q.
            views_again p q f a b (subst (λ x. group_find x p ≡ some f) same found) m at_p at_q;
      }

from_none :
    (sv : Server) (target : ℕ)
    → group_find sv.groups target ≡ none
    → synchronize_from sv target ≡ some sv
unfolding synchronize_from
from_none sv target e = rw (synchronize_from, e) refl

from_some :
    (sv : Server) (target : ℕ) (g : List ℕ)
    → group_find sv.groups target ≡ some g
    → synchronize_from sv target ≡ synchronize_each sv target g
unfolding synchronize_from
from_some sv target g e = rw (synchronize_from, e) refl

-- After a session of an exact server in line changed by one step, `session_group_synchronize_from`
-- succeeds: the server is exact and in line again, and the session is as it was changed.
pub synchronize_from-Resynced :
    (k : ℕ) (sv sv' : Server) (target : ℕ) (v t : Session)
    → IsExact k sv
    → InSync sv
    → find_session sv.sessions target ≡ some v
    → Changed k sv target t sv'
    → OneStep v t
    → (new : Server) × (synchronize_from sv' target ≡ some new) × Resynced k target t new
synchronize_from-Resynced k sv sv' target v t x h at_v c step =
    elim (Option-cases (group_find sv.groups target)) [
      | inl e ↦
          let e' = ap (λ g. group_find g target) c.groups ∙ e in
          (
            sv',
            from_none sv' target e',
            record {
              exact = c.exact;
              in_sync = alone-InSync k sv sv' target t h c e;
              session = c.session;
            },
          )
      | inr (g, e) ↦
          let e' = ap (λ y. group_find y target) c.groups ∙ e in
          let once : (p : ℕ) → occurs g p ≤ 1 =
            λ p. omega (arith, occurs_find sv.groups target p g e, h.groups.once p) in
          let ready : (s : ℕ) → member s g ≡ true → s ≢ target → Ready sv' t s = λ s m n.
            let there : 0 < occurs_in sv.groups s =
              omega (arith, occurs_find sv.groups target s g e, member-occurs g s m) in
            let (b, at_b) = h.known s there in
            let whole = find-AllSessions (IsWhole k) sv.sessions s b x.whole at_b in
            (
              b,
              c.others s n ∙ at_b,
              λ d cur.
                  Near-view v t b d (h.views target s g v b e m at_v at_b)
                    (whole.sound.current d cur) step,
            ) in
          let (new, runs, r) =
            synchronize_each-Synced k sv' target t g c.exact c.session once ready in
          (
            new,
            from_some sv' target g e' ∙ runs,
            record {
              exact = r.exact;
              in_sync = group-InSync k sv sv' new target v t g h c e r;
              session = r.others target (λ n. absurd (n refl)) ∙ c.session;
            },
          )
    ]
