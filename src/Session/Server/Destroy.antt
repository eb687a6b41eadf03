-- ===== src/Session/Server/Destroy.antt =====
-- `session_destroy` of session.c: a session and its windows go.
use tmux_cvs_archived.Prelude.{
  ℕ, suc, true, ◌+◌, ◌*◌, ◌≤◌, ◌<◌, ◌≡◌, ◌≢◌, refl, ◌∙◌, sym, ap, Option, none, some, List, [], ◌∷◌,
  ◌>>=◌, length, ◌==◌, arith, Bool-cases, inl, inr,
}
use native.Mathlib.Nat.{suc-mul}
use tmux_cvs_archived.Session.{Session}
use tmux_cvs_archived.Session.Group.{member, group_find, without, without_single, group_remove}
use tmux_cvs_archived.Session.Group.Leaving.{group_remove-Left}
use tmux_cvs_archived.Session.Group.Members.{occurs, occurs_in, AreGroups, member-occurs, find_some}
use tmux_cvs_archived.Session.Group.References.{Exact-ext, free_links-Exact}
use tmux_cvs_archived.Session.Server.{Server, find_session, drop_session, destroy}
use tmux_cvs_archived.Session.Server.InLine.{InSync, occurs_find}
use tmux_cvs_archived.Session.Server.Pair.{IsExact, IsWhole}
use tmux_cvs_archived.Session.Server.Sessions.{
  Sessions, total, AllSessions, find-drop_ne, total-drop,
}

-- The group `new` of a session comes from a group of it with the same sessions and more.
Within : List (List ℕ) → ℕ → List ℕ → Type 0
Within groups p new =
    (g : List ℕ) × (group_find groups p ≡ some g)
    × ((q : ℕ) → member q new ≡ true → member q g ≡ true)

member-without : (g : List ℕ) (s q : ℕ) → member q (without g s) ≡ true → member q g ≡ true
unfolding without
member-without [] s q m = m
member-without (t ∷ g) s q m = ground (arith, m, member-without g s q)

later-Within :
    (x : List ℕ) (groups : List (List ℕ)) (p : ℕ) (new : List ℕ)
    → ((q : ℕ) → occurs x q + occurs_in groups q ≤ 1)
    → Within groups p new
    → Within (x ∷ groups) p new
unfolding Within group_find
later-Within x groups p new once (g, e, sub) = elim (Bool-cases (member p x)) [
  | inl m ↦ absurd (omega (arith, once p, member-occurs x p m, (find_some groups p g e).0))
  | inr f ↦ (g, rw f e, sub)
]

found-Within :
    (groups : List (List ℕ)) (p : ℕ) (g : List ℕ) → group_find groups p ≡ some g → Within groups p g
unfolding Within
found-Within groups p g e = (g, e, λ q m. m)

some_list : {a b : List (List ℕ)} → some a ≡ some b → a ≡ b
some_list e = ground (arith, e)

some_ids : {a b : List ℕ} → some a ≡ some b → a ≡ b
some_ids e = ground (arith, e)

-- What `without_single` leaves of the group `x`.
single-Within :
    (x rest : List ℕ) (groups new : List (List ℕ)) (p : ℕ) (g : List ℕ)
    → ((q : ℕ) → occurs x q + occurs_in groups q ≤ 1)
    → ((q : ℕ) → member q rest ≡ true → member q x ≡ true)
    → without_single rest groups ≡ some new
    → group_find new p ≡ some g
    → Within (x ∷ groups) p g
unfolding without_single group_find Within
single-Within x [] groups new p g once sub e f = absurd (ground (arith, e))
single-Within x (t ∷ []) groups new p g once sub e f =
    let same : groups ≡ new = some_list e in
    later-Within x groups p g once (found-Within groups p g (ap (λ y. group_find y p) same ∙ f))
single-Within x (t ∷ u ∷ rest) groups new p g once sub e f =
    let same : (t ∷ u ∷ rest) ∷ groups ≡ new = some_list e in
    let f' : group_find ((t ∷ u ∷ rest) ∷ groups) p ≡ some g = ap (λ y. group_find y p) same ∙ f in
    elim (Bool-cases (member p (t ∷ u ∷ rest))) [
      | inl m ↦
          let is_g : t ∷ u ∷ rest ≡ g = some_ids (sym (rw m refl) ∙ f') in
          (x, rw (sub p m) refl, λ q n. sub q (ap (member q) is_g ∙ n))
      | inr n ↦ later-Within x groups p g once (found-Within groups p g (sym (rw n refl) ∙ f'))
    ]

once_tail : (x : List ℕ) (groups : List (List ℕ)) → AreGroups (x ∷ groups) → AreGroups groups
once_tail x groups h = record { once = λ p. omega (arith, h.once p); large = h.large.1 }

bind_some :
    (x : List ℕ) (o : Option (List (List ℕ))) (new : List (List ℕ))
    → (o >>= λ others. some (x ∷ others)) ≡ some new
    → (rest : List (List ℕ)) × (o ≡ some rest) × (new ≡ x ∷ rest)
bind_some x none new e = absurd (ground (arith, e))
bind_some x (some rest) new e = (rest, refl, sym (some_list e))

-- After a session left its group, every group comes from one of before.
group_remove-Within :
    (groups new : List (List ℕ)) (s p : ℕ) (g : List ℕ)
    → AreGroups groups
    → group_remove groups s ≡ some new
    → group_find new p ≡ some g
    → Within groups p g
unfolding group_remove group_find Within
group_remove-Within [] new s p g h e f =
    found-Within [] p g (ap (λ y. group_find y p) (some_list e) ∙ f)
group_remove-Within (x ∷ groups) new s p g h e f = elim (Bool-cases (member s x)) [
  | inl m ↦
      single-Within x (without x s) groups new p g h.once (member-without x s)
        (sym (rw (group_remove, m) refl) ∙ e) f
  | inr n ↦
      let (rest, at_rest, is) =
        bind_some x (group_remove groups s) new (sym (rw (group_remove, n) refl) ∙ e) in
      let f' : group_find (x ∷ rest) p ≡ some g = ap (λ y. group_find y p) (sym is) ∙ f in
      elim (Bool-cases (member p x)) [
        | inl m ↦
            let is_g : x ≡ g = some_ids (sym (rw m refl) ∙ f') in
            (x, rw m refl, λ q y. ap (member q) is_g ∙ y)
        | inr d ↦ later-Within x groups p g h.once (
            group_remove-Within groups rest s p g (once_tail x groups h) at_rest
              (sym (rw d refl) ∙ f'))
      ]
]

in_found :
    (groups : List (List ℕ)) (p q : ℕ) (g : List ℕ)
    → group_find groups p ≡ some g
    → member q g ≡ true
    → 0 < occurs_in groups q
in_found groups p q g e m = omega (arith, member-occurs g q m, occurs_find groups p q g e)

drop-AllSessions :
    (P : Session → Type 0) (all : Sessions) (s : ℕ)
    → AllSessions P all
    → AllSessions P (drop_session all s)
unfolding drop_session
drop-AllSessions P [] s a = tt
drop-AllSessions P ((t, u) ∷ all) s a = elim (Bool-cases (t == s)) [
  | inl h ↦ rw h a.1
  | inr h ↦ rw h (a.0, drop-AllSessions P all s a.1)
]

length-drop_session :
    (all : Sessions) (s : ℕ) (v : Session)
    → find_session all s ≡ some v
    → length all ≡ suc (length (drop_session all s))
unfolding drop_session find_session
length-drop_session [] s v e = absurd (ground (arith, e))
length-drop_session ((t, u) ∷ all) s v e = elim (Bool-cases (t == s)) [
  | inl h ↦ rw h refl
  | inr h ↦ rw h (ap suc (length-drop_session all s v (ground (arith, h, e))))
]

-- The server without a session: exact and in line, and all others are as they were.
pub record Destroyed (k : ℕ) (sv : Server) (s : ℕ) (new : Server) : Type 0 where
  pub exact : IsExact k new
  pub in_sync : InSync new
  pub ungrouped : occurs_in new.groups s ≡ 0
  pub others : (q : ℕ) → q ≢ s → find_session new.sessions q ≡ find_session sv.sessions q

-- On a server that is exact and in line, `session_destroy` returns: the windows of no other session
-- are lost, the session is in no group and a session that it leaves alone is in none either, and the
-- server is exact and in line again.
pub destroy-Destroyed :
    (k : ℕ) (sv : Server) (s : ℕ) (v : Session)
    → IsExact k sv
    → InSync sv
    → find_session sv.sessions s ≡ some v
    → (new : Server) × (destroy sv s ≡ some new) × Destroyed k sv s new
unfolding destroy Within
destroy-Destroyed k sv s v x h at_s =
    let (groups, goes, left) = group_remove-Left sv.groups s h.groups in
    let rest = drop_session sv.sessions s in
    let (refs, frees, y) =
      free_links-Exact v.windows sv.refs (total rest)
        (Exact-ext sv.refs _ _ x.exact (λ p. total-drop sv.sessions s p v at_s)) in
    let stranger : (p : ℕ) → 0 < occurs_in groups p → p ≢ s =
      λ p o q. absurd (omega (arith, o, left.gone, ap (occurs_in groups) q)) in
    (
      record { sessions = rest; groups = groups; refs = refs },
      rw (destroy, at_s, goes, frees) refl,
      record {
        exact = record {
          whole = drop-AllSessions (IsWhole k) sv.sessions s x.whole;
          exact = y;
          room = omega (
            arith,
            x.room,
            suc-mul (suc (length rest)) k,
            ap (λ n. suc n * k) (length-drop_session sv.sessions s v at_s),
          );
        };
        in_sync = record {
          groups = left.groups_again;
          known = λ p o.
              let (u, at_u) = h.known p (omega (arith, o, left.fewer p)) in
              (u, find-drop_ne sv.sessions s p (stranger p o) ∙ at_u);
          views = λ p q g a b found m at_p at_q.
              let (g0, found0, sub) =
                group_remove-Within sv.groups groups s p g h.groups goes found in
              let np = stranger p (find_some groups p g found).0 in
              let nq = stranger q (in_found groups p q g found m) in
              h.views p q g0 a b found0 (sub q m) (sym (find-drop_ne sv.sessions s p np) ∙ at_p)
                (sym (find-drop_ne sv.sessions s q nq) ∙ at_q);
        };
        ungrouped = left.gone;
        others = λ q n. find-drop_ne sv.sessions s q n;
      },
    )
