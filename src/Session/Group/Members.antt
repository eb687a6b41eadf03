-- ===== src/Session/Group/Members.antt =====
-- The groups of sessions of session.c: a session is in one group at most, and no group has less than
-- two.
use tmux_cvs_archived.Prelude.{
  ℕ, true, false, ◌+◌, ◌||◌, ◌≤◌, ◌<◌, ◌≡◌, ◌≢◌, refl, ◌∙◌, sym, ap, subst, none, some, List, [],
  ◌∷◌, ◌++◌, length, length-append, ◌==◌, if◌then◌else◌, arith, Bool-cases, Option-cases, inl, inr,
}
use tmux_cvs_archived.Session.Group.{member, group_find, append_to, group_add}

-- How often the session is in a group, and in all of them.
abbrev pub occurs : List ℕ → ℕ → ℕ
occurs [] p = 0
occurs (t ∷ group) p = (if t == p then 1 else 0) + occurs group p

abbrev pub occurs_in : List (List ℕ) → ℕ → ℕ
occurs_in [] p = 0
occurs_in (g ∷ groups) p = occurs g p + occurs_in groups p

abbrev pub AllLarge : List (List ℕ) → Type 0
AllLarge [] = Unit
AllLarge (g ∷ groups) = (2 ≤ length g) × AllLarge groups

pub record AreGroups (groups : List (List ℕ)) : Type 0 where
  pub once : (p : ℕ) → occurs_in groups p ≤ 1
  pub large : AllLarge groups

pub member-occurs : (g : List ℕ) (s : ℕ) → member s g ≡ true → 0 < occurs g s
member-occurs [] s h = ground arith
member-occurs (t ∷ g) s h = ground (arith, member-occurs g s)

pub member-none : (g : List ℕ) (s : ℕ) → member s g ≡ false → occurs g s ≡ 0
member-none [] s h = refl
member-none (t ∷ g) s h = ground (arith, member-none g s)

occurs-append : (g h : List ℕ) (p : ℕ) → occurs (g ++ h) p ≡ occurs g p + occurs h p
occurs-append [] h p = omega arith
occurs-append (t ∷ g) h p = omega (arith, occurs-append g h p)

occurs_in-append :
    (xs ys : List (List ℕ)) (p : ℕ) → occurs_in (xs ++ ys) p ≡ occurs_in xs p + occurs_in ys p
occurs_in-append [] ys p = omega arith
occurs_in-append (g ∷ xs) ys p = omega (arith, occurs_in-append xs ys p)

-- Sessions are added to the first group that has the target.
append_to-occurs :
    (groups : List (List ℕ)) (target s p : ℕ)
    → 0 < occurs_in groups target
    → occurs_in (append_to groups target s) p ≡ occurs_in groups p + occurs (s ∷ []) p
unfolding append_to
append_to-occurs [] target s p h = absurd (omega arith)
append_to-occurs (g ∷ groups) target s p h = elim (Bool-cases (member target g)) [
  | inl e ↦ rw e (omega (arith, occurs-append g (s ∷ []) p))
  | inr e ↦
      rw e
        (omega (arith, append_to-occurs groups target s p (omega (arith, member-none g target e))))
]

append_to-large :
    (groups : List (List ℕ)) (target s : ℕ) → AllLarge groups → AllLarge (append_to groups target s)
unfolding append_to
append_to-large [] target s l = tt
append_to-large (g ∷ groups) target s l = elim (Bool-cases (member target g)) [
  | inl e ↦ rw e (omega (arith, l.0, length-append g (s ∷ [])), l.1)
  | inr e ↦ rw e (l.0, append_to-large groups target s l.1)
]

find_none : (groups : List (List ℕ)) (s : ℕ) → group_find groups s ≡ none → occurs_in groups s ≡ 0
unfolding group_find
find_none [] s h = refl
find_none (g ∷ groups) s h = elim (Bool-cases (member s g)) [
  | inl e ↦ absurd (ground (arith, e, h))
  | inr e ↦ omega (arith, member-none g s e, find_none groups s (ground (arith, e, h)))
]

pub find_some :
    (groups : List (List ℕ)) (s : ℕ) (g : List ℕ)
    → group_find groups s ≡ some g
    → (0 < occurs_in groups s) × (member s g ≡ true)
unfolding group_find
find_some [] s g h = absurd (ground (arith, h))
find_some (x ∷ groups) s g h = elim (Bool-cases (member s x)) [
  | inl e ↦ (
    omega (arith, member-occurs x s e),
    subst (λ y. member s y ≡ true) {x = x} {y = g} (ground (arith, e, h)) e,
  )
  | inr e ↦
      let (some_there, there) = find_some groups s g (ground (arith, e, h)) in (omega arith, there)
]

-- After the addition the group of the target has the session.
member-append : (g : List ℕ) (s p : ℕ) → member p (g ++ (s ∷ [])) ≡ (member p g || s == p)
member-append [] s p = ground arith
member-append (t ∷ g) s p = ground (arith, member-append g s p)

append_to-find :
    (groups : List (List ℕ)) (target s : ℕ)
    → 0 < occurs_in groups target
    → (g : List ℕ) × (group_find (append_to groups target s) target ≡ some g) × (member s g ≡ true)
unfolding append_to group_find
append_to-find [] target s h = absurd (omega arith)
append_to-find (g ∷ groups) target s h = elim (Bool-cases (member target g)) [
  | inl e ↦
      rw (e, member-append g s target, e) (g ++ (s ∷ []), refl, member-append g s s ∙ ground arith)
  | inr e ↦ rw (e, e) (append_to-find groups target s (omega (arith, member-none g target e)))
]

append_new :
    (groups : List (List ℕ)) (target s : ℕ)
    → occurs_in groups target ≡ 0
    → append_to (groups ++ ((target ∷ []) ∷ [])) target s ≡ groups ++ ((target ∷ s ∷ []) ∷ [])
unfolding append_to
append_new [] target s h = ground arith
append_new (g ∷ groups) target s h = elim (Bool-cases (member target g)) [
  | inl e ↦ absurd (omega (arith, member-occurs g target e))
  | inr e ↦ rw e (ap (λ r. g ∷ r) (append_new groups target s (omega arith)))
]

append-large : (xs ys : List (List ℕ)) → AllLarge xs → AllLarge ys → AllLarge (xs ++ ys)
append-large [] ys l m = m
append-large (g ∷ xs) ys l m = (l.0, append-large xs ys l.1 m)

-- What `session_group_add` makes of groups: they are groups again, the target is in the group of the
-- session, and no other session has come or gone.
pub record Joined (groups : List (List ℕ)) (target s : ℕ) (new : List (List ℕ)) : Type 0 where
  pub groups_again : AreGroups new
  pub together : (g : List ℕ) × (group_find new target ≡ some g) × (member s g ≡ true)
  pub others : (p : ℕ) → p ≢ target → p ≢ s → occurs_in new p ≡ occurs_in groups p

one_of : (p t : ℕ) → p ≢ t → occurs (t ∷ []) p ≡ 0
one_of p t n = ground (arith, n)

once_more :
    (groups : List (List ℕ)) (s p : ℕ)
    → AreGroups groups
    → occurs_in groups s ≡ 0
    → occurs_in groups p + occurs (s ∷ []) p ≤ 1
once_more groups s p h free = elim (Bool-cases (s == p)) [
  | inl e ↦
      let same : occurs_in groups p ≡ 0 =
        subst (λ x. occurs_in groups x ≡ 0) {x = s} {y = p} (ground (arith, e)) free in
      rw e (omega arith)
  | inr e ↦ rw e (omega (arith, h.once p))
]

pub self : (p : ℕ) → occurs (p ∷ []) p ≡ 1
self p = ground arith

not_both : (t s p : ℕ) → t ≢ s → occurs (t ∷ []) p + occurs (s ∷ []) p ≤ 1
not_both t s p n = ground (arith, n)

-- Where `s` is in no group and is not the target, `session_group_add` puts it into the group of the
-- target, made if there was none, and the groups stay groups.
pub group_add-Joined :
    (groups : List (List ℕ)) (target s : ℕ)
    → AreGroups groups
    → occurs_in groups s ≡ 0
    → target ≢ s
    → Joined groups target s (group_add groups target s)
unfolding group_add
group_add-Joined groups target s h free n = elim (Option-cases (group_find groups target)) [
  | inl e ↦
      let alone = find_none groups target e in
      let with_target = groups ++ ((target ∷ []) ∷ []) in
      let counts : (p : ℕ) → occurs_in with_target p ≡ occurs_in groups p + occurs (target ∷ []) p =
        λ p. omega (arith, occurs_in-append groups ((target ∷ []) ∷ []) p) in
      let there : 0 < occurs_in with_target target = omega (arith, counts target, self target) in
      rw (group_add, e)
        (record {
          groups_again = record {
            once = λ p. omega (
              arith,
              append_to-occurs with_target target s p there,
              counts p,
              once_more groups s p h free,
              once_more groups target p h alone,
              not_both target s p n,
            );
            large =
                subst AllLarge (sym (append_new groups target s alone))
                  (append-large groups ((target ∷ s ∷ []) ∷ []) h.large (omega arith, tt));
          };
          together = append_to-find with_target target s there;
          others = λ p a b. omega (
            arith,
            append_to-occurs with_target target s p there,
            counts p,
            one_of p target a,
            one_of p s b,
          );
        })
  | inr (g, e) ↦
      let (there, _) = find_some groups target g e in
      rw (group_add, e)
        (record {
          groups_again = record {
            once = λ p.
                omega
                  (arith, append_to-occurs groups target s p there, once_more groups s p h free);
            large = append_to-large groups target s h.large;
          };
          together = append_to-find groups target s there;
          others = λ p a b. omega (arith, append_to-occurs groups target s p there, one_of p s b);
        })
]
