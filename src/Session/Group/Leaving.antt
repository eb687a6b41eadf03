-- ===== src/Session/Group/Leaving.antt =====
-- A session leaves its group in session.c.
use tmux_cvs_archived.Prelude.{
  ℕ, suc, true, false, Option, none, ◌+◌, ◌≤◌, ◌≡◌, ◌≢◌, refl, sym, subst, some, if◌then◌else◌, leb,
  ◌∙◌, List, [], ◌∷◌, length, ◌==◌, arith, Bool-cases, inl, inr,
}
use tmux_cvs_archived.Session.Group.{member, group_find, without, without_single, group_remove}
use tmux_cvs_archived.Session.Group.Members.{
  AreGroups, occurs, occurs_in, AllLarge, member-none, member-occurs, self,
}

-- What is left of a group that `session_group_find` found: the group of the session that leaves loses
-- it, or goes where no two would be left; another group stays.
abbrev pub left_of : ℕ → Option (List ℕ) → Option (List ℕ)
left_of s none = none
left_of s (some g) =
    if member s g then (if leb (length g) 2 then none else some (without g s)) else some g

-- What `session_group_remove` makes of groups: they are groups again, without the session, and every
-- other session is in the group it was in, less the session that left, or in none where that was one
-- of two.
pub record Left (groups : List (List ℕ)) (s : ℕ) (new : List (List ℕ)) : Type 0 where
  pub groups_again : AreGroups new
  pub gone : occurs_in new s ≡ 0
  pub fewer : (p : ℕ) → occurs_in new p ≤ occurs_in groups p
  pub found : (p : ℕ) → p ≢ s → group_find new p ≡ left_of s (group_find groups p)

without-occurs :
    (g : List ℕ) (s p : ℕ)
    → member s g ≡ true
    → occurs g p ≡ occurs (without g s) p + occurs (s ∷ []) p
unfolding without
without-occurs [] s p h = absurd (ground (arith, h))
without-occurs (t ∷ g) s p h = elim (Bool-cases (t == s)) [
  | inl e ↦
      let same : t ≡ s = ground (arith, e) in
      rw e (subst (λ x. occurs (x ∷ g) p ≡ occurs g p + occurs (s ∷ []) p) (sym same) (omega arith))
  | inr e ↦ rw e (omega (arith, without-occurs g s p (ground (arith, h, e))))
]

length-without : (g : List ℕ) (s : ℕ) → member s g ≡ true → length g ≡ suc (length (without g s))
unfolding without
length-without [] s h = absurd (ground (arith, h))
length-without (t ∷ g) s h = ground (arith, length-without g s)

member-without : (g : List ℕ) (s p : ℕ) → p ≢ s → member p (without g s) ≡ member p g
unfolding without
member-without [] s p h = refl
member-without (t ∷ g) s p h = elim (Bool-cases (t == s)) [
  | inl e ↦ ground (arith, e, h)
  | inr e ↦ ground (arith, e, member-without g s p h)
]

occurs-member : (g : List ℕ) (s : ℕ) → occurs g s ≡ 0 → member s g ≡ false
occurs-member [] s h = refl
occurs-member (t ∷ g) s h = ground (arith, h, occurs-member g s)

find-none : (groups : List (List ℕ)) (p : ℕ) → occurs_in groups p ≡ 0 → group_find groups p ≡ none
unfolding group_find
find-none [] p h = refl
find-none (g ∷ groups) p h =
    rw (occurs-member g p (omega (arith, h)), find-none groups p (omega (arith, h))) refl

-- Groups that the session is not in stay as they are.
left_of-find :
    (groups : List (List ℕ)) (s p : ℕ)
    → occurs_in groups s ≡ 0
    → left_of s (group_find groups p) ≡ group_find groups p
unfolding group_find
left_of-find [] s p h = refl
left_of-find (g ∷ groups) s p h = elim (Bool-cases (member p g)) [
  | inl e ↦ rw (e, occurs-member g s (omega (arith, h))) refl
  | inr e ↦ rw e (left_of-find groups s p (omega (arith, h)))
]

-- Another session, where the group of the one that leaves is the first.
single-find :
    (rest : List ℕ) (groups : List (List ℕ)) (p : ℕ) (new : List (List ℕ))
    → without_single rest groups ≡ some new
    → (member p rest ≡ true → group_find groups p ≡ none)
    → group_find new p ≡ (
        if member p rest
        then (if leb (length rest) 1 then none else some rest)
        else group_find groups p)
unfolding without_single group_find
single-find [] groups p new e other = absurd (ground (arith, e))
single-find (t ∷ []) groups p new e other =
    let same : new ≡ groups = ground (arith, e) in
    elim (Bool-cases (member p (t ∷ []))) [
      | inl at_t ↦ rw (same, at_t) (other at_t)
      | inr not_t ↦ rw (same, not_t) refl
    ]
single-find (t ∷ u ∷ rest) groups p new e other =
    let same : new ≡ (t ∷ u ∷ rest) ∷ groups = ground (arith, e) in
    let two : leb (length (t ∷ u ∷ rest)) 1 ≡ false = ground arith in rw (same, two) refl

-- The group of the session that leaves is the first.
first-found :
    (g : List ℕ) (groups : List (List ℕ)) (s p : ℕ) (new : List (List ℕ))
    → member s g ≡ true
    → ((q : ℕ) → occurs g q + occurs_in groups q ≤ 1)
    → without_single (without g s) groups ≡ some new
    → p ≢ s
    → group_find new p ≡ left_of s (group_find (g ∷ groups) p)
unfolding group_find
first-found g groups s p new e once at_new d =
    let absent : occurs_in groups s ≡ 0 = omega (arith, once s, member-occurs g s e) in
    let found = single-find (without g s) groups p new at_new (λ m.
      find-none groups p
        (omega (arith, once p, member-occurs g p (sym (member-without g s p d) ∙ m)))) in
    let short : leb (length (without g s)) 1 ≡ leb (length g) 2 =
      ground (arith, length-without g s e) in
    found ∙ elim (Bool-cases (member p g)) [
      | inl m ↦ rw (member-without g s p d, m, e, short) refl
      | inr m ↦ rw (member-without g s p d, m) (sym (left_of-find groups s p absent))
    ]

-- The rest of a group of two or more without one of them.
single_lem :
    (rest : List ℕ) (groups : List (List ℕ)) (s : ℕ)
    → 1 ≤ length rest
    → AllLarge groups
    → ((p : ℕ) → occurs rest p + occurs_in groups p ≤ 1)
    → occurs rest s + occurs_in groups s ≡ 0
    → (new : List (List ℕ)) × (without_single rest groups ≡ some new)
      × AreGroups new
      × (occurs_in new s ≡ 0)
      × ((p : ℕ) → occurs_in new p ≤ occurs rest p + occurs_in groups p)
unfolding without_single
single_lem [] groups s h l o z = absurd (omega arith)
single_lem (t ∷ []) groups s h l o z = (
  groups,
  refl,
  record { once = λ p. omega (arith, o p); large = l },
  omega arith,
  λ p. omega arith,
)
single_lem (t ∷ u ∷ rest) groups s h l o z = (
  (t ∷ u ∷ rest) ∷ groups,
  refl,
  record { once = o; large = (omega arith, l) },
  z,
  λ p. omega arith,
)

-- The first group is another one.
other-found :
    (g : List ℕ) (groups new : List (List ℕ)) (s p : ℕ)
    → member s g ≡ false
    → group_find new p ≡ left_of s (group_find groups p)
    → group_find (g ∷ new) p ≡ left_of s (group_find (g ∷ groups) p)
unfolding group_find
other-found g groups new s p e h = elim (Bool-cases (member p g)) [
  | inl m ↦ rw (m, e) refl
  | inr m ↦ rw m h
]

-- `session_group_remove` meets no NULL on groups of which no two share a session and each has two or
-- more: the session is in none of them after it, every other session is in the group it was in, less
-- the session that left, or in no group where the two were alone in theirs, and they are groups again.
pub group_remove-Left :
    (groups : List (List ℕ)) (s : ℕ)
    → AreGroups groups
    → (new : List (List ℕ)) × (group_remove groups s ≡ some new) × Left groups s new
unfolding group_remove group_find
group_remove-Left [] s h = (
  [],
  refl,
  record { groups_again = h; gone = refl; fewer = λ p. omega arith; found = λ p d. refl },
)
group_remove-Left (g ∷ groups) s h = elim (Bool-cases (member s g)) [
  | inl e ↦
      let rest = without g s in
      let (new, at_new, again, gone, fewer) =
        single_lem rest groups s (omega (arith, length-without g s e, h.large.0)) h.large.1
          (λ p. omega (arith, h.once p, without-occurs g s p e))
          (omega (arith, h.once s, without-occurs g s s e, self s)) in
      (
        new,
        rw (group_remove, e) at_new,
        record {
          groups_again = again;
          gone = gone;
          fewer = λ p. omega (arith, fewer p, without-occurs g s p e);
          found = λ p. first-found g groups s p new e h.once at_new;
        },
      )
  | inr e ↦
      let tail : AreGroups groups = record {
        once = λ p. omega (arith, h.once p);
        large = h.large.1;
      } in
      let (new, at_new, left) = group_remove-Left groups s tail in
      (
        g ∷ new,
        rw (group_remove, e, at_new) refl,
        record {
          groups_again = record {
            once = λ p. omega (arith, left.fewer p, h.once p);
            large = (h.large.0, left.groups_again.large);
          };
          gone = omega (arith, member-none g s e, left.gone);
          fewer = λ p. omega (arith, left.fewer p);
          found = λ p d. other-found g groups new s p e (left.found p d);
        },
      )
]
