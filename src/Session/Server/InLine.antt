-- ===== src/Session/Server/InLine.antt =====
-- When the sessions of a group are in line in session.c: they show the same windows.
use tmux_cvs_archived.Prelude.{
  ℕ, Bool, true, false, ◌+◌, ◌||◌, ◌≤◌, ◌<◌, ◌≡◌, refl, ◌∙◌, sym, ap, subst, Option, some, List, [],
  ◌∷◌, ◌==◌, arith, Bool-cases, inl, inr,
}
use tmux_cvs_archived.Session.{Session}
use tmux_cvs_archived.Session.Group.{member, group_find}
use tmux_cvs_archived.Session.Group.Members.{occurs, occurs_in, AreGroups, member-occurs}
use tmux_cvs_archived.Session.Group.Synchronize.{Near}
use tmux_cvs_archived.Session.Server.{Server, find_session}
use tmux_cvs_archived.Session.Server.Pair.{view}
use tmux_cvs_archived.Winlink.{Winlink, has}

-- The sessions of every group are there and show the same windows.
pub record InSync (sv : Server) : Type 0 where
  pub groups : AreGroups sv.groups
  pub known :
      (p : ℕ) → 0 < occurs_in sv.groups p → (v : Session) × (find_session sv.sessions p ≡ some v)
  pub views :
      (p q : ℕ) (g : List ℕ) (a b : Session)
      → group_find sv.groups p ≡ some g
      → member q g ≡ true
      → find_session sv.sessions p ≡ some a
      → find_session sv.sessions q ≡ some b
      → view a.windows ≡ view b.windows

pub occurs_find :
    (groups : List (List ℕ)) (s p : ℕ) (g : List ℕ)
    → group_find groups s ≡ some g
    → occurs g p ≤ occurs_in groups p
unfolding group_find
occurs_find [] s p g e = absurd (ground (arith, e))
occurs_find (x ∷ groups) s p g e = elim (Bool-cases (member s x)) [
  | inl m ↦
      let same : x ≡ g = ground (arith, m, e) in
      subst (λ y. occurs y p ≤ occurs x p + occurs_in groups p) same (omega arith)
  | inr m ↦ omega (arith, occurs_find groups s p g (ground (arith, m, e)))
]

-- A session of a group that was found has that group.
pub same_group :
    (groups : List (List ℕ)) (s q : ℕ) (g : List ℕ)
    → ((p : ℕ) → occurs_in groups p ≤ 1)
    → group_find groups s ≡ some g
    → member q g ≡ true
    → group_find groups q ≡ some g
unfolding group_find
same_group [] s q g once e m = absurd (ground (arith, e))
same_group (x ∷ groups) s q g once e m = elim (Bool-cases (member s x)) [
  | inl h ↦
      let same : x ≡ g = ground (arith, h, e) in
      let here : member q x ≡ true = ap (member q) same ∙ m in rw here (ap some same)
  | inr h ↦
      let found : group_find groups s ≡ some g = ground (arith, h, e) in
      let later = occurs_find groups s q g found in
      elim (Bool-cases (member q x)) [
        | inl both ↦
            absurd (omega (arith, once q, later, member-occurs g q m, member-occurs x q both))
        | inr f ↦ rw f (same_group groups s q g (λ p. omega (arith, once p)) found m)
      ]
]

has_view : List (ℕ × Option ℕ) → ℕ → Bool
has_view [] i = false
has_view ((j, w) ∷ xs) i = j == i || has_view xs i

has-view : (wwl : List Winlink) (i : ℕ) → has_view (view wwl) i ≡ has wwl i
unfolding has_view
has-view [] i = refl
has-view (wl ∷ wwl) i = ap (λ b. wl.idx == i || b) (has-view wwl i)

same_has : (a b : List Winlink) (i : ℕ) → view a ≡ view b → has a i ≡ has b i
same_has a b i e = sym (has-view a i) ∙ ap (λ x. has_view x i) e ∙ has-view b i

-- From the windows of `v` at most one is gone in `t`, and not the last.
abbrev pub OneStep : Session → Session → Type 0
OneStep v t = (c : ℕ) → has v.windows c ≡ true → Near t v c

pub Near-view :
    (v t s : Session) (c : ℕ)
    → view v.windows ≡ view s.windows
    → has s.windows c ≡ true
    → OneStep v t
    → Near t s c
Near-view v t s c e m step = elim (step c (same_has v.windows s.windows c e ∙ m)) [
  | inl here ↦ inl here
  | inr (j, there, n, all) ↦ inr (
    j,
    same_has s.windows v.windows j (sym e) ∙ there,
    n,
    λ i h d. all i (same_has v.windows s.windows i e ∙ h) d,
  )
]
