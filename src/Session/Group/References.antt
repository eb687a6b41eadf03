-- ===== src/Session/Group/References.antt =====
-- The reference counts of windows in session.c and window.c: they count the winlinks.
use tmux_cvs_archived.Prelude.{
  ℕ, zero, suc, true, false, ==_iff, ◌+◌, ◌-◌, ◌^◌, ◌%◌, ◌<◌, ◌≡◌, refl, ◌∙◌, sym, ap, Option, none,
  some, List, [], ◌∷◌, ◌==◌, if◌then◌else◌, arith, Bool-cases, inl, inr,
}
use tmux_cvs_archived.Session.Group.{Store, put, link, release, free_links}
use tmux_cvs_archived.Winlink.{Winlink}

-- 1 for the window that a winlink has, 0 for the others.
abbrev pub one : Option ℕ → ℕ → ℕ
one none p = 0
one (some w) p = if p == w then 1 else 0

-- How many of the winlinks have the window.
abbrev pub uses : List Winlink → ℕ → ℕ
uses [] p = 0
uses (wl ∷ wwl) p = one wl.window p + uses wwl p

abbrev pub shown : ℕ → Option ℕ
shown zero = none
shown (suc n) = some (suc n)

-- The windows are those with a count that is not 0, and have that count.
abbrev pub Exact : Store → (ℕ → ℕ) → Type 0
Exact refs f = (p : ℕ) → refs p ≡ shown (f p)

pub Exact-ext : (refs : Store) (f g : ℕ → ℕ) → Exact refs f → ((p : ℕ) → f p ≡ g p) → Exact refs g
Exact-ext refs f g x h p = x p ∙ ap shown (h p)

shown_pos : (n : ℕ) → 0 < n → shown n ≡ some n
shown_pos zero h = absurd (omega arith)
shown_pos (suc n) h = refl

shown_is : (m n : ℕ) → m ≡ n → 0 < n → some m ≡ shown n
shown_is m n e h = ap some e ∙ sym (shown_pos n h)

same_count : (f : ℕ → ℕ) (p w : ℕ) → (p == w) ≡ true → f p ≡ f w
same_count f p w e = ap f ((==_iff p w).0 e)

shown_test : (n : ℕ) → (if n == 0 then none else some n) ≡ shown n
shown_test zero = refl
shown_test (suc n) = ground arith

-- A reference more, to a window that is there.
pub link-Exact :
    (refs : Store) (f : ℕ → ℕ) (w : ℕ)
    → Exact refs f
    → 0 < f w
    → f w + 1 < 2 ^ 32
    → (refs' : Store) × (link refs w ≡ some refs') × Exact refs' (λ p. one (some w) p + f p)
unfolding link
link-Exact refs f w x h l =
    let here : refs w ≡ some (f w) = x w ∙ shown_pos (f w) h in
    let small : (f w + 1) % 2 ^ 32 ≡ f w + 1 = omega arith in
    (
      put refs w (some ((f w + 1) % 2 ^ 32)),
      rw (link, here) refl,
      λ p. elim (Bool-cases (p == w)) [
        | inl e ↦
            rw (e, small)
              (shown_is (f w + 1) (1 + f p) (omega (arith, same_count f p w e)) (omega arith))
        | inr e ↦ rw e (x p ∙ ap shown (omega arith))
      ],
    )

-- The first reference to a new window.
pub link_new-Exact :
    (refs : Store) (f : ℕ → ℕ) (w : ℕ)
    → Exact refs f
    → f w ≡ 0
    → (refs' : Store) × (link (put refs w (some 0)) w ≡ some refs')
      × Exact refs' (λ p. one (some w) p + f p)
unfolding link
link_new-Exact refs f w x h =
    let fresh = put refs w (some 0) in
    let here : fresh w ≡ some 0 = let self : (w == w) ≡ true = ground arith in rw self refl in
    (
      put fresh w (some ((0 + 1) % 2 ^ 32)),
      rw (link, here) refl,
      λ p. elim (Bool-cases (p == w)) [
        | inl e ↦ rw e (shown_is 1 (1 + f p) (omega (arith, same_count f p w e, h)) (omega arith))
        | inr e ↦ rw e (x p ∙ ap shown (omega arith))
      ],
    )

-- A reference less, to a window that has it, or to none.
pub release-Exact :
    (refs : Store) (g : ℕ → ℕ) (o : Option ℕ)
    → Exact refs (λ p. one o p + g p)
    → (refs' : Store) × (release refs o ≡ some refs') × Exact refs' g
unfolding release
release-Exact refs g none x = (refs, refl, λ p. x p ∙ ap shown (omega arith))
release-Exact refs g (some w) x =
    let n = 1 + g w in
    let here : refs w ≡ some n = x w ∙ ap shown (ground arith) ∙ shown_pos n (omega arith) in
    let used : (n == 0) ≡ false = ground arith in
    let less : n - 1 ≡ g w = omega arith in
    (
      put refs w (if n - 1 == 0 then none else some (n - 1)),
      rw (release, here, used) refl,
      λ p. elim (Bool-cases (p == w)) [
        | inl e ↦ rw (e, less) (shown_test (g w) ∙ ap shown (sym (same_count g p w e)))
        | inr e ↦ rw e (x p ∙ ap shown (rw e (omega arith)))
      ],
    )

-- Freeing winlinks takes away just their references, and never meets a window that is not there.
pub free_links-Exact :
    (wwl : List Winlink) (refs : Store) (g : ℕ → ℕ)
    → Exact refs (λ p. uses wwl p + g p)
    → (refs' : Store) × (free_links wwl refs ≡ some refs') × Exact refs' g
unfolding free_links
free_links-Exact [] refs g x = (refs, refl, λ p. x p ∙ ap shown (omega arith))
free_links-Exact (wl ∷ wwl) refs g x =
    let f = λ (p : ℕ). uses wwl p + g p in
    let (r, at_r, x') =
      release-Exact refs f wl.window
        (Exact-ext refs (λ p. uses (wl ∷ wwl) p + g p) _ x (λ p. omega arith)) in
    let (r', at_r', x'') = free_links-Exact wwl r g x' in (r', rw (free_links, at_r) at_r', x'')
