-- ===== src/Winlink/Steps.antt =====
-- Moving from winlink to winlink in window.c: the next and the previous one, and many steps around.
use tmux_cvs_archived.Prelude.{
  ℕ, zero, suc, true, ◌-◌, ◌%◌, ◌≤◌, ◌<◌, ◌≡◌, refl, Option, none, some, List, [], ◌∷◌, ltb, arith,
  get_elem?, Bool-cases, ltb→lt, inl, inr,
}
use native.Mathlib.Nat.{mod-eq_of_lt, mod_self}
use tmux_cvs_archived.Winlink.{Winlink, has, next, previous, first, last, next_around, count}
use tmux_cvs_archived.Winlink.Order.{From}

pub next-has :
    (wwl : List Winlink) (i : ℕ) (wl : Winlink)
    → next wwl i ≡ some wl
    → (i < wl.idx) × (has wwl wl.idx ≡ true)
unfolding next
next-has [] i wl e = ground arith
next-has (v ∷ wwl) i wl e = ground (arith, next-has wwl i wl)

pub first-has : (wwl : List Winlink) (wl : Winlink) → first wwl ≡ some wl → has wwl wl.idx ≡ true
unfolding first
first-has [] wl e = ground arith
first-has (v ∷ wwl) wl e = ground arith

pub last-has : (wwl : List Winlink) (wl : Winlink) → last wwl ≡ some wl → has wwl wl.idx ≡ true
unfolding last
last-has [] wl e = ground arith
last-has (v ∷ wwl) wl e = ground (arith, last-has wwl wl)

pub previous-has :
    (wwl : List Winlink) (i : ℕ) (wl : Winlink)
    → previous wwl i ≡ some wl
    → (wl.idx < i) × (has wwl wl.idx ≡ true)
unfolding previous
previous-has [] i wl e = ground arith
previous-has (v ∷ wwl) i wl e = ground (arith, previous-has wwl i wl)

next_below :
    (b : ℕ) (wwl : List Winlink) (i : ℕ) → From b wwl → i < b → next wwl i ≡ get_elem? wwl 0
unfolding next
next_below b [] i f h = refl
next_below b (v ∷ wwl) i f h = ground (arith, f.0)

pub next_position :
    (b : ℕ) (wwl : List Winlink) (p : ℕ) (wl : Winlink)
    → From b wwl
    → get_elem? wwl p ≡ some wl
    → (b ≤ wl.idx) × (next wwl wl.idx ≡ get_elem? wwl (suc p))
unfolding next
next_position b [] p wl f e = ground arith
next_position b (v ∷ wwl) zero wl f e = ground (arith, f.0, next_below (suc v.idx) wwl v.idx f.1)
next_position b (v ∷ wwl) (suc p) wl f e =
    ground (arith, f.0, next_position (suc v.idx) wwl p wl f.1 e)

previous_below : (b : ℕ) (wwl : List Winlink) (i : ℕ) → From b wwl → i ≤ b → previous wwl i ≡ none
unfolding previous
previous_below b [] i f h = refl
previous_below b (v ∷ wwl) i f h = ground (arith, f.0)

pub elem_before :
    (wwl : List Winlink) (p : ℕ) (wl : Winlink)
    → get_elem? wwl (suc p) ≡ some wl
    → (v : Winlink) × (get_elem? wwl p ≡ some v)
elem_before [] p wl e = ground arith
elem_before (v ∷ wwl) zero wl e = (v, refl)
elem_before (v ∷ wwl) (suc p) wl e = elem_before wwl p wl e

abbrev pub before : List Winlink → ℕ → Option Winlink
before wwl zero = none
before wwl (suc p) = get_elem? wwl p

pub previous_position :
    (b : ℕ) (wwl : List Winlink) (p : ℕ) (wl : Winlink)
    → From b wwl
    → get_elem? wwl p ≡ some wl
    → previous wwl wl.idx ≡ before wwl p
unfolding previous
previous_position b [] p wl f e = ground arith
previous_position b (v ∷ wwl) zero wl f e = ground arith
previous_position b (v ∷ wwl) (suc zero) wl f e = ground (
  arith,
  f.0,
  next_position (suc v.idx) wwl zero wl f.1 e,
  previous_position (suc v.idx) wwl zero wl f.1 e,
)
previous_position b (v ∷ wwl) (suc (suc p)) wl f e =
    let (u, at_p) = elem_before wwl p wl e in
    ground (
      arith,
      f.0,
      at_p,
      next_position (suc v.idx) wwl (suc p) wl f.1 e,
      previous_position (suc v.idx) wwl (suc p) wl f.1 e,
    )

pub count_pos :
    (wwl : List Winlink) (p : ℕ) (wl : Winlink) → get_elem? wwl p ≡ some wl → p < count wwl
unfolding count
count_pos [] p wl e = ground arith
count_pos (v ∷ wwl) zero wl e = omega arith
count_pos (v ∷ wwl) (suc p) wl e = omega (arith, count_pos wwl p wl e)

pub elem_in :
    (wwl : List Winlink) (p : ℕ) → p < count wwl → (wl : Winlink) × (get_elem? wwl p ≡ some wl)
unfolding count
elem_in [] p h = absurd (omega arith)
elem_in (v ∷ wwl) zero h = (v, refl)
elem_in (v ∷ wwl) (suc p) h = elem_in wwl p (omega arith)

elem_past : (wwl : List Winlink) (p : ℕ) → count wwl ≤ p → get_elem? wwl p ≡ none
unfolding count
elem_past [] p h = refl
elem_past (v ∷ wwl) zero h = absurd (omega arith)
elem_past (v ∷ wwl) (suc p) h = elem_past wwl p (omega arith)

pub first_position : (wwl : List Winlink) → first wwl ≡ get_elem? wwl 0
unfolding first
first_position [] = refl
first_position (v ∷ wwl) = refl

pub last_position : (wwl : List Winlink) → last wwl ≡ get_elem? wwl (count wwl - 1)
unfolding last count
last_position [] = refl
last_position (v ∷ []) = refl
last_position (v ∷ u ∷ wwl) =
    let (w, at_end) = elem_in (u ∷ wwl) (count wwl) (unfold count in omega arith) in
    ground (arith, last_position (u ∷ wwl), at_end)

pub next_around_position :
    (wwl : List Winlink) (p : ℕ) (wl : Winlink)
    → From 0 wwl
    → get_elem? wwl p ≡ some wl
    → next_around wwl wl.idx ≡ get_elem? wwl (suc p % count wwl)
unfolding next_around
next_around_position wwl p wl f e =
    let inside = count_pos wwl p wl e in
    let (_, step) = next_position 0 wwl p wl f e in
    rw (step, first_position wwl)
      (elim (Bool-cases (ltb (suc p) (count wwl))) [
        | inl h ↦
            let (v, at_next) = elem_in wwl (suc p) (ltb→lt (suc p) (count wwl) h) in
            rw (mod-eq_of_lt (ltb→lt (suc p) (count wwl) h), at_next) refl
        | inr h ↦
            let end : suc p ≡ count wwl = ground (arith, inside) in
            rw (elem_past wwl (suc p) (omega (arith, end)), end, mod_self (count wwl)) refl
      ])
