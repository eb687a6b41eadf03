-- ===== src/Winlink/Around.antt =====
-- Moving many winlinks on or back in window.c, around the ends of the tree.
use tmux_cvs_archived.Prelude.{
  ℕ, zero, suc, ◌+◌, ◌-◌, ◌*◌, ◌%◌, ◌<◌, ◌≡◌, refl, ◌∙◌, ap, Option, none, some, List, arith,
  get_elem?,
}
use native.Mathlib.Nat.{
  mod-eq_of_lt, mod-add-mod, add-mul-mod_self_right, add-mod_right, mod-lt, mul-suc, suc-mul,
}
use tmux_cvs_archived.Winlink.{Winlink, previous_around, next_by_number, previous_by_number, count}
use tmux_cvs_archived.Winlink.Order.{From}
use tmux_cvs_archived.Winlink.Steps.{
  elem_before, previous_position, count_pos, elem_in, last_position, next_around_position,
}

-- One step back, counted as all the steps forward but one.
pub previous_around_position :
    (wwl : List Winlink) (p : ℕ) (wl : Winlink)
    → From 0 wwl
    → get_elem? wwl p ≡ some wl
    → previous_around wwl wl.idx ≡ get_elem? wwl ((p + (count wwl - 1)) % count wwl)
unfolding previous_around
previous_around_position wwl zero wl f e =
    let inside = count_pos wwl zero wl e in
    rw
      (
        previous_position 0 wwl zero wl f e,
        last_position wwl,
        mod-eq_of_lt {n = 0 + (count wwl - 1)} {m = count wwl} (omega arith),
      )
      (ap (get_elem? wwl) (omega arith))
previous_around_position wwl (suc p) wl f e =
    let inside = count_pos wwl (suc p) wl e in
    let (v, at_p) = elem_before wwl p wl e in
    let round : suc p + (count wwl - 1) ≡ p + count wwl = omega arith in
    rw
      (
        previous_position 0 wwl (suc p) wl f e,
        at_p,
        round,
        add-mod_right p (count wwl),
        mod-eq_of_lt {n = p} {m = count wwl} (omega arith),
        at_p,
      )
      refl

abbrev pub index_at : List Winlink → ℕ → Option ℕ
index_at wwl p = elim (get_elem? wwl p) [ none ↦ none | some wl ↦ some wl.idx ]

mod_inside : (wwl : List Winlink) (p n : ℕ) → p < count wwl → n % count wwl < count wwl
mod_inside wwl p n h = mod-lt n (omega arith)

-- Where the winlinks are in order, `winlink_next_by_number` goes `n` winlinks on from the one at
-- position `p`, around the end of the tree.
next_by_number_lem :
    (wwl : List Winlink) (p n : ℕ) (wl : Winlink)
    → From 0 wwl
    → get_elem? wwl p ≡ some wl
    → next_by_number wwl wl.idx n ≡ index_at wwl ((p + n) % count wwl)
unfolding next_by_number
next_by_number_lem wwl p zero wl f e =
    let here : (p + 0) % count wwl ≡ p =
      ap (λ k. k % count wwl) (omega arith) ∙ mod-eq_of_lt (count_pos wwl p wl e) in
    rw (here, index_at, e) refl
next_by_number_lem wwl p (suc n) wl f e =
    let inside = count_pos wwl p wl e in
    let q = suc p % count wwl in
    let (v, at_q) = elem_in wwl q (mod_inside wwl p (suc p) inside) in
    let sum : (q + n) % count wwl ≡ (p + suc n) % count wwl =
      mod-add-mod (suc p) (count wwl) n ∙ ap (λ k. k % count wwl) (omega arith) in
    rw
      (
        next_by_number,
        next_around_position wwl p wl f e,
        at_q,
        next_by_number_lem wwl q n v f at_q,
        sum,
      )
      refl

-- Where the winlinks are in order, `winlink_previous_by_number` goes `n` winlinks back from the one
-- at position `p`, around the start of the tree; a step back is counted as all the steps on but one.
previous_by_number_lem :
    (wwl : List Winlink) (p n : ℕ) (wl : Winlink)
    → From 0 wwl
    → get_elem? wwl p ≡ some wl
    → previous_by_number wwl wl.idx n ≡ index_at wwl ((p + n * (count wwl - 1)) % count wwl)
unfolding previous_by_number
previous_by_number_lem wwl p zero wl f e =
    let here : (p + 0 * (count wwl - 1)) % count wwl ≡ p =
      ap (λ k. k % count wwl) (omega arith) ∙ mod-eq_of_lt (count_pos wwl p wl e) in
    rw (here, index_at, e) refl
previous_by_number_lem wwl p (suc n) wl f e =
    let inside = count_pos wwl p wl e in
    let d = count wwl - 1 in
    let q = (p + d) % count wwl in
    let (v, at_q) = elem_in wwl q (mod_inside wwl p (p + d) inside) in
    let sum : (q + n * d) % count wwl ≡ (p + suc n * d) % count wwl =
      mod-add-mod (p + d) (count wwl) (n * d)
      ∙ ap (λ k. k % count wwl) (omega (arith, suc-mul n d)) in
    rw
      (
        previous_by_number,
        previous_around_position wwl p wl f e,
        at_q,
        previous_by_number_lem wwl q n v f at_q,
        sum,
      )
      refl

round : (p n c : ℕ) → p < c → p + n + n * (c - 1) ≡ p + n * c
round p n zero h = absurd (omega arith)
round p n (suc c) h =
    let less : n * (suc c - 1) ≡ n * c = ap (λ k. n * k) (omega arith) in
    omega (arith, less, mul-suc n c)

-- Where the winlinks are in order, going `n` of them on from one of them ends at a winlink, and
-- going `n` of them back from there ends where it began.
pub previous_by_number-next_by_number :
    (wwl : List Winlink) (p n : ℕ) (wl : Winlink)
    → From 0 wwl
    → get_elem? wwl p ≡ some wl
    → (i : ℕ) × (next_by_number wwl wl.idx n ≡ some i) × (previous_by_number wwl i n ≡ some wl.idx)
previous_by_number-next_by_number wwl p n wl f e =
    let inside = count_pos wwl p wl e in
    let q = (p + n) % count wwl in
    let (v, at_q) = elem_in wwl q (mod_inside wwl p (p + n) inside) in
    let sum : (q + n * (count wwl - 1)) % count wwl ≡ p =
      mod-add-mod (p + n) (count wwl) (n * (count wwl - 1))
      ∙ ap (λ k. k % count wwl) (round p n (count wwl) inside)
      ∙ add-mul-mod_self_right p n (count wwl)
      ∙ mod-eq_of_lt inside in
    (
      v.idx,
      rw (next_by_number_lem wwl p n wl f e, index_at, at_q) refl,
      rw (previous_by_number_lem wwl q n v f at_q, sum, index_at, e) refl,
    )
