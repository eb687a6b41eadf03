-- ===== src/Layout/Window/Sizes.antt =====
-- layout.c: the size at which `layout_resize` leaves the layout.
use tmux_cvs_archived.Prelude.{
  ℕ, ◌+◌, ◌-◌, ◌^◌, ◌≤◌, ◌<◌, ◌≡◌, refl, Option, some, arith, max, min, leb, ◌==◌, if◌then◌else◌,
  Bool-cases, inl, inr, ap,
}
use tmux_cvs_archived.Layout.{Direction, Cell, size, Change, grow, shrink, check, adjust}
use tmux_cvs_archived.Layout.Fits.{Fits, other}
use tmux_cvs_archived.Layout.Resize.{adjust_grows}
use tmux_cvs_archived.Layout.Available.{check-le}
use tmux_cvs_archived.Layout.Shrink.Trees.{adjust_shrinks}
use tmux_cvs_archived.Layout.Window.{resize_change, resize_along, is_zero}

-- A layout that fits, of a given size in direction `t`, and as large as `c` in the other.
pub record Sized (t : Direction) (c : Cell) (wanted : ℕ) (c' : Cell) : Type 0 where
  pub fits : Fits c'
  pub exact : size t c' ≡ wanted
  pub as_wide : size (other t) c' ≡ size (other t) c

abbrev apply_change : Direction → Cell → Change → Option Cell
apply_change t c d = if is_zero d then some c else adjust t d c

grown :
    (t : Direction) (c : Cell) (n wanted : ℕ)
    → Fits c
    → size t c + n < 2 ^ 32
    → size t c + n ≡ wanted
    → (c' : Cell) × (apply_change t c (grow n) ≡ some c') × Sized t c wanted c'
grown t c n wanted f b e = elim (Bool-cases (n == 0)) [
  | inl nothing ↦ (c, rw nothing, record { fits = f; exact = ground arith; as_wide = refl })
  | inr more ↦
      let (c', a, g) = adjust_grows t n c f b in
      (
        c',
        rw more a,
        record { fits = g.fits; exact = omega (arith, g.longer); as_wide = g.as_wide },
      )
]

shrunk :
    (t : Direction) (c : Cell) (n wanted : ℕ)
    → Fits c
    → size t c < 2 ^ 32
    → n ≤ check t c
    → size t c ≡ wanted + n
    → (c' : Cell) × (apply_change t c (shrink n) ≡ some c') × Sized t c wanted c'
shrunk t c n wanted f b m e = elim (Bool-cases (n == 0)) [
  | inl nothing ↦ (c, rw nothing, record { fits = f; exact = ground arith; as_wide = refl })
  | inr more ↦
      let (c', a, g) = adjust_shrinks t n c f b m in
      (
        c',
        rw more a,
        record { fits = g.fits; exact = omega (arith, g.shorter); as_wide = g.as_wide },
      )
]

no_difference : (a b : ℕ) → a ≡ b → 0 ≡ a - b
no_difference a b e = omega arith

grow_nothing : (a b : ℕ) → a ≡ b → grow 0 ≡ grow (a - b)
grow_nothing a b e = ap grow (no_difference a b e)

-- The change to a new size, by cases.
change_up :
    (t : Direction) (c : Cell) (new : ℕ)
    → size t c ≤ new
    → resize_change t c (size t c) new ≡ grow (new - size t c)
unfolding resize_change
change_up t c new h = ground (arith, grow_nothing new (size t c))

change_down :
    (t : Direction) (c : Cell) (new : ℕ)
    → new < size t c
    → 0 < check t c
    → resize_change t c (size t c) new ≡ shrink (min (size t c - new) (check t c))
unfolding resize_change
change_down t c new h p = ground arith

change_none :
    (t : Direction) (c : Cell) (new : ℕ)
    → new < size t c
    → check t c ≡ 0
    → resize_change t c (size t c) new ≡ grow 0
unfolding resize_change
change_none t c new h e = ground arith

-- In one direction `layout_resize` returns for a layout that fits and has the size of its window, and
-- leaves one that fits: of the size that is asked for, or the least to which it can be shrunk.
pub resize_along_lem :
    (t : Direction) (c : Cell) (new : ℕ)
    → Fits c
    → size t c < 2 ^ 31
    → new < 2 ^ 31
    → (c' : Cell) × (resize_along t c (size t c) new ≡ some c')
      × Sized t c (max new (size t c - check t c)) c'
unfolding resize_along
resize_along_lem t c new f b d =
    let low = check-le t c f (omega arith) in
    elim (Bool-cases (leb (size t c) new)) [
      | inl up ↦
          let h : size t c ≤ new = ground arith in
          rw (change_up t c new h) (grown t c (new - size t c) _ f (omega arith) (omega arith))
      | inr down ↦
          let h : new < size t c = ground arith in
          elim (Bool-cases (check t c == 0)) [
            | inl stuck ↦
                let e : check t c ≡ 0 = ground arith in
                rw (change_none t c new h e) (grown t c 0 _ f (omega arith) (omega arith))
            | inr free ↦
                let p : 0 < check t c = ground arith in
                rw (change_down t c new h p) (
                  shrunk t c (min (size t c - new) (check t c)) _ f (omega arith) (omega arith)
                    (omega (arith, low)))
          ]
    ]
