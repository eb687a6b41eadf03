-- ===== src/Colour/Nearest.antt =====
-- colour.c: `colour_rgb_find` finds a nearest colour of the palette.
use tmux_cvs_archived.Prelude.{
  ℕ, zero, suc, ◌+◌, ◌≤◌, ◌<◌, ◌≡◌, refl, none, some, List, [], ◌∷◌, ltb, length, get_or, ◌++◌,
  arith, Bool-cases, inl, inr, ◌⊎◌,
}
use tmux_cvs_archived.Colour.{Rgb, generate256, distance, cube, greys, scan, find}

abbrev black : Rgb
black = record { r = 0; g = 0; b = 0 }

-- The entry for a colour of the palette.
abbrev pub palette : ℕ → Rgb
palette i = get_or generate256 i black

-- What the loop has found at its end, when `lowest` was the least distance and `colour` the colour
-- at its start: a distance that no entry goes below, and where it was found.
record Found (xs : List Rgb) (rgb : Rgb) (i lowest colour result : ℕ) : Type 0 where
  best : ℕ
  at_most : best ≤ lowest
  least : (j : ℕ) → j < length xs → best ≤ distance (get_or xs j black) rgb
  origin :
      ((result ≡ colour) × (best ≡ lowest))
      ⊎ ((j : ℕ) × (j < length xs)
          × (result ≡ 16 + (i + j))
          × (best ≡ distance (get_or xs j black) rgb))

least_cons :
    (x : Rgb) (xs : List Rgb) (rgb : Rgb) (best : ℕ)
    → best ≤ distance x rgb
    → ((j : ℕ) → j < length xs → best ≤ distance (get_or xs j black) rgb)
    → (j : ℕ) → j < length (x ∷ xs)
    → best ≤ distance (get_or (x ∷ xs) j black) rgb
least_cons x xs rgb best h k zero b = h
least_cons x xs rgb best h k (suc j) b = k j (omega arith)

-- A result about the rest of the entries is one about all of them.
later :
    (x : Rgb) (xs : List Rgb) (rgb : Rgb) (i lowest colour result : ℕ)
    → lowest ≤ distance x rgb
    → Found xs rgb (i + 1) lowest colour result
    → Found (x ∷ xs) rgb i lowest colour result
later x xs rgb i lowest colour result h f = record {
  best = f.best;
  at_most = f.at_most;
  least = least_cons x xs rgb f.best (omega (arith, f.at_most)) f.least;
  origin = elim f.origin [
    | inl same ↦ inl same
    | inr (j, b, r, d) ↦ inr (suc j, omega arith, omega arith, d)
  ];
}

-- The first entry is closer than all before it.
taken :
    (x : Rgb) (xs : List Rgb) (rgb : Rgb) (i lowest colour result : ℕ)
    → distance x rgb ≤ lowest
    → Found xs rgb (i + 1) (distance x rgb) (16 + i) result
    → Found (x ∷ xs) rgb i lowest colour result
taken x xs rgb i lowest colour result h f = record {
  best = f.best;
  at_most = omega (arith, f.at_most);
  least = least_cons x xs rgb f.best f.at_most f.least;
  origin = elim f.origin [
    | inl (r, d) ↦ inr (0, omega arith, omega arith, d)
    | inr (j, b, r, d) ↦ inr (suc j, omega arith, omega arith, d)
  ];
}

scan-Found :
    (xs : List Rgb) (rgb : Rgb) (i lowest colour : ℕ)
    → Found xs rgb i lowest colour (scan xs rgb i (some lowest) colour)
unfolding scan
scan-Found [] rgb i lowest colour = record {
  best = lowest;
  at_most = omega arith;
  least = λ j b. absurd (omega arith);
  origin = inl (refl, refl);
}
scan-Found (x ∷ xs) rgb i lowest colour = elim (Bool-cases (ltb (distance x rgb) lowest)) [
  | inl yes_closer ↦ rw yes_closer (
      taken x xs rgb i lowest colour _ (ground arith)
        (scan-Found xs rgb (i + 1) (distance x rgb) (16 + i)))
  | inr not_closer ↦
      rw not_closer
        (later x xs rgb i lowest colour _ (ground arith) (scan-Found xs rgb (i + 1) lowest colour))
]

-- The first entry always counts: nothing is further away than INFINITY.
scan-Found_first :
    (x : Rgb) (xs : List Rgb) (rgb : Rgb) (colour : ℕ)
    → (i : ℕ) × (i < length (x ∷ xs))
      × (scan (x ∷ xs) rgb 0 none colour ≡ 16 + i)
      × ((j : ℕ)
          → j < length (x ∷ xs)
          → distance (get_or (x ∷ xs) i black) rgb ≤ distance (get_or (x ∷ xs) j black) rgb)
unfolding scan
scan-Found_first x xs rgb colour =
    let f = scan-Found xs rgb 1 (distance x rgb) 16 in
    elim f.origin [
      | inl (r, d) ↦ (
        0,
        omega arith,
        r,
        λ j b. omega (arith, d, least_cons x xs rgb f.best f.at_most f.least j b),
      )
      | inr (k, b, r, d) ↦ (
        suc k,
        omega arith,
        omega (arith, r),
        λ j c. omega (arith, d, least_cons x xs rgb f.best f.at_most f.least j c),
      )
    ]

-- `colour_rgb_find` gives the number of a colour of the palette, 16 to 255, and no colour of the
-- palette is nearer to the one asked for.
pub find-nearest :
    (rgb : Rgb) (j : ℕ)
    → j < 240
    → (i : ℕ) × (i < 240)
      × (find rgb ≡ 16 + i)
      × (distance (palette i) rgb ≤ distance (palette j) rgb)
unfolding find generate256
find-nearest rgb j h =
    let (i, b, e, least) = scan-Found_first black (cube 215 0 0 1 ++ greys 24 0) rgb 16 in
    (i, b, e, least j h)
