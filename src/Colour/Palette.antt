-- ===== src/Colour/Palette.antt =====
-- colour.c: the tables that map the 256-colour palette to smaller ones.
use tmux_cvs_archived.Prelude.{
  ℕ, ◌<◌, ◌≡◌, refl, List, [], ◌∷◌, ltb, ◌==◌, get_or, ◌&&◌, all_below, all_below_sound, arith, ◌+◌,
  ◌*◌, ◌/◌, ◌%◌, Bool, true,
}

abbrev table_16 : List ℕ
table_16 =
    0 ∷ 1 ∷ 2 ∷ 3 ∷ 4 ∷ 5 ∷ 6 ∷ 7 ∷ 8 ∷ 9 ∷ 10 ∷ 11 ∷ 12 ∷ 13 ∷ 14 ∷ 15 ∷ 0 ∷ 4 ∷ 4 ∷ 4 ∷ 12 ∷ 12
    ∷ 2 ∷ 6 ∷ 4 ∷ 4 ∷ 12 ∷ 12 ∷ 2 ∷ 2 ∷ 6 ∷ 4 ∷ 12 ∷ 12 ∷ 2 ∷ 2 ∷ 2 ∷ 6 ∷ 12 ∷ 12 ∷ 10 ∷ 10 ∷ 10
    ∷ 10 ∷ 14 ∷ 12 ∷ 10 ∷ 10 ∷ 10 ∷ 10 ∷ 10 ∷ 14 ∷ 1 ∷ 5 ∷ 4 ∷ 4 ∷ 12 ∷ 12 ∷ 3 ∷ 8 ∷ 4 ∷ 4 ∷ 12 ∷ 12
    ∷ 2 ∷ 2 ∷ 6 ∷ 4 ∷ 12 ∷ 12 ∷ 2 ∷ 2 ∷ 2 ∷ 6 ∷ 12 ∷ 12 ∷ 10 ∷ 10 ∷ 10 ∷ 10 ∷ 14 ∷ 12 ∷ 10 ∷ 10 ∷ 10
    ∷ 10 ∷ 10 ∷ 14 ∷ 1 ∷ 1 ∷ 5 ∷ 4 ∷ 12 ∷ 12 ∷ 1 ∷ 1 ∷ 5 ∷ 4 ∷ 12 ∷ 12 ∷ 3 ∷ 3 ∷ 8 ∷ 4 ∷ 12 ∷ 12 ∷ 2
    ∷ 2 ∷ 2 ∷ 6 ∷ 12 ∷ 12 ∷ 10 ∷ 10 ∷ 10 ∷ 10 ∷ 14 ∷ 12 ∷ 10 ∷ 10 ∷ 10 ∷ 10 ∷ 10 ∷ 14 ∷ 1 ∷ 1 ∷ 1
    ∷ 5 ∷ 12 ∷ 12 ∷ 1 ∷ 1 ∷ 1 ∷ 5 ∷ 12 ∷ 12 ∷ 1 ∷ 1 ∷ 1 ∷ 5 ∷ 12 ∷ 12 ∷ 3 ∷ 3 ∷ 3 ∷ 7 ∷ 12 ∷ 12 ∷ 10
    ∷ 10 ∷ 10 ∷ 10 ∷ 14 ∷ 12 ∷ 10 ∷ 10 ∷ 10 ∷ 10 ∷ 10 ∷ 14 ∷ 9 ∷ 9 ∷ 9 ∷ 9 ∷ 13 ∷ 12 ∷ 9 ∷ 9 ∷ 9 ∷ 9
    ∷ 13 ∷ 12 ∷ 9 ∷ 9 ∷ 9 ∷ 9 ∷ 13 ∷ 12 ∷ 9 ∷ 9 ∷ 9 ∷ 9 ∷ 13 ∷ 12 ∷ 11 ∷ 11 ∷ 11 ∷ 11 ∷ 7 ∷ 12 ∷ 10
    ∷ 10 ∷ 10 ∷ 10 ∷ 10 ∷ 14 ∷ 9 ∷ 9 ∷ 9 ∷ 9 ∷ 9 ∷ 13 ∷ 9 ∷ 9 ∷ 9 ∷ 9 ∷ 9 ∷ 13 ∷ 9 ∷ 9 ∷ 9 ∷ 9 ∷ 9
    ∷ 13 ∷ 9 ∷ 9 ∷ 9 ∷ 9 ∷ 9 ∷ 13 ∷ 9 ∷ 9 ∷ 9 ∷ 9 ∷ 9 ∷ 13 ∷ 11 ∷ 11 ∷ 11 ∷ 11 ∷ 11 ∷ 15 ∷ 0 ∷ 0 ∷ 0
    ∷ 0 ∷ 0 ∷ 0 ∷ 8 ∷ 8 ∷ 8 ∷ 8 ∷ 8 ∷ 8 ∷ 7 ∷ 7 ∷ 7 ∷ 7 ∷ 7 ∷ 7 ∷ 15 ∷ 15 ∷ 15 ∷ 15 ∷ 15 ∷ 15 ∷ []

abbrev table_88 : List ℕ
table_88 =
    0 ∷ 1 ∷ 2 ∷ 3 ∷ 4 ∷ 5 ∷ 6 ∷ 7 ∷ 8 ∷ 9 ∷ 10 ∷ 11 ∷ 12 ∷ 13 ∷ 14 ∷ 15 ∷ 16 ∷ 17 ∷ 17 ∷ 18 ∷ 18
    ∷ 19 ∷ 20 ∷ 21 ∷ 21 ∷ 22 ∷ 22 ∷ 23 ∷ 20 ∷ 21 ∷ 21 ∷ 22 ∷ 22 ∷ 23 ∷ 24 ∷ 25 ∷ 25 ∷ 26 ∷ 26 ∷ 27
    ∷ 24 ∷ 25 ∷ 25 ∷ 26 ∷ 26 ∷ 27 ∷ 28 ∷ 29 ∷ 29 ∷ 30 ∷ 30 ∷ 31 ∷ 32 ∷ 33 ∷ 33 ∷ 34 ∷ 34 ∷ 35 ∷ 36
    ∷ 37 ∷ 37 ∷ 38 ∷ 38 ∷ 39 ∷ 36 ∷ 37 ∷ 37 ∷ 38 ∷ 38 ∷ 39 ∷ 40 ∷ 41 ∷ 41 ∷ 42 ∷ 42 ∷ 43 ∷ 40 ∷ 41
    ∷ 41 ∷ 42 ∷ 42 ∷ 43 ∷ 44 ∷ 45 ∷ 45 ∷ 46 ∷ 46 ∷ 47 ∷ 32 ∷ 33 ∷ 33 ∷ 34 ∷ 34 ∷ 35 ∷ 36 ∷ 37 ∷ 37
    ∷ 38 ∷ 38 ∷ 39 ∷ 36 ∷ 37 ∷ 37 ∷ 38 ∷ 38 ∷ 39 ∷ 40 ∷ 41 ∷ 41 ∷ 42 ∷ 42 ∷ 43 ∷ 40 ∷ 41 ∷ 41 ∷ 42
    ∷ 42 ∷ 43 ∷ 44 ∷ 45 ∷ 45 ∷ 46 ∷ 46 ∷ 47 ∷ 48 ∷ 49 ∷ 49 ∷ 50 ∷ 50 ∷ 51 ∷ 52 ∷ 53 ∷ 53 ∷ 54 ∷ 54
    ∷ 55 ∷ 52 ∷ 53 ∷ 53 ∷ 54 ∷ 54 ∷ 55 ∷ 56 ∷ 57 ∷ 57 ∷ 58 ∷ 58 ∷ 59 ∷ 56 ∷ 57 ∷ 57 ∷ 58 ∷ 58 ∷ 59
    ∷ 60 ∷ 61 ∷ 61 ∷ 62 ∷ 62 ∷ 63 ∷ 48 ∷ 49 ∷ 49 ∷ 50 ∷ 50 ∷ 51 ∷ 52 ∷ 53 ∷ 53 ∷ 54 ∷ 54 ∷ 55 ∷ 52
    ∷ 53 ∷ 53 ∷ 54 ∷ 54 ∷ 55 ∷ 56 ∷ 57 ∷ 57 ∷ 58 ∷ 58 ∷ 59 ∷ 56 ∷ 57 ∷ 57 ∷ 58 ∷ 58 ∷ 59 ∷ 60 ∷ 61
    ∷ 61 ∷ 62 ∷ 62 ∷ 63 ∷ 64 ∷ 65 ∷ 65 ∷ 66 ∷ 66 ∷ 67 ∷ 68 ∷ 69 ∷ 69 ∷ 70 ∷ 70 ∷ 71 ∷ 68 ∷ 69 ∷ 69
    ∷ 70 ∷ 70 ∷ 71 ∷ 72 ∷ 73 ∷ 73 ∷ 74 ∷ 74 ∷ 75 ∷ 72 ∷ 73 ∷ 73 ∷ 74 ∷ 74 ∷ 75 ∷ 76 ∷ 77 ∷ 77 ∷ 78
    ∷ 78 ∷ 79 ∷ 0 ∷ 0 ∷ 80 ∷ 80 ∷ 80 ∷ 81 ∷ 81 ∷ 81 ∷ 82 ∷ 82 ∷ 82 ∷ 83 ∷ 83 ∷ 83 ∷ 84 ∷ 84 ∷ 84
    ∷ 85 ∷ 85 ∷ 85 ∷ 86 ∷ 86 ∷ 86 ∷ 87 ∷ []

-- `colour_256to16` and `colour_256to88`
unfoldable pub to_16 : ℕ → ℕ
to_16 c = get_or table_16 c 0

unfoldable pub to_88 : ℕ → ℕ
to_88 c = get_or table_88 c 0

-- The level of the 88-colour cube for one of the 256-colour cube: 0 1 1 2 2 3.
abbrev pub level_88 : ℕ → ℕ
level_88 v = (v + 1) / 2

abbrev cube_fits : ℕ → Bool
cube_fits k =
    ltb (to_16 (16 + k)) 16
    && to_88 (16 + k) == 16 + 16 * level_88 (k / 36) + 4 * level_88 (k / 6 % 6) + level_88 (k % 6)

cube_table : all_below 216 cube_fits ≡ true
unfolding all_below to_16 to_88
cube_table = refl

-- Every colour of the 256-colour cube goes to one of the 16 colours, and to that colour of the
-- 88-colour cube whose three components have the level that belongs to its own.
palette_cube :
    (k : ℕ)
    → k < 216
    → (to_16 (16 + k) < 16)
      × (to_88 (16 + k) ≡ 16 + 16 * level_88 (k / 36) + 4 * level_88 (k / 6 % 6) + level_88 (k % 6))
palette_cube k h =
    let t = all_below_sound 216 cube_fits k cube_table h in (ground (arith, t), ground (arith, t))

abbrev keeps : ℕ → Bool
keeps c = to_16 c == c && to_88 c == c

-- The first 16 colours stay the same.
first_16 : all_below 16 keeps ≡ true
unfolding all_below to_16 to_88
first_16 = refl

abbrev in_88 : ℕ → Bool
in_88 c = ltb (to_88 c) 88 && ltb (to_16 c) 16

in_range : all_below 256 in_88 ≡ true
unfolding all_below to_16 to_88
in_range = refl
