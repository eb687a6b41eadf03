-- ===== src/Colour/Tests.antt =====
-- The theorems on colours, and texts that are read.
use tmux_cvs_archived.Prelude.{
  ℕ, ◌+◌, ◌-◌, ◌*◌, ◌≤◌, ◌<◌, ◌≡◌, refl, inr, Option, none, some, ◌>>=◌, List, [], ◌∷◌, codes,
  print_uint, all_below, all_below_sound, some_eq, some_eq→eq, true, arith, Bool, leb,
  if◌then◌else◌,
}
use tmux_cvs_archived.Colour.{Rgb, generate256, to_string, from_string, find, distance}
use tmux_cvs_archived.Colour.Nearest.{palette, find-nearest}
use tmux_cvs_archived.Colour.RoundTrip.{colour_round_trip}

-- A decimal reader in the place of `strtonum`.
decimal : List ℕ → ℕ → ℕ
decimal [] n = n
decimal (c ∷ cs) n = decimal cs (n * 10 + (c - b'0'))

read_decimal : List ℕ → ℕ → ℕ → Option ℕ
read_decimal s low high =
    if leb low (decimal s 0)
    then (if leb (decimal s 0) high then some (decimal s 0) else none)
    else none

abbrev decimal_fits : ℕ → Bool
decimal_fits n = some_eq n (read_decimal (print_uint n) 0 255)

decimal_table : all_below 256 decimal_fits ≡ true
unfolding all_below read_decimal decimal print_uint
decimal_table = refl

decimal_reads : (n : ℕ) → n < 256 → read_decimal (print_uint n) 0 255 ≡ some n
decimal_reads n h = some_eq→eq n _ (all_below_sound 256 decimal_fits n decimal_table h)

colour_round_trip_example : (to_string 300 >>= from_string read_decimal) ≡ some 300
colour_round_trip_example =
    colour_round_trip read_decimal decimal_reads 300 (inr (omega arith, omega arith))

abbrev orange : Rgb
orange = record { r = 250; g = 130; b = 3 }

find-nearest_example :
    (i : ℕ) × (i < 240)
    × (find orange ≡ 16 + i)
    × (distance (palette i) orange ≤ distance (palette 200) orange)
find-nearest_example = find-nearest orange 200 (omega arith)

hex_colour : from_string read_decimal (codes "#ff8700") ≡ some (208 + 256)
unfolding from_string find generate256 distance
hex_colour = refl
