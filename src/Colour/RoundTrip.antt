-- ===== src/Colour/RoundTrip.antt =====
-- colour.c: reading back what `colour_tostring` prints.
use Prim.Native.Nat.{bit_and, bit_or}
use tmux_cvs_archived.Prelude.{
  ℕ, ◌+◌, ◌-◌, ◌≤◌, ◌<◌, ◌≡◌, refl, ◌⊎◌, inl, inr, Option, some, ◌>>=◌, List, codes, ◌++◌,
  print_uint, all_below, all_below_sound, ◌==◌, arith, true, ◌&&◌, not, Bool, some_eq, some_eq→eq,
}
use tmux_cvs_archived.Colour.{to_string, from_string}

-- The bits of a colour of the 256-colour palette.
abbrev bits_fit : ℕ → Bool
bits_fit n =
    not (bit_and (n + 256) 0x100 == 0)
    && (bit_and (n + 256) (0xffffffff - 0x100) == n && bit_or n 0x100 == n + 256)

bits_table : all_below 256 bits_fit ≡ true
unfolding all_below
bits_table = refl

to_string_256 : (n : ℕ) → n < 256 → to_string (n + 256) ≡ some (codes "colour" ++ print_uint n)
unfolding to_string
to_string_256 n h =
    let t = all_below_sound 256 bits_fit n bits_table h in
    let flag : not (bit_and (n + 256) 0x100 == 0) ≡ true = ground (arith, t) in
    let low : bit_and (n + 256) (0xffffffff - 0x100) ≡ n = ground (arith, t) in rw (flag, low)

-- Whether a colour has a print: the nine names, and the 256-colour palette.
abbrev pub IsColour : ℕ → Type 0
IsColour c = (c < 9) ⊎ ((256 ≤ c) × (c < 512))

-- `strtonum` is used as it is documented: it reads a decimal number within the bounds.
module _ (strtonum : List ℕ → ℕ → ℕ → Option ℕ)
    (reads : (n : ℕ) → n < 256 → strtonum (print_uint n) 0 255 ≡ some n) where
  from_string_256 :
      (n : ℕ) → n < 256 → from_string strtonum (codes "colour" ++ print_uint n) ≡ some (n + 256)
  unfolding from_string
  from_string_256 n h =
      let t = all_below_sound 256 bits_fit n bits_table h in
      let back : bit_or n 0x100 ≡ n + 256 = ground (arith, t) in rw (reads n h, back)

  abbrev name_fits : ℕ → Bool
  name_fits c = some_eq c (to_string c >>= from_string strtonum)

  names_table : all_below 9 name_fits ≡ true
  unfolding all_below to_string from_string
  names_table = refl

  name_back : (c : ℕ) → c < 9 → (to_string c >>= from_string strtonum) ≡ some c
  name_back c h = some_eq→eq c _ (all_below_sound 9 name_fits c names_table h)

  -- Each of the eight colours, the default, and the 256 colours of the palette is read back from its
  -- print, if `strtonum` reads the decimal numbers below 256.
  pub colour_round_trip : (c : ℕ) → IsColour c → (to_string c >>= from_string strtonum) ≡ some c
  colour_round_trip c (inl small) = name_back c small
  colour_round_trip c (inr (low, high)) =
      let n = c - 256 in
      let e : c ≡ n + 256 = omega arith in
      rw e (rw (to_string_256 n (omega arith)) (from_string_256 n (omega arith)))
