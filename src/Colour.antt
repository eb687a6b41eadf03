-- ===== src/Colour.antt =====
-- colour.c: colours as text, and the 256-colour palette.
mod Nearest
mod RoundTrip
mod Palette
mod Tests
use Prim.Native.Nat.{bit_and, bit_or}
use tmux_cvs_archived.Prelude.{
  ℕ, zero, suc, ◌+◌, ◌-◌, ◌*◌, ◌%◌, Bool, true, false, ◌&&◌, ◌||◌, not, Option, none, some, ◌>>=◌,
  List, [], ◌∷◌, ◌++◌, ltb, leb, ◌==◌, if◌then◌else◌, length, drop, codes, case_eq,
  starts_with_case, print_uint,
}
use tmux_cvs_archived.Grid.{GridCell}

-- `struct colour_rgb`
pub record Rgb : Type 0 where
  pub r : ℕ
  pub g : ℕ
  pub b : ℕ

-- A component of the cube: the memory is zero at first.
abbrev pub level : ℕ → ℕ
level c = if not (c == 0) then c * 40 + 55 else 0

-- The first loop of `colour_rgb_generate256`, with its three counters.
cube : ℕ → ℕ → ℕ → ℕ → List Rgb
cube zero r g b = []
cube (suc n) r g b =
    let b1 = b + 1 in
    let carry_b = ltb 5 b1 in
    let g1 = if carry_b then g + 1 else g in
    let carry_g = ltb 5 g1 in
    record { r = level r; g = level g; b = level b }
    ∷ cube n (if carry_g then r + 1 else r) (if carry_g then 0 else g1) (if carry_b then 0 else b1)

-- The second loop, from `24 - i` on.
greys : ℕ → ℕ → List Rgb
greys zero k = []
greys (suc n) k = record { r = 8 + k * 10; g = 8 + k * 10; b = 8 + k * 10 } ∷ greys n (k + 1)

-- `colour_rgb_generate256`: colours 16 to 255.
unfoldable pub generate256 : List Rgb
unfolding cube greys
generate256 = cube 216 0 0 0 ++ greys 24 0

-- The square of `colour_rgb_distance`: the source compares the square roots, which are in the same
-- order.
square_diff : ℕ → ℕ → ℕ
square_diff x y = (x - y) * (x - y) + (y - x) * (y - x)

unfoldable pub distance : Rgb → Rgb → ℕ
unfolding square_diff
distance x y = square_diff x.r y.r + square_diff x.g y.g + square_diff x.b y.b

-- `distance < lowest`, where `none` is INFINITY.
abbrev pub closer : ℕ → Option ℕ → Bool
closer d none = true
closer d (some lowest) = ltb d lowest

-- The loop of `colour_rgb_find` from index `i` on.
scan : List Rgb → Rgb → ℕ → Option ℕ → ℕ → ℕ
scan [] rgb i lowest colour = colour
scan (x ∷ xs) rgb i lowest colour =
    let better = closer (distance x rgb) lowest in
    scan xs rgb (i + 1) (if better then some (distance x rgb) else lowest)
      (if better then 16 + i else colour)

-- `colour_rgb_find`
unfoldable pub find : Rgb → ℕ
unfolding scan
find rgb = scan generate256 rgb 0 none 16

-- `colour_set_fg` and `colour_set_bg`, of a colour that is not negative; the fields are bytes.
unfoldable pub set_fg : GridCell → ℕ → GridCell
set_fg gc c = record gc {
  flags = if bit_and c 0x100 == 0 then gc.flags else bit_or gc.flags 0x1;
  fg = c % 256;
}

unfoldable pub set_bg : GridCell → ℕ → GridCell
set_bg gc c = record gc {
  flags = if bit_and c 0x100 == 0 then gc.flags else bit_or gc.flags 0x2;
  bg = c % 256;
}

-- `colour_tostring`; NULL is `none`.
unfoldable pub to_string : ℕ → Option (List ℕ)
to_string c =
    if not (bit_and c 0x100 == 0)
    then some (codes "colour" ++ print_uint (bit_and c (0xffffffff - 0x100)))
    else if c == 0
    then some (codes "black")
    else if c == 1
    then some (codes "red")
    else if c == 2
    then some (codes "green")
    else if c == 3
    then some (codes "yellow")
    else if c == 4
    then some (codes "blue")
    else if c == 5
    then some (codes "magenta")
    else if c == 6
    then some (codes "cyan")
    else if c == 7
    then some (codes "white")
    else if c == 8
    then some (codes "default")
    else none

-- The digit of `isxdigit` and `%2hhx`.
unfoldable pub hex_digit : ℕ → Option ℕ
hex_digit c =
    if leb b'0' c && leb c b'9'
    then some (c - b'0')
    else if leb b'a' c && leb c b'f'
    then some (c - b'a' + 10)
    else if leb b'A' c && leb c b'F'
    then some (c - b'A' + 10)
    else none

unfoldable pub hex_digits : List ℕ → Option (List ℕ)
unfolding hex_digit
hex_digits [] = some []
hex_digits (c ∷ cs) = hex_digit c >>= λ d. hex_digits cs >>= λ ds. some (d ∷ ds)

-- Three pairs of digits.
unfoldable pub rgb_of : List ℕ → Option Rgb
rgb_of (r1 ∷ r2 ∷ g1 ∷ g2 ∷ b1 ∷ b2 ∷ rest) =
    some (record { r = r1 * 16 + r2; g = g1 * 16 + g2; b = b1 * 16 + b2 })
rgb_of _ = none

-- `*s == '#' && strlen(s) == 7`, and the digits behind the `#`.
unfoldable pub hash_digits : List ℕ → Option (List ℕ)
hash_digits [] = none
hash_digits (c ∷ cs) = if c == b'#' && length cs == 6 then some cs else none

-- `strcasecmp(s, name) == 0 || (s[0] == digit && s[1] == '\0')`
abbrev pub is_colour : List ℕ → List ℕ → ℕ → Bool
is_colour s name digit = case_eq s name || case_eq s (digit ∷ [])

module _ (strtonum : List ℕ → ℕ → ℕ → Option ℕ) where
  -- `colour_fromstring`: `none` is the result -1. `strtonum` is the function of the system's library
  -- (or of compat/strtonum.c); `none` is its error.
  unfoldable pub from_string : List ℕ → Option ℕ
  unfolding hash_digits hex_digits rgb_of case_eq starts_with_case
  from_string s = elim (hash_digits s) [
    | some digits ↦ hex_digits digits >>= λ ds. rgb_of ds >>= λ rgb. some (bit_or (find rgb) 0x100)
    | none ↦
        if starts_with_case s (codes "colour")
        then (strtonum (drop 6 s) 0 255 >>= λ n. some (bit_or n 0x100))
        else if is_colour s (codes "black") b'0'
        then some 0
        else if is_colour s (codes "red") b'1'
        then some 1
        else if is_colour s (codes "green") b'2'
        then some 2
        else if is_colour s (codes "yellow") b'3'
        then some 3
        else if is_colour s (codes "blue") b'4'
        then some 4
        else if is_colour s (codes "magenta") b'5'
        then some 5
        else if is_colour s (codes "cyan") b'6'
        then some 6
        else if is_colour s (codes "white") b'7'
        then some 7
        else if is_colour s (codes "default") b'8'
        then some 8
        else none
  ]
