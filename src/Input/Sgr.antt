-- ===== src/Input/Sgr.antt =====
-- input.c: the parameters of a control sequence, and `input_csi_dispatch_sgr`.
use Prim.Native.Nat.{bit_and, bit_or}
use tmux_cvs_archived.Prelude.{
  ℕ, ◌+◌, ◌-◌, ◌%◌, Bool, false, ◌&&◌, ◌||◌, Option, none, some, ◌>>=◌, List, [], ◌∷◌, ltb, leb,
  ◌==◌, if◌then◌else◌, get_elem?, length,
}
use tmux_cvs_archived.Grid.{GridCell, default_cell}
use tmux_cvs_archived.Pane.{World}

-- `strsep` by `;` until nothing is left.
unfoldable pub split : List ℕ → List (List ℕ)
split [] = [] ∷ []
split (c ∷ cs) = elim (split cs) [
  | [] ↦ []
  | w ∷ ws ↦ if c == b';' then [] ∷ w ∷ ws else (c ∷ w) ∷ ws
]

-- `nitems(ictx->param_list)`
abbrev pub param_list_size : ℕ
param_list_size = 24

abbrev pub int_max : ℕ
int_max = 0x7fffffff

-- One parameter: `some none` is -1, an empty one; `none` is an error of `strtonum`.
abbrev pub read_param : World → List ℕ → Option (Option ℕ)
read_param w [] = some none
read_param w (c ∷ cs) = w.strtonum (c ∷ cs) 0 int_max >>= λ n. some (some n)

-- The loop of `input_split`, `count` parameters having been stored; `none` is the result -1.
unfoldable pub read_params : World → List (List ℕ) → ℕ → Option (List (Option ℕ))
read_params w [] count = some []
read_params w (out ∷ rest) count =
    let more = (read_params w rest (count + 1) >>= λ ns. read_param w out >>= λ n. some (n ∷ ns)) in
    read_param w out >>= λ n. if count + 1 == param_list_size then none else more

-- `input_split`
unfoldable pub input_split : World → List ℕ → Option (List (Option ℕ))
unfolding split read_params
input_split w param = if length param == 0 then some [] else read_params w (split param) 0

-- `input_get` with a default that is not negative.
unfoldable pub input_get : List (Option ℕ) → ℕ → ℕ → ℕ → ℕ
input_get ps validx minval defval = elim (get_elem? ps validx) [
  | none ↦ defval
  | some none ↦ defval
  | some (some n) ↦ if ltb n minval then minval else n
]

-- `input_get` with the default -1, which is `none`, and the least value 0.
unfoldable pub input_get_maybe : List (Option ℕ) → ℕ → Option ℕ
input_get_maybe ps validx = elim (get_elem? ps validx) [ none ↦ none | some n ↦ n ]

-- `attr |= bits` and `&= ~bits`, and the same of `flags`.
abbrev pub add_attr : GridCell → ℕ → GridCell
add_attr gc bits = record gc { attr = bit_or gc.attr bits }

abbrev pub drop_attr : GridCell → ℕ → GridCell
drop_attr gc bits = record gc { attr = bit_and gc.attr (0xff - bits) }

abbrev pub grid_attr_charset : ℕ
grid_attr_charset = 0x80

-- The default cell, with the character set kept.
abbrev pub reset_cell : GridCell → GridCell
reset_cell gc = record default_cell {
  attr = bit_or default_cell.attr (bit_and gc.attr grid_attr_charset);
}

-- A colour of the 16, or the default, 8.
abbrev pub plain_fg : GridCell → ℕ → GridCell
plain_fg gc n = record gc { flags = bit_and gc.flags (0xff - 0x1); fg = n }

abbrev pub plain_bg : GridCell → ℕ → GridCell
plain_bg gc n = record gc { flags = bit_and gc.flags (0xff - 0x2); bg = n }

-- A colour of the 256; the fields are bytes.
abbrev pub palette_fg : GridCell → ℕ → GridCell
palette_fg gc m = record gc { flags = bit_or gc.flags 0x1; fg = m % 256 }

abbrev pub palette_bg : GridCell → ℕ → GridCell
palette_bg gc m = record gc { flags = bit_or gc.flags 0x2; bg = m % 256 }

abbrev pub is_extended : ℕ → Bool
is_extended n = n == 38 || n == 48

-- The colour behind 38;5 or 48;5.
unfoldable pub extended : ℕ → Option ℕ → GridCell → GridCell
extended n none gc = if n == 38 then plain_fg gc 8 else plain_bg gc 8
extended n (some m) gc = if n == 38 then palette_fg gc m else palette_bg gc m

-- The `switch` on one parameter.
unfoldable pub sgr_one : ℕ → GridCell → GridCell
sgr_one n gc =
    if n == 0 || n == 10
    then reset_cell gc
    else if n == 1
    then add_attr gc 0x1
    else if n == 2
    then add_attr gc 0x2
    else if n == 3
    then add_attr gc 0x40
    else if n == 4
    then add_attr gc 0x4
    else if n == 5
    then add_attr gc 0x8
    else if n == 7
    then add_attr gc 0x10
    else if n == 8
    then add_attr gc 0x20
    else if n == 22
    then drop_attr gc 0x3
    else if n == 23
    then drop_attr gc 0x40
    else if n == 24
    then drop_attr gc 0x4
    else if n == 25
    then drop_attr gc 0x8
    else if n == 27
    then drop_attr gc 0x10
    else if leb 30 n && leb n 37
    then plain_fg gc (n - 30)
    else if n == 39
    then plain_fg gc 8
    else if leb 40 n && leb n 47
    then plain_bg gc (n - 40)
    else if n == 49
    then plain_bg gc 8
    else if leb 90 n && leb n 97
    then plain_fg gc n
    else if leb 100 n && leb n 107
    then plain_bg gc n
    else gc

abbrev pub or_zero : Option ℕ → ℕ
or_zero none = 0
or_zero (some n) = n

abbrev pub is_five : Option ℕ → Bool
is_five none = false
is_five (some n) = n == 5

-- The loop of `input_csi_dispatch_sgr`, on the parameters that are left.
unfoldable pub sgr_params : List (Option ℕ) → GridCell → GridCell
unfolding extended sgr_one
sgr_params [] gc = gc
sgr_params (e ∷ []) gc = if is_extended (or_zero e) then gc else sgr_one (or_zero e) gc
sgr_params (e ∷ f ∷ []) gc =
    let plain = sgr_params (f ∷ []) (sgr_one (or_zero e) gc) in
    if is_extended (or_zero e)
    then (if is_five f then extended (or_zero e) none gc else gc)
    else plain
sgr_params (e ∷ f ∷ m ∷ rest) gc =
    let colour = sgr_params rest (extended (or_zero e) m gc) in
    let skip = sgr_params (m ∷ rest) gc in
    let plain = sgr_params (f ∷ m ∷ rest) (sgr_one (or_zero e) gc) in
    if is_extended (or_zero e) then (if is_five f then colour else skip) else plain

-- `input_csi_dispatch_sgr`
unfoldable pub sgr : List (Option ℕ) → GridCell → GridCell
unfolding sgr_params
sgr ps gc = if length ps == 0 then reset_cell gc else sgr_params ps gc
