-- ===== src/Input/Sound/Sgr.antt =====
-- input.c: no attribute or colour that a program sets marks the parser's cell as UTF-8.
use Prim.Native.Nat.{bit_and, bit_or}
use tmux_cvs_archived.Prelude.{
  ℕ, ◌-◌, ◌≡◌, refl, Bool, true, false, not, Option, none, some, List, [], ◌∷◌, ltb, ◌==◌,
  if◌then◌else◌, arith, all_below, all_below_sound, ◌&&◌, ◌||◌,
}
use tmux_cvs_archived.Grid.{GridCell, default_cell}
use tmux_cvs_archived.Pane.Sound.{IsPlain}
use tmux_cvs_archived.Input.Sgr.{
  reset_cell, plain_fg, plain_bg, palette_fg, palette_bg, extended, sgr_one, or_zero, sgr_params,
  sgr,
}

-- A change of the flags that keeps a byte a byte, and GRID_FLAG_UTF8 off.
abbrev keeps_plain : (ℕ → ℕ) → ℕ → Bool
keeps_plain f flags =
    not (bit_and flags 0x8 == 0) || (ltb (f flags) 256 && bit_and (f flags) 0x8 == 0)

changed-IsPlain :
    (f : ℕ → ℕ) (gc hc : GridCell)
    → all_below 256 (keeps_plain f) ≡ true
    → IsPlain gc
    → hc.flags ≡ f gc.flags
    → IsPlain hc
changed-IsPlain f gc hc t v e =
    let h = all_below_sound 256 (keeps_plain f) gc.flags t v.small in ground (arith, h, v.single, e)

plain_fg-IsPlain : (gc : GridCell) (n : ℕ) → IsPlain gc → IsPlain (plain_fg gc n)
unfolding all_below
plain_fg-IsPlain gc n v =
    changed-IsPlain (λ f. bit_and f (0xff - 0x1)) gc (plain_fg gc n) refl v refl

plain_bg-IsPlain : (gc : GridCell) (n : ℕ) → IsPlain gc → IsPlain (plain_bg gc n)
unfolding all_below
plain_bg-IsPlain gc n v =
    changed-IsPlain (λ f. bit_and f (0xff - 0x2)) gc (plain_bg gc n) refl v refl

palette_fg-IsPlain : (gc : GridCell) (n : ℕ) → IsPlain gc → IsPlain (palette_fg gc n)
unfolding all_below
palette_fg-IsPlain gc n v = changed-IsPlain (λ f. bit_or f 0x1) gc (palette_fg gc n) refl v refl

palette_bg-IsPlain : (gc : GridCell) (n : ℕ) → IsPlain gc → IsPlain (palette_bg gc n)
unfolding all_below
palette_bg-IsPlain gc n v = changed-IsPlain (λ f. bit_or f 0x2) gc (palette_bg gc n) refl v refl

pub default-IsPlain : IsPlain default_cell
default-IsPlain = record { small = omega arith; single = refl }

if-IsPlain :
    {gc hc : GridCell} (b : Bool) → IsPlain gc → IsPlain hc → IsPlain (if b then gc else hc)
if-IsPlain true v w = v
if-IsPlain false v w = w

extended-IsPlain : (n : ℕ) (m : Option ℕ) (gc : GridCell) → IsPlain gc → IsPlain (extended n m gc)
unfolding extended
extended-IsPlain n none gc v = if-IsPlain _ (plain_fg-IsPlain gc 8 v) (plain_bg-IsPlain gc 8 v)
extended-IsPlain n (some m) gc v =
    if-IsPlain _ (palette_fg-IsPlain gc m v) (palette_bg-IsPlain gc m v)

sgr_one-IsPlain : (n : ℕ) (gc : GridCell) → IsPlain gc → IsPlain (sgr_one n gc)
unfolding sgr_one
sgr_one-IsPlain n gc v = ground (
  arith,
  plain_fg-IsPlain gc (n - 30) v,
  plain_fg-IsPlain gc 8 v,
  plain_fg-IsPlain gc n v,
  plain_bg-IsPlain gc (n - 40) v,
  plain_bg-IsPlain gc 8 v,
  plain_bg-IsPlain gc n v,
)

sgr_params-IsPlain :
    (ps : List (Option ℕ)) (gc : GridCell) → IsPlain gc → IsPlain (sgr_params ps gc)
unfolding sgr_params
sgr_params-IsPlain [] gc v = v
sgr_params-IsPlain (e ∷ []) gc v = if-IsPlain _ v (sgr_one-IsPlain (or_zero e) gc v)
sgr_params-IsPlain (e ∷ f ∷ []) gc v =
    if-IsPlain _ (if-IsPlain _ (extended-IsPlain (or_zero e) none gc v) v)
      (sgr_params-IsPlain (f ∷ []) (sgr_one (or_zero e) gc) (sgr_one-IsPlain (or_zero e) gc v))
sgr_params-IsPlain (e ∷ f ∷ m ∷ rest) gc v =
    if-IsPlain _
      (if-IsPlain _
        (sgr_params-IsPlain rest (extended (or_zero e) m gc) (extended-IsPlain (or_zero e) m gc v))
        (sgr_params-IsPlain (m ∷ rest) gc v))
      (sgr_params-IsPlain (f ∷ m ∷ rest) (sgr_one (or_zero e) gc)
        (sgr_one-IsPlain (or_zero e) gc v))

pub sgr-IsPlain : (ps : List (Option ℕ)) (gc : GridCell) → IsPlain gc → IsPlain (sgr ps gc)
unfolding sgr
sgr-IsPlain ps gc v = if-IsPlain _ (reset-IsPlain gc) (sgr_params-IsPlain ps gc v)
  where
    reset-IsPlain : (gc : GridCell) → IsPlain (reset_cell gc)
    reset-IsPlain gc = record { small = omega arith; single = refl }

-- The flag that closing a UTF-8 character clears again.
pub cleared-IsPlain :
    (gc hc : GridCell)
    → IsPlain gc
    → hc.flags ≡ bit_and (bit_or gc.flags 0x8) (0xff - 0x8)
    → IsPlain hc
unfolding all_below
cleared-IsPlain gc hc v e =
    changed-IsPlain (λ f. bit_and (bit_or f 0x8) (0xff - 0x8)) gc hc refl v e
