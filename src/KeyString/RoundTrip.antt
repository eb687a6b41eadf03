-- ===== src/KeyString/RoundTrip.antt =====
-- key-string.c: reading back the print of a key.
use tmux_cvs_archived.Prelude.{
  ℕ, ◌+◌, ◌*◌, ◌≤◌, ◌<◌, ◌≡◌, refl, Option, none, some, List, ◌==◌, ◌||◌, Bool, true, false,
  all_below, all_below_sound, ==_iff, arith, ◌⊎◌, inl, inr, ◌/◌, ◌%◌, ◌-◌,
}
use tmux_cvs_archived.KeyString.{lookup_key, lookup_string, keyc_none}

-- Whether a key is read back from its print.
abbrev read_back : ℕ → Option (List ℕ) → Bool
read_back key none = false
read_back key (some name) = lookup_string name == key

abbrev pub Reads : ℕ → Type 0
Reads key = (name : List ℕ) × (lookup_key key ≡ some name) × (lookup_string name ≡ key)

read_back_lem :
    (key : ℕ) (o : Option (List ℕ))
    → read_back key o ≡ true
    → (name : List ℕ) × (o ≡ some name) × (lookup_string name ≡ key)
read_back_lem key none h = cc
read_back_lem key (some name) h = (name, refl, (==_iff _ _).0 h)

-- A key code with modifiers: bit 0 of `m` is KEYC_ESCAPE, bit 1 KEYC_CTRL, bit 2 KEYC_SHIFT.
abbrev pub modified : ℕ → ℕ → ℕ
modified key m = key + m * 0x2000

abbrev reads : ℕ → ℕ → Bool
reads m key = read_back (modified key m) (lookup_key (modified key m))

special_table : all_below 8 (λ m. all_below 0x30 (λ k. reads m (k + 0x1001))) ≡ true
unfolding all_below lookup_key lookup_string
special_table = refl

ascii_table : all_below 8 (λ m. m / 2 % 2 == 1 || all_below 127 (reads m)) ≡ true
unfolding all_below lookup_key lookup_string
ascii_table = refl

-- A special key, with any modifiers, or an ASCII code below 127 without KEYC_CTRL.
abbrev pub IsNamed : ℕ → ℕ → Type 0
IsNamed key m = ((0x1001 ≤ key) × (key ≤ 0x1030)) ⊎ ((key < 127) × (m / 2 % 2 ≡ 0))

-- Each special key, of the codes from 0x1001 to 0x1030, with each set of modifiers, and each ASCII code
-- below 127 with or without KEYC_ESCAPE and KEYC_SHIFT but without KEYC_CTRL, has a print, from which
-- `key_string_lookup_string` reads it back.
pub lookup_string-lookup_key : (key m : ℕ) → m < 8 → IsNamed key m → Reads (modified key m)
lookup_string-lookup_key key m h (inl (low, high)) =
    let t = all_below_sound 8 (λ m. all_below 0x30 (λ k. reads m (k + 0x1001))) m special_table h in
    let u = all_below_sound 0x30 (λ k. reads m (k + 0x1001)) (key - 0x1001) t (omega arith) in
    let e : key - 0x1001 + 0x1001 ≡ key = omega arith in read_back_lem _ _ (rw e at u)
lookup_string-lookup_key key m h (inr (low, plain)) =
    let t = all_below_sound 8 (λ m. m / 2 % 2 == 1 || all_below 127 (reads m)) m ascii_table h in
    let u : all_below 127 (reads m) ≡ true = ground (arith, t) in
    read_back_lem _ _ (all_below_sound 127 (reads m) key u low)

abbrev read_octal : Option (List ℕ) → Bool
read_octal none = false
read_octal (some name) = lookup_string name == keyc_none

read_octal_lem :
    (o : Option (List ℕ))
    → read_octal o ≡ true
    → (name : List ℕ) × (o ≡ some name) × (lookup_string name ≡ keyc_none)
read_octal_lem none h = cc
read_octal_lem (some name) h = (name, refl, (==_iff _ _).0 h)

-- The bytes from 128 on are printed in octal, which is not read.
high_table : all_below 128 (λ k. read_octal (lookup_key (k + 128))) ≡ true
unfolding all_below lookup_key lookup_string
high_table = refl

-- No byte from 128 to 255 is read back: what is printed for it is no key.
pub lookup_key_high :
    (key : ℕ)
    → 128 ≤ key
    → key < 256
    → (name : List ℕ) × (lookup_key key ≡ some name) × (lookup_string name ≡ keyc_none)
lookup_key_high key low high =
    let t =
      all_below_sound 128 (λ k. read_octal (lookup_key (k + 128))) (key - 128) high_table
        (omega arith) in
    let e : key - 128 + 128 ≡ key = omega arith in read_octal_lem (lookup_key key) (rw e at t)
