-- ===== src/Prelude/Text.antt =====
-- C strings as lists of bytes without the ending NUL, what the programs use of string.h, and
-- checking a property of all small numbers by evaluation.
use Prim.Native.Nat.{ℕ, zero, suc, ◌+◌, ◌/◌, ◌%◌, ◌<◌}
use Prim.Native.Char.{code}
use Prim.Native.String.{String}
use mathlib.Core.Path.{◌≡◌}
use mathlib.Core.Option.{Option, none, some}
use mathlib.Core.Bool.{Bool, true, false, ◌&&◌, ◌||◌}
use mathlib.Core.List.{List, [], ◌∷◌, ◌++◌}
use native.Mathlib.Omega.{arith}
use tmux_cvs_archived.Prelude.Tests.{leb, ltb, ◌==◌, if◌then◌else◌}

-- The bytes of a literal.
abbrev pub codes : String → List ℕ
codes String.[] = []
codes (String.◌∷◌ c s) = code c ∷ codes s

abbrev pub to_lower : ℕ → ℕ
to_lower c = if leb b'A' c && leb c b'Z' then c + 32 else c

-- `strcasecmp(a, b) == 0`
unfoldable pub case_eq : List ℕ → List ℕ → Bool
case_eq [] [] = true
case_eq [] (y ∷ ys) = false
case_eq (x ∷ xs) [] = false
case_eq (x ∷ xs) (y ∷ ys) = to_lower x == to_lower y && case_eq xs ys

-- `strncasecmp(s, word, strlen(word)) == 0`
unfoldable pub starts_with_case : List ℕ → List ℕ → Bool
starts_with_case s [] = true
starts_with_case [] (y ∷ ys) = false
starts_with_case (x ∷ xs) (y ∷ ys) = to_lower x == to_lower y && starts_with_case xs ys

-- `strchr(set, c) != NULL`, for a byte that is not NUL.
unfoldable pub one_of : List ℕ → ℕ → Bool
one_of [] c = false
one_of (x ∷ xs) c = x == c || one_of xs c

-- `strcspn` and `strspn`
unfoldable pub strcspn : List ℕ → List ℕ → ℕ
unfolding one_of
strcspn [] set = 0
strcspn (c ∷ cs) set = if one_of set c then 0 else suc (strcspn cs set)

unfoldable pub strspn : List ℕ → List ℕ → ℕ
unfolding one_of
strspn [] set = 0
strspn (c ∷ cs) set = if one_of set c then suc (strspn cs set) else 0

-- `%u`; ten digits are enough for 32 bits.
unfoldable pub digits_of : ℕ → ℕ → List ℕ
digits_of zero n = []
digits_of (suc f) n =
    let upper = digits_of f (n / 10) in
    if ltb n 10 then (b'0' + n) ∷ [] else upper ++ ((b'0' + n % 10) ∷ [])

unfoldable pub print_uint : ℕ → List ℕ
unfolding digits_of
print_uint n = digits_of 10 n

unfoldable pub all_below : ℕ → (ℕ → Bool) → Bool
all_below zero test = true
all_below (suc bound) test = test bound && all_below bound test

pub all_below_sound :
    (bound : ℕ) (test : ℕ → Bool) (i : ℕ) → all_below bound test ≡ true → i < bound → test i ≡ true
unfolding all_below
all_below_sound zero test i all below = absurd (omega arith)
all_below_sound (suc bound) test i all below =
    let rest = all_below_sound bound test i in ground (arith, rest)

abbrev pub some_eq : ℕ → Option ℕ → Bool
some_eq n none = false
some_eq n (some m) = m == n

pub some_eq→eq : (n : ℕ) (o : Option ℕ) → some_eq n o ≡ true → o ≡ some n
some_eq→eq n none h = ground arith
some_eq→eq n (some m) h = ground arith
