-- ===== src/Attributes.antt =====
-- attributes.c: the attributes of a cell as text.
mod Tests
use Prim.Native.Nat.{bit_and, bit_or}
use tmux_cvs_archived.Prelude.{
  ℕ, zero, suc, ◌+◌, ◌-◌, ◌≡◌, refl, ◌<◌, Bool, true, false, ◌&&◌, ◌||◌, not, Option, none, some,
  List, [], ◌∷◌, ◌++◌, ◌==◌, if◌then◌else◌, length, drop, take, get_or, codes, case_eq,
  starts_with_case, one_of, strcspn, strspn, all_below, all_below_sound, ==_iff, inl, inr, arith,
  some_eq, some_eq→eq,
}

-- The names in the order in which `attributes_tostring` writes them, with the bits GRID_ATTR_*.
abbrev pub names : List (ℕ × List ℕ)
names =
    (0x1, codes "bright")
    ∷ (0x2, codes "dim")
    ∷ (0x4, codes "underscore")
    ∷ (0x8, codes "blink")
    ∷ (0x10, codes "reverse")
    ∷ (0x20, codes "hidden")
    ∷ (0x40, codes "italics")
    ∷ []

-- The ladder of `strlcat` calls: each name whose bit is set, and a comma behind it.
unfoldable pub append_names : List (ℕ × List ℕ) → ℕ → List ℕ
append_names [] attr = []
append_names ((bit, name) ∷ rest) attr =
    (if bit_and attr bit == 0 then [] else name ++ (b',' ∷ [])) ++ append_names rest attr

-- `*(strrchr(buf, ',')) = '\0'`
unfoldable pub cut_last_comma : List ℕ → List ℕ
cut_last_comma [] = []
cut_last_comma (c ∷ cs) = if c == b',' && not (one_of cs b',') then [] else c ∷ cut_last_comma cs

-- `attributes_tostring`; 128 bytes hold all names.
unfoldable pub to_string : ℕ → List ℕ
unfolding append_names cut_last_comma one_of
to_string attr = if attr == 0 then codes "none" else cut_last_comma (append_names names attr)

abbrev pub delimiters : List ℕ
delimiters = codes " ,|"

-- `end == n && strncasecmp(str, name, end) == 0`
abbrev pub word_is : List ℕ → List ℕ → Bool
word_is word name = length word == length name && starts_with_case word name

-- The chain of tests in the loop of `attributes_fromstring`.
unfoldable pub attribute_of : List ℕ → Option ℕ
unfolding starts_with_case
attribute_of word =
    if word_is word (codes "bright") || word_is word (codes "bold")
    then some 0x1
    else if word_is word (codes "dim")
    then some 0x2
    else if word_is word (codes "underscore")
    then some 0x4
    else if word_is word (codes "blink")
    then some 0x8
    else if word_is word (codes "reverse")
    then some 0x10
    else if word_is word (codes "hidden")
    then some 0x20
    else if word_is word (codes "italics")
    then some 0x40
    else none

-- The loop; every round takes a byte at least, so the length of the text is fuel enough.
unfoldable pub parse_words : ℕ → List ℕ → ℕ → Option ℕ
unfolding attribute_of strcspn strspn
parse_words zero str attr = none
parse_words (suc fuel) str attr =
    let end = strcspn str delimiters in
    elim (attribute_of (take end str)) [
      | none ↦ none
      | some bit ↦
          let rest = drop (end + strspn (drop end str) delimiters) str in
          if length rest == 0
          then some (bit_or attr bit)
          else parse_words fuel rest (bit_or attr bit)
    ]

-- `attributes_fromstring`: `none` is the result -1.
unfoldable pub from_string : List ℕ → Option ℕ
unfolding parse_words case_eq one_of
from_string str =
    if length str == 0 || strcspn str delimiters == 0
    then none
    else if one_of delimiters (get_or str (length str - 1) 0)
    then none
    else if case_eq str (codes "default") || case_eq str (codes "none")
    then some 0
    else parse_words (suc (length str)) str 0

round_trip_table : all_below 128 (λ attr. some_eq attr (from_string (to_string attr))) ≡ true
unfolding all_below from_string to_string
round_trip_table = refl

-- Every set of attributes, but the character set, is read back from its print.
from_string-to_string : (attr : ℕ) → attr < 128 → from_string (to_string attr) ≡ some attr
from_string-to_string attr h =
    some_eq→eq attr _
      (all_below_sound 128 (λ a. some_eq a (from_string (to_string a))) attr round_trip_table h)
