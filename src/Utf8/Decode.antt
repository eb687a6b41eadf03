-- ===== src/Utf8/Decode.antt =====
-- utf8.c: `utf8_open`, `utf8_append` and `utf8_combine` decode what the standard encodes.
use Prim.Native.Nat.{bit_and}
use tmux_cvs_archived.Prelude.{
  ℕ, ◌+◌, ◌-◌, ◌*◌, ◌/◌, ◌%◌, ◌≤◌, ◌<◌, ◌≡◌, refl, Bool, true, false, Option, none, some, ◌>>=◌,
  List, [], ◌∷◌, max, ◌∙◌, ltb, ◌==◌, if◌then◌else◌, length, arith, all_below, all_below_sound,
  ==_iff, bit_or_disjoint, Bool-cases, inl, inr,
}
use tmux_cvs_archived.Utf8.{
  Entry, last, build, Tree, Utf8Data, find, open_utf8, open_size, append, combine, width_of, split2,
}
use tmux_cvs_archived.Utf8.Table.{utf8_width_table}
use tmux_cvs_archived.Utf8.Widths.{find-build, first_match, proper_table}

-- The bytes of a character from 0x80 on, as the standard defines them.
unfoldable pub encode : ℕ → List ℕ
encode c =
    if ltb c 0x800
    then (0xc0 + c / 0x40) ∷ (0x80 + c % 0x40) ∷ []
    else if ltb c 0x10000
    then (0xe0 + c / 0x1000) ∷ (0x80 + c / 0x40 % 0x40) ∷ (0x80 + c % 0x40) ∷ []
    else (0xf0 + c / 0x40000)
      ∷ (0x80 + c / 0x1000 % 0x40)
      ∷ (0x80 + c / 0x40 % 0x40)
      ∷ (0x80 + c % 0x40)
      ∷ []

-- A caller's loop: bytes go to `utf8_append` as long as it returns 1.
unfoldable pub append_all : Tree → Bool × Utf8Data → List ℕ → Option (Bool × Utf8Data)
append_all root r [] = some r
append_all root (more, ud) (ch ∷ chs) =
    if more then (append root ud ch >>= λ r. append_all root r chs) else none

unfoldable pub receive : Tree → List ℕ → Option (Bool × Utf8Data)
unfolding append_all
receive root [] = none
receive root (ch ∷ chs) = open_utf8 root ch >>= λ ud. append_all root (true, ud) chs

and_table :
    (mask : ℕ)
    → all_below 256 (λ b. bit_and b (mask - 1) == b % mask) ≡ true
    → (b : ℕ) → b < 256
    → bit_and b (mask - 1) ≡ b % mask
and_table mask t b h =
    (==_iff _ _).0 (all_below_sound 256 (λ b. bit_and b (mask - 1) == b % mask) b t h)

and_3f : (b : ℕ) → b < 256 → bit_and b 0x3f ≡ b % 0x40
unfolding all_below
and_3f b h = and_table 0x40 refl b h

and_1f : (b : ℕ) → b < 256 → bit_and b 0x1f ≡ b % 0x20
unfolding all_below
and_1f b h = and_table 0x20 refl b h

and_0f : (b : ℕ) → b < 256 → bit_and b 0x0f ≡ b % 0x10
unfolding all_below
and_0f b h = and_table 0x10 refl b h

abbrev pub sequence : List ℕ → ℕ → Utf8Data
sequence bytes width = record { bytes = bytes; size = length bytes; width = width }

-- The bits of two, three and four bytes.
combine_two :
    (a b w : ℕ) → a < 256 → b < 256 → combine (sequence (a ∷ b ∷ []) w) ≡ b % 0x40 + a % 0x20 * 0x40
unfolding combine
combine_two a b w h k =
    rw (and_3f b k, and_1f a h) (bit_or_disjoint 6 (b % 0x40) (a % 0x20) (omega arith))

combine_three :
    (a b c w : ℕ)
    → a < 256
    → b < 256
    → c < 256
    → combine (sequence (a ∷ b ∷ c ∷ []) w) ≡ c % 0x40 + b % 0x40 * 0x40 + a % 0x10 * 0x1000
unfolding combine
combine_three a b c w h k l =
    rw (and_3f c l, and_3f b k, and_0f a h, bit_or_disjoint 6 (c % 0x40) (b % 0x40) (omega arith))
      (bit_or_disjoint 12 (c % 0x40 + b % 0x40 * 0x40) (a % 0x10) (omega arith))

combine_four :
    (a b c d w : ℕ)
    → a < 256
    → b < 256
    → c < 256
    → d < 256
    → combine (sequence (a ∷ b ∷ c ∷ d ∷ []) w)
      ≡ d % 0x40 + c % 0x40 * 0x40 + b % 0x40 * 0x1000 + a % 0x40 * 0x40000
unfolding combine
combine_four a b c d w h k l m =
    rw
      (
        and_3f d m,
        and_3f c l,
        and_3f b k,
        and_3f a h,
        bit_or_disjoint 6 (d % 0x40) (c % 0x40) (omega arith),
        bit_or_disjoint 12 (d % 0x40 + c % 0x40 * 0x40) (b % 0x40) (omega arith),
      )
      (bit_or_disjoint 18 (d % 0x40 + c % 0x40 * 0x40 + b % 0x40 * 0x1000) (a % 0x40) (omega arith))

-- What `utf8_combine` makes of a character: the mask of the first of four bytes keeps the two
-- highest of its marker bits.
abbrev pub combined : ℕ → ℕ
combined c = if ltb c 0x10000 then c else c + 0xc00000

combine-encode : (c w : ℕ) → 0x80 ≤ c → c < 0x110000 → combine (sequence (encode c) w) ≡ combined c
unfolding encode
combine-encode c w h k = ground (
  arith,
  combine_two (0xc0 + c / 0x40) (0x80 + c % 0x40) w,
  combine_three (0xe0 + c / 0x1000) (0x80 + c / 0x40 % 0x40) (0x80 + c % 0x40) w,
  combine_four (0xf0 + c / 0x40000) (0x80 + c / 0x1000 % 0x40) (0x80 + c / 0x40 % 0x40)
      (0x80 + c % 0x40) w,
)

receive_two :
    (root : Tree) (a b : ℕ)
    → 0xc2 ≤ a
    → a ≤ 0xdf
    → receive root (a ∷ b ∷ [])
      ≡ some (false, sequence (a ∷ b ∷ []) (width_of root (sequence (a ∷ b ∷ []) 0)))
unfolding receive open_utf8 open_size append
receive_two root a b h k = let size : open_size a ≡ 2 = ground arith in rw size

receive_three :
    (root : Tree) (a b c : ℕ)
    → 0xe0 ≤ a
    → a ≤ 0xef
    → receive root (a ∷ b ∷ c ∷ [])
      ≡ some (false, sequence (a ∷ b ∷ c ∷ []) (width_of root (sequence (a ∷ b ∷ c ∷ []) 0)))
unfolding receive open_utf8 open_size append
receive_three root a b c h k = let size : open_size a ≡ 3 = ground arith in rw size

receive_four :
    (root : Tree) (a b c d : ℕ)
    → 0xf0 ≤ a
    → a ≤ 0xf4
    → receive root (a ∷ b ∷ c ∷ d ∷ [])
      ≡ some
          (false, sequence (a ∷ b ∷ c ∷ d ∷ []) (width_of root (sequence (a ∷ b ∷ c ∷ d ∷ []) 0)))
unfolding receive open_utf8 open_size append
receive_four root a b c d h k = let size : open_size a ≡ 4 = ground arith in rw size

accepted :
    (root : Tree) (c : ℕ)
    → 0x80 ≤ c
    → c < 0x110000
    → receive root (encode c)
      ≡ some (false, sequence (encode c) (width_of root (sequence (encode c) 0)))
accepted root c h k = elim (Bool-cases (ltb c 0x800)) [
  | inl two ↦
      unfold encode in
      rw two (receive_two root (0xc0 + c / 0x40) (0x80 + c % 0x40) (ground arith) (ground arith))
  | inr more ↦ elim (Bool-cases (ltb c 0x10000)) [
    | inl three ↦
        unfold encode in
        rw (more, three)
          (receive_three root (0xe0 + c / 0x1000) (0x80 + c / 0x40 % 0x40) (0x80 + c % 0x40)
            (omega arith) (ground arith))
    | inr four ↦
        unfold encode in
        rw (more, four)
          (receive_four root (0xf0 + c / 0x40000) (0x80 + c / 0x1000 % 0x40)
            (0x80 + c / 0x40 % 0x40) (0x80 + c % 0x40) (omega arith) (omega arith))
  ]
]

-- The bytes of every character from 0x80 on are accepted one by one, more being wanted until the
-- last. `utf8_combine` gives the character back if it has at most three bytes; one of four bytes
-- comes out larger by 0xc00000.
pub receive-encode :
    (root : Tree) (c : ℕ)
    → 0x80 ≤ c
    → c < 0x110000
    → (ud : Utf8Data) × (receive root (encode c) ≡ some (false, ud)) × (combine ud ≡ combined c)
receive-encode root c h k = (
  sequence (encode c) (width_of root (sequence (encode c) 0)),
  accepted root c h k,
  combine-encode c (width_of root (sequence (encode c) 0)) h k,
)

-- The largest value that a table mentions.
max_last : List Entry → ℕ
max_last [] = 0
max_last (e ∷ es) = max (last e) (max_last es)

first_match_above :
    (es : List Entry) (value : ℕ) → max_last es < value → first_match es value ≡ none
unfolding max_last first_match
first_match_above [] value h = refl
first_match_above (e ∷ es) value h = ground (arith, first_match_above es value)

table_max : max_last utf8_width_table ≡ 0xe01ef
unfolding max_last
table_max = refl

-- In the tree that `utf8_build` makes of the source's table, every character of four bytes comes out
-- with width 1, those of the ranges of width 2 and 0 too.
pub four_bytes_width :
    (root : Tree) (c : ℕ)
    → build utf8_width_table ≡ some root
    → 0x10000 ≤ c
    → c < 0x110000
    → (ud : Utf8Data) × (receive root (encode c) ≡ some (false, ud)) × (ud.width ≡ 1)
four_bytes_width root c built h k =
    let missing : find root (c + 0xc00000) ≡ none =
      find-build utf8_width_table root (c + 0xc00000) proper_table built
      ∙ first_match_above utf8_width_table (c + 0xc00000) (omega (arith, table_max)) in
    let one : width_of root (sequence (encode c) 0) ≡ 1 =
      unfold width_of in ground (arith, combine-encode c 0 (omega arith) k, missing) in
    (
      sequence (encode c) (width_of root (sequence (encode c) 0)),
      accepted root c (omega arith) k,
      one,
    )

split2_table : (w : ℕ) → all_below 2048 (λ c. combine (sequence (split2 c) w) == c) ≡ true
unfolding all_below combine split2
split2_table w = refl

-- `utf8_combine` reads back what `utf8_split2` writes, up to the largest character of two bytes.
combine-split2 : (c w : ℕ) → c < 0x800 → combine (sequence (split2 c) w) ≡ c
combine-split2 c w h =
    (==_iff _ _).0
      (all_below_sound 2048 (λ b. combine (sequence (split2 b) w) == b) c (split2_table w) h)
