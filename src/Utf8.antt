-- ===== src/Utf8.antt =====
-- utf8.c: UTF-8 sequences that arrive byte by byte, and the tree of character widths.
mod Widths
pub mod Table
mod Decode
pub mod Pieces
mod Tests
use Prim.Native.Nat.{bit_and, bit_or}
use tmux_cvs_archived.Prelude.{
  ℕ, zero, suc, ◌+◌, ◌*◌, ◌/◌, ◌^◌, Bool, true, false, ◌&&◌, ◌||◌, not, Option, none, some, ◌>>=◌,
  List, [], ◌∷◌, ◌++◌, ltb, leb, ◌==◌, if◌then◌else◌, length, get_or,
}

-- `struct utf8_data`. `bytes` are the first `have` entries of the array.
pub record Utf8Data : Type 0 where
  pub bytes : List ℕ
  pub size : ℕ
  pub width : ℕ

-- `struct utf8_width_entry`, and the tree that its pointers make; `null` is NULL.
pub data Entry : Type 0 where
  entry : ℕ → ℕ → ℕ → Entry

pub data Tree : Type 0 where
  null : Tree
  node : Tree → Entry → Tree → Tree

abbrev pub first : Entry → ℕ
first (entry a b w) = a

abbrev pub last : Entry → ℕ
last (entry a b w) = b

abbrev pub entry_width : Entry → ℕ
entry_width (entry a b w) = w

-- `utf8_overlap`
unfoldable pub overlap : Entry → Entry → Bool
overlap a b =
    if leb (first b) (first a) && leb (first a) (last b)
    then true
    else if leb (first b) (last a) && leb (last a) (last b)
    then true
    else if leb (first a) (first b) && leb (first b) (last a)
    then true
    else if leb (first a) (last b) && leb (last b) (last a)
    then true
    else false

-- The inner loop of `utf8_build`, over `j`.
unfoldable pub clashes : Entry → ℕ → List Entry → ℕ → Bool
unfolding overlap
clashes item i [] j = false
clashes item i (e ∷ es) j = (not (i == j) && overlap item e) || clashes item i es (j + 1)

-- The `while` loop of `utf8_build` and the assignment behind it. Where the item lies on neither side
-- of a node the loop does not end: `none`.
unfoldable pub insert : Entry → Tree → Option Tree
insert item null = some (node null item null)
insert item (node l e r) =
    let left = (insert item l >>= λ l'. some (node l' e r)) in
    let right = (insert item r >>= λ r'. some (node l e r')) in
    if ltb (last item) (first e) then left else if ltb (last e) (first item) then right else none

-- The outer loop of `utf8_build` from item `i` on; a clash is `log_fatalx`, also `none`.
unfoldable pub build_from : List Entry → List Entry → ℕ → Tree → Option Tree
unfolding clashes insert
build_from table [] i root = some root
build_from table (item ∷ items) i root =
    if clashes item i table 0
    then none
    else (insert item root >>= λ root'. build_from table items (i + 1) root')

-- `utf8_build`
unfoldable pub build : List Entry → Option Tree
unfolding build_from
build table = build_from table table 0 null

-- `utf8_combine`
unfoldable pub combine : Utf8Data → ℕ
combine ud =
    let byte = λ (i : ℕ). get_or ud.bytes i 0 in
    if ud.size == 1
    then byte 0
    else if ud.size == 2
    then bit_or (bit_and (byte 1) 0x3f) (bit_and (byte 0) 0x1f * 2 ^ 6)
    else if ud.size == 3
    then bit_or (bit_or (bit_and (byte 2) 0x3f) (bit_and (byte 1) 0x3f * 2 ^ 6))
        (bit_and (byte 0) 0x0f * 2 ^ 12)
    else if ud.size == 4
    then bit_or
        (bit_or (bit_or (bit_and (byte 3) 0x3f) (bit_and (byte 2) 0x3f * 2 ^ 6))
          (bit_and (byte 1) 0x3f * 2 ^ 12))
        (bit_and (byte 0) 0x3f * 2 ^ 18)
    else 0xff

-- `utf8_split2`: the bytes written.
unfoldable pub split2 : ℕ → List ℕ
split2 uc =
    if ltb 0x7f uc then bit_or (uc / 2 ^ 6) 0xc0 ∷ bit_or (bit_and uc 0x3f) 0x80 ∷ [] else uc ∷ []

-- The loop of `utf8_width`; `none` is its end at NULL.
unfoldable pub find : Tree → ℕ → Option ℕ
find null value = none
find (node l e r) value =
    if ltb value (first e)
    then find l value
    else if ltb (last e) value
    then find r value
    else some (entry_width e)

-- `utf8_width`, of the tree at `utf8_width_root`.
unfoldable pub width_of : Tree → Utf8Data → ℕ
unfolding find combine
width_of root ud = elim (find root (combine ud)) [ none ↦ 1 | some w ↦ w ]

-- `utf8_append`: whether more bytes are to come, and the sequence; `none` is `fatalx`.
unfoldable pub append : Tree → Utf8Data → ℕ → Option (Bool × Utf8Data)
unfolding width_of
append root ud ch =
    if leb ud.size (length ud.bytes) || ltb 9 ud.size
    then none
    else let next = record ud { bytes = ud.bytes ++ (ch ∷ []) } in
      some (
        if not (length next.bytes == ud.size)
        then (true, next)
        else (false, record next { width = width_of root next }))

-- `utf8_open`: `none` where it returns 0, and the first byte appended where it returns 1. The
-- result of `utf8_append` is not used.
abbrev pub opened : ℕ → Utf8Data
opened size = record { bytes = []; size = size; width = 0 }

unfoldable pub open_size : ℕ → ℕ
open_size ch =
    if leb 0xc2 ch && leb ch 0xdf
    then 2
    else if leb 0xe0 ch && leb ch 0xef
    then 3
    else if leb 0xf0 ch && leb ch 0xf4
    then 4
    else 0

unfoldable pub open_utf8 : Tree → ℕ → Option Utf8Data
unfolding open_size append
open_utf8 root ch =
    if open_size ch == 0 then none else (append root (opened (open_size ch)) ch >>= λ r. some (r.1))
