-- ===== src/Winlink.antt =====
-- window.c: winlinks, the links from a session to its windows. A session keeps them in a red-black
-- tree of compat/tree.h under their index, which is represented by its elements in order; a pointer
-- to a winlink of a session is its index.
pub mod Order
pub mod Numbers
pub mod Steps
pub mod Around
mod Tests
use tmux_cvs_archived.Prelude.{
  ℕ, zero, suc, ◌-◌, ◌*◌, ◌/◌, ◌%◌, ◌^◌, Bool, true, false, ◌||◌, Option, none, some, List, [], ◌∷◌,
  ltb, ◌==◌, if◌then◌else◌,
}

-- `int`, where the sign matters: `negsuc n` is -n - 1.
pub data ℤ : Type 0 where
  pos : ℕ → ℤ
  negsuc : ℕ → ℤ

abbrev pub int_max : ℕ
int_max = 2 ^ 31 - 1

-- `struct winlink`, without the text for the status line; a window is a number, NULL is `none`.
pub record Winlink : Type 0 where
  pub idx : ℕ
  pub window : Option ℕ
  pub flags : ℕ

-- `flags & WINLINK_ALERTFLAGS`, which are the four lowest bits, and `flags & ~WINLINK_ALERTFLAGS`.
abbrev pub alert_bits : ℕ → ℕ
alert_bits flags = flags % 16

abbrev pub without_alerts : ℕ → ℕ
without_alerts flags = flags / 16 * 16

-- `winlink_find_by_index`, that is RB_FIND, for an index that is not negative.
unfoldable pub find_by_index : List Winlink → ℕ → Option Winlink
find_by_index [] idx = none
find_by_index (wl ∷ wwl) idx = if wl.idx == idx then some wl else find_by_index wwl idx

abbrev pub has : List Winlink → ℕ → Bool
has [] idx = false
has (wl ∷ wwl) idx = wl.idx == idx || has wwl idx

-- `winlink_find_by_window`, and `session_has` of session.c.
unfoldable pub find_by_window : List Winlink → ℕ → Option Winlink
find_by_window [] w = none
find_by_window (wl ∷ wwl) w =
    let rest = find_by_window wwl w in
    elim wl.window [ none ↦ rest | some v ↦ if v == w then some wl else rest ]

-- The loop of `winlink_next_index`; `none` is the result -1, and the end of the fuel.
abbrev pub following : ℕ → ℕ
following i = if i == int_max then 0 else suc i

unfoldable pub next_index_loop : ℕ → List Winlink → ℕ → ℕ → Option ℕ
next_index_loop zero wwl idx i = none
next_index_loop (suc fuel) wwl idx i =
    let rest = next_index_loop fuel wwl idx (following i) in
    if has wwl i then (if following i == idx then none else rest) else some i

-- `winlink_count`
unfoldable pub count : List Winlink → ℕ
count [] = 0
count (wl ∷ wwl) = suc (count wwl)

-- `winlink_next_index`. Every round but the last meets another winlink, so the fuel is one more than
-- there are.
unfoldable pub next_index : List Winlink → ℕ → Option ℕ
unfolding next_index_loop count
next_index wwl idx = next_index_loop (suc (count wwl)) wwl idx idx

-- RB_INSERT: an index that is in use stays as it is.
unfoldable pub insert : List Winlink → Winlink → List Winlink
insert [] new = new ∷ []
insert (wl ∷ wwl) new =
    let rest = wl ∷ insert wwl new in
    if ltb new.idx wl.idx then new ∷ wl ∷ wwl else if new.idx == wl.idx then wl ∷ wwl else rest

abbrev pub fresh : ℕ → Winlink
fresh idx = record { idx = idx; window = none; flags = 0 }

unfoldable pub add_at : List Winlink → ℕ → Option (ℕ × List Winlink)
unfolding insert
add_at wwl i = if has wwl i then none else some (i, insert wwl (fresh i))

-- `winlink_add`: the index of the new winlink, and the tree; NULL is `none`.
unfoldable pub add : List Winlink → ℤ → Option (ℕ × List Winlink)
unfolding next_index insert add_at
add wwl (negsuc n) = elim (next_index wwl n) [
  | none ↦ none
  | some i ↦ some (i, insert wwl (fresh i))
]
add wwl (pos i) = add_at wwl i

-- The pointer of `winlink_set_window`; the count of references is in Session/Group.
unfoldable pub set_window : List Winlink → ℕ → ℕ → List Winlink
set_window [] i w = []
set_window (wl ∷ wwl) i w =
    let rest = wl ∷ set_window wwl i w in
    if wl.idx == i then record wl { window = some w } ∷ wwl else rest

-- The RB_REMOVE of `winlink_remove`; the count of references is in Session/Group.
unfoldable pub remove : List Winlink → ℕ → List Winlink
remove [] i = []
remove (wl ∷ wwl) i = let rest = wl ∷ remove wwl i in if wl.idx == i then wwl else rest

-- `winlink_next` and `winlink_previous`, that is RB_NEXT and RB_PREV, of the winlink at `i`.
unfoldable pub next : List Winlink → ℕ → Option Winlink
next [] i = none
next (wl ∷ wwl) i = if ltb i wl.idx then some wl else next wwl i

unfoldable pub previous : List Winlink → ℕ → Option Winlink
previous [] i = none
previous (wl ∷ wwl) i =
    let rest = previous wwl i in
    if ltb wl.idx i then elim rest [ none ↦ some wl | some v ↦ some v ] else none

-- RB_MIN and RB_MAX
unfoldable pub first : List Winlink → Option Winlink
first [] = none
first (wl ∷ wwl) = some wl

unfoldable pub last : List Winlink → Option Winlink
last [] = none
last (wl ∷ wwl) = elim (last wwl) [ none ↦ some wl | some v ↦ some v ]

abbrev pub or_else : Option Winlink → Option Winlink → Option Winlink
or_else none b = b
or_else (some a) b = some a

-- One round of `winlink_next_by_number` and of `winlink_previous_by_number`.
unfoldable pub next_around : List Winlink → ℕ → Option Winlink
unfolding next first
next_around wwl i = or_else (next wwl i) (first wwl)

unfoldable pub previous_around : List Winlink → ℕ → Option Winlink
unfolding previous last
previous_around wwl i = or_else (previous wwl i) (last wwl)

-- `winlink_next_by_number` and `winlink_previous_by_number`; the loop reads through NULL on an empty
-- tree, which is `none`.
unfoldable pub next_by_number : List Winlink → ℕ → ℕ → Option ℕ
unfolding next_around
next_by_number wwl i zero = some i
next_by_number wwl i (suc n) = elim (next_around wwl i) [
  | none ↦ none
  | some wl ↦ next_by_number wwl wl.idx n
]

unfoldable pub previous_by_number : List Winlink → ℕ → ℕ → Option ℕ
unfolding previous_around
previous_by_number wwl i zero = some i
previous_by_number wwl i (suc n) = elim (previous_around wwl i) [
  | none ↦ none
  | some wl ↦ previous_by_number wwl wl.idx n
]

-- `wl->flags &= ~WINLINK_ALERTFLAGS` of the winlink at `i`.
unfoldable pub clear_alerts : List Winlink → ℕ → List Winlink
clear_alerts [] i = []
clear_alerts (wl ∷ wwl) i =
    let rest = wl ∷ clear_alerts wwl i in
    if wl.idx == i then record wl { flags = without_alerts wl.flags } ∷ wwl else rest

-- `winlink_stack_remove` and `winlink_stack_push`; NULL is `none`.
unfoldable pub stack_remove : List ℕ → ℕ → List ℕ
stack_remove [] i = []
stack_remove (j ∷ stack) i = let rest = j ∷ stack_remove stack i in if j == i then stack else rest

unfoldable pub stack_push : List ℕ → Option ℕ → List ℕ
unfolding stack_remove
stack_push stack none = stack
stack_push stack (some i) = i ∷ stack_remove stack i
