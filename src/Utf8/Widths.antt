-- ===== src/Utf8/Widths.antt =====
-- utf8.c: a lookup in the tree is a search of the table.
use tmux_cvs_archived.Prelude.{
  ℕ, ◌+◌, ◌≤◌, ◌≡◌, refl, Bool, true, false, ◌&&◌, Option, none, some, List, [], ◌∷◌, leb,
  if◌then◌else◌, arith, Option-cases, inl, inr, ap,
}
use tmux_cvs_archived.Utf8.{
  Entry, Tree, null, node, first, last, entry_width, insert, build_from, build, find,
}
use tmux_cvs_archived.Utf8.Table.{utf8_width_table}

abbrev pub inside : Entry → ℕ → Bool
inside e value = leb (first e) value && leb value (last e)

-- The width of the first entry that contains the value.
unfoldable pub first_match : List Entry → ℕ → Option ℕ
first_match [] value = none
first_match (e ∷ es) value = if inside e value then some (entry_width e) else first_match es value

-- No entry ends before it begins.
abbrev pub Proper : Tree → Type 0
Proper null = Unit
Proper (node l e r) = Proper l × (first e ≤ last e) × Proper r

abbrev pub AllProper : List Entry → Type 0
AllProper [] = Unit
AllProper (e ∷ es) = (first e ≤ last e) × AllProper es

insert-Proper :
    (item : Entry) (t t' : Tree)
    → first item ≤ last item
    → Proper t
    → insert item t ≡ some t'
    → Proper t'
unfolding insert
insert-Proper item null t' p q e = ground arith
insert-Proper item (node l x r) t' p q e = elim (Option-cases (insert item l)) [
  | inl nl ↦ elim (Option-cases (insert item r)) [
    | inl nr ↦ ground arith
    | inr (r', er) ↦ ground (arith, insert-Proper item r r' p q.2 er)
  ]
  | inr (l', el) ↦ elim (Option-cases (insert item r)) [
    | inl nr ↦ ground (arith, insert-Proper item l l' p q.0 el)
    | inr (r', er) ↦
        ground (arith, insert-Proper item l l' p q.0 el, insert-Proper item r r' p q.2 er)
  ]
]

-- An item goes in where its values would be looked for, so they were not found before.
insert_fresh :
    (item : Entry) (t t' : Tree) (value : ℕ)
    → Proper t
    → insert item t ≡ some t'
    → inside item value ≡ true
    → find t value ≡ none
unfolding insert find
insert_fresh item null t' value q e h = refl
insert_fresh item (node l x r) t' value q e h = elim (Option-cases (insert item l)) [
  | inl nl ↦ elim (Option-cases (insert item r)) [
    | inl nr ↦ ground arith
    | inr (r', er) ↦ ground (arith, insert_fresh item r r' value q.2 er h)
  ]
  | inr (l', el) ↦ elim (Option-cases (insert item r)) [
    | inl nr ↦ ground (arith, insert_fresh item l l' value q.0 el h)
    | inr (r', er) ↦
        ground (arith, insert_fresh item l l' value q.0 el h, insert_fresh item r r' value q.2 er h)
  ]
]

find-insert :
    (item : Entry) (t t' : Tree) (value : ℕ)
    → Proper t
    → insert item t ≡ some t'
    → find t' value ≡ (if inside item value then some (entry_width item) else find t value)
unfolding insert find
find-insert item null t' value q e = ground arith
find-insert item (node l x r) t' value q e = elim (Option-cases (insert item l)) [
  | inl nl ↦ elim (Option-cases (insert item r)) [
    | inl nr ↦ ground arith
    | inr (r', er) ↦ ground (arith, find-insert item r r' value q.2 er)
  ]
  | inr (l', el) ↦ elim (Option-cases (insert item r)) [
    | inl nr ↦ ground (arith, find-insert item l l' value q.0 el)
    | inr (r', er) ↦
        ground (arith, find-insert item l l' value q.0 el, find-insert item r r' value q.2 er)
  ]
]

-- What a search of the tree and of the entries still to come finds.
abbrev or_else : Option ℕ → Option ℕ → Option ℕ
or_else none o = o
or_else (some w) o = some w

find-build_from :
    (table items : List Entry) (i : ℕ) (t t' : Tree) (value : ℕ)
    → AllProper items
    → Proper t
    → build_from table items i t ≡ some t'
    → find t' value ≡ or_else (find t value) (first_match items value)
unfolding build_from first_match
find-build_from table [] i t t' value p q e = elim (Option-cases (find t value)) [
  | inl n ↦ ground arith
  | inr (w, s) ↦ ground arith
]
find-build_from table (item ∷ items) i t t' value p q e = elim (Option-cases (insert item t)) [
  | inl n ↦ ground arith
  | inr (t1, s) ↦ ground (
    arith,
    find-build_from table items (i + 1) t1 t' value,
    find-insert item t t1 value q s,
    insert_fresh item t t1 value q s,
    insert-Proper item t t1 p.0 q s,
  )
]

-- Where `utf8_build` returns for a table whose ranges are not empty, the loop of `utf8_width` finds
-- for every value the width of the first entry that contains it, and nothing if there is none.
pub find-build :
    (table : List Entry) (t : Tree) (value : ℕ)
    → AllProper table
    → build table ≡ some t
    → find t value ≡ first_match table value
unfolding build find
find-build table t value p e = find-build_from table table 0 null t value p tt e

pub proper_table : AllProper utf8_width_table
proper_table = omega arith

abbrev is_some_tree : Option Tree → Bool
is_some_tree none = false
is_some_tree (some t) = true

table_builds : is_some_tree (build utf8_width_table) ≡ true
unfolding build
table_builds = refl

-- On the table of the source `utf8_build` returns: no entries overlap, and no insertion hangs.
pub utf8_width_root : (t : Tree) × (build utf8_width_table ≡ some t)
utf8_width_root = elim (Option-cases (build utf8_width_table)) [
  | inl n ↦ cc (ap is_some_tree n, table_builds)
  | inr found ↦ found
]
