-- ===== src/Grid/Text.antt =====
-- grid.c: the text of a row of cells.
use tmux_cvs_archived.Prelude.{
  ℕ, zero, suc, ◌+◌, Option, some, ◌>>=◌, List, [], ◌∷◌, ◌++◌, ◌==◌, if◌then◌else◌, take,
}
use tmux_cvs_archived.Grid.{Grid, peek_cell, peek_utf8, rounds}
use tmux_cvs_archived.Grid.Utf8.{size_of}
use tmux_cvs_archived.Grid.Blocks.{is_padding, is_utf8}

-- The loop of `grid_string_cells`. The buffer doubles before it is too small, so it is a list here;
-- `none` is a cell marked as UTF-8 with no data behind it.
unfoldable pub row_bytes : Grid → ℕ → ℕ → ℕ → Option (List ℕ)
row_bytes g xx py zero = some []
row_bytes g xx py (suc n) =
    let gc = peek_cell g xx py in
    let rest = row_bytes g (xx + 1) py n in
    if is_padding gc
    then rest
    else if is_utf8 gc
    then (peek_utf8 g xx py >>= λ entry.
        entry >>= λ gu. rest >>= λ bytes. some (take (size_of gu.bytes) gu.bytes ++ bytes))
    else (rest >>= λ bytes. some (gc.byte ∷ bytes))

-- Spaces at the end go: a space stays only if something is kept behind it.
unfoldable pub trim : List ℕ → List ℕ
trim [] = []
trim (b ∷ bs) = elim (trim bs) [ [] ↦ if b == b' ' then [] else b ∷ [] | c ∷ cs ↦ b ∷ c ∷ cs ]

-- `grid_string_cells`
unfoldable pub string_cells : Grid → ℕ → ℕ → ℕ → Option (List ℕ)
unfolding row_bytes trim
string_cells g px py nx = do bytes ← row_bytes g px py (rounds px nx); some (trim bytes)
