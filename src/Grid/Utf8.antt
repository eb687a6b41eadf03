-- ===== src/Grid/Utf8.antt =====
-- grid-utf8.c: the bytes of a cell that holds a multibyte character and what combines with it.
use tmux_cvs_archived.Prelude.{
  ℕ, suc, ◌+◌, Bool, true, false, ◌&&◌, not, Option, none, some, List, [], ◌∷◌, ◌++◌, ltb, ◌==◌,
  if◌then◌else◌, length, take, drop,
}
use tmux_cvs_archived.Grid.{GridUtf8}
use tmux_cvs_archived.Utf8.{Utf8Data}

-- `UTF8_SIZE`
abbrev pub utf8_size : ℕ
utf8_size = 9

-- `grid_utf8_size`: the bytes before the first 0xff.
unfoldable pub size_of : List ℕ → ℕ
size_of [] = 0
size_of (b ∷ bs) = if b == 0xff then 0 else suc (size_of bs)

-- `memcpy` of `src` to offset `off` of an array.
abbrev pub put_bytes : List ℕ → ℕ → List ℕ → List ℕ
put_bytes array off src = take off array ++ (src ++ drop (off + length src) array)

-- `grid_utf8_copy`: the bytes written to a buffer with room for `len`; `none` is `fatalx`.
unfoldable pub copy : GridUtf8 → ℕ → Option (List ℕ)
copy gu len = if ltb len (size_of gu.bytes) then none else some (take (size_of gu.bytes) gu.bytes)

-- `data[size] = 0xff`, unless the array is full.
abbrev pub terminate : List ℕ → ℕ → List ℕ
terminate array size = if size == utf8_size then array else put_bytes array size (0xff ∷ [])

-- `grid_utf8_set`; `none` is `fatalx`.
unfoldable pub set_data : GridUtf8 → Utf8Data → Option GridUtf8
set_data gu ud =
    if ud.size == 0
    then none
    else if ltb utf8_size ud.size
    then none
    else some (record {
      width = ud.width;
      bytes = terminate (put_bytes gu.bytes 0 (take ud.size ud.bytes)) ud.size;
    })

-- `grid_utf8_append`: `none` is the result -1, with the cell as it was.
unfoldable pub append_data : GridUtf8 → Utf8Data → Option GridUtf8
append_data gu ud =
    let old_size = size_of gu.bytes in
    if ltb utf8_size (old_size + ud.size)
    then none
    else some (record gu {
      bytes = terminate (put_bytes gu.bytes old_size (take ud.size ud.bytes)) (old_size + ud.size);
    })

abbrev pub bytes_eq : List ℕ → List ℕ → Bool
bytes_eq [] [] = true
bytes_eq [] (y ∷ ys) = false
bytes_eq (x ∷ xs) [] = false
bytes_eq (x ∷ xs) (y ∷ ys) = x == y && bytes_eq xs ys

-- `grid_utf8_compare`: whether it returns 1.
unfoldable pub compare_data : GridUtf8 → GridUtf8 → Bool
compare_data gu1 gu2 =
    let size = size_of gu1.bytes in
    if not (size == size_of gu2.bytes)
    then false
    else bytes_eq (take size gu1.bytes) (take size gu2.bytes)
