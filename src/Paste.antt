-- ===== src/Paste.antt =====
-- paste.c: the stack of paste buffers, an ARRAY of array.h with the newest buffer first.
mod Laws
mod Tests
use tmux_cvs_archived.Prelude.{
  ℕ, zero, suc, ◌+◌, ◌-◌, ◌||◌, Bool, Option, none, some, ◌>>=◌, List, [], ◌∷◌, ◌++◌, ltb, leb,
  ◌==◌, if◌then◌else◌, length, get_elem?, set, take, drop,
}

-- `struct paste_buffer`
pub record Buffer : Type 0 where
  pub bytes : List ℕ
  pub size : ℕ

abbrev pub Stack : Type 0
Stack = List Buffer

-- `ARRAY_REMOVE`, at an index in the array.
abbrev pub remove : Stack → ℕ → Stack
remove ps idx = take idx ps ++ drop (suc idx) ps

-- `ARRAY_TRUNC(ps, 1)`
abbrev pub drop_last : Stack → Stack
drop_last ps = take (length ps - 1) ps

-- `paste_get_top` and `paste_get_index`; NULL is `none`.
unfoldable pub get_top : Stack → Option Buffer
get_top ps = if length ps == 0 then none else get_elem? ps 0

unfoldable pub get_index : Stack → ℕ → Option Buffer
get_index ps idx = if leb (length ps) idx then none else get_elem? ps idx

-- `paste_walk_stack`: the item, and the next index.
unfoldable pub walk_stack : Stack → ℕ → Option Buffer × ℕ
unfolding get_index
walk_stack ps idx = (get_index ps idx, idx + 1)

-- `paste_free_top` and `paste_free_index`: `none` is the result -1.
unfoldable pub free_top : Stack → Option Stack
free_top ps = if length ps == 0 then none else some (remove ps 0)

unfoldable pub free_index : Stack → ℕ → Option Stack
free_index ps idx = if leb (length ps) idx then none else some (remove ps idx)

-- The loop of `paste_add`. It ends only if the limit is not 0: on an empty stack `ARRAY_LAST` reads
-- outside the array, which is `none` here, as is the end of the fuel.
unfoldable pub make_room : ℕ → Stack → ℕ → Option Stack
make_room zero ps limit = none
make_room (suc fuel) ps limit =
    let rest = make_room fuel (drop_last ps) limit in
    if ltb (length ps) limit then some ps else if length ps == 0 then none else rest

-- `paste_add`. Every round takes one buffer away, so the fuel is one more than there are.
unfoldable pub add : Stack → List ℕ → ℕ → ℕ → Option Stack
unfolding make_room
add ps bytes size limit =
    if size == 0
    then some ps
    else (make_room (suc (length ps)) ps limit >>= λ kept.
        some (record { bytes = bytes; size = size } ∷ kept))

-- `paste_replace`: `none` is the result -1.
unfoldable pub replace : Stack → ℕ → List ℕ → ℕ → Option Stack
replace ps idx bytes size =
    if size == 0
    then some ps
    else if leb (length ps) idx
    then none
    else some (set ps idx (record { bytes = bytes; size = size }))

-- `strlcat(buf, src, n)` on a text shorter than `n`.
abbrev pub strlcat : List ℕ → List ℕ → ℕ → List ℕ
strlcat buf src n = buf ++ take (n - length buf - 1) src

abbrev pub dots : List ℕ
dots = b'.' ∷ b'.' ∷ b'.' ∷ []

module _ (strvisx : List ℕ → List ℕ) where
  -- `paste_print`: `strvisx` is the function of the system's library (or of compat/vis.c) that makes
  -- bytes visible, under the flags of the call.
  unfoldable pub print : Buffer → ℕ → List ℕ
  print pb width0 =
      let width = if ltb width0 3 then 3 else width0 in
      let len = if ltb width pb.size then width else pb.size in
      let buf = strvisx (take len pb.bytes) in
      if ltb width pb.size || ltb width (length buf)
      then strlcat (take (width - 3) buf) dots width
      else buf
