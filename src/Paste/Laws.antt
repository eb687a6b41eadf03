-- ===== src/Paste/Laws.antt =====
-- paste.c against lists: what is kept, what is lost, and that `paste_add` returns.
use tmux_cvs_archived.Prelude.{
  ℕ, true, false, zero, suc, ◌+◌, ◌-◌, ◌≤◌, ◌<◌, ◌≡◌, refl, none, some, List, [], ◌∷◌, ◌++◌, length,
  take, drop, length-take, arith, Bool-cases, inl, inr, ltb, ◌==◌, get_elem?, length-append,
  length-drop, ap, if◌then◌else◌,
}
use tmux_cvs_archived.Paste.{
  Buffer, Stack, drop_last, make_room, add, get_index, free_index, remove, print, dots,
}

take-length {ℓ} : {A : Type ℓ} (xs : List A) (n : ℕ) → length xs ≤ n → take n xs ≡ xs
take-length [] zero h = refl
take-length [] (suc n) h = refl
take-length (x ∷ xs) zero h = absurd (omega arith)
take-length (x ∷ xs) (suc n) h = ap (λ r. x ∷ r) (take-length xs n (omega arith))

take-take {ℓ} : {A : Type ℓ} (xs : List A) (m n : ℕ) → m ≤ n → take m (take n xs) ≡ take m xs
take-take xs zero n h = refl
take-take xs (suc m) zero h = absurd (omega arith)
take-take [] (suc m) (suc n) h = refl
take-take (x ∷ xs) (suc m) (suc n) h = ap (λ r. x ∷ r) (take-take xs m n (omega arith))

make_room_lem :
    (fuel : ℕ) (ps : Stack) (limit : ℕ)
    → length ps < fuel
    → 0 < limit
    → make_room fuel ps limit ≡ some (take (limit - 1) ps)
unfolding make_room
make_room_lem zero ps limit h p = absurd (omega arith)
make_room_lem (suc fuel) ps limit h p = ground (
  arith,
  take-length ps (limit - 1),
  make_room_lem fuel (drop_last ps) limit,
  length-take (length ps - 1) ps,
  take-take ps (limit - 1) (length ps - 1),
)

-- With a limit other than 0 `paste_add` returns; it puts a buffer that is not empty on top, and
-- keeps the newest buffers below it, fewer than the limit, in order.
pub add_lem :
    (ps : Stack) (bytes : List ℕ) (size limit : ℕ)
    → 0 < limit
    → 0 < size
    → let pb : Buffer = record { bytes = bytes; size = size } in
      add ps bytes size limit ≡ some (pb ∷ take (limit - 1) ps)
unfolding add
add_lem ps bytes size limit p s = ground (arith, make_room_lem (suc (length ps)) ps limit)

-- Where the limit is not 0 and the stack is within it, `paste_add` keeps it within.
length-add :
    (ps qs : Stack) (bytes : List ℕ) (size limit : ℕ)
    → 0 < limit
    → length ps ≤ limit
    → add ps bytes size limit ≡ some qs
    → length qs ≤ limit
length-add ps qs bytes size limit p h e = elim (Bool-cases (size == 0)) [
  | inl nothing ↦ unfold add in ground arith
  | inr new ↦
      ground (arith, add_lem ps bytes size limit p (ground arith), length-take (limit - 1) ps)
]

-- Freeing by index takes out that buffer alone: those above keep their index, those below move up,
-- and an index past the end is refused.
get_elem?-remove :
    (ps : Stack) (idx i : ℕ)
    → get_elem? (remove ps idx) i ≡ (if ltb i idx then get_elem? ps i else get_elem? ps (suc i))
get_elem?-remove [] zero i = ground arith
get_elem?-remove [] (suc idx) i = ground arith
get_elem?-remove (p ∷ ps) zero i = ground arith
get_elem?-remove (p ∷ ps) (suc idx) zero = ground arith
get_elem?-remove (p ∷ ps) (suc idx) (suc i) = ground (arith, get_elem?-remove ps idx i)

get_elem?_past : (ps : Stack) (i : ℕ) → length ps ≤ i → get_elem? ps i ≡ none
get_elem?_past [] i h = refl
get_elem?_past (p ∷ ps) zero h = absurd (omega arith)
get_elem?_past (p ∷ ps) (suc i) h = get_elem?_past ps i (omega arith)

-- Where `paste_free_index` frees a buffer, its index was below the number of buffers, there is one
-- fewer, and `paste_get_index` finds the buffers above it under their index and those below it under
-- an index less by one.
get_index-free_index :
    (ps qs : Stack) (idx i : ℕ)
    → free_index ps idx ≡ some qs
    → (idx < length ps)
      × (length qs + 1 ≡ length ps)
      × (get_index qs i ≡ (if ltb i idx then get_index ps i else get_index ps (i + 1)))
unfolding free_index get_index
get_index-free_index ps qs idx i e = ground (
  arith,
  get_elem?-remove ps idx i,
  get_elem?_past ps i,
  get_elem?_past ps (suc i),
  length-append (take idx ps) (drop (suc idx) ps),
  length-take idx ps,
  length-drop (suc idx) ps,
)

-- At a width of 3 or more, less than the size of a buffer, a buffer that is cut short ends in two dots of the three, since `strlcat` keeps a byte of the
-- width for the end of the string, whatever `strvisx` prints, if it prints no byte as nothing.
pub print_cut :
    (strvisx : List ℕ → List ℕ) (pb : Buffer) (width : ℕ)
    → ((bytes : List ℕ) → length bytes ≤ length (strvisx bytes))
    → pb.size ≤ length pb.bytes
    → 3 ≤ width
    → width < pb.size
    → print strvisx pb width
      ≡ take (width - 3) (strvisx (take width pb.bytes)) ++ (b'.' ∷ b'.' ∷ [])
unfolding print
print_cut strvisx pb width grows fits h k =
    let shown = strvisx (take width pb.bytes) in
    let kept : length (take (width - 3) shown) ≡ width - 3 = omega (
      arith,
      length-take (width - 3) shown,
      length-take width pb.bytes,
      grows (take width pb.bytes),
    ) in
    let room : width - length (take (width - 3) shown) - 1 ≡ 2 = omega arith in
    let wide : ltb width 3 ≡ false = ground arith in
    let cut : ltb width pb.size ≡ true = ground arith in
    rw (wide, cut) (ap (λ k. take (width - 3) shown ++ take k dots) room)
