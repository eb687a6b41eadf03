-- ===== src/Utf8/Pieces.antt =====
-- utf8.c: a sequence that is opened takes its bytes and is then complete.
use tmux_cvs_archived.Prelude.{
  ℕ, ◌⊎◌, ◌+◌, ◌≤◌, ◌<◌, ◌≡◌, refl, Bool, false, not, none, some, [], ◌∷◌, ◌++◌, ltb, leb, ◌==◌,
  length, length-append, arith, Bool-cases, inl, inr, ◌||◌,
}
use tmux_cvs_archived.Utf8.{Utf8Data, open_size, open_utf8, append, Tree}

pub open_size-le : (ch : ℕ) → open_size ch ≤ 4
unfolding open_size
open_size-le ch = ground arith

-- `utf8_open` at a first byte.
pub open_found :
    (root : Tree) (ch : ℕ)
    → 0 < open_size ch
    → open_size ch ≤ 4
    → (ud : Utf8Data) × (open_utf8 root ch ≡ some ud)
      × (length ud.bytes ≡ 1)
      × (ud.size ≡ open_size ch)
unfolding open_utf8 append
open_found root ch p h =
    let some_bytes : (open_size ch == 0) ≡ false = ground (arith, p) in
    let fits : (leb (open_size ch) 0 || ltb 9 (open_size ch)) ≡ false = ground (arith, p, h) in
    elim (Bool-cases (not (1 == open_size ch))) [
      | inl more ↦ rw (some_bytes, fits, more) (_, refl, refl, refl)
      | inr one ↦ rw (some_bytes, fits, one) (_, refl, refl, refl)
    ]

-- `utf8_append` where a byte is wanted, and whether it wants more.
pub append_found :
    (root : Tree) (ud : Utf8Data) (ch : ℕ)
    → length ud.bytes < ud.size
    → ud.size ≤ 4
    → (r : Bool × Utf8Data) × (append root ud ch ≡ some r)
      × (r.0 ≡ not (length ud.bytes + 1 == ud.size))
      × (length (r.1).bytes ≡ length ud.bytes + 1)
      × ((r.1).size ≡ ud.size)
unfolding append
append_found root ud ch p h =
    let fits : (leb ud.size (length ud.bytes) || ltb 9 ud.size) ≡ false = ground (arith, p, h) in
    let longer = length-append ud.bytes (ch ∷ []) in
    elim (Bool-cases (not (length (ud.bytes ++ (ch ∷ [])) == ud.size))) [
      | inl more ↦
          rw (fits, more) (_, refl, ground (arith, more, longer), omega (arith, longer), refl)
      | inr last ↦
          rw (fits, last) (_, refl, ground (arith, last, longer), omega (arith, longer), refl)
    ]

open_size_values : (ch : ℕ) → (open_size ch ≡ 0) ⊎ (2 ≤ open_size ch)
unfolding open_size
open_size_values ch = ground arith

no_open : (root : Tree) (ch : ℕ) → open_size ch ≡ 0 → open_utf8 root ch ≡ none
unfolding open_utf8
no_open root ch e = rw e refl

-- A first byte opens a sequence of two to four bytes, or none.
pub opened_or_not :
    (root : Tree) (ch : ℕ)
    → (open_utf8 root ch ≡ none)
      ⊎ ((ud : Utf8Data) × (open_utf8 root ch ≡ some ud)
          × (length ud.bytes ≡ 1)
          × (2 ≤ ud.size)
          × (ud.size ≤ 4))
opened_or_not root ch = elim (open_size_values ch) [
  | inl none_open ↦ inl (no_open root ch none_open)
  | inr two ↦
      let (ud, found, one, size) = open_found root ch (omega (arith, two)) (open_size-le ch) in
      inr (ud, found, one, omega (arith, size, two), omega (arith, size, open_size-le ch))
]
