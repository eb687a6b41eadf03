-- ===== src/Winlink/Numbers.antt =====
-- How window.c numbers a new window: the search of `winlink_next_index` and the errors of
-- `winlink_add`.
use tmux_cvs_archived.Prelude.{
  ℕ, zero, suc, true, false, ◌||◌, ◌⊎◌, ◌+◌, ◌-◌, ◌≤◌, ◌<◌, ◌≡◌, refl, ◌∙◌, subst, Option, none,
  some, List, [], ◌∷◌, ltb, ◌==◌, if◌then◌else◌, arith, Bool-cases, inl, inr, ◌^◌,
}
use tmux_cvs_archived.Winlink.{
  Winlink, has, remove, count, int_max, following, next_index_loop, next_index, insert, fresh, add,
  add_at, pos, negsuc,
}
use tmux_cvs_archived.Winlink.Order.{From, remove-From, has-remove, insert-From, has-insert}

-- The `k`-th index that the search looks at.
abbrev pub nth_index : ℕ → ℕ → ℕ
nth_index i k = if ltb int_max (i + k) then i + k - 2 ^ 31 else i + k

following-nth_index :
    (i k : ℕ) → i ≤ int_max → k < int_max → following (nth_index i k) ≡ nth_index i (suc k)
following-nth_index i k h l = ground arith

count-remove :
    (wwl : List Winlink) (i : ℕ) → has wwl i ≡ true → count wwl ≡ suc (count (remove wwl i))
unfolding count remove
count-remove [] i h = ground arith
count-remove (wl ∷ wwl) i h = ground (arith, count-remove wwl i)

-- A tree that uses the first `k` indices of the search has `k` winlinks.
used_many :
    (k : ℕ) (wwl : List Winlink) (i : ℕ)
    → From 0 wwl
    → i ≤ int_max
    → k ≤ int_max
    → ((j : ℕ) → j < k → has wwl (nth_index i j) ≡ true)
    → k ≤ count wwl
used_many zero wwl i f h l u = omega arith
used_many (suc k) wwl i f h l u =
    let x = nth_index i k in
    omega (
      arith,
      count-remove wwl x (u k (omega arith)),
      used_many k (remove wwl x) i (remove-From 0 wwl x f) h (omega arith)
          (λ j b. has-remove 0 wwl x (nth_index i j) f ∙ ground (arith, u j (omega arith))),
    )

-- The search ended at `i`: it is free, and the indices that were looked at before it are in use.
pub record Search (wwl : List Winlink) (idx : ℕ) (r : Option ℕ) : Type 0 where
  pub steps : ℕ
  pub inside : steps ≤ count wwl
  pub result : r ≡ some (nth_index idx steps)
  pub free : has wwl (nth_index idx steps) ≡ false
  pub used : (j : ℕ) → j < steps → has wwl (nth_index idx j) ≡ true

one_more :
    (wwl : List Winlink) (idx k : ℕ)
    → ((j : ℕ) → j < k → has wwl (nth_index idx j) ≡ true)
    → has wwl (nth_index idx k) ≡ true
    → (j : ℕ) → j < suc k
    → has wwl (nth_index idx j) ≡ true
one_more wwl idx k u here j h = elim (Bool-cases (j == k)) [
  | inl e ↦ subst (λ x. has wwl (nth_index idx x) ≡ true) {x = k} {y = j} (ground arith) here
  | inr e ↦ u j (ground arith)
]

loop_lem :
    (fuel : ℕ) (wwl : List Winlink) (idx k : ℕ)
    → From 0 wwl
    → idx ≤ int_max
    → count wwl < int_max
    → fuel + k ≡ suc (count wwl)
    → ((j : ℕ) → j < k → has wwl (nth_index idx j) ≡ true)
    → Search wwl idx (next_index_loop fuel wwl idx (nth_index idx k))
unfolding next_index_loop
loop_lem zero wwl idx k f h c e u = absurd (omega (arith, used_many k wwl idx f h (omega arith) u))
loop_lem (suc fuel) wwl idx k f h c e u = elim (Bool-cases (has wwl (nth_index idx k))) [
  | inl taken ↦
      let more = one_more wwl idx k u taken in
      let room = used_many (suc k) wwl idx f h (omega arith) more in
      let step = following-nth_index idx k h (omega arith) in
      let on : (nth_index idx (suc k) == idx) ≡ false = ground arith in
      rw (taken, step, on) (loop_lem fuel wwl idx (suc k) f h c (omega arith) more)
  | inr open_here ↦ rw open_here (record {
    steps = k;
    inside = used_many k wwl idx f h (omega arith) u;
    result = refl;
    free = open_here;
    used = u;
  })
]

-- Where the winlinks are in order and fewer than INT_MAX, `winlink_next_index` returns the first free
-- index of the search that goes up from `idx` and on from 0 after INT_MAX.
pub next_index_lem :
    (wwl : List Winlink) (idx : ℕ)
    → From 0 wwl
    → idx ≤ int_max
    → count wwl < int_max
    → Search wwl idx (next_index wwl idx)
unfolding next_index
next_index_lem wwl idx f h c =
    let start : nth_index idx 0 ≡ idx = ground arith in
    subst (λ i. Search wwl idx (next_index_loop (suc (count wwl)) wwl idx i)) start
      (loop_lem (suc (count wwl)) wwl idx 0 f h c (omega arith) (λ j b. absurd (omega arith)))

count-insert :
    (wwl : List Winlink) (new : Winlink)
    → has wwl new.idx ≡ false
    → count (insert wwl new) ≡ suc (count wwl)
unfolding count insert
count-insert [] new h = refl
count-insert (wl ∷ wwl) new h = ground (arith, count-insert wwl new)

-- What `winlink_add` has done when it returns the winlink at `i`.
pub record Added (wwl : List Winlink) (i : ℕ) (new : List Winlink) : Type 0 where
  pub was_free : has wwl i ≡ false
  pub made : new ≡ insert wwl (fresh i)
  pub ordered : From 0 new
  pub members : (j : ℕ) → has new j ≡ (i == j || has wwl j)
  pub counted : count new ≡ suc (count wwl)

insert-Added :
    (wwl : List Winlink) (i : ℕ)
    → From 0 wwl
    → has wwl i ≡ false
    → Added wwl i (insert wwl (fresh i))
insert-Added wwl i f h = record {
  was_free = h;
  made = refl;
  ordered = insert-From 0 wwl (fresh i) f (omega arith);
  members = λ j. has-insert wwl (fresh i) j;
  counted = count-insert wwl (fresh i) h;
}

-- `winlink_add` with an index of its own refuses just the indices that are in use; it makes the
-- winlink at that index otherwise, and the tree stays in order with the other winlinks.
pub add-pos :
    (wwl : List Winlink) (i : ℕ)
    → From 0 wwl
    → ((has wwl i ≡ true) × (add wwl (pos i) ≡ none))
      ⊎ ((new : List Winlink) × (add wwl (pos i) ≡ some (i, new)) × Added wwl i new)
unfolding add add_at
add-pos wwl i f = elim (Bool-cases (has wwl i)) [
  | inl taken ↦ inl (taken, rw taken refl)
  | inr free ↦ inr (insert wwl (fresh i), rw free refl, insert-Added wwl i f free)
]

-- `winlink_add` with a negative index always makes a winlink, where the tree is in order and there
-- are fewer than INT_MAX: its index was free, and the tree stays in order with the other winlinks.
pub add-negsuc :
    (wwl : List Winlink) (n : ℕ)
    → From 0 wwl
    → n ≤ int_max
    → count wwl < int_max
    → (i : ℕ) × (new : List Winlink) × (add wwl (negsuc n) ≡ some (i, new)) × Added wwl i new
unfolding add
add-negsuc wwl n f h c =
    let found = next_index_lem wwl n f h c in
    let i = nth_index n found.steps in
    (i, insert wwl (fresh i), rw (add, found.result) refl, insert-Added wwl i f found.free)
