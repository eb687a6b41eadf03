-- ===== src/Winlink/Order.antt =====
-- The tree of winlinks of window.c: what keeps it in order, and what its operations find.
use tmux_cvs_archived.Prelude.{
  ℕ, suc, not, true, false, ◌&&◌, ◌||◌, ◌≤◌, ◌<◌, ◌≡◌, refl, none, some, List, [], ◌∷◌, ◌==◌, arith,
}
use tmux_cvs_archived.Winlink.{
  Winlink, find_by_index, has, insert, set_window, remove, clear_alerts,
}

-- The indices ascend, and none is below `b`.
abbrev pub From : ℕ → List Winlink → Type 0
From b [] = Unit
From b (wl ∷ wwl) = (b ≤ wl.idx) × From (suc wl.idx) wwl

From-weaken : (a b : ℕ) (wwl : List Winlink) → a ≤ b → From b wwl → From a wwl
From-weaken a b [] h f = tt
From-weaken a b (wl ∷ wwl) h f = (omega (arith, f.0), f.1)

pub has_below : (b : ℕ) (wwl : List Winlink) (i : ℕ) → From b wwl → i < b → has wwl i ≡ false
has_below b [] i f h = refl
has_below b (wl ∷ wwl) i f h = ground (arith, f.0, has_below (suc wl.idx) wwl i f.1)

pub insert-From :
    (b : ℕ) (wwl : List Winlink) (new : Winlink)
    → From b wwl
    → b ≤ new.idx
    → From b (insert wwl new)
unfolding insert
insert-From b [] new f h = (h, tt)
insert-From b (wl ∷ wwl) new f h = ground (arith, f.0, f.1, insert-From (suc wl.idx) wwl new f.1)

pub has-insert :
    (wwl : List Winlink) (new : Winlink) (j : ℕ)
    → has (insert wwl new) j ≡ (new.idx == j || has wwl j)
unfolding insert
has-insert [] new j = refl
has-insert (wl ∷ wwl) new j = ground (arith, has-insert wwl new j)

pub remove-From : (b : ℕ) (wwl : List Winlink) (i : ℕ) → From b wwl → From b (remove wwl i)
unfolding remove
remove-From b [] i f = tt
remove-From b (wl ∷ wwl) i f = ground (
  arith,
  f.0,
  From-weaken b (suc wl.idx) wwl (omega (arith, f.0)) f.1,
  remove-From (suc wl.idx) wwl i f.1,
)

pub has-remove :
    (b : ℕ) (wwl : List Winlink) (i j : ℕ)
    → From b wwl
    → has (remove wwl i) j ≡ (has wwl j && not (i == j))
unfolding remove
has-remove b [] i j f = refl
has-remove b (wl ∷ wwl) i j f =
    ground (arith, has_below (suc wl.idx) wwl j f.1, has-remove (suc wl.idx) wwl i j f.1)

pub set_window-From :
    (b : ℕ) (wwl : List Winlink) (i w : ℕ) → From b wwl → From b (set_window wwl i w)
unfolding set_window
set_window-From b [] i w f = tt
set_window-From b (wl ∷ wwl) i w f =
    ground (arith, f.0, f.1, set_window-From (suc wl.idx) wwl i w f.1)

pub has-set_window : (wwl : List Winlink) (i w j : ℕ) → has (set_window wwl i w) j ≡ has wwl j
unfolding set_window
has-set_window [] i w j = refl
has-set_window (wl ∷ wwl) i w j = ground (arith, has-set_window wwl i w j)

pub clear_alerts-From :
    (b : ℕ) (wwl : List Winlink) (i : ℕ) → From b wwl → From b (clear_alerts wwl i)
unfolding clear_alerts
clear_alerts-From b [] i f = tt
clear_alerts-From b (wl ∷ wwl) i f =
    ground (arith, f.0, f.1, clear_alerts-From (suc wl.idx) wwl i f.1)

pub has-clear_alerts : (wwl : List Winlink) (i j : ℕ) → has (clear_alerts wwl i) j ≡ has wwl j
unfolding clear_alerts
has-clear_alerts [] i j = refl
has-clear_alerts (wl ∷ wwl) i j = ground (arith, has-clear_alerts wwl i j)

pub has-find_by_index :
    (wwl : List Winlink) (i : ℕ)
    → has wwl i ≡ (elim (find_by_index wwl i) [ none ↦ false | some _ ↦ true ])
unfolding find_by_index
has-find_by_index [] i = refl
has-find_by_index (wl ∷ wwl) i = ground (arith, has-find_by_index wwl i)

-- A winlink that was found is in the tree, under its index.
pub Found : List Winlink → Winlink → Type 0
Found wwl wl = (find_by_index wwl wl.idx ≡ some wl) × (has wwl wl.idx ≡ true)

pub find_by_index-idx :
    (wwl : List Winlink) (i : ℕ) (wl : Winlink) → find_by_index wwl i ≡ some wl → wl.idx ≡ i
unfolding find_by_index
find_by_index-idx (v ∷ wwl) i wl e = ground (arith, find_by_index-idx wwl i wl)
find_by_index-idx [] i wl e = ground arith
