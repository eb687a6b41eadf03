-- ===== src/Session/Group.antt =====
-- session.c and window.c: the references to windows and the groups of sessions. Sessions of a group
-- show the same windows: a change of one of them is copied to the others.
pub mod References
pub mod Copy
pub mod Fixed
pub mod Synchronize
pub mod Members
pub mod Leaving
use tmux_cvs_archived.Prelude.{
  ℕ, zero, suc, ◌+◌, ◌-◌, ◌%◌, ◌^◌, Bool, true, false, not, ◌||◌, Option, none, some, ◌>>=◌, List,
  [], ◌∷◌, ◌++◌, ◌==◌, if◌then◌else◌,
}
use Prim.Native.Nat.{bit_or}
use tmux_cvs_archived.Session.{Session, is_current, leave, unlink}
use tmux_cvs_archived.Winlink.{
  Winlink, ℤ, alert_bits, has, find_by_index, add, add_at, set_window, remove,
}

-- The reference counts of the windows that are there; `none` is a window that was destroyed.
abbrev pub Store : Type 0
Store = ℕ → Option ℕ

abbrev pub put : Store → ℕ → Option ℕ → Store
put refs w v p = if p == w then v else refs p

-- The count of `winlink_set_window`; `none` is the use of a window that is not there.
unfoldable pub link : Store → ℕ → Option Store
link refs w = refs w >>= λ n. some (put refs w (some ((n + 1) % 2 ^ 32)))

-- The count of `winlink_remove`, where the last reference destroys the window; `none` is the use of
-- a window that is not there and the fatal error on a count of 0.
unfoldable pub release : Store → Option ℕ → Option Store
release refs none = some refs
release refs (some w) = refs w >>= λ n.
    if n == 0 then none else some (put refs w (if n - 1 == 0 then none else some (n - 1)))

-- `wl2->flags |= wl->flags & WINLINK_ALERTFLAGS`
unfoldable pub or_flags : List Winlink → ℕ → ℕ → List Winlink
or_flags [] i bits = []
or_flags (wl ∷ wwl) i bits =
    let rest = wl ∷ or_flags wwl i bits in
    if wl.idx == i then record wl { flags = bit_or wl.flags bits } ∷ wwl else rest

-- The loop of `session_group_synchronize1` that links the windows of the target; `none` is also the
-- use of NULL: an index that is in use, and a target without a window.
unfoldable pub copy_links : List Winlink → List Winlink → Store → Option (List Winlink × Store)
unfolding add_at set_window link or_flags
copy_links [] made refs = some (made, refs)
copy_links (wl ∷ wwl) made refs = wl.window >>= λ w. add_at made wl.idx >>= λ (i, added).
    link refs w >>= λ refs'.
    copy_links wwl (or_flags (set_window added i w) i (alert_bits wl.flags)) refs'

-- The loop that frees the old winlinks, each of them once.
unfoldable pub free_links : List Winlink → Store → Option Store
unfolding release
free_links [] refs = some refs
free_links (wl ∷ wwl) refs = release refs wl.window >>= λ refs'. free_links wwl refs'

-- The winlink of the new tree for one of the old: the same index, if it is there.
abbrev pub again : List Winlink → ℕ → Option ℕ
again wwl i = if has wwl i then some i else none

unfoldable pub fix_stack : List Winlink → List ℕ → List ℕ
fix_stack wwl [] = []
fix_stack wwl (i ∷ stack) = let rest = fix_stack wwl stack in if has wwl i then i ∷ rest else rest

-- The current window after the copy; `none` outside is a target without a current window.
unfoldable pub fix_current : List Winlink → Option ℕ → Option ℕ → Option (Option ℕ)
fix_current wwl (some c) target = some (again wwl c)
fix_current wwl none target = target >>= λ c. some (again wwl c)

abbrev pub vanished : Session → List Winlink → Bool
vanished s ww = elim (s.curw) [ none ↦ false | some c ↦ not (has ww c) ]

-- The session as it goes into the copy: where its current window has vanished, it has left it.
unfoldable pub before_copy : Session → List Winlink → Session
unfolding leave
before_copy s ww = if vanished s ww then leave s else s

-- The copy of the windows `ww` and of the current window `target`, after which the old winlinks go.
unfoldable pub copy_into : List Winlink → Option ℕ → Session → Store → Option (Session × Store)
unfolding copy_links free_links fix_current fix_stack
copy_into ww target s refs = copy_links ww [] refs >>= λ (made, refs').
    fix_current made s.curw target >>= λ cur. free_links s.windows refs' >>= λ refs''.
    some (record { windows = made; curw = cur; lastw = fix_stack made s.lastw }, refs'')

abbrev pub is_empty : List Winlink → Bool
is_empty [] = true
is_empty (wl ∷ wwl) = false

-- `session_group_synchronize1`
unfoldable pub synchronize1 : Session → Session → Store → Option (Session × Store)
unfolding before_copy copy_into
synchronize1 target s refs =
    if is_empty target.windows
    then some (s, refs)
    else copy_into target.windows target.curw (before_copy s target.windows) refs

-- A session is known under a number.
abbrev pub member : ℕ → List ℕ → Bool
member s [] = false
member s (t ∷ group) = t == s || member s group

-- `session_group_find`
unfoldable pub group_find : List (List ℕ) → ℕ → Option (List ℕ)
group_find [] s = none
group_find (g ∷ groups) s = if member s g then some g else group_find groups s

-- `session_group_index`, of the group with `s`; `none` is the fatal error.
unfoldable pub group_index : List (List ℕ) → ℕ → Option ℕ
group_index [] s = none
group_index (g ∷ groups) s =
    let rest = group_index groups s in if member s g then some 0 else (rest >>= λ i. some (suc i))

-- The two parts of `session_group_add`: a group that has `target`, and `s` at its end.
unfoldable pub append_to : List (List ℕ) → ℕ → ℕ → List (List ℕ)
append_to [] target s = []
append_to (g ∷ groups) target s =
    let rest = g ∷ append_to groups target s in
    if member target g then (g ++ (s ∷ [])) ∷ groups else rest

unfoldable pub group_add : List (List ℕ) → ℕ → ℕ → List (List ℕ)
unfolding group_find append_to
group_add groups target s = elim (group_find groups target) [
  | none ↦ append_to (groups ++ ((target ∷ []) ∷ [])) target s
  | some g ↦ append_to groups target s
]

-- TAILQ_REMOVE
unfoldable pub without : List ℕ → ℕ → List ℕ
without [] s = []
without (t ∷ group) s = let rest = t ∷ without group s in if t == s then group else rest

-- What `session_group_remove` leaves of a group: a single session is taken out too, and a group
-- without a session goes. `none` is the read through NULL where the session was alone.
unfoldable pub without_single : List ℕ → List (List ℕ) → Option (List (List ℕ))
without_single [] groups = none
without_single (t ∷ []) groups = some groups
without_single (t ∷ u ∷ group) groups = some ((t ∷ u ∷ group) ∷ groups)

unfoldable pub group_remove : List (List ℕ) → ℕ → Option (List (List ℕ))
unfolding without without_single
group_remove [] s = some []
group_remove (g ∷ groups) s =
    let rest = group_remove groups s >>= λ others. some (g ∷ others) in
    if member s g then without_single (without g s) groups else rest
