-- ===== src/Session/Sound.antt =====
-- The pointers of a session of session.c: every move keeps them sound.
use tmux_cvs_archived.Prelude.{
  ℕ, zero, suc, Bool, true, false, not, ◌&&◌, ◌||◌, ◌≡◌, ◌≢◌, ◌⊎◌, refl, ◌∙◌, Option, none, some,
  List, [], ◌∷◌, ◌==◌, arith, Bool-cases, Option-cases, inl, inr,
}
use tmux_cvs_archived.Session.{
  Session, alerted, next_alert, previous_alert, go, is_current, move_to, from_current, to_top,
  next_target, previous_target, next_window, previous_window, select, last_window,
}
use tmux_cvs_archived.Winlink.{
  Winlink, has, find_by_index, next, previous, first, last, or_else, stack_remove, stack_push,
  count,
}
use tmux_cvs_archived.Winlink.Order.{
  From, has-find_by_index, find_by_index-idx, clear_alerts-From, has-clear_alerts,
}
use tmux_cvs_archived.Winlink.Steps.{next-has, previous-has, first-has, last-has}

abbrev pub mem : ℕ → List ℕ → Bool
mem i [] = false
mem i (j ∷ xs) = i == j || mem i xs

abbrev pub distinct : List ℕ → Bool
distinct [] = true
distinct (i ∷ xs) = not (mem i xs) && distinct xs

pub mem-stack_remove :
    (xs : List ℕ) (i j : ℕ)
    → distinct xs ≡ true
    → mem j (stack_remove xs i) ≡ (mem j xs && not (j == i))
unfolding stack_remove
mem-stack_remove [] i j d = refl
mem-stack_remove (x ∷ xs) i j d = ground (arith, mem-stack_remove xs i j)

pub distinct-stack_remove :
    (xs : List ℕ) (i : ℕ) → distinct xs ≡ true → distinct (stack_remove xs i) ≡ true
unfolding stack_remove
distinct-stack_remove [] i d = refl
distinct-stack_remove (x ∷ xs) i d =
    ground (arith, distinct-stack_remove xs i, mem-stack_remove xs i x)

-- The winlinks are in order; the current one and those of the stack are among them, the stack has
-- none of them twice, nor the current one.
pub record IsSound (s : Session) : Type 0 where
  pub ordered : From 0 s.windows
  pub current : (c : ℕ) → s.curw ≡ some c → has s.windows c ≡ true
  pub stacked : (i : ℕ) → mem i s.lastw ≡ true → has s.windows i ≡ true
  pub unique : distinct s.lastw ≡ true
  pub apart : (c : ℕ) → s.curw ≡ some c → mem c s.lastw ≡ false

-- The stack after a move from `c` to `i`.
stack_lem :
    (xs : List ℕ) (c : Option ℕ) (i : ℕ)
    → distinct xs ≡ true
    → c ≢ some i
    → let after = stack_push (stack_remove xs i) c in
      (distinct after ≡ true)
      × (mem i after ≡ false)
      × ((j : ℕ) → mem j after ≡ true → (mem j xs ≡ true) ⊎ (c ≡ some j))
unfolding stack_push
stack_lem xs none i d n = (
  distinct-stack_remove xs i d,
  ground (arith, mem-stack_remove xs i i d),
  λ j h. inl (ground (arith, mem-stack_remove xs i j d)),
)
stack_lem xs (some c) i d n =
    let d' = distinct-stack_remove xs i d in
    (
      ground (
        arith,
        distinct-stack_remove (stack_remove xs i) c d',
        mem-stack_remove (stack_remove xs i) c c d',
      ),
      ground (arith, mem-stack_remove xs i i d, mem-stack_remove (stack_remove xs i) c i d'),
      λ j h. ground (arith, mem-stack_remove xs i j d, mem-stack_remove (stack_remove xs i) c j d'),
    )

not_current : (s : Session) (i : ℕ) → is_current s i ≡ false → s.curw ≢ some i
not_current s i h e = absurd (ground (arith, h, e))

pub go-IsSound :
    (s : Session) (i : ℕ)
    → IsSound s
    → has s.windows i ≡ true
    → is_current s i ≡ false
    → IsSound (go s i)
unfolding go
go-IsSound s i h m n =
    let (unique, apart, among) = stack_lem s.lastw s.curw i h.unique (not_current s i n) in
    record {
      ordered = clear_alerts-From 0 s.windows i h.ordered;
      current = λ c e. ground (arith, has-clear_alerts s.windows i c, m, e);
      stacked = λ j e.
          has-clear_alerts s.windows i j
          ∙ elim (among j e) [ inl old ↦ h.stacked j old | inr left ↦ h.current j left ];
      unique = unique;
      apart = λ c e. ground (arith, apart, e);
    }

-- The winlink, where there is one, is of the session.
abbrev pub Ours : Session → Option Winlink → Type 0
Ours s none = Unit
Ours s (some wl) = has s.windows wl.idx ≡ true

move_to-IsSound :
    (s : Session) (o : Option Winlink) → IsSound s → Ours s o → IsSound (move_to s o).1
unfolding move_to
move_to-IsSound s none h m = h
move_to-IsSound s (some wl) h m = elim (Bool-cases (is_current s wl.idx)) [
  | inl e ↦ rw e h
  | inr e ↦ rw e (go-IsSound s wl.idx h m e)
]

next-Ours : (s : Session) (i : ℕ) → Ours s (next s.windows i)
next-Ours s i = elim (Option-cases (next s.windows i)) [
  | inl e ↦ rw e tt
  | inr (wl, e) ↦ rw e ((next-has s.windows i wl e).1)
]

previous-Ours : (s : Session) (i : ℕ) → Ours s (previous s.windows i)
previous-Ours s i = elim (Option-cases (previous s.windows i)) [
  | inl e ↦ rw e tt
  | inr (wl, e) ↦ rw e ((previous-has s.windows i wl e).1)
]

first-Ours : (s : Session) → Ours s (first s.windows)
first-Ours s = elim (Option-cases (first s.windows)) [
  | inl e ↦ rw e tt
  | inr (wl, e) ↦ rw e (first-has s.windows wl e)
]

last-Ours : (s : Session) → Ours s (last s.windows)
last-Ours s = elim (Option-cases (last s.windows)) [
  | inl e ↦ rw e tt
  | inr (wl, e) ↦ rw e (last-has s.windows wl e)
]

next_alert-Ours :
    (fuel : ℕ) (s : Session) (o : Option Winlink) → Ours s o → Ours s (next_alert fuel s.windows o)
unfolding next_alert
next_alert-Ours fuel s none m = tt
next_alert-Ours zero s (some wl) m = tt
next_alert-Ours (suc fuel) s (some wl) m = elim (Bool-cases (alerted wl)) [
  | inl e ↦ rw e m
  | inr e ↦ rw e (next_alert-Ours fuel s (next s.windows wl.idx) (next-Ours s wl.idx))
]

previous_alert-Ours :
    (fuel : ℕ) (s : Session) (o : Option Winlink)
    → Ours s o
    → Ours s (previous_alert fuel s.windows o)
unfolding previous_alert
previous_alert-Ours fuel s none m = tt
previous_alert-Ours zero s (some wl) m = tt
previous_alert-Ours (suc fuel) s (some wl) m = elim (Bool-cases (alerted wl)) [
  | inl e ↦ rw e m
  | inr e ↦ rw e (previous_alert-Ours fuel s (previous s.windows wl.idx) (previous-Ours s wl.idx))
]

or-Ours : (s : Session) (a b : Option Winlink) → Ours s a → Ours s b → Ours s (or_else a b)
or-Ours s none b ma mb = mb
or-Ours s (some wl) b ma mb = ma

next_target-Ours : (s : Session) (c : ℕ) (alert : Bool) → Ours s (next_target s c alert)
unfolding next_target
next_target-Ours s c false = or-Ours s _ _ (next-Ours s c) (first-Ours s)
next_target-Ours s c true =
    let fuel = suc (count s.windows) in
    or-Ours s _ _ (next_alert-Ours fuel s _ (next-Ours s c))
      (next_alert-Ours fuel s _ (first-Ours s))

previous_target-Ours : (s : Session) (c : ℕ) (alert : Bool) → Ours s (previous_target s c alert)
unfolding previous_target
previous_target-Ours s c false = or-Ours s _ _ (previous-Ours s c) (last-Ours s)
previous_target-Ours s c true =
    let fuel = suc (count s.windows) in
    or-Ours s _ _ (previous_alert-Ours fuel s _ (previous-Ours s c))
      (previous_alert-Ours fuel s _ (last-Ours s))

from_current-IsSound :
    (s : Session) (o : Option ℕ) (target : ℕ → Option Winlink)
    → IsSound s
    → ((c : ℕ) → Ours s (target c))
    → IsSound (from_current s o target).1
unfolding from_current
from_current-IsSound s none target h m = h
from_current-IsSound s (some c) target h m = move_to-IsSound s (target c) h (m c)

pub next_window-IsSound : (s : Session) (alert : Bool) → IsSound s → IsSound (next_window s alert).1
unfolding next_window
next_window-IsSound s alert h =
    from_current-IsSound s s.curw (λ c. next_target s c alert) h (λ c. next_target-Ours s c alert)

pub previous_window-IsSound :
    (s : Session) (alert : Bool) → IsSound s → IsSound (previous_window s alert).1
unfolding previous_window
previous_window-IsSound s alert h =
    from_current-IsSound s s.curw (λ c. previous_target s c alert) h
      (λ c. previous_target-Ours s c alert)

select-Ours : (s : Session) (i : ℕ) → Ours s (find_by_index s.windows i)
select-Ours s i = elim (Option-cases (find_by_index s.windows i)) [
  | inl e ↦ rw e tt
  | inr (wl, e) ↦
      rw e (ground (arith, has-find_by_index s.windows i, find_by_index-idx s.windows i wl e, e))
]

select-IsSound : (s : Session) (i : ℕ) → IsSound s → IsSound (select s i).1
unfolding select
select-IsSound s i h = move_to-IsSound s (find_by_index s.windows i) h (select-Ours s i)

to_top-IsSound :
    (s : Session) (xs : List ℕ)
    → IsSound s
    → ((i : ℕ) → mem i xs ≡ true → has s.windows i ≡ true)
    → IsSound (to_top s xs).1
unfolding to_top
to_top-IsSound s [] h m = h
to_top-IsSound s (i ∷ xs) h m = elim (Bool-cases (is_current s i)) [
  | inl e ↦ rw e h
  | inr e ↦ rw e (go-IsSound s i h (m i (ground arith)) e)
]

pub last_window-IsSound : (s : Session) → IsSound s → IsSound (last_window s).1
unfolding last_window
last_window-IsSound s h = to_top-IsSound s s.lastw h h.stacked

-- The moves of a session keep its pointers sound, with alerts or without: `session_next`,
-- `session_previous`, `session_select` and `session_last`, whether they move or fail.
pub moves-IsSound :
    (s : Session) (alert : Bool) (i : ℕ)
    → IsSound s
    → IsSound (next_window s alert).1
      × IsSound (previous_window s alert).1
      × IsSound (select s i).1
      × IsSound (last_window s).1
moves-IsSound s alert i h = (
  next_window-IsSound s alert h,
  previous_window-IsSound s alert h,
  select-IsSound s i h,
  last_window-IsSound s h,
)
