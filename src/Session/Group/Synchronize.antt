-- ===== src/Session/Group/Synchronize.antt =====
-- `session_group_synchronize1` of session.c: what a session has after it.
use tmux_cvs_archived.Prelude.{
  ℕ, true, false, ◌+◌, ◌^◌, ◌≤◌, ◌<◌, ◌≡◌, ◌≢◌, ◌⊎◌, refl, ◌∙◌, ap, subst, none, some, List, [],
  ◌∷◌, map, arith, Bool-cases, inl, inr,
}
use tmux_cvs_archived.Session.{Session}
use tmux_cvs_archived.Session.Group.{
  Store, copy_links, free_links, vanished, again, before_copy, copy_into, is_empty, synchronize1,
}
use tmux_cvs_archived.Session.Group.Copy.{copied, Linked, copy_links-Exact}
use tmux_cvs_archived.Session.Group.Fixed.{
  has-copied, before_copy-IsSound, uses-before_copy, Idle, before_copy-Idle, home, fix_current-home,
  home-some, home-none, same_some, after, after-IsSound,
}
use tmux_cvs_archived.Session.Group.References.{uses, Exact, Exact-ext, free_links-Exact}
use tmux_cvs_archived.Session.Moves.{leave_from, curw-go}
use tmux_cvs_archived.Session.Sound.{IsSound}
use tmux_cvs_archived.Winlink.{Winlink, has}
use tmux_cvs_archived.Winlink.Order.{From}

-- A target with its windows, and the references of a session and of all others, `g`, the target's
-- among them; the counts have room for the copy.
pub record CanCopy (target s : Session) (refs : Store) (g : ℕ → ℕ) : Type 0 where
  pub sound : IsSound s
  pub idle : s.curw ≡ none → s.lastw ≡ []
  pub ordered : From 0 target.windows
  pub linked : Linked target.windows
  pub current : (c : ℕ) × (target.curw ≡ some c) × (has target.windows c ≡ true)
  pub exact : Exact refs (λ p. uses s.windows p + g p)
  pub others : (p : ℕ) → uses target.windows p ≤ g p
  pub room : (p : ℕ) → uses target.windows p + (uses s.windows p + g p) < 2 ^ 32

-- What `session_group_synchronize1` leaves: the winlinks of the target with their alerts, sound
-- pointers, and exact references; the current window stays, if the target has it.
pub record Copied (target s : Session) (g : ℕ → ℕ) (t : Session) (refs : Store) : Type 0 where
  pub windows : t.windows ≡ map copied target.windows
  pub sound : IsSound t
  pub stays : (c : ℕ) → s.curw ≡ some c → has target.windows c ≡ true → t.curw ≡ some c
  pub leaves :
      (d : ℕ)
      → (before_copy s target.windows).curw ≡ some d
      → has target.windows d ≡ true
      → t.curw ≡ some d
  pub starts : (c : ℕ) → s.curw ≡ none → target.curw ≡ some c → t.curw ≡ some c
  pub exact : Exact refs (λ p. uses target.windows p + g p)

vanished_not :
    (s : Session) (ww : List Winlink) (c : ℕ)
    → s.curw ≡ some c
    → has ww c ≡ true
    → before_copy s ww ≡ s
unfolding before_copy
vanished_not s ww c e h = let stays : vanished s ww ≡ false = ground (arith, e, h) in rw stays refl

vanished_none : (s : Session) (ww : List Winlink) → s.curw ≡ none → before_copy s ww ≡ s
unfolding before_copy
vanished_none s ww e = let stays : vanished s ww ≡ false = ground (arith, e) in rw stays refl

after_current :
    (ww : List Winlink) (t : Session) (c d : ℕ)
    → home t.curw c ≡ d
    → has ww d ≡ true
    → (after ww t c).curw ≡ some d
unfolding after
after_current ww t c d e h =
    let in_copy : has (map copied ww) d ≡ true = has-copied ww d ∙ h in
    ap (again (map copied ww)) e ∙ rw in_copy refl

copy_into_lem :
    (ww : List Winlink) (t : Session) (refs r r' : Store) (c : ℕ)
    → copy_links ww [] refs ≡ some (map copied ww, r)
    → free_links t.windows r ≡ some r'
    → copy_into ww (some c) t refs ≡ some (after ww t c, r')
unfolding copy_into after
copy_into_lem ww t refs r r' c copies frees =
    rw (copy_into, copies, fix_current-home (map copied ww) t.curw c, frees) refl

not_empty : (ww : List Winlink) (c : ℕ) → has ww c ≡ true → is_empty ww ≡ false
not_empty [] c h = absurd (ground (arith, h))
not_empty (wl ∷ ww) c h = refl

synchronize1_step :
    (target s : Session) (refs : Store) (c : ℕ)
    → has target.windows c ≡ true
    → target.curw ≡ some c
    → synchronize1 target s refs
      ≡ copy_into target.windows (some c) (before_copy s target.windows) refs
unfolding synchronize1
synchronize1_step target s refs c h e =
    let full = not_empty target.windows c h in
    rw full (ap (λ o. copy_into target.windows o (before_copy s target.windows) refs) e)

-- `session_group_synchronize1` meets no window that is gone, and leaves the session with the winlinks
-- of the target, sound pointers and exact reference counts; the current window stays, if the target
-- has it. Before it, the winlinks of the target are in order, each with a window, and its current
-- window is one of them; the pointers of the session are sound, and its stack is empty where it has no
-- current window; the counts are exact, the references of the target being among those of the others,
-- and have room for the copy.
pub synchronize1-Copied :
    (target s : Session) (refs : Store) (g : ℕ → ℕ)
    → CanCopy target s refs g
    → (t : Session) × (refs' : Store) × (synchronize1 target s refs ≡ some (t, refs'))
      × Copied target s g t refs'
unfolding after Idle
synchronize1-Copied target s refs g h =
    let (c, e, m) = h.current in
    let ww = target.windows in
    let t = before_copy s ww in
    let all = λ (p : ℕ). uses s.windows p + g p in
    let alive : (p : ℕ) → 0 < uses ww p → 0 < all p = λ p u. omega (arith, h.others p, u) in
    let (r, copies, x) =
      copy_links-Exact ww 0 [] refs all h.ordered tt h.linked h.exact alive h.room in
    let kept : (p : ℕ) → uses ww p + all p ≡ uses t.windows p + (uses ww p + g p) =
      λ p. omega (arith, uses-before_copy s ww p) in
    let (r', frees, y) =
      free_links-Exact t.windows r (λ p. uses ww p + g p) (Exact-ext r _ _ x kept) in
    (
      after ww t c,
      r',
      synchronize1_step target s refs c m e ∙ copy_into_lem ww t refs r r' c copies frees,
      record {
        windows = refl;
        sound =
            after-IsSound ww t c h.ordered (before_copy-IsSound s ww h.sound)
              (before_copy-Idle s ww h.idle);
        stays = λ d p q.
            after_current ww t c d
              (ap (λ x. home x.curw c) (vanished_not s ww d p q) ∙ home-some s.curw c d p) q;
        leaves = λ d p q. after_current ww t c d (home-some t.curw c d p) q;
        starts = λ d p q.
            after_current ww t c d
              (ap (λ x. home x.curw c) (vanished_none s ww p)
                ∙ home-none s.curw c p
                ∙ same_some e q)
              (subst (λ x. has ww x ≡ true) (same_some e q) m);
        exact = y;
      },
    )

-- The target has the current window of a session, or it has all others and there is another.
abbrev pub Near : Session → Session → ℕ → Type 0
Near target s c =
    (has target.windows c ≡ true)
    ⊎ ((j : ℕ) × (has s.windows j ≡ true)
        × (j ≢ c)
        × ((i : ℕ) → has s.windows i ≡ true → i ≢ c → has target.windows i ≡ true))

left_to :
    (s : Session) (ww : List Winlink) (c j : ℕ)
    → IsSound s
    → s.curw ≡ some c
    → has ww c ≡ false
    → has s.windows j ≡ true
    → j ≢ c
    → (i : ℕ) × ((before_copy s ww).curw ≡ some i) × (has s.windows i ≡ true) × (i ≢ c)
unfolding before_copy
left_to s ww c j h e gone m n =
    let (i, to, ours, other) = leave_from s c j s.lastw h e refl m n in
    let goes : vanished s ww ≡ true = ground (arith, e, gone) in
    (i, rw (goes, to) (curw-go s i), ours, other)

-- After the copy there is a current window, if no other one has vanished with it.
pub Near-current :
    (target s t : Session) (g : ℕ → ℕ) (refs : Store) (c : ℕ)
    → IsSound s
    → s.curw ≡ some c
    → Near target s c
    → Copied target s g t refs
    → (d : ℕ) × (t.curw ≡ some d)
Near-current target s t g refs c h e (inl here) copy = (c, copy.stays c e here)
Near-current target s t g refs c h e (inr (j, m, n, all)) copy =
    elim (Bool-cases (has target.windows c)) [
      | inl here ↦ (c, copy.stays c e here)
      | inr gone ↦
          let (i, to, ours, other) = left_to s target.windows c j h e gone m n in
          (i, copy.leaves i to (all i ours other))
    ]
