-- ===== src/Session/Group/Fixed.antt =====
-- What `session_group_synchronize1` of session.c makes of the pointers of a session.
use tmux_cvs_archived.Prelude.{
  ℕ, suc, true, false, ◌&&◌, ◌||◌, ◌≡◌, refl, ◌∙◌, sym, ap, subst, Option, none, some, List, [],
  ◌∷◌, map, ◌==◌, arith, Bool-cases, inl, inr,
}
use tmux_cvs_archived.Session.{Session, go, leave}
use tmux_cvs_archived.Session.Group.{fix_stack, fix_current, vanished, again, before_copy}
use tmux_cvs_archived.Session.Group.Copy.{copied}
use tmux_cvs_archived.Session.Group.References.{uses}
use tmux_cvs_archived.Session.Leave.{leave_keeps, leave-IsSound}
use tmux_cvs_archived.Session.Sound.{IsSound, mem, distinct}
use tmux_cvs_archived.Winlink.{Winlink, has, clear_alerts}
use tmux_cvs_archived.Winlink.Order.{From}

pub has-copied : (wwl : List Winlink) (i : ℕ) → has (map copied wwl) i ≡ has wwl i
has-copied [] i = refl
has-copied (wl ∷ wwl) i = ap (λ b. wl.idx == i || b) (has-copied wwl i)

copied-From : (b : ℕ) (wwl : List Winlink) → From b wwl → From b (map copied wwl)
copied-From b [] f = tt
copied-From b (wl ∷ wwl) f = (f.0, copied-From (suc wl.idx) wwl f.1)

pub uses-copied : (wwl : List Winlink) (p : ℕ) → uses (map copied wwl) p ≡ uses wwl p
uses-copied [] p = refl
uses-copied (wl ∷ wwl) p = omega (arith, uses-copied wwl p)

uses-clear_alerts : (wwl : List Winlink) (i p : ℕ) → uses (clear_alerts wwl i) p ≡ uses wwl p
unfolding clear_alerts
uses-clear_alerts [] i p = refl
uses-clear_alerts (wl ∷ wwl) i p = elim (Bool-cases (wl.idx == i)) [
  | inl e ↦ rw e refl
  | inr e ↦ rw e (omega (arith, uses-clear_alerts wwl i p))
]

uses-go : (s : Session) (i p : ℕ) → uses (go s i).windows p ≡ uses s.windows p
unfolding go
uses-go s i p = uses-clear_alerts s.windows i p

uses-leave : (s : Session) (p : ℕ) → uses (leave s).windows p ≡ uses s.windows p
uses-leave s p =
    leave_keeps {P = λ t. uses t.windows p ≡ uses s.windows p} (λ t i h. uses-go t i p ∙ h) s refl

mem-fix_stack :
    (wwl : List Winlink) (xs : List ℕ) (i : ℕ) → mem i (fix_stack wwl xs) ≡ (mem i xs && has wwl i)
unfolding fix_stack
mem-fix_stack wwl [] i = refl
mem-fix_stack wwl (x ∷ xs) i = elim (Bool-cases (i == x)) [
  | inl e ↦
      let same : has wwl i ≡ has wwl x = ap (has wwl) (ground arith) in
      ground (arith, mem-fix_stack wwl xs i, same)
  | inr e ↦ ground (arith, mem-fix_stack wwl xs i)
]

distinct-fix_stack :
    (wwl : List Winlink) (xs : List ℕ) → distinct xs ≡ true → distinct (fix_stack wwl xs) ≡ true
unfolding fix_stack
distinct-fix_stack wwl [] d = refl
distinct-fix_stack wwl (x ∷ xs) d =
    ground (arith, distinct-fix_stack wwl xs, mem-fix_stack wwl xs x)

again-some : (wwl : List Winlink) (i c : ℕ) → again wwl i ≡ some c → (has wwl c ≡ true) × (i ≡ c)
again-some wwl i c e = elim (Bool-cases (has wwl i)) [
  | inl h ↦ let same : i ≡ c = ground (arith, h, e) in (subst (λ x. has wwl x ≡ true) same h, same)
  | inr h ↦ absurd (ground (arith, h, e))
]

pub before_copy-IsSound : (s : Session) (ww : List Winlink) → IsSound s → IsSound (before_copy s ww)
unfolding before_copy
before_copy-IsSound s ww h = elim (Bool-cases (vanished s ww)) [
  | inl e ↦ rw e (leave-IsSound s h)
  | inr e ↦ rw e h
]

pub uses-before_copy :
    (s : Session) (ww : List Winlink) (p : ℕ) → uses (before_copy s ww).windows p ≡ uses s.windows p
unfolding before_copy
uses-before_copy s ww p = elim (Bool-cases (vanished s ww)) [
  | inl e ↦ rw e (uses-leave s p)
  | inr e ↦ rw e refl
]

unfoldable pub Idle : Session → Type 0
Idle s = s.curw ≡ none → s.lastw ≡ []

go-Idle : (s : Session) (i : ℕ) → Idle (go s i)
unfolding go Idle
go-Idle s i e = absurd (ground (arith, e))

pub before_copy-Idle : (s : Session) (ww : List Winlink) → Idle s → Idle (before_copy s ww)
unfolding before_copy
before_copy-Idle s ww h = elim (Bool-cases (vanished s ww)) [
  | inl e ↦ rw e (leave_keeps {P = Idle} (λ t i _. go-Idle t i) s h)
  | inr e ↦ rw e h
]

-- The winlink that the current one of the copy comes from.
pub home : Option ℕ → ℕ → ℕ
home (some c) target = c
home none target = target

pub fix_current-home :
    (wwl : List Winlink) (o : Option ℕ) (c : ℕ)
    → fix_current wwl o (some c) ≡ some (again wwl (home o c))
unfolding fix_current home
fix_current-home wwl none c = refl
fix_current-home wwl (some d) c = refl

pub home-some : (o : Option ℕ) (c d : ℕ) → o ≡ some d → home o c ≡ d
unfolding home
home-some o c d e = rw e refl

pub home-none : (o : Option ℕ) (c : ℕ) → o ≡ none → home o c ≡ c
unfolding home
home-none o c e = rw e refl

pub same_some : {o : Option ℕ} {c d : ℕ} → o ≡ some c → o ≡ some d → c ≡ d
same_some e q = ground (arith, e, q)

unfoldable pub after : List Winlink → Session → ℕ → Session
after ww t c = record {
  windows = map copied ww;
  curw = again (map copied ww) (home t.curw c);
  lastw = fix_stack (map copied ww) t.lastw;
}

has-again : (ww : List Winlink) (i c : ℕ) → again (map copied ww) i ≡ some c → has ww c ≡ true
has-again ww i c e = sym (has-copied ww c) ∙ (again-some (map copied ww) i c e).0

home_apart :
    (o : Option ℕ) (xs : List ℕ) (c : ℕ)
    → (o ≡ none → xs ≡ [])
    → ((d : ℕ) → o ≡ some d → mem d xs ≡ false)
    → mem (home o c) xs ≡ false
unfolding home
home_apart none xs c i a = ap (mem c) (i refl)
home_apart (some d) xs c i a = a d refl

pub after-IsSound :
    (ww : List Winlink) (t : Session) (c : ℕ)
    → From 0 ww
    → IsSound t
    → Idle t
    → IsSound (after ww t c)
unfolding after Idle
after-IsSound ww t c f h i =
    let made = map copied ww in
    let apart = home_apart t.curw t.lastw c i h.apart in
    record {
      ordered = copied-From 0 ww f;
      current = λ d e. (again-some made (home t.curw c) d e).0;
      stacked = λ j m. ground (arith, mem-fix_stack made t.lastw j);
      unique = distinct-fix_stack made t.lastw h.unique;
      apart = λ d e.
          let same = (again-some made (home t.curw c) d e).1 in
          mem-fix_stack made t.lastw d
          ∙ ap (λ b. b && has made d) (ap (λ x. mem x t.lastw) (sym same) ∙ apart);
    }
