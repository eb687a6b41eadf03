-- ===== src/Session/Server/Sessions.antt =====
-- The sessions of session.c as a list: finding, replacing and dropping one.
use tmux_cvs_archived.Prelude.{
  ℕ, suc, false, ◌+◌, ◌*◌, ◌≤◌, ◌≡◌, ◌≢◌, refl, ap, subst, Option, none, some, List, [], ◌∷◌,
  length, ◌==◌, if◌then◌else◌, arith, Bool-cases, inl, inr,
}
use native.Mathlib.Nat.{suc-mul}
use tmux_cvs_archived.Session.{Session}
use tmux_cvs_archived.Session.Group.References.{one, uses}
use tmux_cvs_archived.Session.Server.{find_session, put_session, drop_session}
use tmux_cvs_archived.Winlink.{Winlink, count}

abbrev pub Sessions : Type 0
Sessions = List (ℕ × Session)

-- The references of all sessions to a window.
abbrev pub total : Sessions → ℕ → ℕ
total [] p = 0
total ((s, v) ∷ all) p = uses v.windows p + total all p

abbrev pub AllSessions : (Session → Type 0) → Sessions → Type 0
AllSessions P [] = Unit
AllSessions P ((s, v) ∷ all) = P v × AllSessions P all

pub find-AllSessions :
    (P : Session → Type 0) (all : Sessions) (s : ℕ) (v : Session)
    → AllSessions P all
    → find_session all s ≡ some v
    → P v
unfolding find_session
find-AllSessions P [] s v a e = absurd (ground (arith, e))
find-AllSessions P ((t, u) ∷ all) s v a e = elim (Bool-cases (t == s)) [
  | inl h ↦ subst P {x = u} {y = v} (ground (arith, h, e)) a.0
  | inr h ↦ find-AllSessions P all s v a.1 (ground (arith, h, e))
]

pub put-AllSessions :
    (P : Session → Type 0) (all : Sessions) (s : ℕ) (v : Session)
    → AllSessions P all
    → P v
    → AllSessions P (put_session all s v)
unfolding put_session
put-AllSessions P [] s v a p = tt
put-AllSessions P ((t, u) ∷ all) s v a p = elim (Bool-cases (t == s)) [
  | inl h ↦ rw h (p, a.1)
  | inr h ↦ rw h (a.0, put-AllSessions P all s v a.1 p)
]

pub find-put_self :
    (all : Sessions) (s : ℕ) (u v : Session)
    → find_session all s ≡ some u
    → find_session (put_session all s v) s ≡ some v
unfolding find_session put_session
find-put_self [] s u v e = absurd (ground (arith, e))
find-put_self ((t, w) ∷ all) s u v e = elim (Bool-cases (t == s)) [
  | inl h ↦ rw (h, h) refl
  | inr h ↦ rw (h, h) (find-put_self all s u v (ground (arith, h, e)))
]

pub find-put_ne :
    (all : Sessions) (s q : ℕ) (v : Session)
    → q ≢ s
    → find_session (put_session all s v) q ≡ find_session all q
unfolding find_session put_session
find-put_ne [] s q v n = refl
find-put_ne ((t, w) ∷ all) s q v n = elim (Bool-cases (t == s)) [
  | inl h ↦ let other : (t == q) ≡ false = ground (arith, h, n) in rw (h, other) refl
  | inr h ↦ rw h (ap (λ r. if t == q then some w else r) (find-put_ne all s q v n))
]

pub find-drop_ne :
    (all : Sessions) (s q : ℕ) → q ≢ s → find_session (drop_session all s) q ≡ find_session all q
unfolding find_session drop_session
find-drop_ne [] s q n = refl
find-drop_ne ((t, w) ∷ all) s q n = elim (Bool-cases (t == s)) [
  | inl h ↦ let other : (t == q) ≡ false = ground (arith, h, n) in rw (h, other) refl
  | inr h ↦ rw h (ap (λ r. if t == q then some w else r) (find-drop_ne all s q n))
]

pub total-drop :
    (all : Sessions) (s p : ℕ) (v : Session)
    → find_session all s ≡ some v
    → total all p ≡ uses v.windows p + total (drop_session all s) p
unfolding find_session drop_session
total-drop [] s p v e = absurd (ground (arith, e))
total-drop ((t, u) ∷ all) s p v e = elim (Bool-cases (t == s)) [
  | inl h ↦
      let same : u ≡ v = ground (arith, h, e) in
      rw h (ap (λ x. uses x.windows p + total all p) same)
  | inr h ↦ rw h (omega (arith, total-drop all s p v (ground (arith, h, e))))
]

pub total-put :
    (all : Sessions) (s p : ℕ) (u v : Session)
    → find_session all s ≡ some u
    → total (put_session all s v) p ≡ uses v.windows p + total (drop_session all s) p
unfolding find_session put_session drop_session
total-put [] s p u v e = absurd (ground (arith, e))
total-put ((t, w) ∷ all) s p u v e = elim (Bool-cases (t == s)) [
  | inl h ↦ rw h refl
  | inr h ↦ rw h (omega (arith, total-put all s p u v (ground (arith, h, e))))
]

pub total_find :
    (all : Sessions) (s p : ℕ) (v : Session)
    → find_session all s ≡ some v
    → uses v.windows p ≤ total all p
total_find all s p v e = omega (arith, total-drop all s p v e)

pub length-put : (all : Sessions) (s : ℕ) (v : Session) → length (put_session all s v) ≡ length all
unfolding put_session
length-put [] s v = refl
length-put ((t, u) ∷ all) s v = elim (Bool-cases (t == s)) [
  | inl h ↦ rw h refl
  | inr h ↦ rw h (ap suc (length-put all s v))
]

pub uses-count : (wwl : List Winlink) (p : ℕ) → uses wwl p ≤ count wwl
unfolding count
uses-count [] p = omega arith
uses-count (wl ∷ wwl) p = omega (arith, uses-count wwl p, one_small wl.window p)
  where
    one_small : (o : Option ℕ) (p : ℕ) → one o p ≤ 1
    one_small none p = omega arith
    one_small (some w) p = ground arith

-- With no more than `k` winlinks in each session, a window has no more than `k` for every session.
pub total_bound :
    (k : ℕ) (all : Sessions) (p : ℕ)
    → AllSessions (λ v. count v.windows ≤ k) all
    → total all p ≤ length all * k
total_bound k [] p a = omega arith
total_bound k ((s, v) ∷ all) p a =
    omega (arith, total_bound k all p a.1, uses-count v.windows p, a.0, suc-mul (length all) k)
