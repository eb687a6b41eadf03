-- ===== src/Session/Server/Detach.antt =====
-- `session_detach` of session.c: a window goes from a session and from those of its group.
use tmux_cvs_archived.Prelude.{
  ℕ, suc, true, false, ◌+◌, ◌≤◌, ◌≡◌, ◌≢◌, refl, ◌∙◌, sym, ap, subst, Option, none, some, List, [],
  ◌∷◌, ◌==◌, if◌then◌else◌, ==_iff, arith, Bool-cases, inl, inr,
}
use tmux_cvs_archived.Session.{Session, is_current, go, leave, dropped, unlink}
use tmux_cvs_archived.Session.Group.{Store, release}
use tmux_cvs_archived.Session.Group.Copy.{Linked}
use tmux_cvs_archived.Session.Group.References.{one, uses, Exact-ext, release-Exact}
use tmux_cvs_archived.Session.Leave.{leave_keeps}
use tmux_cvs_archived.Session.Moves.{has-go}
use tmux_cvs_archived.Session.Server.{
  Server, find_session, put_session, drop_session, synchronize_from, detach_end, detach,
}
use tmux_cvs_archived.Session.Server.InLine.{InSync, OneStep}
use tmux_cvs_archived.Session.Server.Pair.{IsExact, IsWhole, put-Changed}
use tmux_cvs_archived.Session.Server.Resync.{Resynced, synchronize_from-Resynced}
use tmux_cvs_archived.Session.Server.Sessions.{total, find-AllSessions, total-drop}
use tmux_cvs_archived.Session.Unlink.{Unlinked, unlink-Unlinked}
use tmux_cvs_archived.Winlink.{Winlink, has, count, find_by_index, clear_alerts, remove}
use tmux_cvs_archived.Winlink.Order.{has-find_by_index, has-clear_alerts}

-- The window at an index, NULL for none.
window_at : List Winlink → ℕ → Option ℕ
window_at [] i = none
window_at (wl ∷ wwl) i = if wl.idx == i then wl.window else window_at wwl i

window_at-find :
    (wwl : List Winlink) (i : ℕ) (wl : Winlink)
    → find_by_index wwl i ≡ some wl
    → window_at wwl i ≡ wl.window
unfolding find_by_index window_at
window_at-find [] i wl e = absurd (ground (arith, e))
window_at-find (v ∷ wwl) i wl e = elim (Bool-cases (v.idx == i)) [
  | inl h ↦ rw h (ap (λ x. x.window) (some_eq v wl (ground (arith, h, e))))
  | inr h ↦ rw h (window_at-find wwl i wl (ground (arith, h, e)))
]
  where
    some_eq : (a b : Winlink) → some a ≡ some b → a ≡ b
    some_eq a b e = ground (arith, e)

-- What the winlinks say of windows, apart from alerts.
record Same (a b : List Winlink) : Type 0 where
  uses_same : (p : ℕ) → uses b p ≡ uses a p
  count_same : count b ≡ count a
  at_same : (i : ℕ) → window_at b i ≡ window_at a i
  linked_same : Linked a → Linked b

Same-refl : (a : List Winlink) → Same a a
Same-refl a = record {
  uses_same = λ p. refl;
  count_same = refl;
  at_same = λ i. refl;
  linked_same = λ l. l;
}

Same-trans : (a b c : List Winlink) → Same a b → Same b c → Same a c
Same-trans a b c f g = record {
  uses_same = λ p. g.uses_same p ∙ f.uses_same p;
  count_same = g.count_same ∙ f.count_same;
  at_same = λ i. g.at_same i ∙ f.at_same i;
  linked_same = λ l. g.linked_same (f.linked_same l);
}

Same-clear_alerts : (wwl : List Winlink) (i : ℕ) → Same wwl (clear_alerts wwl i)
unfolding clear_alerts count window_at
Same-clear_alerts [] i = Same-refl []
Same-clear_alerts (v ∷ wwl) i =
    let s = Same-clear_alerts wwl i in
    elim (Bool-cases (v.idx == i)) [
      | inl h ↦ rw h (record {
        uses_same = λ p. refl;
        count_same = refl;
        at_same = λ j. refl;
        linked_same = λ l. l;
      })
      | inr h ↦ rw h (record {
        uses_same = λ p. omega (arith, s.uses_same p);
        count_same = ap suc s.count_same;
        at_same = λ j. ap (λ o. if v.idx == j then v.window else o) (s.at_same j);
        linked_same = λ l. (l.0, s.linked_same l.1);
      })
    ]

Same-go : (s : Session) (i : ℕ) → Same s.windows (go s i).windows
unfolding go
Same-go s i = Same-clear_alerts s.windows i

Same-leave : (s : Session) → Same s.windows (leave s).windows
Same-leave s =
    leave_keeps {P = λ t. Same s.windows t.windows}
      (λ t i h. Same-trans s.windows t.windows (go t i).windows h (Same-go t i)) s
      (Same-refl s.windows)

has-leave : (s : Session) (j : ℕ) → has (leave s).windows j ≡ has s.windows j
has-leave s j =
    leave_keeps {P = λ t. has t.windows j ≡ has s.windows j} (λ t i h. has-go t i j ∙ h) s refl

not_last :
    (new : Server) (s : ℕ) (wwl : List Winlink) (j : ℕ)
    → has wwl j ≡ true
    → detach_end new s wwl ≡ some (false, new)
unfolding detach_end
not_last new s [] j m = absurd (ground (arith, m))
not_last new s (wl ∷ wwl) j m = refl

uses-remove :
    (wwl : List Winlink) (i p : ℕ)
    → has wwl i ≡ true
    → uses wwl p ≡ one (window_at wwl i) p + uses (remove wwl i) p
unfolding window_at remove
uses-remove [] i p m = absurd (ground (arith, m))
uses-remove (v ∷ wwl) i p m = elim (Bool-cases (v.idx == i)) [
  | inl h ↦ rw h refl
  | inr h ↦ rw h (omega (arith, uses-remove wwl i p (ground (arith, m, h))))
]

Linked-remove : (wwl : List Winlink) (i : ℕ) → Linked wwl → Linked (remove wwl i)
unfolding remove
Linked-remove [] i l = tt
Linked-remove (v ∷ wwl) i l = elim (Bool-cases (v.idx == i)) [
  | inl h ↦ rw h l.1
  | inr h ↦ rw h (l.0, Linked-remove wwl i l.1)
]

count-remove_bound : (wwl : List Winlink) (i : ℕ) → count (remove wwl i) ≤ count wwl
unfolding count remove
count-remove_bound [] i = omega arith
count-remove_bound (v ∷ wwl) i = ground (arith, count-remove_bound wwl i)

-- The session goes to `t` first, which has the same windows, and the winlink at `i` goes then.
dropped-uses :
    (v t : Session) (i p : ℕ) (wl : Winlink)
    → Same v.windows t.windows
    → find_by_index v.windows i ≡ some wl
    → has t.windows i ≡ true
    → uses v.windows p ≡ one wl.window p + uses (dropped t i).windows p
unfolding dropped
dropped-uses v t i p wl f e m =
    let c = Same-clear_alerts t.windows i in
    let cleared = clear_alerts t.windows i in
    let there : has cleared i ≡ true = has-clear_alerts t.windows i i ∙ m in
    let window = c.at_same i ∙ f.at_same i ∙ window_at-find v.windows i wl e in
    omega
      (arith, f.uses_same p, c.uses_same p, uses-remove cleared i p there, ap (λ o. one o p) window)

dropped-Linked :
    (v t : Session) (i : ℕ)
    → Same v.windows t.windows
    → Linked v.windows
    → Linked (dropped t i).windows
unfolding dropped
dropped-Linked v t i f l =
    Linked-remove (clear_alerts t.windows i) i
      ((Same-clear_alerts t.windows i).linked_same (f.linked_same l))

dropped-count :
    (v t : Session) (i : ℕ)
    → Same v.windows t.windows
    → count (dropped t i).windows ≤ count v.windows
unfolding dropped
dropped-count v t i f = omega (
  arith,
  count-remove_bound (clear_alerts t.windows i) i,
  (Same-clear_alerts t.windows i).count_same,
  f.count_same,
)

-- `unlink` drops the winlink from a session with the same windows.
unlinked_from :
    (v : Session) (i : ℕ)
    → (t : Session) × (unlink v i ≡ dropped t i)
      × Same v.windows t.windows
      × ((j : ℕ) → has t.windows j ≡ has v.windows j)
unfolding unlink
unlinked_from v i = elim (Bool-cases (is_current v i)) [
  | inl e ↦ (leave v, rw e refl, Same-leave v, λ j. has-leave v j)
  | inr e ↦ (v, rw e refl, Same-refl v.windows, λ j. refl)
]

detach_runs :
    (sv new : Server) (s i : ℕ) (v : Session) (wl : Winlink) (refs : Store)
    → find_session sv.sessions s ≡ some v
    → find_by_index v.windows i ≡ some wl
    → release sv.refs wl.window ≡ some refs
    → synchronize_from
        (record sv { sessions = put_session sv.sessions s (unlink v i); refs = refs })
        s
      ≡ some new
    → detach sv s i ≡ detach_end new s (unlink v i).windows
unfolding detach
detach_runs sv new s i v wl refs at_s at_i r y = rw (detach, at_s, at_i, r, y) refl

-- On a server that is exact and in line, `session_detach` of a window of a session with another one
-- returns: the session is not destroyed and lacks just that winlink, and the server is exact and in
-- line, so that no reference count is missed and no session of the group has the window there.
pub detach-Resynced :
    (k : ℕ) (sv : Server) (s i j : ℕ) (v : Session) (wl : Winlink)
    → IsExact k sv
    → InSync sv
    → find_session sv.sessions s ≡ some v
    → find_by_index v.windows i ≡ some wl
    → has v.windows j ≡ true
    → j ≢ i
    → (new : Server) × (u : Session) × (detach sv s i ≡ some (false, new))
      × Unlinked v i u
      × Resynced k s u new
unfolding detach_end
detach-Resynced k sv s i j v wl x h at_s at_i m n =
    let whole = find-AllSessions (IsWhole k) sv.sessions s v x.whole at_s in
    let (t, drops, same, members) = unlinked_from v i in
    let un = unlink-Unlinked v i j whole.sound m n in
    let u = unlink v i in
    let there : has v.windows i ≡ true = has-find_by_index v.windows i ∙ rw at_i refl in
    let (c, cur) = whole.current in
    let uses_u : (p : ℕ) → uses v.windows p ≡ one wl.window p + uses u.windows p = λ p.
      dropped-uses v t i p wl same at_i (members i ∙ there)
      ∙ ap (λ z. one wl.window p + uses z.windows p) (sym drops) in
    let g = λ (p : ℕ). uses u.windows p + total (drop_session sv.sessions s) p in
    let (refs, r, y) = release-Exact sv.refs g wl.window (
      Exact-ext sv.refs _ _ x.exact
        (λ p. omega (arith, uses_u p, total-drop sv.sessions s p v at_s))) in
    let whole_u : IsWhole k u = record {
      sound = un.sound;
      linked = subst (λ z. Linked z.windows) (sym drops) (dropped-Linked v t i same whole.linked);
      current = un.current c cur;
      counted =
          omega (arith, dropped-count v t i same, ap (λ z. count z.windows) drops, whole.counted);
    } in
    let step : OneStep v u = λ d md. elim (Bool-cases (i == d)) [
      | inl e ↦ inr (
        j,
        m,
        λ q. n (q ∙ sym ((==_iff i d).0 e)),
        λ a ma na. un.members a ∙ ground (arith, ma, na, (==_iff i d).0 e),
      )
      | inr e ↦ inl (un.members d ∙ ground (arith, md, e))
    ] in
    let c = put-Changed k sv s v u refs x at_s whole_u y in
    let (new, runs, res) = synchronize_from-Resynced k sv _ s v u x h at_s c step in
    (
      new,
      u,
      detach_runs sv new s i v wl refs at_s at_i r runs
          ∙ not_last new s u.windows j (un.members j ∙ ground (arith, m, n)),
      un,
      res,
    )
