-- ===== src/Session/Server/Attach.antt =====
-- `session_attach` of session.c: a window comes into a session and into those of its group.
use tmux_cvs_archived.Prelude.{
  ℕ, true, false, ◌+◌, ◌≤◌, ◌<◌, ◌≡◌, ◌⊎◌, refl, ◌∙◌, sym, ap, subst, none, some, List, [], ◌∷◌,
  ltb, ◌==◌, arith, Bool-cases, inl, inr,
}
use tmux_cvs_archived.Session.{Session}
use tmux_cvs_archived.Session.Group.{Store, link}
use tmux_cvs_archived.Session.Group.Copy.{Linked}
use tmux_cvs_archived.Session.Group.References.{one, uses, Exact, Exact-ext, link-Exact}
use tmux_cvs_archived.Session.Server.{
  Server, find_session, drop_session, attach_at, attach_with, attach,
}
use tmux_cvs_archived.Session.Server.InLine.{InSync, OneStep}
use tmux_cvs_archived.Session.Server.Pair.{IsExact, IsWhole, put-Changed, total_room}
use tmux_cvs_archived.Session.Server.Resync.{Resynced, synchronize_from-Resynced}
use tmux_cvs_archived.Session.Server.Sessions.{total, find-AllSessions, total-drop}
use tmux_cvs_archived.Winlink.{
  Winlink, ℤ, pos, negsuc, int_max, has, count, insert, fresh, set_window, add,
}
use tmux_cvs_archived.Winlink.Numbers.{Added, add-pos, add-negsuc}
use tmux_cvs_archived.Winlink.Order.{set_window-From, has-set_window}

self : (i : ℕ) → (i == i) ≡ true
self i = ground arith

swap : (i j : ℕ) → (i == j) ≡ false → (j == i) ≡ false
swap i j h = ground (arith, h)

Linked-insert :
    (wwl : List Winlink) (i w : ℕ)
    → has wwl i ≡ false
    → Linked wwl
    → Linked (set_window (insert wwl (fresh i)) i w)
unfolding insert set_window
Linked-insert [] i w f l = ground arith
Linked-insert (v ∷ wwl) i w f l =
    let rest = Linked-insert wwl i w (ground (arith, f)) l.1 in
    let other : (v.idx == i) ≡ false = ground (arith, f) in
    elim (Bool-cases (ltb i v.idx)) [
      | inl h ↦ rw (h, self i) ((w, refl), l)
      | inr h ↦ rw (h, swap v.idx i other, other) (l.0, rest)
    ]

uses-insert :
    (wwl : List Winlink) (i w p : ℕ)
    → has wwl i ≡ false
    → uses (set_window (insert wwl (fresh i)) i w) p ≡ one (some w) p + uses wwl p
unfolding insert set_window
uses-insert [] i w p f = rw (self i) refl
uses-insert (v ∷ wwl) i w p f =
    let rest = uses-insert wwl i w p (ground (arith, f)) in
    let other : (v.idx == i) ≡ false = ground (arith, f) in
    elim (Bool-cases (ltb i v.idx)) [
      | inl h ↦ rw (h, self i) refl
      | inr h ↦ rw (h, swap v.idx i other, other) (omega (arith, rest))
    ]

count-set_window : (wwl : List Winlink) (i w : ℕ) → count (set_window wwl i w) ≡ count wwl
unfolding count set_window
count-set_window [] i w = refl
count-set_window (v ∷ wwl) i w = ground (arith, count-set_window wwl i w)

attached : Session → List Winlink → ℕ → ℕ → Session
attached v added i w = record v { windows = set_window added i w }

attached-IsWhole :
    (k : ℕ) (v : Session) (added : List Winlink) (i w : ℕ)
    → IsWhole k v
    → count v.windows < k
    → Added v.windows i added
    → IsWhole k (attached v added i w)
unfolding attached
attached-IsWhole k v added i w h room a =
    let s = h.sound in
    let there : (j : ℕ) → has v.windows j ≡ true → has (set_window added i w) j ≡ true =
      λ j m. has-set_window added i w j ∙ a.members j ∙ ground (arith, m) in
    record {
      sound = record {
        ordered = set_window-From 0 added i w a.ordered;
        current = λ c e. there c (s.current c e);
        stacked = λ j m. there j (s.stacked j m);
        unique = s.unique;
        apart = s.apart;
      };
      linked =
          subst (λ x. Linked (set_window x i w)) (sym a.made)
            (Linked-insert v.windows i w a.was_free h.linked);
      current = h.current;
      counted = omega (arith, count-set_window added i w, a.counted);
    }

attached-OneStep :
    (v : Session) (added : List Winlink) (i w : ℕ)
    → Added v.windows i added
    → OneStep v (attached v added i w)
unfolding attached
attached-OneStep v added i w a c m =
    inl (has-set_window added i w c ∙ a.members c ∙ ground (arith, m))

-- With the winlink in the tree and the window linked, the group is brought in line. The references
-- may have come from elsewhere before the link.
pub attach_at-Resynced :
    (k : ℕ) (sv : Server) (s w i : ℕ) (v : Session) (added : List Winlink) (before refs : Store)
    → IsExact k sv
    → InSync sv
    → find_session sv.sessions s ≡ some v
    → count v.windows < k
    → Added v.windows i added
    → link before w ≡ some refs
    → Exact refs (λ p. one (some w) p + total sv.sessions p)
    → (new : Server) × (attach_at (record sv { refs = before }) s v w added i ≡ some new)
      × Resynced k s (record v { windows = set_window added i w }) new
unfolding attach_at attached
attach_at-Resynced k sv s w i v added before refs x h at_s room a links y =
    let t = attached v added i w in
    let whole = find-AllSessions (IsWhole k) sv.sessions s v x.whole at_s in
    let same : (p : ℕ)
        → one (some w) p + total sv.sessions p
          ≡ uses t.windows p + total (drop_session sv.sessions s) p =
      λ p. omega (
        arith,
        uses-insert v.windows i w p a.was_free,
        ap (λ z. uses (set_window z i w) p) a.made,
        total-drop sv.sessions s p v at_s,
      ) in
    let c =
      put-Changed k sv s v t refs x at_s (attached-IsWhole k v added i w whole room a)
        (Exact-ext refs _ _ y same) in
    let (new, runs, r) =
      synchronize_from-Resynced k sv _ s v t x h at_s c (attached-OneStep v added i w a) in
    (new, rw (attach_at, links) runs, r)

-- What `session_attach` does: it refuses an index in use and changes nothing, or it links the window
-- at a free index, for the whole group.
abbrev pub Attached : ℕ → Server → ℕ → ℕ → Session → ℤ → Type 0
Attached k sv s w v idx =
    ((i : ℕ) × (idx ≡ pos i) × (has v.windows i ≡ true) × (attach sv s w idx ≡ some (none, sv)))
    ⊎ ((i : ℕ) × (added : List Winlink) × (new : Server) × (attach sv s w idx ≡ some (some i, new))
        × Added v.windows i added
        × Resynced k s (record v { windows = set_window added i w }) new)

attach-none :
    (sv : Server) (s w : ℕ) (v : Session) (idx : ℤ)
    → find_session sv.sessions s ≡ some v
    → add v.windows idx ≡ none
    → attach sv s w idx ≡ some (none, sv)
unfolding attach attach_with
attach-none sv s w v idx at_s e = rw (attach, at_s) (ap (attach_with sv s v w) e)

with_added :
    (sv new : Server) (s w i : ℕ) (v : Session) (added : List Winlink)
    → attach_at sv s v w added i ≡ some new
    → attach_with sv s v w (some (i, added)) ≡ some (some i, new)
unfolding attach_with
with_added sv new s w i v added e = rw (attach_with, e) refl

attach-some :
    (k : ℕ) (sv : Server) (s w i : ℕ) (v : Session) (idx : ℤ) (added : List Winlink)
    → IsExact k sv
    → InSync sv
    → find_session sv.sessions s ≡ some v
    → 0 < total sv.sessions w
    → count v.windows < k
    → add v.windows idx ≡ some (i, added)
    → Added v.windows i added
    → Attached k sv s w v idx
unfolding attach
attach-some k sv s w i v idx added x h at_s alive room e a =
    let (refs, links, y) =
      link-Exact sv.refs (total sv.sessions) w x.exact alive (omega (arith, total_room k sv w x)) in
    let (new, runs, r) =
      attach_at-Resynced k sv s w i v added sv.refs refs x h at_s room a links y in
    inr (
      i,
      added,
      new,
      rw (attach, at_s) (ap (attach_with sv s v w) e ∙ with_added sv new s w i v added runs),
      a,
      r,
    )

-- On a server that is exact and in line, `session_attach` of a window that is there, to a session with
-- room for it, returns: only an index in use is refused, which changes nothing; otherwise the window
-- has a winlink at a free index and the server is exact and in line with it.
pub attach-Attached :
    (k : ℕ) (sv : Server) (s w : ℕ) (v : Session) (idx : ℤ)
    → IsExact k sv
    → InSync sv
    → find_session sv.sessions s ≡ some v
    → 0 < total sv.sessions w
    → count v.windows < k
    → k ≤ int_max
    → ((n : ℕ) → idx ≡ negsuc n → n ≤ int_max)
    → Attached k sv s w v idx
attach-Attached k sv s w v (pos i) x h at_s alive room small range =
    let whole = find-AllSessions (IsWhole k) sv.sessions s v x.whole at_s in
    elim (add-pos v.windows i whole.sound.ordered) [
      | inl (taken, e) ↦ inl (i, refl, taken, attach-none sv s w v (pos i) at_s e)
      | inr (added, e, a) ↦ attach-some k sv s w i v (pos i) added x h at_s alive room e a
    ]
attach-Attached k sv s w v (negsuc n) x h at_s alive room small range =
    let whole = find-AllSessions (IsWhole k) sv.sessions s v x.whole at_s in
    let (i, added, e, a) =
      add-negsuc v.windows n whole.sound.ordered (range n refl) (omega arith) in
    attach-some k sv s w i v (negsuc n) added x h at_s alive room e a
