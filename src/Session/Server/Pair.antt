-- ===== src/Session/Server/Pair.antt =====
-- One session of a group brought in line with another: `session_group_synchronize1` of session.c on
-- the server.
use tmux_cvs_archived.Prelude.{
  ℕ, suc, ◌+◌, ◌*◌, ◌^◌, ◌≤◌, ◌<◌, ◌≡◌, ◌≢◌, refl, ◌∙◌, sym, ap, subst, Option, some, List, [], ◌∷◌,
  map, length, arith,
}
use native.Mathlib.Nat.{suc-mul}
use tmux_cvs_archived.Session.{Session}
use tmux_cvs_archived.Session.Group.{Store}
use tmux_cvs_archived.Session.Group.Copy.{Linked, copied}
use tmux_cvs_archived.Session.Group.Fixed.{uses-copied}
use tmux_cvs_archived.Session.Group.References.{uses, Exact, Exact-ext}
use tmux_cvs_archived.Session.Group.Synchronize.{CanCopy, Near, Near-current, synchronize1-Copied}
use tmux_cvs_archived.Session.Server.{
  Server, find_session, put_session, drop_session, synchronize_pair,
}
use tmux_cvs_archived.Session.Server.Sessions.{
  Sessions, total, AllSessions, find-AllSessions, put-AllSessions, find-put_self, find-put_ne,
  find-drop_ne, total-drop, total-put, total_find, length-put, total_bound, uses-count,
}
use tmux_cvs_archived.Session.Sound.{IsSound}
use tmux_cvs_archived.Winlink.{Winlink, count}

-- A session with windows: its pointers are sound, it has a current one, every winlink has a window, and
-- there are no more than `k`.
pub record IsWhole (k : ℕ) (s : Session) : Type 0 where
  pub sound : IsSound s
  pub linked : Linked s.windows
  pub current : (c : ℕ) × (s.curw ≡ some c)
  pub counted : count s.windows ≤ k

-- The references count the winlinks of the sessions, and have room for one session more.
pub record IsExact (k : ℕ) (sv : Server) : Type 0 where
  pub whole : AllSessions (IsWhole k) sv.sessions
  pub exact : Exact sv.refs (total sv.sessions)
  pub room : suc (length sv.sessions) * k < 2 ^ 32

-- What the sessions of a group share: the indices and their windows.
abbrev pub view : List Winlink → List (ℕ × Option ℕ)
view wwl = map (λ wl. (wl.idx, wl.window)) wwl

view-copied : (wwl : List Winlink) → view (map copied wwl) ≡ view wwl
view-copied [] = refl
view-copied (wl ∷ wwl) = ap (λ r. (wl.idx, wl.window) ∷ r) (view-copied wwl)

Linked-copied : (wwl : List Winlink) → Linked wwl → Linked (map copied wwl)
Linked-copied [] l = tt
Linked-copied (wl ∷ wwl) l = (l.0, Linked-copied wwl l.1)

count-copied : (wwl : List Winlink) → count (map copied wwl) ≡ count wwl
unfolding count
count-copied [] = refl
count-copied (wl ∷ wwl) = ap suc (count-copied wwl)

-- The server after one session changed.
pub record Changed (k : ℕ) (sv : Server) (s : ℕ) (u : Session) (new : Server) : Type 0 where
  pub exact : IsExact k new
  pub session : find_session new.sessions s ≡ some u
  pub others : (q : ℕ) → q ≢ s → find_session new.sessions q ≡ find_session sv.sessions q
  pub groups : new.groups ≡ sv.groups

pub put-Changed :
    (k : ℕ) (sv : Server) (s : ℕ) (v u : Session) (refs : Store)
    → IsExact k sv
    → find_session sv.sessions s ≡ some v
    → IsWhole k u
    → Exact refs (λ p. uses u.windows p + total (drop_session sv.sessions s) p)
    → Changed k sv s u (record sv { sessions = put_session sv.sessions s u; refs = refs })
put-Changed k sv s v u refs h e w x = record {
  exact = record {
    whole = put-AllSessions (IsWhole k) sv.sessions s u h.whole w;
    exact = Exact-ext refs _ _ x (λ p. sym (total-put sv.sessions s p v u e));
    room = subst (λ n. suc n * k < 2 ^ 32) (sym (length-put sv.sessions s u)) h.room;
  };
  session = find-put_self sv.sessions s v u e;
  others = λ q n. find-put_ne sv.sessions s q u n;
  groups = refl;
}

weaken_counts :
    (k : ℕ) (all : Sessions)
    → AllSessions (IsWhole k) all
    → AllSessions (λ v. count v.windows ≤ k) all
weaken_counts k [] a = tt
weaken_counts k ((s, v) ∷ all) a = (a.0.counted, weaken_counts k all a.1)

pub total_room : (k : ℕ) (sv : Server) (p : ℕ) → IsExact k sv → k + total sv.sessions p < 2 ^ 32
total_room k sv p h = omega (
  arith,
  total_bound k sv.sessions p (weaken_counts k sv.sessions h.whole),
  h.room,
  suc-mul (length sv.sessions) k,
)

-- Where the references are exact, `session_group_synchronize1` on two sessions of the server succeeds,
-- gives the second one the windows of the first, keeps the references exact and changes no other.
pub synchronize_pair-Changed :
    (k : ℕ) (sv : Server) (target s : ℕ) (t v : Session)
    → IsExact k sv
    → target ≢ s
    → find_session sv.sessions target ≡ some t
    → find_session sv.sessions s ≡ some v
    → ((c : ℕ) → v.curw ≡ some c → Near t v c)
    → (new : Server) × (u : Session) × (synchronize_pair sv target s ≡ some new)
      × Changed k sv s u new
      × (view u.windows ≡ view t.windows)
unfolding synchronize_pair
synchronize_pair-Changed k sv target s t v h n at_t at_s near =
    let tw = find-AllSessions (IsWhole k) sv.sessions target t h.whole at_t in
    let vw = find-AllSessions (IsWhole k) sv.sessions s v h.whole at_s in
    let g = total (drop_session sv.sessions s) in
    let at_drop = find-drop_ne sv.sessions s target n ∙ at_t in
    let (c, cur) = tw.current in
    let (d, busy) = vw.current in
    let can : CanCopy t v sv.refs g = record {
      sound = vw.sound;
      idle = λ e. absurd (ground (arith, busy, e));
      ordered = tw.sound.ordered;
      linked = tw.linked;
      current = (c, cur, tw.sound.current c cur);
      exact = Exact-ext sv.refs _ _ h.exact (λ p. total-drop sv.sessions s p v at_s);
      others = λ p. total_find (drop_session sv.sessions s) target p t at_drop;
      room = λ p. omega (
        arith,
        total_room k sv p h,
        total-drop sv.sessions s p v at_s,
        uses-count t.windows p,
        tw.counted,
      );
    } in
    let (u, refs, runs, copy) = synchronize1-Copied t v sv.refs g can in
    let whole : IsWhole k u = record {
      sound = copy.sound;
      linked = subst Linked (sym copy.windows) (Linked-copied t.windows tw.linked);
      current = Near-current t v u g refs d vw.sound busy (near d busy) copy;
      counted = omega (arith, ap count copy.windows, count-copied t.windows, tw.counted);
    } in
    let same : (p : ℕ) → uses t.windows p + g p ≡ uses u.windows p + g p =
      λ p. omega (arith, ap (λ w. uses w p) copy.windows, uses-copied t.windows p) in
    (
      record sv { sessions = put_session sv.sessions s u; refs = refs },
      u,
      rw (synchronize_pair, at_t, at_s, runs) refl,
      put-Changed k sv s v u refs h at_s whole (Exact-ext refs _ _ copy.exact same),
      ap view copy.windows ∙ view-copied t.windows,
    )
