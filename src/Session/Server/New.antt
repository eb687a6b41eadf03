-- ===== src/Session/Server/New.antt =====
-- `session_new` of session.c: a new window in a session, or none.
use tmux_cvs_archived.Prelude.{
  ℕ, true, false, ◌≤◌, ◌<◌, ◌≡◌, ◌⊎◌, refl, ◌∙◌, sym, ap, Option, none, some, List, [], ◌∷◌, ◌==◌,
  arith, Bool-cases, inl, inr,
}
use tmux_cvs_archived.Session.{Session}
use tmux_cvs_archived.Session.Group.{put}
use tmux_cvs_archived.Session.Group.References.{link_new-Exact}
use tmux_cvs_archived.Session.Server.{Server, find_session, put_session, new_with, new_window}
use tmux_cvs_archived.Session.Server.Attach.{attach_at-Resynced}
use tmux_cvs_archived.Session.Server.InLine.{InSync}
use tmux_cvs_archived.Session.Server.Pair.{IsExact, IsWhole}
use tmux_cvs_archived.Session.Server.Resync.{Resynced}
use tmux_cvs_archived.Session.Server.Sessions.{Sessions, total, find-AllSessions}
use tmux_cvs_archived.Winlink.{
  Winlink, ℤ, pos, negsuc, int_max, has, count, insert, fresh, set_window, add, remove,
}
use tmux_cvs_archived.Winlink.Numbers.{Added, add-pos, add-negsuc}

remove-insert :
    (wwl : List Winlink) (i : ℕ) → has wwl i ≡ false → remove (insert wwl (fresh i)) i ≡ wwl
unfolding remove insert
remove-insert [] i f = ground arith
remove-insert (v ∷ wwl) i f = ground (arith, f, remove-insert wwl i)

put_same :
    (all : Sessions) (s : ℕ) (v : Session) → find_session all s ≡ some v → put_session all s v ≡ all
unfolding find_session put_session
put_same [] s v e = refl
put_same ((t, u) ∷ all) s v e = elim (Bool-cases (t == s)) [
  | inl h ↦ rw h (ap (λ x. (t, x) ∷ all) (sym (some_session (sym (rw h refl) ∙ e))))
  | inr h ↦ rw h (ap (λ r. (t, u) ∷ r) (put_same all s v (sym (rw h refl) ∙ e)))
]
  where
    some_session : {a b : Session} → some a ≡ some b → a ≡ b
    some_session e = ground (arith, e)

-- The winlinks of a session after `winlink_add`: the index was in use, or it was free.
adds :
    (k : ℕ) (v : Session) (idx : ℤ)
    → IsWhole k v
    → count v.windows < k
    → k ≤ int_max
    → ((n : ℕ) → idx ≡ negsuc n → n ≤ int_max)
    → ((i : ℕ) × (idx ≡ pos i) × (has v.windows i ≡ true) × (add v.windows idx ≡ none))
      ⊎ ((i : ℕ) × (added : List Winlink) × (add v.windows idx ≡ some (i, added))
          × Added v.windows i added)
adds k v (pos i) h room small range = elim (add-pos v.windows i h.sound.ordered) [
  | inl (taken, e) ↦ inl (i, refl, taken, e)
  | inr (added, e, a) ↦ inr (i, added, e, a)
]
adds k v (negsuc n) h room small range =
    inr (add-negsuc v.windows n h.sound.ordered (range n refl) (omega arith))

new_runs :
    (sv : Server) (s : ℕ) (v : Session) (idx : ℤ) (created : Option ℕ)
    (o : Option (ℕ × List Winlink))
    → find_session sv.sessions s ≡ some v
    → add v.windows idx ≡ o
    → new_window sv s idx created ≡ new_with sv s v created o
unfolding new_window
new_runs sv s v idx created o at_s e = rw (new_window, at_s) (ap (new_with sv s v created) e)

-- Where `window_create` fails, `session_new` fails and changes nothing: the winlink that it made is
-- taken back, whichever index it was given.
pub new_window_failed :
    (k : ℕ) (sv : Server) (s : ℕ) (v : Session) (idx : ℤ)
    → IsExact k sv
    → find_session sv.sessions s ≡ some v
    → count v.windows < k
    → k ≤ int_max
    → ((n : ℕ) → idx ≡ negsuc n → n ≤ int_max)
    → new_window sv s idx none ≡ some (none, sv)
unfolding new_with
new_window_failed k sv s v idx x at_s room small range =
    let whole = find-AllSessions (IsWhole k) sv.sessions s v x.whole at_s in
    elim (adds k v idx whole room small range) [
      | inl (i, at_i, taken, e) ↦ new_runs sv s v idx none none at_s e
      | inr (i, added, e, a) ↦
          let back : remove added i ≡ v.windows =
            ap (λ z. remove z i) a.made ∙ remove-insert v.windows i a.was_free in
          new_runs sv s v idx none (some (i, added)) at_s e
          ∙ ap
              (λ z. some (
                none,
                record sv { sessions = put_session sv.sessions s (record v { windows = z }) },
              ))
              back
          ∙ ap (λ z. some (none, record sv { sessions = z })) (put_same sv.sessions s v at_s)
    ]

-- Where `window_create` returns a window that no winlink has, `session_new` on a server that is exact
-- and in line refuses only an index that is not negative and that a winlink of the session has, which
-- leaves the server; otherwise the window has a winlink at a free index, one reference for each session
-- that shows it, and the server is exact and in line. No session has more than `k` winlinks, this one
-- has fewer, `k` is INT_MAX at most, and the index is in the range of int where it is negative.
pub new_window-Resynced :
    (k : ℕ) (sv : Server) (s w : ℕ) (v : Session) (idx : ℤ)
    → IsExact k sv
    → InSync sv
    → find_session sv.sessions s ≡ some v
    → total sv.sessions w ≡ 0
    → count v.windows < k
    → k ≤ int_max
    → ((n : ℕ) → idx ≡ negsuc n → n ≤ int_max)
    → ((i : ℕ) × (idx ≡ pos i)
        × (has v.windows i ≡ true)
        × (new_window sv s idx (some w) ≡ some (none, sv)))
      ⊎ ((i : ℕ) × (added : List Winlink) × (new : Server) × (new_window sv s idx (some w)
            ≡ some (some i, new))
          × Added v.windows i added
          × Resynced k s (record v { windows = set_window added i w }) new)
unfolding new_with
new_window-Resynced k sv s w v idx x h at_s unused room small range =
    let whole = find-AllSessions (IsWhole k) sv.sessions s v x.whole at_s in
    elim (adds k v idx whole room small range) [
      | inl (i, at_i, taken, e) ↦ inl (i, at_i, taken, new_runs sv s v idx (some w) none at_s e)
      | inr (i, added, e, a) ↦
          let (refs, links, y) = link_new-Exact sv.refs (total sv.sessions) w x.exact unused in
          let (new, runs, r) =
            attach_at-Resynced k sv s w i v added (put sv.refs w (some 0)) refs x h at_s room a
              links y in
          inr (
            i,
            added,
            new,
            new_runs sv s v idx (some w) (some (i, added)) at_s e ∙ rw runs refl,
            a,
            r,
          )
    ]
