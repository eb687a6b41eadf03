-- ===== src/Session/Tests.antt =====
-- Runs of session.c on two sessions of a group, and the theorems on them at these.
use tmux_cvs_archived.Prelude.{
  ℕ, true, false, ◌+◌, ◌<◌, ◌≡◌, ◌≢◌, ◌⊎◌, refl, ◌∙◌, sym, ap, none, some, List, [], ◌∷◌, drop,
  ◌==◌, arith, Bool-cases, inl, inr,
}
use tmux_cvs_archived.Session.{
  Session, moved, go, next_target, next_window, previous_window, select, last_window,
}
use tmux_cvs_archived.Session.Alerts.{first_alerted, next_target_alert}
use tmux_cvs_archived.Session.Back.{previous_window-next_window}
use tmux_cvs_archived.Session.Group.{Store, synchronize1, group_add, group_remove}
use tmux_cvs_archived.Session.Group.Copy.{Linked}
use tmux_cvs_archived.Session.Group.Leaving.{Left, group_remove-Left}
use tmux_cvs_archived.Session.Group.Members.{occurs_in, AreGroups, Joined, group_add-Joined}
use tmux_cvs_archived.Session.Group.References.{uses, shown}
use tmux_cvs_archived.Session.Group.Synchronize.{CanCopy, Copied, synchronize1-Copied}
use tmux_cvs_archived.Session.Server.{Server, find_session, new_window, detach, destroy}
use tmux_cvs_archived.Session.Server.Attach.{Attached, attach-Attached}
use tmux_cvs_archived.Session.Server.Destroy.{Destroyed, destroy-Destroyed}
use tmux_cvs_archived.Session.Server.Detach.{detach-Resynced}
use tmux_cvs_archived.Session.Server.InLine.{InSync}
use tmux_cvs_archived.Session.Server.New.{new_window_failed, new_window-Resynced}
use tmux_cvs_archived.Session.Server.Pair.{IsExact, view}
use tmux_cvs_archived.Session.Server.Resync.{Resynced}
use tmux_cvs_archived.Session.Server.Sessions.{total}
use tmux_cvs_archived.Session.Sound.{IsSound, moves-IsSound}
use tmux_cvs_archived.Session.Unlink.{Unlinked}
use tmux_cvs_archived.Winlink.{Winlink, pos, negsuc, has, count, set_window, find_by_index, or_else}
use tmux_cvs_archived.Winlink.Numbers.{Added}

-- Windows 7 and 8 at 1 and 3; the second has an alert.
abbrev at_one : Winlink
at_one = record { idx = 1; window = some 7; flags = 0 }

abbrev at_three : Winlink
at_three = record { idx = 3; window = some 8; flags = 2 }

abbrev links : List Winlink
links = at_one ∷ at_three ∷ []

abbrev left_one : Session
left_one = record { windows = links; curw = some 1; lastw = 3 ∷ [] }

abbrev right_one : Session
right_one = record { windows = links; curw = some 3; lastw = [] }

next_left : (next_window left_one false).1.curw ≡ some 3
unfolding next_window
next_left = refl

left_one-IsSound : IsSound left_one
left_one-IsSound = record {
  ordered = (omega arith, (omega arith, tt));
  current = λ c e. ground (arith, e);
  stacked = λ i m. ground (arith, m);
  unique = refl;
  apart = λ c e. ground (arith, e);
}

right_one-IsSound : IsSound right_one
right_one-IsSound = record {
  ordered = (omega arith, (omega arith, tt));
  current = λ c e. ground (arith, e);
  stacked = λ i m. ground (arith, m);
  unique = refl;
  apart = λ c e. ground (arith, e);
}

abbrev both : List (ℕ × Session)
both = (0, left_one) ∷ (4, right_one) ∷ []

-- Sessions 0 and 4, in a group.
abbrev two : Server
two = record { sessions = both; groups = (0 ∷ 4 ∷ []) ∷ []; refs = λ p. shown (total both p) }

links-Linked : Linked links
links-Linked = ((7, refl), ((8, refl), tt))

two-IsExact : IsExact 9 two
two-IsExact = record {
  whole = (
    record {
      sound = left_one-IsSound;
      linked = links-Linked;
      current = (1, refl);
      counted = unfold count in omega arith;
    },
    (
      record {
        sound = right_one-IsSound;
        linked = links-Linked;
        current = (3, refl);
        counted = unfold count in omega arith;
      },
      tt,
    ),
  );
  exact = λ p. refl;
  room = omega arith;
}

known_two : (p : ℕ) → 0 < occurs_in two.groups p → (v : Session) × (find_session both p ≡ some v)
unfolding find_session
known_two p o = elim (Bool-cases (0 == p)) [
  | inl e ↦ (left_one, rw e refl)
  | inr e ↦ (right_one, let f : (4 == p) ≡ true = ground (arith, o, e) in rw (e, f) refl)
]

same_view :
    (a b : Session) → some a ≡ some b → view a.windows ≡ view links → view b.windows ≡ view links
same_view a b e v = let same : a ≡ b = ground (arith, e) in sym (ap (λ x. view x.windows) same) ∙ v

no_session : (a : Session) → none ≢ some a
no_session a e = ground (arith, e)

view_two : (p : ℕ) (a : Session) → find_session both p ≡ some a → view a.windows ≡ view links
unfolding find_session
view_two p a e = elim (Bool-cases (0 == p)) [
  | inl h ↦ same_view left_one a (sym (rw h refl) ∙ e) refl
  | inr h ↦ elim (Bool-cases (4 == p)) [
    | inl g ↦ same_view right_one a (sym (rw (h, g) refl) ∙ e) refl
    | inr g ↦ absurd (no_session a (sym (rw (h, g) refl) ∙ e))
  ]
]

two-AreGroups : AreGroups two.groups
two-AreGroups = record { once = λ p. ground arith; large = (omega arith, tt) }

two-InSync : InSync two
two-InSync = record {
  groups = two-AreGroups;
  known = known_two;
  views = λ p q g a b e m at_p at_q. view_two p a at_p ∙ sym (view_two q b at_q);
}

at_zero : find_session both 0 ≡ some left_one
unfolding find_session
at_zero = refl

found_one : find_by_index links 1 ≡ some at_one
unfolding find_by_index
found_one = refl

room_left : count links < 9
unfolding count
room_left = omega arith

detach-Resynced_example :
    (new : Server) × (u : Session) × (detach two 0 1 ≡ some (false, new))
    × Unlinked left_one 1 u
    × Resynced 9 0 u new
detach-Resynced_example =
    detach-Resynced 9 two 0 1 3 left_one at_one two-IsExact two-InSync at_zero found_one refl
      (λ e. absurd (omega (arith, e)))

attach-Attached_example : Attached 9 two 0 8 left_one (negsuc 0)
attach-Attached_example =
    attach-Attached 9 two 0 8 left_one (negsuc 0) two-IsExact two-InSync at_zero (ground arith)
      room_left (omega arith) (λ n e. ground (arith, e))

new_window_failed_example : new_window two 0 (negsuc 1) none ≡ some (none, two)
new_window_failed_example =
    new_window_failed 9 two 0 left_one (negsuc 1) two-IsExact at_zero room_left (omega arith)
      (λ n e. ground (arith, e))

new_window-Resynced_example :
    ((i : ℕ) × (pos 2 ≡ pos i)
      × (has links i ≡ true)
      × (new_window two 0 (pos 2) (some 5) ≡ some (none, two)))
    ⊎ ((i : ℕ) × (added : List Winlink) × (new : Server) × (new_window two 0 (pos 2) (some 5)
          ≡ some (some i, new))
        × Added links i added
        × Resynced 9 0 (record left_one { windows = set_window added i 5 }) new)
new_window-Resynced_example =
    new_window-Resynced 9 two 0 5 left_one (pos 2) two-IsExact two-InSync at_zero (ground arith)
      room_left (omega arith) (λ n e. absurd (ground (arith, e)))

destroy-Destroyed_example : (new : Server) × (destroy two 0 ≡ some new) × Destroyed 9 two 0 new
destroy-Destroyed_example = destroy-Destroyed 9 two 0 left_one two-IsExact two-InSync at_zero

-- The target lost window 8 at 3, which was the current one of the other session.
abbrev short : Session
short = record { windows = at_one ∷ []; curw = some 1; lastw = [] }

abbrev other_links : ℕ → ℕ
other_links p = uses short.windows p

right_short : CanCopy short right_one (λ p. shown (uses links p + other_links p)) other_links
right_short = record {
  sound = right_one-IsSound;
  idle = λ e. absurd (ground (arith, e));
  ordered = (omega arith, tt);
  linked = ((7, refl), tt);
  current = (1, refl, refl);
  exact = λ p. refl;
  others = λ p. omega arith;
  room = λ p. ground arith;
}

synchronize1-Copied_example :
    (t : Session) × (refs : Store) × (synchronize1 short right_one
        (λ p. shown (uses links p + other_links p))
      ≡ some (t, refs))
    × Copied short right_one other_links t refs
synchronize1-Copied_example =
    synchronize1-Copied short right_one (λ p. shown (uses links p + other_links p)) other_links
      right_short

group_add-Joined_example : Joined two.groups 4 6 (group_add two.groups 4 6)
group_add-Joined_example =
    group_add-Joined two.groups 4 6 two-AreGroups refl (λ e. absurd (omega (arith, e)))

group_remove-Left_example :
    (new : List (List ℕ)) × (group_remove two.groups 0 ≡ some new) × Left two.groups 0 new
group_remove-Left_example = group_remove-Left two.groups 0 two-AreGroups

moves-IsSound_example :
    IsSound (next_window left_one true).1
    × IsSound (previous_window left_one true).1
    × IsSound (select left_one 3).1
    × IsSound (last_window left_one).1
moves-IsSound_example = moves-IsSound left_one true 3 left_one-IsSound

previous_window-next_window_example :
    (t : Session) × (u : Session) × (next_window left_one false ≡ (moved, t))
    × (t.curw ≢ some 1)
    × (previous_window t false ≡ (moved, u))
    × (u.curw ≡ some 1)
    × ((k : ℕ) → has u.windows k ≡ has links k)
previous_window-next_window_example =
    previous_window-next_window left_one 1 3 left_one-IsSound refl refl
      (λ e. absurd (omega (arith, e)))

select_three : select left_one 3 ≡ (moved, go left_one 3)
unfolding select
select_three = refl

next_target_alert_example :
    next_target left_one 1 true ≡ or_else (first_alerted (drop 1 links)) (first_alerted links)
next_target_alert_example = next_target_alert left_one 0 at_one left_one-IsSound.ordered refl
