-- ===== src/Session/Alerts.antt =====
-- The search of session.c for a window with an alert, against lists.
use tmux_cvs_archived.Prelude.{
  ℕ, zero, suc, true, ◌+◌, ◌≤◌, ◌≡◌, refl, ◌∙◌, sym, ap, ap₂, Option, none, some, List, [], ◌∷◌,
  ◌++◌, if◌then◌else◌, arith, get_elem?, take, drop, Bool-cases, inl, inr,
}
use tmux_cvs_archived.Session.{
  Session, alerted, next_alert, previous_alert, next_target, previous_target,
}
use tmux_cvs_archived.Winlink.{Winlink, next, first, last, or_else, count}
use tmux_cvs_archived.Winlink.Order.{From}
use tmux_cvs_archived.Winlink.Steps.{
  next_position, previous_position, before, elem_in, first_position, last_position, count_pos,
}

abbrev pub first_alerted : List Winlink → Option Winlink
first_alerted [] = none
first_alerted (wl ∷ wwl) = if alerted wl then some wl else first_alerted wwl

abbrev pub last_alerted : List Winlink → Option Winlink
last_alerted [] = none
last_alerted (wl ∷ wwl) = or_else (last_alerted wwl) (if alerted wl then some wl else none)

drop_elem :
    (wwl : List Winlink) (p : ℕ) (wl : Winlink)
    → get_elem? wwl p ≡ some wl
    → drop p wwl ≡ wl ∷ drop (suc p) wwl
drop_elem [] p wl e = absurd (ground arith)
drop_elem (v ∷ wwl) zero wl e = ground arith
drop_elem (v ∷ wwl) (suc p) wl e = drop_elem wwl p wl e

drop_past : (wwl : List Winlink) (p : ℕ) → get_elem? wwl p ≡ none → drop p wwl ≡ []
drop_past [] zero e = refl
drop_past [] (suc p) e = refl
drop_past (v ∷ wwl) zero e = absurd (ground arith)
drop_past (v ∷ wwl) (suc p) e = drop_past wwl p e

take_elem :
    (wwl : List Winlink) (p : ℕ) (wl : Winlink)
    → get_elem? wwl p ≡ some wl
    → take (suc p) wwl ≡ take p wwl ++ (wl ∷ [])
take_elem [] p wl e = absurd (ground arith)
take_elem (v ∷ wwl) zero wl e = ground arith
take_elem (v ∷ wwl) (suc p) wl e = ap (λ r. v ∷ r) (take_elem wwl p wl e)

last_alerted-append :
    (xs : List Winlink) (wl : Winlink)
    → last_alerted (xs ++ (wl ∷ [])) ≡ (if alerted wl then some wl else last_alerted xs)
last_alerted-append [] wl = refl
last_alerted-append (x ∷ xs) wl = elim (Bool-cases (alerted wl)) [
  | inl e ↦ rw (last_alerted-append xs wl, e) refl
  | inr e ↦ rw (last_alerted-append xs wl, e) refl
]

next_alert_lem :
    (fuel : ℕ) (wwl : List Winlink) (p : ℕ) (o : Option Winlink)
    → From 0 wwl
    → get_elem? wwl p ≡ o
    → count wwl ≤ fuel + p
    → next_alert fuel wwl o ≡ first_alerted (drop p wwl)
unfolding next_alert
next_alert_lem fuel wwl p none f e h = rw (drop_past wwl p e) refl
next_alert_lem zero wwl p (some wl) f e h = absurd (omega (arith, count_pos wwl p wl e))
next_alert_lem (suc fuel) wwl p (some wl) f e h =
    let (_, step) = next_position 0 wwl p wl f e in
    let rest = next_alert_lem fuel wwl (suc p) (next wwl wl.idx) f (sym step) (omega arith) in
    ap (λ r. if alerted wl then some wl else r) rest ∙ sym (ap first_alerted (drop_elem wwl p wl e))

previous_alert_lem :
    (fuel : ℕ) (wwl : List Winlink) (p : ℕ)
    → From 0 wwl
    → p ≤ count wwl
    → p ≤ fuel
    → previous_alert fuel wwl (before wwl p) ≡ last_alerted (take p wwl)
unfolding previous_alert
previous_alert_lem fuel wwl zero f h l = refl
previous_alert_lem zero wwl (suc p) f h l = absurd (omega arith)
previous_alert_lem (suc fuel) wwl (suc p) f h l =
    let (wl, e) = elem_in wwl p (omega arith) in
    let rest =
      ap (previous_alert fuel wwl) (previous_position 0 wwl p wl f e)
      ∙ previous_alert_lem fuel wwl p f (omega arith) (omega arith) in
    ap (previous_alert (suc fuel) wwl) e
    ∙ ap (λ r. if alerted wl then some wl else r) rest
    ∙ sym (ap last_alerted (take_elem wwl p wl e) ∙ last_alerted-append (take p wwl) wl)

last_before : (wwl : List Winlink) → last wwl ≡ before wwl (count wwl)
unfolding count
last_before [] = last_position []
last_before (v ∷ wwl) =
    last_position (v ∷ wwl) ∙ ap (get_elem? (v ∷ wwl)) (unfold count in omega arith)

take_all : (wwl : List Winlink) → take (count wwl) wwl ≡ wwl
unfolding count
take_all [] = refl
take_all (v ∷ wwl) = ap (λ r. v ∷ r) (take_all wwl)

-- Where the winlinks are in order, `session_next` with alerts looks for the first winlink with an
-- alert after the current one, and where there is none, for the first of all.
pub next_target_alert :
    (s : Session) (p : ℕ) (wl : Winlink)
    → From 0 s.windows
    → get_elem? s.windows p ≡ some wl
    → next_target s wl.idx true
      ≡ or_else (first_alerted (drop (suc p) s.windows)) (first_alerted s.windows)
unfolding next_target
next_target_alert s p wl f e =
    let n = suc (count s.windows) in
    let (_, step) = next_position 0 s.windows p wl f e in
    let ahead =
      next_alert_lem n s.windows (suc p) (next s.windows wl.idx) f (sym step) (omega arith) in
    let around =
      next_alert_lem n s.windows 0 (first s.windows) f (sym (first_position s.windows))
        (omega arith) in
    ap₂ or_else ahead around

-- Where the winlinks are in order, `session_previous` with alerts looks for the last winlink with an
-- alert before the current one, and where there is none, for the last of all.
previous_target_alert :
    (s : Session) (p : ℕ) (wl : Winlink)
    → From 0 s.windows
    → get_elem? s.windows p ≡ some wl
    → previous_target s wl.idx true
      ≡ or_else (last_alerted (take p s.windows)) (last_alerted s.windows)
unfolding previous_target
previous_target_alert s p wl f e =
    let n = suc (count s.windows) in
    let inside = count_pos s.windows p wl e in
    let ahead =
      ap (previous_alert n s.windows) (previous_position 0 s.windows p wl f e)
      ∙ previous_alert_lem n s.windows p f (omega arith) (omega arith) in
    let around =
      ap (previous_alert n s.windows) (last_before s.windows)
      ∙ previous_alert_lem n s.windows (count s.windows) f (omega arith) (omega arith)
      ∙ ap last_alerted (take_all s.windows) in
    ap₂ or_else ahead around
