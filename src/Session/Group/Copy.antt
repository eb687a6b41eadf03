-- ===== src/Session/Group/Copy.antt =====
-- The copy of the windows of one session to another in `session_group_synchronize1` of session.c.
use tmux_cvs_archived.Prelude.{
  ℕ, suc, false, ◌+◌, ◌^◌, ◌≤◌, ◌<◌, ◌≡◌, refl, ◌∙◌, sym, ap, ap₂, some, List, [], ◌∷◌, ◌++◌, map,
  append-nil, append_assoc, arith, zero-bit_or,
}
use Prim.Native.Nat.{bit_or}
use tmux_cvs_archived.Session.Group.{Store, link, or_flags, copy_links}
use tmux_cvs_archived.Session.Group.References.{one, uses, Exact, Exact-ext, link-Exact}
use tmux_cvs_archived.Winlink.{Winlink, has, add_at, insert, fresh, set_window, alert_bits}
use tmux_cvs_archived.Winlink.Order.{From}

-- The winlink that is made for one of the target.
abbrev pub copied : Winlink → Winlink
copied wl = record { idx = wl.idx; window = wl.window; flags = alert_bits wl.flags }

-- Every winlink has a window.
abbrev pub Linked : List Winlink → Type 0
Linked [] = Unit
Linked (wl ∷ wwl) = ((w : ℕ) × (wl.window ≡ some w)) × Linked wwl

-- Every index is below `b`.
abbrev Below : ℕ → List Winlink → Type 0
Below b [] = Unit
Below b (wl ∷ wwl) = (wl.idx < b) × Below b wwl

Below-weaken : (a b : ℕ) (wwl : List Winlink) → a ≤ b → Below a wwl → Below b wwl
Below-weaken a b [] h f = tt
Below-weaken a b (wl ∷ wwl) h f = (omega (arith, f.0), Below-weaken a b wwl h f.1)

Below-append :
    (b : ℕ) (wwl : List Winlink) (wl : Winlink)
    → Below b wwl
    → wl.idx < b
    → Below b (wwl ++ (wl ∷ []))
Below-append b [] wl f h = (h, tt)
Below-append b (v ∷ wwl) wl f h = (f.0, Below-append b wwl wl f.1 h)

not_yet : (made : List Winlink) (i : ℕ) → Below i made → has made i ≡ false
not_yet [] i f = refl
not_yet (v ∷ made) i f = ground (arith, f.0, not_yet made i f.1)

-- The three steps of the copy, on a tree whose indices are all lower.
insert_end :
    (made : List Winlink) (new : Winlink)
    → Below new.idx made
    → insert made new ≡ made ++ (new ∷ [])
unfolding insert
insert_end [] new f = refl
insert_end (v ∷ made) new f = ground (arith, f.0, insert_end made new f.1)

set_window_end :
    (made : List Winlink) (new : Winlink) (w : ℕ)
    → Below new.idx made
    → set_window (made ++ (new ∷ [])) new.idx w ≡ made ++ (record new { window = some w } ∷ [])
unfolding set_window
set_window_end [] new w f = ground arith
set_window_end (v ∷ made) new w f = ground (arith, f.0, set_window_end made new w f.1)

or_flags_end :
    (made : List Winlink) (new : Winlink) (bits : ℕ)
    → Below new.idx made
    → or_flags (made ++ (new ∷ [])) new.idx bits
      ≡ made ++ (record new { flags = bit_or new.flags bits } ∷ [])
unfolding or_flags
or_flags_end [] new bits f = ground arith
or_flags_end (v ∷ made) new bits f = ground (arith, f.0, or_flags_end made new bits f.1)

copy_one :
    (made : List Winlink) (wl : Winlink) (w : ℕ)
    → Below wl.idx made
    → wl.window ≡ some w
    → or_flags (set_window (insert made (fresh wl.idx)) wl.idx w) wl.idx (alert_bits wl.flags)
      ≡ made ++ (copied wl ∷ [])
copy_one made wl w f e =
    let i = wl.idx in
    let bits = alert_bits wl.flags in
    let linked : Winlink = record { idx = i; window = some w; flags = 0 } in
    let flagged : Winlink = record { idx = i; window = some w; flags = bit_or 0 bits } in
    let same : flagged ≡ copied wl =
      ap₂ (λ o n. record { idx = i; window = o; flags = n }) (sym e) (zero-bit_or bits) in
    ap (λ t. or_flags (set_window t i w) i bits) (insert_end made (fresh i) f)
    ∙ ap (λ t. or_flags t i bits) (set_window_end made (fresh i) w f)
    ∙ or_flags_end made linked bits f
    ∙ ap (λ x. made ++ (x ∷ [])) same

copy_step :
    (wl : Winlink) (wwl made made' : List Winlink) (refs r : Store) (w : ℕ)
    → has made wl.idx ≡ false
    → wl.window ≡ some w
    → link refs w ≡ some r
    → or_flags (set_window (insert made (fresh wl.idx)) wl.idx w) wl.idx (alert_bits wl.flags)
      ≡ made'
    → copy_links (wl ∷ wwl) made refs ≡ copy_links wwl made' r
unfolding copy_links add_at
copy_step wl wwl made made' refs r w free e l h =
    rw (copy_links, e, add_at, free, l) (ap (λ t. copy_links wwl t r) h)

-- Copying winlinks that are in order, of windows that are there, adds them at the end, with their
-- alerts and no other flag, and counts their references.
pub copy_links-Exact :
    (wwl : List Winlink) (b : ℕ) (made : List Winlink) (refs : Store) (g : ℕ → ℕ)
    → From b wwl
    → Below b made
    → Linked wwl
    → Exact refs g
    → ((p : ℕ) → 0 < uses wwl p → 0 < g p)
    → ((p : ℕ) → uses wwl p + g p < 2 ^ 32)
    → (refs' : Store) × (copy_links wwl made refs ≡ some (made ++ map copied wwl, refs'))
      × Exact refs' (λ p. uses wwl p + g p)
unfolding copy_links add_at
copy_links-Exact [] b made refs g f m l x u c = (
  refs,
  ap (λ t. some (t, refs)) (sym (append-nil made)),
  Exact-ext refs g _ x (λ p. omega arith),
)
copy_links-Exact (wl ∷ wwl) b made refs g f m ((w, e), l) x u c =
    let i = wl.idx in
    let lower = Below-weaken b i made f.0 m in
    let used : 0 < one wl.window w + uses wwl w = rw e (ground arith) in
    let small : one wl.window w + uses wwl w + g w < 2 ^ 32 = c w in
    let self : one wl.window w ≡ 1 = rw e (ground arith) in
    let (r, at_r, x') = link-Exact refs g w x (u w used) (omega arith) in
    let g' = λ (p : ℕ). one wl.window p + g p in
    let x'' : Exact r g' = rw e x' in
    let made' = made ++ (copied wl ∷ []) in
    let (r', at_r', y) =
      copy_links-Exact wwl (suc i) made' r g' f.1
        (Below-append (suc i) made (copied wl) (Below-weaken i (suc i) made (omega arith) lower)
          (omega arith))
        l x'' (λ p h. omega (arith, u p (omega arith))) (λ p. omega (arith, c p)) in
    (
      r',
      copy_step wl wwl made made' refs r w (not_yet made i lower) e at_r
            (copy_one made wl w lower e)
          ∙ at_r'
          ∙ ap (λ t. some (t, r')) (append_assoc made (copied wl ∷ []) (map copied wwl)),
      Exact-ext r' (λ p. uses wwl p + g' p) _ y (λ p. omega arith),
    )
