-- ===== src/Input/Sequence.antt =====
-- input.c: how a control sequence is read from the ground state, byte by byte.
use tmux_cvs_archived.Prelude.{
  ℕ, ◌+◌, ◌≤◌, ◌<◌, ◌≡◌, refl, ◌∙◌, ap, Bool, true, false, some, List, [], ◌∷◌, ◌++◌, ◌==◌, length,
  arith, Bool-cases, inl, inr, ◌⊎◌, length-append,
}
use mathlib.Core.List.{append-nil, append_assoc}
use tmux_cvs_archived.Pane.{ground_state, csi_enter, csi_parameter, World, Pane}
use tmux_cvs_archived.Input.{
  parameter, csi_dispatch, transitions, find_transition, calls, calls_goes,
}
use tmux_cvs_archived.Input.Parse.{with_ictx, clear, handle, switch_state, parse_byte, parse_bytes}
use tmux_cvs_archived.Input.Csi as Csi

-- A byte of the parameters: a digit or the semicolon between two.
abbrev pub IsParam : ℕ → Type 0
IsParam c = ((b'0' ≤ c) × (c ≤ b'9')) ⊎ (c ≡ b';')

-- The rows of the two tables at such a byte and at the byte that ends the sequence.
digit_row :
    (c : ℕ)
    → b'0' ≤ c
    → c ≤ b'9'
    → find_transition (transitions csi_parameter) c ≡ some (calls 0x30 0x39 parameter)
unfolding find_transition transitions
digit_row c h k = ground arith

first_digit_row :
    (c : ℕ)
    → b'0' ≤ c
    → c ≤ b'9'
    → find_transition (transitions csi_enter) c
      ≡ some (calls_goes 0x30 0x39 parameter csi_parameter)
unfolding find_transition transitions
first_digit_row c h k = ground arith

final_row :
    (c : ℕ)
    → 0x40 ≤ c
    → c ≤ 0x7e
    → find_transition (transitions csi_parameter) c
      ≡ some (calls_goes 0x40 0x7e csi_dispatch ground_state)
unfolding find_transition transitions
final_row c h k = ground arith

semicolon_row : find_transition (transitions csi_parameter) b';' ≡ some (calls 0x3b 0x3b parameter)
unfolding find_transition transitions
semicolon_row = refl

-- A pane that has read the parameters `ps`, and `discard` where there were too many.
abbrev pub collected : Pane → List ℕ → Bool → Pane
collected p ps discard =
    with_ictx p (record (p.ictx) { param = ps; discard = discard; state = csi_parameter })

module _ (w : World) (p : Pane) where
  -- A parameter byte more, where there is room.
  byte_kept :
      (ps : List ℕ) (discard : Bool) (c : ℕ)
      → IsParam c
      → length ps < 63
      → parse_byte w (collected p ps discard) c ≡ some (collected p (ps ++ (c ∷ [])) discard)
  unfolding parse_byte handle switch_state
  byte_kept ps discard c (inl (h, k)) room =
      let free : (length ps == 63) ≡ false = ground (arith, room) in rw (digit_row c h k, free) refl
  byte_kept ps discard c (inr e) room =
      let free : (length ps == 63) ≡ false = ground (arith, room) in
      rw (e, semicolon_row, free) refl

  -- And where there is none.
  byte_dropped :
      (ps : List ℕ) (discard : Bool) (c : ℕ)
      → IsParam c
      → length ps ≡ 63
      → parse_byte w (collected p ps discard) c ≡ some (collected p ps true)
  unfolding parse_byte handle switch_state
  byte_dropped ps discard c (inl (h, k)) full =
      let none_free : (length ps == 63) ≡ true = ground (arith, full) in
      rw (digit_row c h k, none_free) refl
  byte_dropped ps discard c (inr e) full =
      let none_free : (length ps == 63) ≡ true = ground (arith, full) in
      rw (e, semicolon_row, none_free) refl

abbrev pub AreParams : List ℕ → Type 0
AreParams [] = Unit
AreParams (c ∷ cs) = IsParam c × AreParams cs

module _ (w : World) (p : Pane) (rest : List ℕ) where
  kept :
      (ps ds : List ℕ) (discard : Bool)
      → AreParams ds
      → length ps + length ds ≤ 63
      → parse_bytes w (collected p ps discard) (ds ++ rest)
        ≡ parse_bytes w (collected p (ps ++ ds) discard) rest
  unfolding parse_bytes
  kept ps [] discard _ h = rw (append-nil ps) refl
  kept ps (c ∷ ds) discard (param, more) h =
      let step = byte_kept w p ps discard c param (omega (arith, h)) in
      let l = length-append ps (c ∷ []) in
      let assoc = append_assoc ps (c ∷ []) ds in
      rw step (
        kept (ps ++ (c ∷ [])) ds discard more (omega (arith, l, h))
        ∙ ap (λ q. parse_bytes w (collected p q discard) rest) assoc)

  -- Once the buffer has run over, it stays so.
  dropped :
      (ps ds : List ℕ)
      → AreParams ds
      → length ps ≤ 63
      → (qs : List ℕ) × (parse_bytes w (collected p ps true) (ds ++ rest)
          ≡ parse_bytes w (collected p qs true) rest)
  unfolding parse_bytes
  dropped ps [] _ h = (ps, refl)
  dropped ps (c ∷ ds) (param, more) h = elim (Bool-cases (length ps == 63)) [
    | inl full ↦ rw (byte_dropped w p ps true c param (ground (arith, full))) (dropped ps ds more h)
    | inr free ↦
        let l = length-append ps (c ∷ []) in
        rw (byte_kept w p ps true c param (ground (arith, free, h)))
          (dropped (ps ++ (c ∷ [])) ds more (ground (arith, free, h, l)))
  ]

  -- More than 63 bytes in all.
  run_over :
      (ps ds : List ℕ) (discard : Bool)
      → AreParams ds
      → length ps ≤ 63
      → 63 < length ps + length ds
      → (qs : List ℕ) × (parse_bytes w (collected p ps discard) (ds ++ rest)
          ≡ parse_bytes w (collected p qs true) rest)
  unfolding parse_bytes
  run_over ps [] discard _ h k = absurd (omega (arith, h, k))
  run_over ps (c ∷ ds) discard (param, more) h k = elim (Bool-cases (length ps == 63)) [
    | inl full ↦
        rw (byte_dropped w p ps discard c param (ground (arith, full))) (dropped ps ds more h)
    | inr free ↦
        let l = length-append ps (c ∷ []) in
        rw (byte_kept w p ps discard c param (ground (arith, free, h))) (
          run_over (ps ++ (c ∷ [])) ds discard more (ground (arith, free, h, l))
            (omega (arith, k, l)))
  ]

-- The buffers are empty where a sequence begins.
abbrev pub cleared : Pane → Pane
cleared p = with_ictx p (clear p.ictx)

begun :
    (w : World) (p : Pane) (c : ℕ) (rest : List ℕ)
    → p.ictx.state ≡ ground_state
    → b'0' ≤ c
    → c ≤ b'9'
    → parse_bytes w p (0x1b ∷ b'[' ∷ c ∷ rest)
      ≡ parse_bytes w (collected (cleared p) (c ∷ []) false) rest
unfolding parse_bytes parse_byte handle switch_state transitions find_transition
begun w p c rest e h k = rw (e, first_digit_row c h k) refl

ended :
    (w : World) (p : Pane) (ps : List ℕ) (discard : Bool) (f : ℕ)
    → 0x40 ≤ f
    → f ≤ 0x7e
    → parse_bytes w (collected p ps discard) (f ∷ [])
      ≡ some (switch_state w (some ground_state) (Csi.csi_dispatch w f (collected p ps discard)))
unfolding parse_bytes parse_byte handle
ended w p ps discard f h k = rw (final_row f h k) refl

-- A control sequence that fits: the whole of its parameters reaches `input_csi_dispatch`.
pub sequence_lem :
    (w : World) (p : Pane) (c : ℕ) (cs : List ℕ) (f : ℕ)
    → p.ictx.state ≡ ground_state
    → (b'0' ≤ c) × (c ≤ b'9')
    → AreParams cs
    → length cs ≤ 62
    → (0x40 ≤ f) × (f ≤ 0x7e)
    → parse_bytes w p (0x1b ∷ b'[' ∷ c ∷ (cs ++ (f ∷ [])))
      ≡ some (
          switch_state w
            (some ground_state)
            (Csi.csi_dispatch w f (collected (cleared p) (c ∷ cs) false)))
sequence_lem w p c cs f e digit params fits final =
    begun w p c (cs ++ (f ∷ [])) e digit.0 digit.1
    ∙ (kept w (cleared p) (f ∷ []) (c ∷ []) cs false params (omega (arith, fits))
        ∙ ended w (cleared p) (c ∷ cs) false f final.0 final.1)

-- A control sequence from the ground state with more than 63 bytes of parameters, the first of them a
-- digit, has no effect: the screen, the saved screen, the replies and the parser's cell stay as they
-- are, whatever the sequence is, and the parser is in its ground state again.
pub long_sequence_ignored :
    (w : World) (p : Pane) (c : ℕ) (cs : List ℕ) (f : ℕ)
    → p.ictx.state ≡ ground_state
    → (b'0' ≤ c) × (c ≤ b'9')
    → AreParams cs
    → 63 ≤ length cs
    → (0x40 ≤ f) × (f ≤ 0x7e)
    → (q : Pane) × (parse_bytes w p (0x1b ∷ b'[' ∷ c ∷ (cs ++ (f ∷ []))) ≡ some q)
      × (q.base ≡ p.base)
      × (q.saved ≡ p.saved)
      × (q.replies ≡ p.replies)
      × (q.ictx.cell ≡ p.ictx.cell)
      × (q.ictx.state ≡ ground_state)
unfolding Csi.csi_dispatch switch_state
long_sequence_ignored w p c cs f e digit params long final =
    let (qs, over) =
      run_over w (cleared p) (f ∷ []) (c ∷ []) cs false params (omega arith)
        (omega (arith, long)) in
    (
      _,
      begun w p c (cs ++ (f ∷ [])) e digit.0 digit.1
          ∙ (over ∙ ended w (cleared p) qs true f final.0 final.1),
      refl,
      refl,
      refl,
      refl,
      refl,
    )
