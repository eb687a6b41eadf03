-- ===== src/Input/Sound/Parse.antt =====
-- input.c: the handlers keep a pane in order, or meet the one null pointer of writing a cell.
use Prim.Native.Nat.{bit_and, bit_or}
use tmux_cvs_archived.Prelude.{
  ℕ, ◌+◌, ◌-◌, ◌≤◌, ◌<◌, ◌≡◌, refl, Bool, true, false, Option, none, some, if◌then◌else◌, length,
  arith, Bool-cases, inl, inr,
}
use tmux_cvs_archived.Utf8.Pieces.{open_size-le, open_found, append_found}
use tmux_cvs_archived.Utf8.{open_size}
use tmux_cvs_archived.Screen.{Screen}
use tmux_cvs_archived.Screen.Sound.{IsSound, IsSound-le}
use tmux_cvs_archived.Screen.Sound.Write.{IsGiven, IsFilled, OrUnreadable, write_cell-IsSound}
use tmux_cvs_archived.Screen.Write.{grid_flag_utf8}
use tmux_cvs_archived.Pane.{State, World, Pane, Context}
use tmux_cvs_archived.Pane.Sound.{
  IsPlain, wanted, IsSoundPane, IsSoundPane-le, with_base-IsSoundPane, with_cell-IsSoundPane,
}
use tmux_cvs_archived.Input.{
  Handler, c0_dispatch, print, intermediate, parameter, input, esc_dispatch, csi_dispatch,
  dcs_dispatch, utf8_open, utf8_add, utf8_close,
}
use tmux_cvs_archived.Input.Parse.{
  with_ictx, print_byte, open_byte, add_byte, close_byte, handle, run_handler,
}
use tmux_cvs_archived.Input.Sound.{IsPending, wanted_after, handler_fits}
use tmux_cvs_archived.Input.Sound.Sgr.{cleared-IsPlain}
use tmux_cvs_archived.Input.Sound.Escape.{c0_dispatch-IsSoundPane, esc_dispatch-IsSoundPane}
use tmux_cvs_archived.Input.Sound.Csi.{csi_dispatch-IsSoundPane}

-- Whether a transition opens a UTF-8 character, which fails where the option utf8 is off.
abbrev pub opens : Option Handler → Bool
opens (some utf8_open) = true
opens _ = false

-- What a handler leaves, where the state behind it is to want `next` bytes. The pane is still in the
-- state of before, `st`.
pub record IsHandled (room height : ℕ) (st : State) (opens : Bool) (next : ℕ) (r : Pane × Bool)
    : Type 0 where
  pub pane : IsSoundPane room height st (r.0)
  pub stays : r.1 ≡ true → (wanted st ≡ 0) × (opens ≡ true)
  pub pending : r.1 ≡ false → IsPending next (r.0).ictx.utf8data

one_more :
    {height : ℕ} (room : ℕ) {s : Screen}
    → IsSound (room + height + height) height s
    → IsSound (room + 1) height s
one_more room v = IsSound-le (room + 1) (omega (arith, v.tall, v.on_line)) v

module _ {room height : ℕ} {st : State} (w : World) (p : Pane) (ch : ℕ)
    (v : IsSoundPane (room + height + height) height st p) where
  fewer : IsSoundPane room height st p
  fewer = IsSoundPane-le room (omega arith) v

  print_found : OrUnreadable p.base (print_byte w ch p) (IsSoundPane room height st)
  unfolding print_byte
  print_found =
      let gc = record (p.ictx.cell) { byte = ch } in
      let given : IsGiven gc none = λ e. absurd (cc (e, v.cell.single)) in
      let plain : IsPlain gc = record { small = v.cell.small; single = v.cell.single } in
      elim (write_cell-IsSound w.unset {room = room} p.base gc none (one_more room v.screen)
        given) [
          | inl (s, e, u) ↦
              inl (rw e (_, refl, with_base-IsSoundPane _ s (with_cell-IsSoundPane p gc v plain) u))
          | inr (e, f) ↦ inr (rw e refl, f)
        ]

  add_found :
      length p.ictx.utf8data.bytes < p.ictx.utf8data.size
      → p.ictx.utf8data.size ≤ 4
      → (q : Pane) × (add_byte w ch p ≡ some q)
        × IsSoundPane room height st q
        × (length q.ictx.utf8data.bytes ≡ length p.ictx.utf8data.bytes + 1)
        × (q.ictx.utf8data.size ≡ p.ictx.utf8data.size)
  unfolding add_byte
  add_found h k =
      let (r, e, more, l, m) = append_found w.utf8_width_root p.ictx.utf8data ch h k in
      rw e (
        _,
        refl,
        record {
          screen = fewer.screen;
          saved = v.saved;
          cell = v.cell;
          old_cell = v.old_cell;
          state = v.state;
        },
        l,
        m,
      )

  -- The character is written with a cell that is marked as UTF-8 for this one write.
  close_found :
      length p.ictx.utf8data.bytes < p.ictx.utf8data.size
      → p.ictx.utf8data.size ≤ 4
      → OrUnreadable p.base (close_byte w ch p) (IsSoundPane room height st)
  unfolding close_byte add_byte
  close_found h k =
      let (r, e, more, l, m) = append_found w.utf8_width_root p.ictx.utf8data ch h k in
      let gc = p.ictx.cell in
      let marked = record gc { flags = bit_or gc.flags grid_flag_utf8 } in
      let clean = record gc { flags = bit_and marked.flags (0xff - grid_flag_utf8) } in
      let filled : IsFilled (r.1) = (omega (arith, m, h), omega (arith, m, k)) in
      let given : IsGiven marked (some (r.1)) = λ _. (r.1, refl, filled) in
      elim (write_cell-IsSound w.unset {room = room} p.base marked (some (r.1))
        (one_more room v.screen) given) [
          | inl (s, f, u) ↦ inl (
              rw (e, f)
                (
                  _,
                  refl,
                  record {
                    screen = u;
                    saved = v.saved;
                    cell = cleared-IsPlain gc clean v.cell refl;
                    old_cell = v.old_cell;
                    state = v.state;
                  },
                ))
          | inr (f, g) ↦ inr (rw (e, f) refl, g)
        ]

  open_byte_found :
      {next : ℕ}
      → 0 < next
      → next ≤ 3
      → open_size ch ≡ next + 1
      → wanted st ≡ 0
      → OrUnreadable p.base (open_byte w ch p) (IsHandled room height st true next)
  unfolding open_byte
  open_byte_found h k e none_missing = elim (Bool-cases (w.utf8)) [
    | inl utf8 ↦
        let (ud, found, one, size) =
          open_found w.utf8_width_root ch (omega (arith, e)) (omega (arith, e, k)) in
        inl (
          rw (utf8, found)
            (
              _,
              refl,
              record {
                pane = record {
                  screen = fewer.screen;
                  saved = v.saved;
                  cell = v.cell;
                  old_cell = v.old_cell;
                  state = v.state;
                };
                stays = λ t. (none_missing, refl);
                pending = λ _ _. (omega (arith, one, size, e), omega (arith, size, e, k));
              },
            ))
    | inr plain ↦ elim print_found [
      | inl (q, found, u) ↦ inl (
          rw (plain, found)
            (
              _,
              refl,
              record { pane = u; stays = λ _. (none_missing, refl); pending = λ t. absurd (cc t) },
            ))
      | inr (found, f) ↦ inr (rw (plain, found) refl, f)
    ]
  ]

  plain_found :
      {opens : Bool} (q : Pane) (next : ℕ)
      → next ≡ 0
      → IsSoundPane room height st q
      → (r : Pane × Bool) × (some (q, false) ≡ some r) × IsHandled room height st opens next r
  plain_found q next e u = (
    _,
    refl,
    record { pane = u; stays = λ t. absurd (cc t); pending = λ _ h. absurd (omega (arith, e, h)) },
  )

  kept :
      (c : Context)
      → c.cell ≡ p.ictx.cell
      → c.old_cell ≡ p.ictx.old_cell
      → c.state ≡ p.ictx.state
      → IsSoundPane room height st (with_ictx p c)
  kept c f g h = record {
    screen = fewer.screen;
    saved = v.saved;
    cell = rw f v.cell;
    old_cell = rw g v.old_cell;
    state = rw h v.state;
  }

  buffered :
      (b : Bool) (c d : Context)
      → IsSoundPane room height st (with_ictx p c)
      → IsSoundPane room height st (with_ictx p d)
      → IsSoundPane room height st (with_ictx p (if b then c else d))
  buffered true c d u v = u
  buffered false c d u v = v

  -- A handler at a byte and a state that the tables give it.
  pub run_handler_found :
      (h : Option Handler) (next : Option State)
      → IsPending (wanted st) p.ictx.utf8data
      → handler_fits st ch h next ≡ true
      → OrUnreadable p.base
          (run_handler w h ch p)
          (IsHandled room height st (opens h) (wanted_after (wanted st) next))
  unfolding handle
  run_handler_found none next pending fits = inl (plain_found p _ (ground (arith, fits)) fewer)
  run_handler_found (some c0_dispatch) next pending fits =
      inl (plain_found _ _ (ground (arith, fits)) (c0_dispatch-IsSoundPane p v w ch))
  run_handler_found (some print) next pending fits = elim print_found [
    | inl (q, found, u) ↦ inl (rw found (plain_found q _ (ground (arith, fits)) u))
    | inr (found, f) ↦ inr (rw found refl, f)
  ]
  run_handler_found (some intermediate) next pending fits = inl (
      plain_found _ _ (ground (arith, fits))
        (buffered _ _ _ (kept _ refl refl refl) (kept _ refl refl refl)))
  run_handler_found (some parameter) next pending fits = inl (
      plain_found _ _ (ground (arith, fits))
        (buffered _ _ _ (kept _ refl refl refl) (kept _ refl refl refl)))
  run_handler_found (some input) next pending fits = inl (
      plain_found _ _ (ground (arith, fits))
        (buffered _ _ _ (kept _ refl refl refl) (kept _ refl refl refl)))
  run_handler_found (some esc_dispatch) next pending fits =
      inl (plain_found _ _ (ground (arith, fits)) (esc_dispatch-IsSoundPane p v ch))
  run_handler_found (some csi_dispatch) next pending fits =
      inl (plain_found _ _ (ground (arith, fits)) (csi_dispatch-IsSoundPane w p v ch))
  run_handler_found (some dcs_dispatch) next pending fits =
      inl (plain_found p _ (ground (arith, fits)) fewer)
  run_handler_found (some utf8_open) next pending fits =
      open_byte_found (ground (arith, fits)) (ground (arith, fits, open_size-le ch))
        (ground (arith, fits)) (ground (arith, fits))
  run_handler_found (some utf8_add) next pending fits =
      let now = pending (ground (arith, fits)) in
      let (q, found, u, l, m) = add_found (ground (arith, now, fits)) now.1 in
      inl (
        rw found (
          _,
          refl,
          record {
            pane = u;
            stays = λ t. absurd (cc t);
            pending = λ _ _. (ground (arith, l, m, now.0, fits), omega (arith, m, now.1));
          },
        ))
  run_handler_found (some utf8_close) next pending fits =
      let now = pending (ground (arith, fits)) in
      elim (close_found (ground (arith, now, fits)) now.1) [
        | inl (q, found, u) ↦ inl (rw found (plain_found q _ (ground (arith, fits)) u))
        | inr (found, f) ↦ inr (rw found refl, f)
      ]
