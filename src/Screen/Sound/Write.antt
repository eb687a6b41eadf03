-- ===== src/Screen/Sound/Write.antt =====
-- screen-write.c: writing a cell to a screen in order keeps it so, or meets the one null pointer.
use Prim.Native.Nat.{bit_or}
use tmux_cvs_archived.Prelude.{
  ℕ, ◌+◌, ◌-◌, ◌^◌, ◌≤◌, ◌<◌, ◌≡◌, refl, true, false, Option, none, some, ltb, ◌==◌, if◌then◌else◌,
  arith, add_uint, sub_uint, Bool-cases, inl, inr, ◌||◌, replicate, ◌⊎◌, Option-cases,
}
use tmux_cvs_archived.Utf8.{Utf8Data}
use tmux_cvs_archived.Grid.{Grid, GridCell, GridUtf8}
use tmux_cvs_archived.Grid.Blocks.{is_padding, is_utf8}
use tmux_cvs_archived.Grid.Sizes.{
  Keeps, Keeps-refl, Keeps-trans, IsAllocated-Keeps, move_cells-Keeps,
}
use tmux_cvs_archived.Grid.Utf8.{utf8_size, append_data, set_data}
use tmux_cvs_archived.Grid.View.{view_set_cell, view_set_utf8}
use tmux_cvs_archived.Grid.View.Sizes.{
  view_set_cell-Keeps, view_set_utf8-Keeps, view_get_cell_found, view_get_utf8_found,
}
use tmux_cvs_archived.Screen.{Screen, size_y}
use tmux_cvs_archived.Screen.Lines.{line_feed}
use tmux_cvs_archived.Screen.Write.{
  grid_flag_utf8, overwrite, underscores, one_byte, combine_appended, as_utf8, combine, pad,
  put_utf8, place, make_space, past_end, wrap, no_room, write_placed, write_wide, save_last,
  cell_width, write_cell,
}
use tmux_cvs_archived.Screen.Sound.{IsSound, IsSound-IsAllocated, IsSound-le, with_grid-Keeps}
use tmux_cvs_archived.Screen.Sound.Lines.{if-IsSound, if-Keeps, line_feed-IsSound}
use tmux_cvs_archived.Screen.Sound.Around.{overwrite-Keeps, pad-Keeps}

-- What a result is: a value with `P`, or none, because the last cell of the cursor's line is marked as
-- UTF-8 and has no bytes.
abbrev pub OrUnreadable : {A : Type 0} → Screen → Option A → (A → Type 0) → Type 0
OrUnreadable {A} s result P =
    ((a : A) × (result ≡ some a) × P a) ⊎ ((result ≡ none) × (save_last s ≡ none))

-- The bytes that a cell with GRID_FLAG_UTF8 comes with: there are some, and they fit.
abbrev pub IsFilled : Utf8Data → Type 0
IsFilled ud = (0 < ud.size) × (ud.size ≤ utf8_size)

set_data-IsFilled :
    (gu : GridUtf8) (ud : Utf8Data) → IsFilled ud → (hu : GridUtf8) × (set_data gu ud ≡ some hu)
unfolding set_data
set_data-IsFilled gu ud filled =
    let some_bytes : (ud.size == 0) ≡ false = ground (arith, filled.0) in
    let few : ltb utf8_size ud.size ≡ false = ground (arith, filled.1) in
    rw (some_bytes, few) (_, refl)

put_utf8-Keeps :
    (g : Grid) (px py : ℕ) (ud : Utf8Data) (unset : GridUtf8)
    → IsFilled ud
    → (h : Grid) × (put_utf8 unset g px py (some ud) ≡ some h) × Keeps g h
put_utf8-Keeps g px py ud unset filled =
    let (hu, e) =
      set_data-IsFilled (record { width = 0; bytes = replicate utf8_size 0xff }) ud filled in
    (view_set_utf8 g px py hu, rw e refl, view_set_utf8-Keeps g px py hu)

-- A cell with GRID_FLAG_UTF8 comes with bytes.
abbrev pub IsGiven : GridCell → Option Utf8Data → Type 0
IsGiven gc ud = is_utf8 gc ≡ true → (d : Utf8Data) × (ud ≡ some d) × IsFilled d

put-Keeps :
    (unset : GridUtf8) (g : Grid) (px py : ℕ) (gc : GridCell) (ud : Option Utf8Data)
    → IsGiven gc ud
    → (h : Grid) × (if◌then◌else◌ {A = Option Grid}
          (is_utf8 gc)
          (put_utf8 unset g px py ud)
          (some g)
        ≡ some h)
      × Keeps g h
put-Keeps unset g px py gc ud given = elim (Bool-cases (is_utf8 gc)) [
  | inl utf8 ↦
      let (d, e, filled) = given utf8 in
      let (h, done, k) = put_utf8-Keeps g px py d unset filled in rw (utf8, e, done) (h, refl, k)
  | inr plain ↦ rw plain (g, refl, Keeps-refl g)
]

first-IsSound :
    {room height : ℕ} (s : Screen)
    → IsSound room height s
    → IsSound room height (record s { cx = 0 })
first-IsSound s v = ground arith

moved-IsSound :
    {room height : ℕ} (s : Screen) (g : Grid) (x : ℕ)
    → IsSound room height s
    → Keeps s.grid g
    → x < 2 ^ 32
    → IsSound room height (record s { grid = g; cx = x })
moved-IsSound s g x v k h = ground arith

module _ (unset : GridUtf8) where
  as_utf8-Keeps : (g : Grid) (px py : ℕ) (gc : GridCell) → Keeps g (as_utf8 unset g px py gc)
  as_utf8-Keeps g px py gc =
      if-Keeps _ (Keeps-refl g)
        (Keeps-trans (view_set_utf8-Keeps g px py (one_byte gc)) (view_set_cell-Keeps _ px py _))

  combine_appended-Keeps :
      (g : Grid) (px py : ℕ) (gc : GridCell) (gu : GridUtf8) (appended : Option GridUtf8)
      → Keeps g (combine_appended unset g px py gc gu appended)
  unfolding combine_appended
  combine_appended-Keeps g px py gc gu (some appended) = view_set_utf8-Keeps g px py appended
  combine_appended-Keeps g px py gc gu none =
      if-Keeps _ (view_set_cell-Keeps g px py _) (view_set_utf8-Keeps g px py (underscores gu))

  -- A combining character is joined to the cell before the cursor.
  combine-IsSound :
      {room height : ℕ} (s : Screen) (ud : Utf8Data)
      → IsSound room height s
      → 0 < ud.size
      → (t : Screen) × (combine unset s ud ≡ some t) × IsSound room height t
  unfolding combine
  combine-IsSound s ud v p =
      let px = sub_uint s.cx 1 in
      let a = IsSound-IsAllocated v in
      let filled : (ud.size == 0) ≡ false = ground (arith, p) in
      let (gc, g, found, k) = view_get_cell_found s.grid px s.cy a v.on_line in
      let kept = Keeps-trans k (as_utf8-Keeps g px s.cy gc) in
      let (gu, h, entry, l) =
        view_get_utf8_found (as_utf8 unset g px s.cy gc) px s.cy (IsAllocated-Keeps kept a)
          (omega (arith, kept.sy, v.on_line)) in
      let joined = record gc { flags = bit_or gc.flags grid_flag_utf8 } in
      let bytes : GridUtf8 = elim gu [ some gu ↦ gu | none ↦ unset ] in
      elim (Bool-cases (s.cx == 0)) [
        | inl first ↦ rw first (s, refl, v)
        | inr after ↦
            rw (after, filled, found, entry)
              (
                _,
                refl,
                with_grid-Keeps s _ v (
                    Keeps-trans (Keeps-trans kept l)
                      (combine_appended-Keeps h px s.cy joined bytes (append_data bytes ud))),
              )
      ]

  wrap-IsSound :
      {room height : ℕ} (s : Screen) (width : ℕ)
      → IsSound (room + 1) height s
      → IsSound room height (wrap unset s width)
  wrap-IsSound {room} s width v =
      let fed = line_feed-IsSound s true v in
      if-IsSound _ (first-IsSound (line_feed s true) fed) (IsSound-le room (omega arith) v)

  make_space-IsSound :
      {room height : ℕ} (s : Screen) (width : ℕ)
      → IsSound room height s
      → IsSound room height (make_space unset s width)
  make_space-IsSound s width v =
      if-IsSound _ (with_grid-Keeps s _ v (move_cells-Keeps s.grid _ _ _ _)) v

  -- The cell is put where its bytes, if it has any, are given and fit.
  place-IsSound :
      {room height : ℕ} (s : Screen) (gc : GridCell) (ud : Option Utf8Data) (width : ℕ)
      → IsSound room height s
      → IsGiven gc ud
      → (t : Screen) × (place unset s gc ud width ≡ some t) × IsSound room height t
  place-IsSound s gc ud width v given =
      let over = overwrite-Keeps s width in
      let a = IsAllocated-Keeps over (IsSound-IsAllocated v) in
      let padded =
        pad unset (overwrite s width).grid s.cy (add_uint s.cx 1)
          (add_uint s.cx width - add_uint s.cx 1) in
      let kept = Keeps-trans over (
        Keeps-trans
          (pad-Keeps unset (overwrite s width).grid s.cy _ _ a (omega (arith, over.sy, v.on_line)))
          (view_set_cell-Keeps padded s.cx s.cy gc)) in
      let (h, e, k) = put-Keeps unset (view_set_cell padded s.cx s.cy gc) s.cx s.cy gc ud given in
      rw e (_, refl, moved-IsSound s h (add_uint s.cx width) v (Keeps-trans kept k) (omega arith))

  write_placed-IsSound :
      {room height : ℕ} (s : Screen) (gc : GridCell) (ud : Option Utf8Data) (width : ℕ)
      → IsSound (room + 1) height s
      → IsGiven gc ud
      → (t : Screen) × (write_placed unset s gc ud width ≡ some t) × IsSound room height t
  unfolding write_placed
  write_placed-IsSound s gc ud width v given =
      let t = wrap unset (make_space unset s width) width in
      let w = wrap-IsSound (make_space unset s width) width (make_space-IsSound s width v) in
      elim (Bool-cases (past_end unset t width || ltb (sub_uint (size_y t) 1) t.cy)) [
        | inl beyond ↦ rw beyond (t, refl, w)
        | inr room_left ↦ rw room_left (place-IsSound t gc ud width w given)
      ]

  write_wide-IsSound :
      {room height : ℕ} (s : Screen) (gc : GridCell) (ud : Option Utf8Data) (width : ℕ)
      → IsSound (room + 1) height s
      → IsGiven gc ud
      → OrUnreadable s (write_wide unset s gc ud width) (IsSound room height)
  unfolding write_wide
  write_wide-IsSound s gc ud width v given = elim (Option-cases (save_last s)) [
    | inl e ↦ inr (rw e refl, e)
    | inr (saved, e) ↦ inl (rw e (write_placed-IsSound s gc ud width v given))
  ]

  write_found :
      {room height : ℕ} (s : Screen) (gc : GridCell) (ud : Option Utf8Data) (width : ℕ)
      → IsSound (room + 1) height s
      → IsGiven gc ud
      → cell_width unset gc ud ≡ some width
      → (width ≡ 0 → (d : Utf8Data) × (ud ≡ some d) × IsFilled d)
      → OrUnreadable s (write_cell unset s gc ud) (IsSound room height)
  unfolding write_cell
  write_found {room} s gc ud width v given e none_wide =
      let less = IsSound-le room (omega arith) v in
      elim (Bool-cases (is_padding gc)) [
        | inl padding ↦ inl (rw padding (s, refl, less))
        | inr cell ↦ elim (Bool-cases (no_room unset s width)) [
          | inl full ↦ inl (rw (cell, e, full) (s, refl, less))
          | inr fits ↦ elim (Bool-cases (width == 0)) [
            | inl zero_wide ↦
                let (d, some_d, filled) = none_wide (ground (arith, zero_wide)) in
                inl (rw (cell, e, fits, zero_wide, some_d) (combine-IsSound s d less filled.0))
            | inr wide ↦ rw (cell, e, fits, wide) (write_wide-IsSound s gc ud width v given)
          ]
        ]
      ]

  -- A cell is written to a screen in order, which stays so with one line of history more at most;
  -- or the program ends, and then the last cell of the cursor's line had no bytes to save.
  pub write_cell-IsSound :
      {room height : ℕ} (s : Screen) (gc : GridCell) (ud : Option Utf8Data)
      → IsSound (room + 1) height s
      → IsGiven gc ud
      → OrUnreadable s (write_cell unset s gc ud) (IsSound room height)
  write_cell-IsSound s gc none v given = elim (Bool-cases (is_utf8 gc)) [
    | inl utf8 ↦ write_found s gc none 1 v given (cc (given utf8).1) (λ h. ground arith)
    | inr plain ↦ write_found s gc none 1 v given (rw plain refl) (λ h. ground arith)
  ]
  write_cell-IsSound s gc (some ud) v given = elim (Bool-cases (is_utf8 gc)) [
    | inl utf8 ↦ write_found s gc (some ud) ud.width v given (rw utf8 refl) (λ h. given utf8)
    | inr plain ↦ write_found s gc (some ud) 1 v given (rw plain refl) (λ h. ground arith)
  ]
