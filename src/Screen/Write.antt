-- ===== src/Screen/Write.antt =====
-- screen-write.c: a character is written at the cursor.
use Prim.Native.Nat.{bit_or}
use tmux_cvs_archived.Prelude.{
  ℕ, zero, suc, ◌+◌, ◌-◌, Bool, true, ◌&&◌, ◌||◌, not, Option, none, some, ◌>>=◌, ◌∷◌, ltb, leb,
  ◌==◌, if◌then◌else◌, replicate, min, add_uint, sub_uint, uint_max,
}
use tmux_cvs_archived.Utf8.{Utf8Data}
use tmux_cvs_archived.Grid.{Grid, GridCell, GridUtf8, default_cell}
use tmux_cvs_archived.Grid.Blocks.{move_cells, is_padding, is_utf8}
use tmux_cvs_archived.Grid.Utf8.{utf8_size, put_bytes, terminate, set_data, append_data}
use tmux_cvs_archived.Grid.View.{
  view_peek_cell, view_get_cell, view_set_cell, view_peek_utf8, view_get_utf8, view_set_utf8,
}
use tmux_cvs_archived.Screen.{Screen, size_x, size_y, has_bit, clear_bit, mode_insert, mode_wrap}
use tmux_cvs_archived.Screen.Lines.{with_grid, line_feed}

-- `GRID_FLAG_PADDING` and `GRID_FLAG_UTF8`
abbrev pub grid_flag_padding : ℕ
grid_flag_padding = 0x4

abbrev pub grid_flag_utf8 : ℕ
grid_flag_utf8 = 0x8

-- The first loop of `screen_write_overwrite`, from column `xx` back to a cell that is no padding,
-- and the write behind it.
unfoldable pub overwrite_back : Grid → ℕ → ℕ → Grid
overwrite_back g cy zero = view_set_cell g 0 cy default_cell
overwrite_back g cy (suc n) =
    let next = overwrite_back (view_set_cell g (suc n) cy default_cell) cy n in
    if is_padding (view_peek_cell g (suc n) cy)
    then next
    else view_set_cell g (suc n) cy default_cell

-- Its second loop.
unfoldable pub overwrite_forward : Grid → ℕ → ℕ → ℕ → Grid
overwrite_forward g cy xx zero = g
overwrite_forward g cy xx (suc n) =
    let next = overwrite_forward (view_set_cell g xx cy default_cell) cy (xx + 1) n in
    if is_padding (view_peek_cell g xx cy) then next else g

-- `screen_write_overwrite`
unfoldable pub overwrite : Screen → ℕ → Screen
unfolding overwrite_back overwrite_forward
overwrite s width =
    let back =
      if is_padding (view_peek_cell s.grid s.cx s.cy)
      then overwrite_back s.grid s.cy s.cx
      else s.grid in
    let after = add_uint s.cx width in
    with_grid s (overwrite_forward back s.cy after (size_x s - after))

-- The loop of `screen_write_initctx` that looks for the last cell of line `cy`, with `n` columns
-- left to look at and `gc` the cell looked at last: the cell and its column, `screen_size_x(s) - xx`.
-- Where all of them are padding, `xx` is one more than the columns, and the column wraps around.
unfoldable pub last_from : Grid → ℕ → GridCell → ℕ → GridCell × ℕ
last_from g cy gc zero = (gc, uint_max)
last_from g cy gc (suc n) =
    let c = view_peek_cell g n cy in
    let before = last_from g cy c n in if is_padding c then before else (c, n)

-- "Save the last cell on the screen", from the same function: what it copies for the terminals. The
-- copy from a null pointer is `none`; the inner option is `none` for an entry without a value.
unfoldable pub save_last : Screen → Option (GridCell × Option GridUtf8)
unfolding last_from
save_last s =
    let last = last_from s.grid s.cy default_cell (size_x s) in
    let saved = (view_peek_utf8 s.grid (last.1) s.cy >>= λ gu. some (last.0, gu)) in
    if is_utf8 (last.0) then saved else some (last.0, none)

-- A character that does not fit any more: the cell becomes underscores.
abbrev pub underscores : GridUtf8 → GridUtf8
underscores gu =
    let i = min gu.width utf8_size in
    record { width = i; bytes = terminate (put_bytes gu.bytes 0 (replicate i b'_')) i }

-- The conversion of a cell of one byte: `data[0]` and the 0xff behind it. The rest of the array has no
-- value; 0xff stands for it.
abbrev pub one_byte : GridCell → GridUtf8
one_byte gc = record { width = 1; bytes = gc.byte ∷ replicate 8 0xff }

module _ (unset : GridUtf8) where
  -- The end of `screen_write_combine`, for the cell `gc` at column `px` and its bytes `gu`: what
  -- `grid_utf8_append` makes of them is stored, or an underscore.
  unfoldable pub combine_appended : Grid → ℕ → ℕ → GridCell → GridUtf8 → Option GridUtf8 → Grid
  combine_appended g px py gc gu (some appended) = view_set_utf8 g px py appended
  combine_appended g px py gc gu none =
      if gu.width == 1
      then view_set_cell g px py
          (record gc { byte = b'_'; flags = clear_bit gc.flags grid_flag_utf8 })
      else view_set_utf8 g px py (underscores gu)

  -- The cell before the cursor with GRID_FLAG_UTF8, and its bytes.
  abbrev pub as_utf8 : Grid → ℕ → ℕ → GridCell → Grid
  as_utf8 g px py gc =
      if is_utf8 gc
      then g
      else view_set_cell (view_set_utf8 g px py (one_byte gc)) px py
          (record gc { flags = bit_or gc.flags grid_flag_utf8 })

  -- `screen_write_combine`; `none` is `fatalx`, or a null pointer. `unset` is what memory without a
  -- value holds.
  unfoldable pub combine : Screen → Utf8Data → Option Screen
  unfolding combine_appended
  combine s ud =
      let px = sub_uint s.cx 1 in
      let rest =
        (view_get_cell s.grid px s.cy >>= λ found.
        let gc = found.0 in
        view_get_utf8 (as_utf8 (found.1) px s.cy gc) px s.cy >>= λ entry.
        let gu : GridUtf8 = elim (entry.0) [ some gu ↦ gu | none ↦ unset ] in
        some (
          with_grid s (
            combine_appended (entry.1) px s.cy
              (record gc { flags = bit_or gc.flags grid_flag_utf8 }) gu (append_data gu ud)))) in
      if s.cx == 0 then some s else if ud.size == 0 then none else rest

  -- The loop that marks the cells behind a wide character.
  unfoldable pub pad : Grid → ℕ → ℕ → ℕ → Grid
  pad g cy xx zero = g
  pad g cy xx (suc n) =
      let marked : Grid = elim (view_get_cell g xx cy) [
        | some (gc, g') ↦
            view_set_cell g' xx cy (record gc { flags = bit_or gc.flags grid_flag_padding })
        | none ↦ g
      ] in
      pad marked cy (xx + 1) n

  -- "Set the cell."
  abbrev pub put_utf8 : Grid → ℕ → ℕ → Option Utf8Data → Option Grid
  put_utf8 g px py none = none
  put_utf8 g px py (some ud) =
      set_data (record { width = 0; bytes = replicate utf8_size 0xff }) ud >>= λ gu.
      some (view_set_utf8 g px py gu)

  abbrev pub place : Screen → GridCell → Option Utf8Data → ℕ → Option Screen
  place s gc ud width =
      let cleared = overwrite s width in
      let padded =
        pad cleared.grid s.cy (add_uint s.cx 1) (add_uint s.cx width - add_uint s.cx 1) in
      let written = view_set_cell padded s.cx s.cy gc in
      (if is_utf8 gc then put_utf8 written s.cx s.cy ud else some written) >>= λ g.
      some (record s { grid = g; cx = add_uint s.cx width })

  -- The cells that insert mode moves: as in the source, those of line `cy` of the whole grid.
  abbrev pub make_space : Screen → ℕ → Screen
  make_space s width =
      if has_bit s.mode mode_insert && leb s.cx (sub_uint (size_x s) width)
      then with_grid s (
          move_cells s.grid (add_uint s.cx width) s.cx s.cy
            (sub_uint (sub_uint (size_x s) s.cx) width))
      else s

  -- "Check this will fit on the current line and wrap if not."
  abbrev pub past_end : Screen → ℕ → Bool
  past_end s width = has_bit s.mode mode_wrap && ltb (sub_uint (size_x s) width) s.cx

  abbrev pub wrap : Screen → ℕ → Screen
  wrap s width = if past_end s width then record (line_feed s true) { cx = 0 } else s

  -- Whether a wide character has no room on a screen that does not wrap.
  abbrev pub no_room : Screen → ℕ → Bool
  no_room s width =
      not (has_bit s.mode mode_wrap)
      && ltb 1 width
      && (ltb (size_x s) width || (not (s.cx == size_x s) && ltb (sub_uint (size_x s) width) s.cx))

  -- From "If in insert mode" on.
  unfoldable pub write_placed : Screen → GridCell → Option Utf8Data → ℕ → Option Screen
  unfolding pad
  write_placed s gc ud width =
      let t = wrap (make_space s width) width in
      let rest = place t gc ud width in
      if past_end t width || ltb (sub_uint (size_y t) 1) t.cy then some t else rest

  -- From "Initialise the redraw context" on, which may read through a null pointer.
  unfoldable pub write_wide : Screen → GridCell → Option Utf8Data → ℕ → Option Screen
  unfolding write_placed save_last
  write_wide s gc ud width = save_last s >>= λ saved. write_placed s gc ud width

  abbrev pub cell_width : GridCell → Option Utf8Data → Option ℕ
  cell_width gc none = if is_utf8 gc then none else some 1
  cell_width gc (some ud) = if is_utf8 gc then some ud.width else some 1

  abbrev pub combine_option : Screen → Option Utf8Data → Option Screen
  combine_option s none = none
  combine_option s (some ud) = combine s ud

  -- `screen_write_cell`; a null pointer in the place of the bytes, or of those of the line's last cell,
  -- is `none`.
  unfoldable pub write_cell : Screen → GridCell → Option Utf8Data → Option Screen
  unfolding combine write_wide
  write_cell s gc ud =
      let rest =
        (cell_width gc ud >>= λ width.
        if no_room s width
        then some s
        else if width == 0
        then combine_option s ud
        else write_wide s gc ud width) in
      if is_padding gc then some s else rest
