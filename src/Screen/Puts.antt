-- ===== src/Screen/Puts.antt =====
-- screen-write.c: texts written to a screen, and parts of another screen.
use Prim.Native.Nat.{bit_and, bit_or}
use tmux_cvs_archived.Prelude.{
  ℕ, zero, suc, ◌+◌, ◌-◌, Bool, ◌&&◌, Option, none, some, ◌>>=◌, List, [], ◌∷◌, ltb, ◌==◌,
  if◌then◌else◌, length, take, drop, get_or, codes, one_of, strcspn, add_uint, min,
}
use tmux_cvs_archived.Utf8.{Utf8Data, Tree}
use tmux_cvs_archived.Grid.{Grid, GridCell, GridLine, GridUtf8, line, default_cell}
use tmux_cvs_archived.Grid.Blocks.{is_utf8}
use tmux_cvs_archived.Grid.Utf8.{utf8_size, copy}
use tmux_cvs_archived.Screen.{Screen}
use tmux_cvs_archived.Screen.Cursor.{cursor_move}
use tmux_cvs_archived.Screen.Lines.{clear_line, clear_end_of_line}
use tmux_cvs_archived.Screen.Write.{write_cell, grid_flag_utf8}
use tmux_cvs_archived.Screen.Text.{Piece, wide, single, cut_off, next_piece, parse_style}

-- The screen and the caller's cell, which the functions write to as well; `none` is `fatalx`.
abbrev pub Written : Type 0
Written = Option (Screen × GridCell)

module _ (unset : GridUtf8) where
  -- `screen_write_putc`
  unfoldable pub putc : Screen → GridCell → ℕ → Written
  putc s gc ch =
      write_cell unset s (record gc { byte = ch }) none >>= λ t. some (t, record gc { byte = ch })

  -- The spaces that fill the columns up to the limit.
  unfoldable pub put_spaces : Screen → GridCell → ℕ → Written
  unfolding putc
  put_spaces s gc zero = some (s, gc)
  put_spaces s gc (suc n) = putc s gc b' ' >>= λ r. put_spaces (r.0) (r.1) n

  -- A multibyte character, with the flag GRID_FLAG_UTF8 for the one write.
  unfoldable pub put_wide : Screen → GridCell → Utf8Data → Written
  put_wide s gc ud =
      let marked = record gc { flags = bit_or gc.flags grid_flag_utf8 } in
      write_cell unset s marked (some ud) >>= λ t.
      some (t, record gc { flags = bit_and marked.flags (0xff - grid_flag_utf8) })

  -- Whether `columns` more go over the limit, 0 being none.
  abbrev pub over : ℕ → ℕ → ℕ → Bool
  over maxlen size columns = ltb 0 maxlen && ltb maxlen (size + columns)

  -- What both loops do with a piece of the text: `gc` is the cell in use, `filler` the caller's, for the
  -- spaces, and `go_on` the rounds that follow.
  unfoldable pub put_piece :
      (List ℕ → ℕ → Screen → GridCell → Written)
      → ℕ
      → ℕ
      → Screen
      → GridCell
      → GridCell
      → Piece
      → Written
  unfolding put_spaces put_wide putc
  put_piece go_on maxlen size s filler gc (wide ud rest) =
      let more = (put_wide s gc ud >>= λ r. go_on rest (size + ud.width) (r.0) (r.1)) in
      if over maxlen size ud.width then put_spaces s filler (maxlen - size) else more
  put_piece go_on maxlen size s filler gc (single b rest) =
      let more = (putc s gc b >>= λ r. go_on rest (size + 1) (r.0) (r.1)) in
      if over maxlen size 1 then some (s, filler) else more
  put_piece go_on maxlen size s filler gc cut_off = some (s, filler)

  module _ (root : Tree) (maxlen : ℕ) (utf8flag : Bool) where
    -- The loop of `screen_write_vnputs`, `size` columns being written. A limit that is negative is
    -- the same as 0.
    unfoldable pub vnputs : ℕ → List ℕ → ℕ → Screen → GridCell → Written
    unfolding put_piece next_piece
    vnputs fuel [] size s gc = some (s, gc)
    vnputs zero (c ∷ cs) size s gc = none
    vnputs (suc fuel) (c ∷ cs) size s gc =
        next_piece root utf8flag c cs >>= put_piece (vnputs fuel) maxlen size s gc gc

    -- `screen_write_nputs`; `screen_write_puts` is the same with no limit and without UTF-8.
    unfoldable pub nputs : Screen → GridCell → List ℕ → Written
    unfolding vnputs
    nputs s gc msg = vnputs (length msg) msg 0 s gc

    -- The loop of `screen_write_cnputs`: `gc` is the caller's cell, the default of the styles, and
    -- `lgc` the one in use.
    module _ (strtonum : List ℕ → ℕ → ℕ → Option ℕ) (gc : GridCell) where
      unfoldable pub cnputs_loop : ℕ → List ℕ → ℕ → Screen → GridCell → Written
      unfolding put_piece next_piece parse_style strcspn one_of
      cnputs_loop fuel [] size s lgc = some (s, gc)
      cnputs_loop zero (c ∷ cs) size s lgc = none
      cnputs_loop (suc fuel) (c ∷ cs) size s lgc =
          let style = drop 1 cs in
          let end = strcspn style (codes "]") in
          let styled =
            cnputs_loop fuel (drop (end + 1) style) size s
              (parse_style strtonum gc lgc (take end style)) in
          let plain =
            (next_piece root utf8flag c cs >>= put_piece (cnputs_loop fuel) maxlen size s gc lgc) in
          if c == b'#' && get_or cs 0 0 == b'['
          then (if end == length style then some (s, gc) else styled)
          else plain

      -- `screen_write_cnputs`
      unfoldable pub cnputs : Screen → List ℕ → Written
      unfolding cnputs_loop
      cnputs s msg = cnputs_loop (length msg) msg 0 s gc

  -- The inner loop of `screen_write_copy`, of `n` cells of a line from column `xx` on. The bytes of a
  -- cell behind the end of `utf8data` have no value.
  abbrev pub cell_at : GridLine → ℕ → GridCell
  cell_at gl xx = get_or gl.cells xx default_cell

  abbrev pub utf8_at : Option GridUtf8 → GridUtf8
  utf8_at none = unset
  utf8_at (some gu) = gu

  -- "Reinject the UTF-8 sequence."
  abbrev pub reinjected : GridLine → ℕ → Option (Option Utf8Data)
  reinjected gl xx =
      let gu = utf8_at (get_or gl.utf8 xx none) in
      if is_utf8 (cell_at gl xx)
      then (copy gu utf8_size >>= λ bytes.
          some (some (record { bytes = bytes; size = length bytes; width = gu.width })))
      else some none

  unfoldable pub copy_cells : GridLine → ℕ → ℕ → Screen → Option Screen
  copy_cells gl xx zero s = some s
  copy_cells gl xx (suc n) s = reinjected gl xx >>= λ ud.
      write_cell unset s (cell_at gl xx) ud >>= λ t. copy_cells gl (xx + 1) n t

  -- One round of the outer loop.
  unfoldable pub copy_line : Grid → ℕ → ℕ → ℕ → Screen → Option Screen
  unfolding copy_cells
  copy_line gd px nx yy s =
      let gl = line gd yy in
      let cellsize = length gl.cells in
      let to_end = add_uint px nx == gd.sx && ltb cellsize (add_uint px nx) in
      let ax = min px cellsize in
      let bx = if to_end then cellsize else add_uint px nx in
      if ltb yy (add_uint gd.hsize gd.sy)
      then (copy_cells gl ax (bx - ax) s >>= λ t. some (if to_end then clear_end_of_line t else t))
      else some (clear_line s)

  unfoldable pub copy_rows : Grid → ℕ → ℕ → ℕ → ℕ → ℕ → ℕ → Screen → Option Screen
  unfolding copy_line
  copy_rows gd px nx cx yy cy zero s = some s
  copy_rows gd px nx cx yy cy (suc ny) s = copy_line gd px nx yy s >>= λ t.
      copy_rows gd px nx cx (yy + 1) (add_uint cy 1) ny (cursor_move t cx (add_uint cy 1))

  -- `screen_write_copy`
  unfoldable pub copy_screen : Screen → Screen → ℕ → ℕ → ℕ → ℕ → Option Screen
  unfolding copy_rows
  copy_screen s src px py nx ny = copy_rows src.grid px nx s.cx py s.cy ny s
