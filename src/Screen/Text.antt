-- ===== src/Screen/Text.antt =====
-- screen-write.c: texts, with styles embedded in them, and copies of other screens. A text is what
-- `xvasprintf` made of the format; its loops take a byte at least in each round, so its length is fuel.
use Prim.Native.Nat.{bit_and, bit_or}
use tmux_cvs_archived.Prelude.{
  ℕ, zero, suc, ◌+◌, ◌-◌, ◌%◌, Bool, ◌&&◌, ◌||◌, Option, none, some, ◌>>=◌, List, [], ◌∷◌, ltb,
  ◌==◌, if◌then◌else◌, length, take, drop, get_or, codes, case_eq, starts_with_case, one_of,
  strcspn, strspn,
}
use tmux_cvs_archived.Utf8.{Utf8Data, Tree, open_utf8, append}
use tmux_cvs_archived.Grid.{GridCell}
use tmux_cvs_archived.Colour as Colour
use tmux_cvs_archived.Attributes as Attributes

-- What a round reads: a UTF-8 character or a byte, and what is behind it, or the start of a
-- character whose other bytes are missing.
pub data Piece : Type 0 where
  wide : Utf8Data → List ℕ → Piece
  single : ℕ → List ℕ → Piece
  cut_off : Piece

module _ (root : Tree) where
  -- The calls of `utf8_append` behind the first byte.
  unfoldable pub collect : Utf8Data → List ℕ → Option (Utf8Data × List ℕ)
  collect ud [] = none
  collect ud (b ∷ bs) = append root ud b >>= λ r.
      let further = collect (r.1) bs in if r.0 then further else some (r.1, bs)

  abbrev pub wide_piece : Option (Utf8Data × List ℕ) → Option Piece
  wide_piece none = none
  wide_piece (some (ud, rest)) = some (wide ud rest)

  abbrev pub opened_piece : ℕ → List ℕ → Option Utf8Data → Option Piece
  opened_piece c rest none = some (single c rest)
  opened_piece c rest (some ud) =
      if ltb (length rest) (ud.size - 1) then some cut_off else wide_piece (collect ud rest)

  -- The test of the first byte, which the three loops share; `none` is `fatalx`.
  unfoldable pub next_piece : Bool → ℕ → List ℕ → Option Piece
  unfolding collect
  next_piece utf8flag c rest =
      if utf8flag && ltb 0x7f c
      then opened_piece c rest (open_utf8 root c)
      else some (single c rest)

  -- `screen_write_strlen`, from `size` on.
  unfoldable pub strlen : ℕ → Bool → List ℕ → ℕ → Option ℕ
  unfolding next_piece
  strlen fuel utf8flag [] size = some size
  strlen zero utf8flag (c ∷ cs) size = none
  strlen (suc fuel) utf8flag (c ∷ cs) size = next_piece utf8flag c cs >>= λ piece. elim piece [
    | wide ud rest ↦ strlen fuel utf8flag rest (size + ud.width)
    | single b rest ↦ strlen fuel utf8flag rest (size + 1)
    | cut_off ↦ some size
  ]

-- The loop of `screen_write_cstrlen`: the text without its styles.
unfoldable pub strip : ℕ → List ℕ → List ℕ
unfolding strcspn one_of
strip zero text = []
strip (suc fuel) [] = []
strip (suc fuel) (c ∷ cs) =
    let behind = drop (strcspn (c ∷ cs) (codes "]") + 1) (c ∷ cs) in
    let skipped = strip fuel behind in
    let kept = c ∷ strip fuel cs in if c == b'#' && get_or cs 0 0 == b'[' then skipped else kept

-- `screen_write_cstrlen`
unfoldable pub cstrlen : Tree → Bool → List ℕ → Option ℕ
unfolding strip strlen
cstrlen root utf8flag msg =
    let plain = strip (length msg) msg in strlen root (length plain) utf8flag plain 0

-- The part of a word in a style, as `screen_write_parsestyle` reads it, for the cell so far.
module _ (strtonum : List ℕ → ℕ → ℕ → Option ℕ) (defgc : GridCell) where
  -- `val & 0x100` sets the flag, any other colour but 8 clears it, and 8 is the default.
  abbrev pub style_fg : ℕ → GridCell → GridCell
  style_fg val gc =
      if val == 8
      then record gc { fg = defgc.fg }
      else if bit_and val 0x100 == 0
      then record gc { flags = bit_and gc.flags (0xff - 0x1); fg = val % 256 }
      else record gc { flags = bit_or gc.flags 0x1; fg = val % 256 }

  abbrev pub style_bg : ℕ → GridCell → GridCell
  style_bg val gc =
      if val == 8
      then record gc { bg = defgc.bg }
      else if bit_and val 0x100 == 0
      then record gc { flags = bit_and gc.flags (0xff - 0x2); bg = val % 256 }
      else record gc { flags = bit_or gc.flags 0x2; bg = val % 256 }

  abbrev pub style_colour : ℕ → ℕ → GridCell → Option GridCell
  style_colour first val gc =
      if first == b'f' || first == b'F'
      then some (style_fg val gc)
      else if first == b'b' || first == b'B'
      then some (style_bg val gc)
      else none

  -- One word; `none` where the function returns without a change.
  unfoldable pub style_word : List ℕ → GridCell → Option GridCell
  style_word tmp gc =
      if case_eq tmp (codes "default")
      then some (record gc { fg = defgc.fg; bg = defgc.bg; attr = defgc.attr })
      else if ltb 3 (length tmp) && starts_with_case (drop 1 tmp) (codes "g=")
      then (Colour.from_string strtonum (drop 3 tmp) >>= λ val.
          style_colour (get_or tmp 0 0) val gc)
      else if ltb 2 (length tmp) && starts_with_case tmp (codes "no")
      then (Attributes.from_string (drop 2 tmp) >>= λ val.
          some (record gc { attr = bit_and gc.attr (0xffffffff - val) }))
      else (Attributes.from_string tmp >>= λ val. some (record gc { attr = bit_or gc.attr val }))

  abbrev pub style_delimiters : List ℕ
  style_delimiters = codes " ,"

  -- The loop: each round takes a byte at least, for the text is not empty.
  unfoldable pub style_words : ℕ → List ℕ → GridCell → Option GridCell
  unfolding style_word strcspn strspn one_of
  style_words zero text gc = none
  style_words (suc fuel) text gc =
      let end = strcspn text style_delimiters in
      if ltb 31 end
      then none
      else style_word (take end text) gc >>= λ next.
          let rest = drop (end + strspn (drop end text) style_delimiters) text in
          let further = style_words fuel rest next in
          if length rest == 0 then some next else further

  abbrev pub or_cell : GridCell → Option GridCell → GridCell
  or_cell gc none = gc
  or_cell gc (some next) = next

  -- `screen_write_parsestyle`
  unfoldable pub parse_style : GridCell → List ℕ → GridCell
  unfolding style_words one_of
  parse_style gc text =
      if length text == 0 || one_of style_delimiters (get_or text (length text - 1) 0)
      then gc
      else or_cell gc (style_words (suc (length text)) text gc)
