-- ===== src/Screen/Sound/Lines.antt =====
-- screen-write.c: the operations on lines and on the cursor's line keep a screen in order.
use tmux_cvs_archived.Prelude.{
  ℕ, zero, suc, ◌+◌, ◌<◌, Bool, true, false, ltb, leb, if◌then◌else◌, arith, add_uint, sub_uint,
  Bool-cases, inl, inr,
}
use tmux_cvs_archived.Grid.{Grid, default_cell}
use tmux_cvs_archived.Grid.Sizes.{Keeps, Keeps-refl, Keeps-trans, set_line-Keeps}
use tmux_cvs_archived.Grid.View.{view_set_cell, view_clear_history}
use tmux_cvs_archived.Grid.View.Sizes.{
  Grows-le, view_set_cell-Keeps, view_clear-Keeps, scroll_region_down-Keeps, insert_lines-Keeps,
  insert_lines_region-Keeps, delete_lines-Keeps, delete_lines_region-Keeps, insert_cells-Keeps,
  delete_cells-Keeps, scroll_region_up-Grows, view_clear_history-Grows,
}
use tmux_cvs_archived.Screen.{Screen, size_x, size_y}
use tmux_cvs_archived.Screen.Lines.{
  with_grid, fill_row, fill_rows, alignment_test, insert_character, delete_character,
  outside_region, insert_line, delete_line, clear_line, clear_end_of_line, clear_start_of_line,
  reverse_index, mark_wrapped, line_feed, clear_end_of_screen, clear_start_of_screen, clear_screen,
}
use tmux_cvs_archived.Screen.Sound.{
  IsSound, IsSound-IsAllocated, IsSound-le, with_grid-Keeps, with_grid-Grows,
}

fill_row-Keeps : (g : Grid) (xx yy n : ℕ) → Keeps g (fill_row g xx yy n)
unfolding fill_row
fill_row-Keeps g xx yy zero = Keeps-refl g
fill_row-Keeps g xx yy (suc n) =
    Keeps-trans (view_set_cell-Keeps g xx yy _)
      (fill_row-Keeps (view_set_cell g xx yy (record default_cell { byte = b'E' })) (xx + 1) yy n)

fill_rows-Keeps : (g : Grid) (yy n : ℕ) → Keeps g (fill_rows g yy n)
unfolding fill_rows
fill_rows-Keeps g yy zero = Keeps-refl g
fill_rows-Keeps g yy (suc n) =
    Keeps-trans (fill_row-Keeps g 0 yy g.sx) (fill_rows-Keeps (fill_row g 0 yy g.sx) (yy + 1) n)

-- A test decides whether the grid is replaced by one of the same sizes.
pub if-IsSound :
    {room height : ℕ} {t u : Screen} (b : Bool)
    → IsSound room height t
    → IsSound room height u
    → IsSound room height (if b then t else u)
if-IsSound true p q = p
if-IsSound false p q = q

pub if-Keeps : {g h k : Grid} (b : Bool) → Keeps g h → Keeps g k → Keeps g (if b then h else k)
if-Keeps true p q = p
if-Keeps false p q = q

last-inside :
    {room height : ℕ} (s : Screen) → IsSound room height s → sub_uint (size_y s) 1 < s.grid.sy
last-inside s v = ground (arith, v.on_line, v.spare)

module _ {room height : ℕ} (s : Screen) (v : IsSound room height s) where
  pub alignment_test-IsSound : IsSound room height (alignment_test s)
  unfolding alignment_test
  alignment_test-IsSound =
      let w =
        with_grid-Keeps s (fill_rows s.grid 0 s.grid.sy) v (fill_rows-Keeps s.grid 0 s.grid.sy) in
      let last = last-inside s v in let k = fill_rows-Keeps s.grid 0 s.grid.sy in ground arith

  pub insert_character-IsSound : (nx : ℕ) → IsSound room height (insert_character s nx)
  unfolding insert_character
  insert_character-IsSound nx =
      if-IsSound _ v (if-IsSound _ (with_grid-Keeps s _ v (insert_cells-Keeps s.grid _ _ _)) v)

  pub delete_character-IsSound : (nx : ℕ) → IsSound room height (delete_character s nx)
  unfolding delete_character
  delete_character-IsSound nx =
      if-IsSound _ v (if-IsSound _ (with_grid-Keeps s _ v (delete_cells-Keeps s.grid _ _ _)) v)

  pub clear_line-IsSound : IsSound room height (clear_line s)
  unfolding clear_line
  clear_line-IsSound = with_grid-Keeps s _ v (view_clear-Keeps s.grid _ _ _ _)

  pub clear_end_of_line-IsSound : IsSound room height (clear_end_of_line s)
  unfolding clear_end_of_line
  clear_end_of_line-IsSound =
      if-IsSound _ (with_grid-Keeps s _ v (view_clear-Keeps s.grid _ _ _ _)) v

  pub clear_start_of_line-IsSound : IsSound room height (clear_start_of_line s)
  unfolding clear_start_of_line
  clear_start_of_line-IsSound =
      if-IsSound _ (with_grid-Keeps s _ v (view_clear-Keeps s.grid _ _ _ _))
        (with_grid-Keeps s _ v (view_clear-Keeps s.grid _ _ _ _))

  pub clear_start_of_screen-IsSound : IsSound room height (clear_start_of_screen s)
  unfolding clear_start_of_screen
  clear_start_of_screen-IsSound =
      let above =
        if-Keeps (ltb 0 s.cy) (view_clear-Keeps s.grid 0 0 (size_x s) s.cy) (Keeps-refl s.grid) in
      if-IsSound _ (with_grid-Keeps s _ v (Keeps-trans above (view_clear-Keeps _ _ _ _ _)))
        (with_grid-Keeps s _ v (Keeps-trans above (view_clear-Keeps _ _ _ _ _)))

  pub insert_line-IsSound : (ny : ℕ) → IsSound room height (insert_line s ny)
  unfolding insert_line
  insert_line-IsSound ny = elim (Bool-cases (outside_region s)) [
    | inl out ↦ rw out (
        if-IsSound _ v (
          with_grid-Keeps s _ v (
            insert_lines-Keeps s.grid _ _ (IsSound-IsAllocated v)
              (ground (arith, v.on_line, v.spare)))))
    | inr within ↦ rw within (
        if-IsSound _ v (
          with_grid-Keeps s _ v (
            insert_lines_region-Keeps s.grid _ _ _ (IsSound-IsAllocated v)
              (ground (arith, v.on_line, v.spare, v.inside)) v.inside)))
  ]

  pub delete_line-IsSound : (ny : ℕ) → IsSound room height (delete_line s ny)
  unfolding delete_line
  delete_line-IsSound ny = elim (Bool-cases (outside_region s)) [
    | inl out ↦ rw out (
        if-IsSound _ v (
          with_grid-Keeps s _ v (
            delete_lines-Keeps s.grid _ _ (IsSound-IsAllocated v)
              (ground (arith, v.on_line, v.spare)))))
    | inr within ↦ rw within (
        if-IsSound _ v (
          with_grid-Keeps s _ v (
            delete_lines_region-Keeps s.grid _ _ _ (IsSound-IsAllocated v)
              (ground (arith, v.on_line, v.spare, v.inside)) v.inside)))
  ]

  up-IsSound : IsSound room height (if ltb 0 s.cy then record s { cy = sub_uint s.cy 1 } else s)
  up-IsSound = ground arith

  pub reverse_index-IsSound : IsSound room height (reverse_index s)
  unfolding reverse_index
  reverse_index-IsSound =
      if-IsSound _
        (with_grid-Keeps s _ v
          (scroll_region_down-Keeps s.grid _ _ (IsSound-IsAllocated v) v.ordered v.inside))
        up-IsSound

down-IsSound :
    {room height : ℕ} (s : Screen)
    → IsSound room height s
    → IsSound room height
        (if ltb s.cy (sub_uint (size_y s) 1) then record s { cy = add_uint s.cy 1 } else s)
down-IsSound s v = ground (arith, last-inside s v)

-- A line feed makes the history one line longer at most.
pub line_feed-IsSound :
    {room height : ℕ} (s : Screen) (wrapped : Bool)
    → IsSound (room + 1) height s
    → IsSound room height (line_feed s wrapped)
unfolding line_feed
line_feed-IsSound {room} {height} s wrapped v =
    let marked = with_grid-Keeps s (mark_wrapped s wrapped) v (set_line-Keeps s.grid _ _) in
    let scrolled = with_grid-Grows 1 room height (with_grid s (mark_wrapped s wrapped)) _ marked (
      scroll_region_up-Grows _ _ _ (IsSound-IsAllocated marked) marked.limited marked.ordered
        marked.inside) in
    let less = IsSound-le room (omega arith) marked in if-IsSound _ scrolled (down-IsSound _ less)

-- Clearing the screen makes it longer by the screen's lines at most.
module _ {room height : ℕ} (s : Screen) (v : IsSound (room + height) height s) where
  cleared-IsSound : IsSound room height (with_grid s (view_clear_history s.grid))
  cleared-IsSound = with_grid-Grows height room height s _ v (
      Grows-le s.grid.sy height (omega (arith, v.tall))
        (view_clear_history-Grows s.grid (IsSound-IsAllocated v) (omega (arith, v.spare, v.tall))))

  less-IsSound : IsSound room height s
  less-IsSound = IsSound-le room (omega arith) v

  pub clear_screen-IsSound : IsSound room height (clear_screen s)
  unfolding clear_screen
  clear_screen-IsSound =
      if-IsSound _ cleared-IsSound
        (with_grid-Keeps s _ less-IsSound (view_clear-Keeps s.grid _ _ _ _))

  pub clear_end_of_screen-IsSound : IsSound room height (clear_end_of_screen s)
  unfolding clear_end_of_screen
  clear_end_of_screen-IsSound =
      let first =
        if-Keeps (leb s.cx (sub_uint (size_x s) 1))
          (view_clear-Keeps s.grid s.cx s.cy (sub_uint (size_x s) s.cx) 1) (Keeps-refl s.grid) in
      if-IsSound _ cleared-IsSound
        (with_grid-Keeps s _ less-IsSound (Keeps-trans first (view_clear-Keeps _ _ _ _ _)))
