-- ===== src/Grid/View/Edit.antt =====
-- grid-view.c: inserting and deleting lines. Counts that come out negative wrap around here, and the
-- wrapped counts make the last clearing do nothing.
use tmux_cvs_archived.Prelude.{
  ℕ, ◌+◌, ◌-◌, ◌≤◌, ◌<◌, ◌≡◌, ◌&&◌, ◌||◌, ltb, leb, if◌then◌else◌, add_uint, sub_uint, arith,
  Bool-cases, inl, inr,
}
use tmux_cvs_archived.Grid.{Grid, GridLine, empty_line, line, wipe, move_lines, clear_lines}
use tmux_cvs_archived.Grid.Moves.{
  IsAllocated, line-move_lines, move_lines-SameFrame, move_lines-IsAllocated, line-clear_lines,
}
use tmux_cvs_archived.Grid.Blocks.{clear}
use tmux_cvs_archived.Grid.View.Scroll.{IsValid, IsValid-IsAllocated, view_line}
use tmux_cvs_archived.Grid.View.{
  insert_lines, insert_lines_region, delete_lines, delete_lines_region,
}

-- Lines `py` to `lower` after `ny` empty lines have come in at `py`.
abbrev pub lines_inserted : Grid → ℕ → ℕ → ℕ → ℕ → GridLine
lines_inserted g lower py ny v =
    if ltb v py || ltb lower v
    then view_line g v
    else if ltb v (py + ny)
    then empty_line
    else view_line g (v - ny)

-- Lines `py` to `lower` after the first `ny` of them are gone.
abbrev pub lines_deleted : Grid → ℕ → ℕ → ℕ → ℕ → GridLine
lines_deleted g lower py ny v =
    if ltb v py || ltb lower v
    then view_line g v
    else if leb (v + ny) lower
    then view_line g (v + ny)
    else empty_line

-- `grid_view_insert_lines` moves the lines from `py` on down by `ny`, those past the end being lost.
-- It wipes what it has moved away and nothing else: where more lines come in than are left to move,
-- the lines from `sy - ny` to `py + ny - 1` stay as they were.
pub view_line-insert_lines :
    (g : Grid) (py ny v : ℕ)
    → IsValid g
    → py + ny ≤ g.sy
    → v < g.sy
    → view_line (insert_lines g py ny) v ≡ (
        if leb (g.sy - ny) v && ltb v (py + ny)
        then view_line g v
        else lines_inserted g (g.sy - 1) py ny v)
unfolding insert_lines
view_line-insert_lines g py ny v w h b =
    let top = g.hsize + py in
    ground (
      arith,
      IsValid-IsAllocated w,
      line-move_lines g (top + ny) top (g.sy - py - ny) (g.hsize + v),
      move_lines-SameFrame g (top + ny) top (g.sy - py - ny),
    )

-- The clearing behind a move, from line `y` on: `n` lines, or none where the count has wrapped to
-- end at line `y - k`.
clear-full_width : (g : Grid) (y n : ℕ) → 0 < g.sx → clear g 0 y g.sx n ≡ clear_lines g y n
unfolding clear clear_lines
clear-full_width g y n p = ground arith

line-clear_forward :
    (g : Grid) (from to i : ℕ)
    → IsAllocated g
    → 0 < g.sx
    → from ≤ g.hsize + g.sy
    → to ≤ g.hsize + g.sy
    → line (clear g 0 from g.sx (sub_uint to from)) i
      ≡ (if leb from i && ltb i to then empty_line else line g i)
line-clear_forward g from to i v p h k = elim (Bool-cases (leb from to)) [
  | inl up ↦
      ground (
        arith,
        clear-full_width g from (sub_uint to from) p,
        line-clear_lines g from (to - from) i v,
      )
  | inr back ↦
      rw (clear-full_width g from (sub_uint to from) p) (unfold clear_lines wipe in ground arith)
]

line-clear_gap :
    (g : Grid) (y n m i : ℕ)
    → IsAllocated g
    → 0 < g.sx
    → y + n ≤ g.hsize + g.sy
    → y + m ≤ g.hsize + g.sy
    → line (clear g 0 (add_uint y n) g.sx (sub_uint m n)) i
      ≡ (if leb (y + n) i && ltb i (y + m) then empty_line else line g i)
line-clear_gap g y n m i v p h k =
    let same : sub_uint m n ≡ sub_uint (y + m) (y + n) = ground arith in
    let start : add_uint y n ≡ y + n = omega arith in
    rw (same, start) (line-clear_forward g (y + n) (y + m) i v p h k)

hsize-clear : (g : Grid) (px py nx ny : ℕ) → (clear g px py nx ny).hsize ≡ g.hsize
unfolding clear clear_lines
hsize-clear g px py nx ny = ground arith

-- `grid_view_insert_lines_region` clears the rest too: lines `py` to `py + ny - 1` come out empty,
-- and the lines from `py` on move down by `ny` inside the region that ends at `lower`.
view_line-insert_lines_region :
    (g : Grid) (lower py ny v : ℕ)
    → IsValid g
    → 0 < g.sx
    → py + ny ≤ lower + 1
    → lower < g.sy
    → v < g.sy
    → view_line (insert_lines_region g lower py ny) v ≡ lines_inserted g lower py ny v
unfolding insert_lines_region
view_line-insert_lines_region g lower py ny v w p h k b =
    let a = IsValid-IsAllocated w in
    let top = g.hsize + py in
    let ny2 = lower + 1 - py - ny in
    let moved = move_lines g (top + ny) top ny2 in
    let frame = move_lines-SameFrame g (top + ny) top ny2 in
    ground (
      arith,
      a,
      frame,
      hsize-clear moved 0 (add_uint top ny2) moved.sx (sub_uint ny ny2),
      line-clear_gap moved top ny2 ny (g.hsize + v)
          (move_lines-IsAllocated g (top + ny) top ny2 a (omega arith) (omega arith)),
      line-move_lines g (top + ny) top ny2 (g.hsize + v) a,
    )

-- `grid_view_delete_lines_region` takes out `ny` lines at `py`; the lines of the region behind them
-- move up, and empty lines come in at its end.
view_line-delete_lines_region :
    (g : Grid) (lower py ny v : ℕ)
    → IsValid g
    → 0 < g.sx
    → py + ny ≤ lower + 1
    → lower < g.sy
    → v < g.sy
    → view_line (delete_lines_region g lower py ny) v ≡ lines_deleted g lower py ny v
unfolding delete_lines_region
view_line-delete_lines_region g lower py ny v w p h k b =
    let a = IsValid-IsAllocated w in
    let top = g.hsize + py in
    let ny2 = lower + 1 - py - ny in
    let moved = move_lines g top (top + ny) ny2 in
    let frame = move_lines-SameFrame g top (top + ny) ny2 in
    ground (
      arith,
      a,
      frame,
      hsize-clear moved 0 (add_uint top ny2) moved.sx (sub_uint ny ny2),
      line-clear_gap moved top ny2 ny (g.hsize + v)
          (move_lines-IsAllocated g top (top + ny) ny2 a (omega arith) (omega arith)),
      line-move_lines g top (top + ny) ny2 (g.hsize + v) a,
    )

-- `grid_view_delete_lines` does the same for the whole screen below `py`.
view_line-delete_lines :
    (g : Grid) (py ny v : ℕ)
    → IsValid g
    → 0 < g.sx
    → py + ny ≤ g.sy
    → v < g.sy
    → view_line (delete_lines g py ny) v ≡ lines_deleted g (g.sy - 1) py ny v
unfolding delete_lines
view_line-delete_lines g py ny v w p h b =
    let a = IsValid-IsAllocated w in
    let top = g.hsize + py in
    let n = g.sy - py - ny in
    let moved = move_lines g top (top + ny) n in
    let frame = move_lines-SameFrame g top (top + ny) n in
    let from = g.hsize + g.sy - ny in
    ground (
      arith,
      a,
      frame,
      hsize-clear moved 0 from moved.sx (sub_uint (top + ny) from),
      line-clear_forward moved from (top + ny) (g.hsize + v)
          (move_lines-IsAllocated g top (top + ny) n a (omega arith) (omega arith)),
      line-move_lines g top (top + ny) n (g.hsize + v) a,
    )
