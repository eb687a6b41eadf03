-- ===== src/Grid/View/Scroll.antt =====
-- grid-view.c: scrolling a region of the screen.
use Prim.Native.Nat.{bit_and}
use tmux_cvs_archived.Prelude.{
  ℕ, ◌+◌, ◌-◌, ◌^◌, ◌≤◌, ◌<◌, ◌≡◌, false, ◌&&◌, ltb, leb, ◌==◌, if◌then◌else◌, length, arith, inl,
  inr, Bool-cases,
}
use tmux_cvs_archived.Grid.{
  Grid, GridLine, empty_line, line, collect_history, scroll_history, scroll_history_region,
  grid_history,
}
use tmux_cvs_archived.Grid.Moves.{
  IsAllocated, line-move_lines, move_lines-SameFrame, length-move_lines,
}
use tmux_cvs_archived.Grid.History.{
  tenth, collect_history_at_limit, line-scroll_history, region_line, line-scroll_history_region,
  scroll_history_frame, scroll_history_region_frame, collect_history-IsAllocated,
}
use tmux_cvs_archived.Grid.View.{scroll_up_history, scroll_region_up, scroll_region_down}

-- The lines in use are allocated, the history is within its limit, and no line number wraps.
pub record IsValid (g : Grid) : Type 0 where
  pub allocated : g.hsize + g.sy ≤ length g.lines
  pub limited : g.hsize ≤ g.hlimit
  pub small : g.hlimit + g.sy + 1 < 2 ^ 32

pub IsValid-IsAllocated : {g : Grid} → IsValid g → IsAllocated g
IsValid-IsAllocated v = omega arith

-- Line `v` of the visible part.
abbrev pub view_line : Grid → ℕ → GridLine
view_line g v = line g (g.hsize + v)

-- Line `v` of a screen after lines `upper` to `lower` have moved up by one.
abbrev pub moved_up : Grid → ℕ → ℕ → ℕ → GridLine
moved_up g upper lower v =
    if ltb v upper
    then view_line g v
    else if ltb v lower
    then view_line g (v + 1)
    else if v == lower
    then empty_line
    else view_line g v

-- What both branches with a history do.
pub record ScrolledUp (g h : Grid) (upper lower : ℕ) : Type 0 where
  pub hsize : h.hsize ≡ g.hsize + 1
  pub sy : h.sy ≡ g.sy
  pub newest : line h g.hsize ≡ view_line g upper
  pub allocated : length h.lines ≡ g.hsize + g.sy + 1

scroll_up_history-ScrolledUp :
    (g : Grid) (upper lower : ℕ)
    → IsAllocated g
    → upper ≤ lower
    → lower < g.sy
    → ScrolledUp g (scroll_up_history g upper lower) upper lower
unfolding scroll_up_history
scroll_up_history-ScrolledUp g upper lower v h k = ground (
  arith,
  scroll_history_frame g v,
  scroll_history_region_frame g (g.hsize + upper) (g.hsize + lower) v,
  line-scroll_history g g.hsize v,
  line-scroll_history_region g (g.hsize + upper) (g.hsize + lower) g.hsize v,
)

line-scroll_up_history :
    (g : Grid) (upper lower i : ℕ)
    → IsAllocated g
    → upper ≤ lower
    → lower < g.sy
    → i ≤ g.hsize + g.sy
    → line (scroll_up_history g upper lower) i ≡ region_line g (g.hsize + upper) (g.hsize + lower) i
unfolding scroll_up_history
line-scroll_up_history g upper lower i v h k b = ground (
  arith,
  line-scroll_history g i v,
  line-scroll_history_region g (g.hsize + upper) (g.hsize + lower) i v,
)

-- Dropping history moves the screen with its lines, and leaves room for one line more.
pub collect_history_view :
    (g : Grid)
    → IsValid g
    → 0 < g.hlimit
    → ((collect_history g).hsize < g.hlimit)
      × ((collect_history g).sy ≡ g.sy)
      × ((collect_history g).hlimit ≡ g.hlimit)
unfolding collect_history
collect_history_view g v p =
    let k = tenth g.hlimit in ground (arith, move_lines-SameFrame g 0 k (g.hsize + g.sy - k))

view_line-collect_history :
    (g : Grid) (v : ℕ)
    → IsValid g
    → 0 < g.hlimit
    → v < g.sy
    → view_line (collect_history g) v ≡ view_line g v
view_line-collect_history g v w p b = elim (Bool-cases (ltb g.hsize g.hlimit)) [
  | inl room ↦ unfold collect_history in rw room
  | inr full ↦
      let k = tenth g.hlimit in
      ground (arith, collect_history_at_limit g (g.hsize - k + v) (IsValid-IsAllocated w) p)
]

-- In a region of at least two lines, lines `upper` to `lower` of the screen move up by one, and an empty line comes in at `lower`: with
-- and without a history, for the whole screen or a part of it, at the limit of the history or not.
pub view_line-scroll_region_up :
    (g : Grid) (upper lower v : ℕ)
    → IsValid g
    → 0 < g.hlimit
    → upper < lower
    → lower < g.sy
    → v < g.sy
    → view_line (scroll_region_up g upper lower) v ≡ moved_up g upper lower v
unfolding scroll_region_up
view_line-scroll_region_up g upper lower v w p h k b =
    elim (Bool-cases (bit_and g.flags grid_history == 0)) [
      | inl plain ↦
          let py = g.hsize + upper + 1 in
          rw plain (
            ground (
              arith,
              IsValid-IsAllocated w,
              line-move_lines g (g.hsize + upper) py (lower - upper) (g.hsize + v),
              move_lines-SameFrame g (g.hsize + upper) py (lower - upper),
            ))
      | inr kept ↦
          let c = collect_history g in
          let a = collect_history-IsAllocated g (IsValid-IsAllocated w) p in
          rw kept (
            ground (
              arith,
              collect_history_view g w p,
              line-scroll_up_history c upper lower (c.hsize + 1 + v) a (omega arith),
              scroll_up_history-ScrolledUp c upper lower a (omega arith),
              view_line-collect_history g v w p,
              view_line-collect_history g (v + 1) w p,
            ))
    ]

collect_history-limits : (g : Grid) → IsValid g → 0 < g.hlimit → IsAllocated (collect_history g)
collect_history-limits g v p = collect_history-IsAllocated g (IsValid-IsAllocated v) p

hlimit-scroll_up_history :
    (g : Grid) (upper lower : ℕ) → (scroll_up_history g upper lower).hlimit ≡ g.hlimit
unfolding scroll_up_history scroll_history scroll_history_region
hlimit-scroll_up_history g upper lower = ground arith

-- Scrolling keeps every line in use allocated, and the history within its limit.
scroll_region_up-IsValid :
    (g : Grid) (upper lower : ℕ)
    → IsValid g
    → 0 < g.hlimit
    → upper ≤ lower
    → lower < g.sy
    → IsValid (scroll_region_up g upper lower)
unfolding scroll_region_up
scroll_region_up-IsValid g upper lower w p h k =
    elim (Bool-cases (bit_and g.flags grid_history == 0)) [
      | inl plain ↦
          let py = g.hsize + upper + 1 in
          rw plain (
            ground (
              arith,
              length-move_lines g (g.hsize + upper) py (lower - upper) (IsValid-IsAllocated w),
              move_lines-SameFrame g (g.hsize + upper) py (lower - upper),
            ))
      | inr kept ↦
          let c = collect_history g in
          rw kept (
            ground (
              arith,
              collect_history_view g w p,
              hlimit-scroll_up_history c upper lower,
              scroll_up_history-ScrolledUp c upper lower (collect_history-limits g w p),
            ))
    ]

-- On a grid with a history the first line of the region becomes the newest line of the history.
scroll_region_up-newest :
    (g : Grid) (upper lower : ℕ)
    → IsValid g
    → 0 < g.hlimit
    → upper ≤ lower
    → lower < g.sy
    → (bit_and g.flags grid_history == 0) ≡ false
    → let h = scroll_region_up g upper lower in
      (0 < h.hsize) × (line h (h.hsize - 1) ≡ view_line g upper)
unfolding scroll_region_up
scroll_region_up-newest g upper lower w p h k kept =
    let c = collect_history g in
    rw kept (
      ground (
        arith,
        collect_history_view g w p,
        view_line-collect_history g upper w p,
        scroll_up_history-ScrolledUp c upper lower (collect_history-limits g w p),
      ))

-- Lines `upper` to `lower` of the screen move down by one, and an empty line comes in at `upper`;
-- the history is not touched.
line-scroll_region_down :
    (g : Grid) (upper lower v : ℕ)
    → IsValid g
    → upper < lower
    → lower < g.sy
    → (view_line (scroll_region_down g upper lower) v ≡ (
        if v == upper
        then empty_line
        else if ltb upper v && leb v lower
        then view_line g (v - 1)
        else view_line g v))
      × (v < g.hsize → line (scroll_region_down g upper lower) v ≡ line g v)
unfolding scroll_region_down
line-scroll_region_down g upper lower v w h k =
    let py = g.hsize + upper in
    (
      ground (
        arith,
        IsValid-IsAllocated w,
        line-move_lines g (py + 1) py (lower - upper) (g.hsize + v),
        move_lines-SameFrame g (py + 1) py (lower - upper),
      ),
      λ old. ground (arith, IsValid-IsAllocated w, line-move_lines g (py + 1) py (lower - upper) v),
    )
