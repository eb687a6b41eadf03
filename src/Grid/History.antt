-- ===== src/Grid/History.antt =====
-- grid.c: collecting the history and scrolling lines into it.
use tmux_cvs_archived.Prelude.{
  ℕ, ◌+◌, ◌-◌, ◌/◌, ◌≤◌, ◌<◌, ◌≡◌, ◌&&◌, List, [], ◌∷◌, ◌++◌, ltb, leb, ◌==◌, if◌then◌else◌, length,
  get_or, set, take, memmove, arith, length-set, max, get_or-set, get_or_past, get_or-take,
  length-take, length-append, get_or-append, length-memmove, get_or-memmove,
}
use tmux_cvs_archived.Grid.{
  Grid, GridLine, empty_line, line, collect_history, scroll_history, scroll_history_region,
}
use tmux_cvs_archived.Grid.Moves.{
  IsAllocated, line-move_lines, move_lines-SameFrame, length-move_lines,
}

-- The number of lines that `grid_collect_history` drops.
abbrev pub tenth : ℕ → ℕ
tenth hlimit = max 1 (hlimit / 10)

-- Where there is a history at its limit, `grid_collect_history` drops its oldest tenth, one line
-- at least: the other lines move up by as many, and the history is as much shorter.
pub collect_history_at_limit :
    (g : Grid) (i : ℕ)
    → IsAllocated g
    → 0 < g.hlimit
    → g.hlimit ≤ g.hsize
    → i + tenth g.hlimit < g.hsize + g.sy
    → ((collect_history g).hsize + tenth g.hlimit ≡ g.hsize)
      × (line (collect_history g) i ≡ line g (i + tenth g.hlimit))
unfolding collect_history
collect_history_at_limit g i v p h b =
    let k = tenth g.hlimit in
    let n = g.hsize + g.sy - k in
    ground (arith, line-move_lines g 0 k n i v, move_lines-SameFrame g 0 k n)

pub collect_history-IsAllocated :
    (g : Grid) → IsAllocated g → 0 < g.hlimit → IsAllocated (collect_history g)
unfolding collect_history
collect_history-IsAllocated g v p =
    let k = tenth g.hlimit in
    let n = g.hsize + g.sy - k in
    ground (arith, length-move_lines g 0 k n v, move_lines-SameFrame g 0 k n)

-- The lines in use and one more.
abbrev grown : Grid → List GridLine
grown g = take (g.hsize + g.sy) g.lines ++ (empty_line ∷ [])

length-grown : (g : Grid) → IsAllocated g → length (grown g) ≡ g.hsize + g.sy + 1
length-grown g v =
    let yy = g.hsize + g.sy in
    omega (arith, length-append (take yy g.lines) (empty_line ∷ []), length-take yy g.lines)

get_or-grown :
    (g : Grid) (i : ℕ)
    → IsAllocated g
    → get_or (grown g) i empty_line ≡ (if ltb i (g.hsize + g.sy) then line g i else empty_line)
get_or-grown g i v =
    let yy = g.hsize + g.sy in
    ground (
      arith,
      get_or-append (take yy g.lines) (empty_line ∷ []) i empty_line,
      length-take yy g.lines,
      get_or-take yy g.lines i empty_line,
      get_or_past (empty_line ∷ []) (i - yy) empty_line,
    )

-- `grid_scroll_history` keeps every line and adds an empty one.
pub line-scroll_history :
    (g : Grid) (i : ℕ)
    → IsAllocated g
    → line (scroll_history g) i ≡ (if ltb i (g.hsize + g.sy) then line g i else empty_line)
unfolding scroll_history
line-scroll_history g i v = ground (arith, get_or-grown g i v)

-- The lines after `grid_scroll_history_region`: the region's first line is the newest of the history.
abbrev pub region_line : Grid → ℕ → ℕ → ℕ → GridLine
region_line g upper lower i =
    if ltb i g.hsize
    then line g i
    else if i == g.hsize
    then line g upper
    else if leb i upper
    then line g (i - 1)
    else if leb i lower
    then line g i
    else if i == lower + 1
    then empty_line
    else line g (i - 1)

-- The screen moved down by one, to free a line behind the history.
abbrev down : Grid → List GridLine
down g = memmove (grown g) (g.hsize + 1) g.hsize g.sy

get_or-down :
    (g : Grid) (i : ℕ)
    → IsAllocated g
    → i ≤ g.hsize + g.sy
    → get_or (down g) i empty_line
      ≡ (if leb i g.hsize then get_or (grown g) i empty_line else line g (i - 1))
get_or-down g i v b = ground (
  arith,
  get_or-memmove (grown g) (g.hsize + 1) g.hsize g.sy i empty_line,
  length-grown g v,
  get_or-grown g (i - 1) v,
)

length-down : (g : Grid) → IsAllocated g → length (down g) ≡ g.hsize + g.sy + 1
length-down g v =
    omega (arith, length-grown g v, length-memmove (grown g) (g.hsize + 1) g.hsize g.sy)

-- The region moved up over its first line, in an array.
abbrev raised : List GridLine → ℕ → ℕ → ℕ → List GridLine
raised ls top upper lower =
    set
      (memmove (set ls top (get_or ls (upper + 1) empty_line)) (upper + 1) (upper + 2)
        (lower - upper))
      (lower + 1) empty_line

get_or-up :
    (ls : List GridLine) (top upper n i : ℕ) (l : GridLine)
    → top ≤ upper
    → upper + 2 + n ≤ length ls
    → get_or (memmove (set ls top l) (upper + 1) (upper + 2) n) i empty_line ≡ (
        if i == top
        then l
        else if leb (upper + 1) i && ltb i (upper + 1 + n)
        then get_or ls (i + 1) empty_line
        else get_or ls i empty_line)
get_or-up ls top upper n i l h b = ground (
  arith,
  get_or-memmove (set ls top l) (upper + 1) (upper + 2) n i empty_line,
  length-set ls top l,
  get_or-set ls top l i empty_line,
  get_or-set ls top l (upper + 2 + (i - (upper + 1))) empty_line,
)

get_or-raised :
    (ls : List GridLine) (top upper lower i : ℕ)
    → top ≤ upper
    → upper ≤ lower
    → lower + 1 < length ls
    → get_or (raised ls top upper lower) i empty_line ≡ (
        if i == top
        then get_or ls (upper + 1) empty_line
        else if leb i upper
        then get_or ls i empty_line
        else if leb i lower
        then get_or ls (i + 1) empty_line
        else if i == lower + 1
        then empty_line
        else get_or ls i empty_line)
get_or-raised ls top upper lower i h k b =
    let l = get_or ls (upper + 1) empty_line in
    let up = memmove (set ls top l) (upper + 1) (upper + 2) (lower - upper) in
    ground (
      arith,
      get_or-set up (lower + 1) empty_line i empty_line,
      get_or-up ls top upper (lower - upper) i l,
      length-memmove (set ls top l) (upper + 1) (upper + 2) (lower - upper),
      length-set ls top l,
    )

scroll_history_region-in_use :
    (g : Grid) (upper lower : ℕ)
    → IsAllocated g
    → g.hsize ≤ upper
    → upper ≤ lower
    → lower < g.hsize + g.sy
    → scroll_history_region g upper lower
      ≡ record g { lines = raised (down g) g.hsize upper lower; hsize = g.hsize + 1 }
unfolding scroll_history_region
scroll_history_region-in_use g upper lower v h k b = ground arith

-- Inside the screen `grid_scroll_history_region` moves the region's first line to the history, and
-- the lines of the region behind it up by one; all other lines stay what they were.
pub line-scroll_history_region :
    (g : Grid) (upper lower i : ℕ)
    → IsAllocated g
    → g.hsize ≤ upper
    → upper ≤ lower
    → lower < g.hsize + g.sy
    → i ≤ g.hsize + g.sy
    → line (scroll_history_region g upper lower) i ≡ region_line g upper lower i
line-scroll_history_region g upper lower i v h k b c = ground (
  arith,
  scroll_history_region-in_use g upper lower v h k b,
  get_or-raised (down g) g.hsize upper lower i,
  length-down g v,
  get_or-down g i v,
  get_or-down g (i + 1) v,
  get_or-down g (upper + 1) v,
  get_or-grown g i v,
)

pub scroll_history_frame :
    (g : Grid)
    → IsAllocated g
    → ((scroll_history g).hsize ≡ g.hsize + 1)
      × ((scroll_history g).sy ≡ g.sy)
      × (length (scroll_history g).lines ≡ g.hsize + g.sy + 1)
unfolding scroll_history
scroll_history_frame g v = ground (arith, length-grown g v)

pub scroll_history_region_frame :
    (g : Grid) (upper lower : ℕ)
    → IsAllocated g
    → g.hsize ≤ upper
    → upper ≤ lower
    → lower < g.hsize + g.sy
    → ((scroll_history_region g upper lower).hsize ≡ g.hsize + 1)
      × ((scroll_history_region g upper lower).sy ≡ g.sy)
      × (length (scroll_history_region g upper lower).lines ≡ g.hsize + g.sy + 1)
scroll_history_region_frame g upper lower v h k b =
    let l = get_or (down g) (upper + 1) empty_line in
    let up = memmove (set (down g) g.hsize l) (upper + 1) (upper + 2) (lower - upper) in
    ground (
      arith,
      scroll_history_region-in_use g upper lower v h k b,
      length-set up (lower + 1) empty_line,
      length-memmove (set (down g) g.hsize l) (upper + 1) (upper + 2) (lower - upper),
      length-set (down g) g.hsize l,
      length-down g v,
    )
