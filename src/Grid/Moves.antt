-- ===== src/Grid/Moves.antt =====
-- grid.c: what clearing and moving lines does to each line.
use tmux_cvs_archived.Prelude.{
  ℕ, zero, suc, ◌+◌, ◌-◌, ◌^◌, ◌≤◌, ◌<◌, ◌≡◌, refl, Bool, ◌&&◌, ◌||◌, not, List, ltb, leb, ◌==◌,
  if◌then◌else◌, length, get_or, set, memmove, arith, length-set, get_or-set, get_or_past,
  length-memmove, get_or-memmove,
}
use tmux_cvs_archived.Grid.{
  Grid, GridLine, empty_line, line, wipe, wipe_but, inside, shift_lines, rounds, clear_lines,
  move_lines,
}

-- The lines in use are allocated, and their number leaves room for one more.
pub record IsAllocated (g : Grid) : Type 0 where
  pub allocated : g.hsize + g.sy ≤ length g.lines
  pub small : g.hsize + g.sy + 1 < 2 ^ 32

pub length-wipe : (ls : List GridLine) (py n : ℕ) → length (wipe ls py n) ≡ length ls
unfolding wipe
length-wipe ls py zero = refl
length-wipe ls py (suc n) =
    omega (arith, length-wipe (set ls py empty_line) (py + 1) n, length-set ls py empty_line)

get_or-wipe :
    (ls : List GridLine) (py n i : ℕ)
    → get_or (wipe ls py n) i empty_line
      ≡ (if leb py i && ltb i (py + n) then empty_line else get_or ls i empty_line)
unfolding wipe
get_or-wipe ls py zero i = ground arith
get_or-wipe ls py (suc n) i = ground (
  arith,
  get_or-wipe (set ls py empty_line) (py + 1) n i,
  get_or-set ls py empty_line i empty_line,
  get_or_past ls i empty_line,
)

length-wipe_but :
    (ls : List GridLine) (keep ny yy n : ℕ) → length (wipe_but ls keep ny yy n) ≡ length ls
unfolding wipe_but
length-wipe_but ls keep ny yy zero = refl
length-wipe_but ls keep ny yy (suc n) = ground (
  arith,
  length-wipe_but ls keep ny (yy + 1) n,
  length-wipe_but (set ls yy empty_line) keep ny (yy + 1) n,
  length-set ls yy empty_line,
)

get_or-wipe_step :
    (ls : List GridLine) (keep : Bool) (yy i : ℕ)
    → get_or (if keep then ls else set ls yy empty_line) i empty_line
      ≡ (if yy == i && not keep then empty_line else get_or ls i empty_line)
get_or-wipe_step ls keep yy i =
    ground (arith, get_or-set ls yy empty_line i empty_line, get_or_past ls i empty_line)

get_or-wipe_but :
    (ls : List GridLine) (keep ny yy n i : ℕ)
    → get_or (wipe_but ls keep ny yy n) i empty_line ≡ (
        if leb yy i && (ltb i (yy + n) && not (inside keep ny i))
        then empty_line
        else get_or ls i empty_line)
unfolding wipe_but
get_or-wipe_but ls keep ny yy zero i = ground arith
get_or-wipe_but ls keep ny yy (suc n) i = ground (
  arith,
  get_or-wipe_but (if inside keep ny yy then ls else set ls yy empty_line) keep ny (yy + 1) n i,
  get_or-wipe_step ls (inside keep ny yy) yy i,
)

-- `grid_clear_lines` on lines in use wipes exactly those.
pub line-clear_lines :
    (g : Grid) (py ny i : ℕ)
    → IsAllocated g
    → py + ny ≤ g.hsize + g.sy
    → line (clear_lines g py ny) i ≡ (if leb py i && ltb i (py + ny) then empty_line else line g i)
unfolding clear_lines
line-clear_lines g py ny i v h = ground (arith, get_or-wipe g.lines py (rounds py ny) i)

inside_lem :
    (keep ny i : ℕ) → keep + ny < 2 ^ 32 → inside keep ny i ≡ (leb keep i && ltb i (keep + ny))
unfolding inside
inside_lem keep ny i h = ground arith

length-shift_lines :
    (ls : List GridLine) (dy py ny : ℕ)
    → py + ny ≤ length ls
    → dy + ny ≤ length ls
    → length (shift_lines ls dy py ny) ≡ length ls
unfolding shift_lines
length-shift_lines ls dy py ny h k =
    let freed = wipe_but ls py ny dy (rounds dy ny) in
    omega (
      arith,
      length-wipe_but ls py ny dy (rounds dy ny),
      length-memmove freed dy py ny,
      length-wipe_but (memmove freed dy py ny) dy ny py (rounds py ny),
    )

get_or-freed :
    (ls : List GridLine) (dy py ny i : ℕ)
    → py + ny < 2 ^ 32
    → dy + ny < 2 ^ 32
    → get_or (wipe_but ls py ny dy (rounds dy ny)) i empty_line ≡ (
        if (leb dy i && ltb i (dy + ny)) && not (leb py i && ltb i (py + ny))
        then empty_line
        else get_or ls i empty_line)
get_or-freed ls dy py ny i h k =
    ground (arith, get_or-wipe_but ls py ny dy (rounds dy ny) i, inside_lem py ny i)

get_or-moved :
    (ls : List GridLine) (dy py ny i : ℕ)
    → py + ny < 2 ^ 32
    → dy + ny < 2 ^ 32
    → py + ny ≤ length ls
    → dy + ny ≤ length ls
    → get_or (memmove (wipe_but ls py ny dy (rounds dy ny)) dy py ny) i empty_line ≡ (
        if leb dy i && ltb i (dy + ny)
        then get_or ls (py + (i - dy)) empty_line
        else get_or ls i empty_line)
get_or-moved ls dy py ny i h k p q =
    let freed = wipe_but ls py ny dy (rounds dy ny) in
    ground (
      arith,
      length-wipe_but ls py ny dy (rounds dy ny),
      get_or-memmove freed dy py ny i empty_line,
      get_or-freed ls dy py ny i,
      get_or-freed ls dy py ny (py + (i - dy)),
    )

get_or-shift_lines :
    (ls : List GridLine) (dy py ny i : ℕ)
    → py + ny < 2 ^ 32
    → dy + ny < 2 ^ 32
    → py + ny ≤ length ls
    → dy + ny ≤ length ls
    → get_or (shift_lines ls dy py ny) i empty_line ≡ (
        if leb dy i && ltb i (dy + ny)
        then get_or ls (py + (i - dy)) empty_line
        else if leb py i && ltb i (py + ny)
        then empty_line
        else get_or ls i empty_line)
unfolding shift_lines
get_or-shift_lines ls dy py ny i h k p q =
    let moved = memmove (wipe_but ls py ny dy (rounds dy ny)) dy py ny in
    ground (
      arith,
      get_or-wipe_but moved dy ny py (rounds py ny) i,
      inside_lem dy ny i,
      get_or-moved ls dy py ny i,
    )

-- Behind its guards `grid_move_lines` runs, unless there is nothing to do.
move_lines-in_use :
    (g : Grid) (dy py ny : ℕ)
    → IsAllocated g
    → py + ny ≤ g.hsize + g.sy
    → dy + ny ≤ g.hsize + g.sy
    → move_lines g dy py ny
      ≡ (if ny == 0 || py == dy then g else record g { lines = shift_lines g.lines dy py ny })
unfolding move_lines
move_lines-in_use g dy py ny v h k = ground arith

-- `grid_move_lines` between ranges of lines in use: they may overlap.
pub line-move_lines :
    (g : Grid) (dy py ny i : ℕ)
    → IsAllocated g
    → py + ny ≤ g.hsize + g.sy
    → dy + ny ≤ g.hsize + g.sy
    → line (move_lines g dy py ny) i ≡ (
        if leb dy i && ltb i (dy + ny)
        then line g (py + (i - dy))
        else if leb py i && ltb i (py + ny)
        then empty_line
        else line g i)
line-move_lines g dy py ny i v h k =
    ground (arith, move_lines-in_use g dy py ny v h k, get_or-shift_lines g.lines dy py ny i)

-- What no operation on lines changes.
pub record SameFrame (g h : Grid) : Type 0 where
  pub flags : h.flags ≡ g.flags
  pub sx : h.sx ≡ g.sx
  pub sy : h.sy ≡ g.sy
  pub hsize : h.hsize ≡ g.hsize
  pub hlimit : h.hlimit ≡ g.hlimit

pub move_lines-SameFrame : (g : Grid) (dy py ny : ℕ) → SameFrame g (move_lines g dy py ny)
unfolding move_lines
move_lines-SameFrame g dy py ny = ground arith

pub clear_lines-SameFrame : (g : Grid) (py ny : ℕ) → SameFrame g (clear_lines g py ny)
unfolding clear_lines
clear_lines-SameFrame g py ny = ground arith

pub length-move_lines :
    (g : Grid) (dy py ny : ℕ)
    → IsAllocated g
    → py + ny ≤ g.hsize + g.sy
    → dy + ny ≤ g.hsize + g.sy
    → length (move_lines g dy py ny).lines ≡ length g.lines
length-move_lines g dy py ny v h k =
    ground (arith, move_lines-in_use g dy py ny v h k, length-shift_lines g.lines dy py ny)

pub move_lines-IsAllocated :
    (g : Grid) (dy py ny : ℕ)
    → IsAllocated g
    → py + ny ≤ g.hsize + g.sy
    → dy + ny ≤ g.hsize + g.sy
    → IsAllocated (move_lines g dy py ny)
move_lines-IsAllocated g dy py ny v h k =
    ground (arith, move_lines-SameFrame g dy py ny, length-move_lines g dy py ny v h k)

pub clear_lines-IsAllocated :
    (g : Grid) (py ny : ℕ) → IsAllocated g → IsAllocated (clear_lines g py ny)
unfolding clear_lines
clear_lines-IsAllocated g py ny v = ground (arith, length-wipe g.lines py (rounds py ny))

pub length-clear_lines :
    (g : Grid) (py ny : ℕ) → length (clear_lines g py ny).lines ≡ length g.lines
unfolding clear_lines
length-clear_lines g py ny = ground (arith, length-wipe g.lines py (rounds py ny))
