-- ===== src/Screen/Sound/Resize.antt =====
-- screen.c: a screen that is resized stays in order.
use tmux_cvs_archived.Prelude.{
  ℕ, subst, ◌+◌, ◌-◌, ◌^◌, ◌≤◌, ◌<◌, ◌≡◌, refl, true, false, ltb, ◌==◌, if◌then◌else◌, length,
  arith, add_uint, sub_uint, Bool-cases, inl, inr, take, replicate, max, length-replicate,
  length-append, length-take,
}
use tmux_cvs_archived.Grid.{Grid, empty_line}
use tmux_cvs_archived.Grid.Moves.{length-wipe}
use tmux_cvs_archived.Grid.Sizes.{Keeps-refl, IsAllocated-Keeps}
use tmux_cvs_archived.Grid.View.{delete_lines}
use tmux_cvs_archived.Grid.View.Sizes.{delete_lines-Keeps}
use tmux_cvs_archived.Screen.{Screen, size_x, size_y, reset_tabs}
use tmux_cvs_archived.Screen.Resize.{resize_x, shrink_y, realloc_lines, grow_y, resize_y, resize}
use tmux_cvs_archived.Screen.Sound.{IsSound, IsSound-IsAllocated, IsSound-le, length-reset_tabs}
use tmux_cvs_archived.Screen.Sound.Lines.{if-Keeps, if-IsSound}

-- What is left of a screen `s` for one of `sy` lines: the cursor fits, and the lines are no more
-- than `most`.
record Fits (most sy : ℕ) (s t : Screen) : Type 0 where
  sx : t.grid.sx ≡ s.grid.sx
  hlimit : t.grid.hlimit ≡ s.grid.hlimit
  tabs : t.tabs ≡ s.tabs
  cx : t.cx ≡ s.cx
  cy : t.cy < sy
  hsize : t.grid.hsize + sy ≤ most

shrink_y-Fits :
    {room height : ℕ} (s : Screen) (sy : ℕ)
    → IsSound room height s
    → 0 < sy
    → sy < s.grid.sy
    → Fits (s.grid.hsize + s.grid.sy) sy s (shrink_y s sy)
unfolding shrink_y
shrink_y-Fits s sy v p h =
    let oldy = s.grid.sy in
    let needed = sub_uint oldy sy in
    let below = sub_uint (sub_uint oldy 1) s.cy in
    let bottom = if ltb needed below then needed else below in
    let left = sub_uint needed bottom in
    let top = if ltb left s.cy then left else s.cy in
    let below_fact : below + (s.cy + 1) ≡ oldy = ground (arith, v.on_line, v.spare) in
    let needed_fact : needed + sy ≡ oldy = ground (arith, v.spare, h) in
    let bottom_fact : bottom ≤ below = ground arith in
    let g = if ltb 0 below then delete_lines s.grid (sub_uint oldy bottom) bottom else s.grid in
    let a = IsSound-IsAllocated v in
    let k =
      if-Keeps (ltb 0 below)
        (delete_lines-Keeps s.grid (sub_uint oldy bottom) bottom a
          (ground (arith, bottom_fact, below_fact, v.spare)))
        (Keeps-refl s.grid) in
    let l = delete_lines-Keeps g 0 top (IsAllocated-Keeps k a) (ground (arith, k.sy, v.on_line)) in
    ground (arith, v.spare, v.on_line)

length-realloc_lines : (g : Grid) (n : ℕ) → length (realloc_lines g n).lines ≡ n
length-realloc_lines g n = omega (
  arith,
  length-append (take n g.lines) (replicate (n - length g.lines) empty_line),
  length-take n g.lines,
  length-replicate (n - length g.lines) empty_line,
)

-- Lines that come back from the history move the cursor down.
grow_y-Fits :
    {most oldy sy : ℕ} (s t : Screen)
    → Fits most sy s t
    → sy < 2 ^ 32
    → most < 2 ^ 32
    → t.cy < oldy
    → oldy < sy
    → Fits most sy s (grow_y t oldy sy)
unfolding grow_y
grow_y-Fits s t f b m c h = ground (arith, f.cy, f.hsize)

length-grow_y :
    (t : Screen) (oldy sy : ℕ) → length (grow_y t oldy sy).grid.lines ≡ length t.grid.lines
unfolding grow_y
length-grow_y t oldy sy = length-wipe t.grid.lines _ _

grow_y-hsize :
    (t : Screen) (oldy sy : ℕ)
    → t.grid.hsize < 2 ^ 32
    → (grow_y t oldy sy).grid.hsize ≤ t.grid.hsize
unfolding grow_y
grow_y-hsize t oldy sy h = ground arith

resize_x-IsSound :
    {room height : ℕ} (s : Screen) (sx : ℕ)
    → IsSound room height s
    → 0 < sx
    → sx < 2 ^ 32
    → IsSound room height (reset_tabs (resize_x s sx))
unfolding resize_x reset_tabs
resize_x-IsSound s sx v p h = ground (arith, length-reset_tabs (resize_x s sx))

-- The last step, which sets the size and the scroll region.
set_size-IsSound :
    {room height most sy : ℕ} (s t : Screen)
    → IsSound room height s
    → Fits most sy s t
    → t.grid.hsize + sy ≤ length t.grid.lines
    → most + room + 1 < 2 ^ 32
    → IsSound room sy
        (record t { grid = record (t.grid) { sy = sy }; rupper = 0; rlower = sub_uint sy 1 })
set_size-IsSound {most = most} {sy = sy} s t v f a h =
    let positive : 0 < sy = omega (arith, f.cy) in
    ground (arith, f.hsize, f.cy, f.sx, f.hlimit, f.tabs, f.cx)

abbrev sized : Screen → ℕ → Screen
sized t sy = record t { grid = realloc_lines t.grid (add_uint t.grid.hsize sy) }

sized-Fits : {most sy : ℕ} (s t : Screen) → Fits most sy s t → Fits most sy s (sized t sy)
sized-Fits s t f = record {
  sx = f.sx;
  hlimit = f.hlimit;
  tabs = f.tabs;
  cx = f.cx;
  cy = f.cy;
  hsize = f.hsize;
}

sized_allocated :
    {most sy : ℕ} (s t : Screen)
    → Fits most sy s t
    → most < 2 ^ 32
    → t.grid.hsize + sy ≤ length (sized t sy).grid.lines
sized_allocated {most} {sy} s t f b =
    ground (arith, length-realloc_lines t.grid (add_uint t.grid.hsize sy), f.hsize)

-- A screen that is not of `sy` lines yet, and has no more.
grown-IsSound :
    {room height : ℕ} (s : Screen) (sy : ℕ)
    → IsSound (room + sy) height s
    → s.grid.sy < sy
    → sy < 2 ^ 32
    → IsSound room sy (resize_y s sy)
unfolding resize_y
grown-IsSound {room} s sy v h b =
    let larger : ltb s.grid.sy sy ≡ true = ground arith in
    let no_smaller : ltb sy s.grid.sy ≡ false = ground arith in
    let most = s.grid.hsize + sy in
    let f : Fits most sy s s = record {
      sx = refl;
      hlimit = refl;
      tabs = refl;
      cx = refl;
      cy = omega (arith, v.on_line);
      hsize = omega arith;
    } in
    let t = sized s sy in
    let g = sized-Fits s s f in
    let fitted = grow_y-Fits {oldy = s.grid.sy} s t g b (omega (arith, v.spare)) v.on_line h in
    let allocated : (grow_y t s.grid.sy sy).grid.hsize + sy
        ≤ length (grow_y t s.grid.sy sy).grid.lines =
      omega (
        arith,
        length-grow_y t s.grid.sy sy,
        sized_allocated s s f (omega (arith, v.spare)),
        grow_y-hsize t s.grid.sy sy (omega (arith, v.spare)),
      ) in
    rw (no_smaller, larger)
      (set_size-IsSound {most = most} s (grow_y t s.grid.sy sy) (IsSound-le room (omega arith) v)
        fitted allocated (omega (arith, v.spare)))

shrunk-IsSound :
    {room height : ℕ} (s : Screen) (sy : ℕ)
    → IsSound room height s
    → 0 < sy
    → sy < s.grid.sy
    → IsSound room sy (resize_y s sy)
unfolding resize_y
shrunk-IsSound s sy v p h =
    let smaller : ltb sy s.grid.sy ≡ true = ground arith in
    let no_larger : ltb s.grid.sy sy ≡ false = ground arith in
    let t = shrink_y s sy in
    let f = shrink_y-Fits s sy v p h in
    rw (smaller, no_larger)
      (set_size-IsSound s (sized t sy) v (sized-Fits s t f)
        (sized_allocated s t f (omega (arith, v.spare))) (omega (arith, v.spare)))

resize_y-IsSound :
    {room height : ℕ} (s : Screen) (sy : ℕ)
    → IsSound (room + sy) height s
    → 0 < sy
    → sy < 2 ^ 32
    → (sy == s.grid.sy) ≡ false
    → IsSound room sy (resize_y s sy)
resize_y-IsSound {room} s sy v p b other = elim (Bool-cases (ltb sy s.grid.sy)) [
  | inl smaller ↦ shrunk-IsSound s sy (IsSound-le room (omega arith) v) p (ground arith)
  | inr no_smaller ↦ grown-IsSound s sy v (ground arith) b
]

pub same_height :
    {room height tall : ℕ} {s : Screen}
    → height ≡ tall
    → IsSound room height s
    → IsSound room tall s
same_height {room} {s = s} e v = subst (λ h. IsSound room h s) e v

-- A screen in order that is resized is in order; a size of no columns or lines counts as one.
pub resize-IsSound :
    {room height : ℕ} (s : Screen) (sx sy : ℕ)
    → IsSound (room + max sy 1) height s
    → sx < 2 ^ 32
    → sy < 2 ^ 32
    → IsSound room (max sy 1) (resize s sx sy)
unfolding resize
resize-IsSound {room} {height} s sx0 sy0 v a b =
    let sx = if ltb sx0 1 then 1 else sx0 in
    let sy = if ltb sy0 1 then 1 else sy0 in
    let wide_v : IsSound (room + max sy0 1) height
        (if sx == size_x s then s else reset_tabs (resize_x s sx)) =
      if-IsSound _ v (resize_x-IsSound s sx v (ground arith) (ground arith)) in
    let tall : sy ≡ max sy0 1 = ground arith in
    elim (Bool-cases (sy == size_y (if sx == size_x s then s else reset_tabs (resize_x s sx)))) [
      | inl same ↦ rw same (
          same_height (ground (arith, wide_v.tall, tall, same))
            (IsSound-le room (omega arith) wide_v))
      | inr other ↦ rw other (
          same_height tall (
            resize_y-IsSound {height = height} _ sy (rw tall wide_v) (ground arith) (ground arith)
              other))
    ]
