-- ===== src/Layout/Window/Offsets.antt =====
-- layout.c: offsets change no sizes, and `layout_resize` in both directions.
use tmux_cvs_archived.Prelude.{
  ℕ, ◌-◌, ◌^◌, ◌≤◌, ◌<◌, ◌≡◌, refl, sym, some, arith, ◌∙◌, add_uint, max,
}
use tmux_cvs_archived.Layout.{
  Direction, leftright, topbottom, Cell, Cells, leaf, node, nil, cons, size, geometry, check,
}
use tmux_cvs_archived.Layout.Fits.{along, AllSize, Fits, FitsAll}
use tmux_cvs_archived.Layout.Window.{place, place_all, fix_offsets, resize, resize_along}
use tmux_cvs_archived.Layout.Window.Sizes.{resize_along_lem}

pub size-place : (t : Direction) (x y : ℕ) (c : Cell) → size t (place x y c) ≡ size t c
unfolding place
size-place leftright x y (leaf g p) = refl
size-place leftright x y (node u g cs) = refl
size-place topbottom x y (leaf g p) = refl
size-place topbottom x y (node u g cs) = refl

pub along-place_all :
    (t u : Direction) (x y : ℕ) (cs : Cells) → along t (place_all u x y cs) ≡ along t cs
unfolding place
along-place_all t u x y nil = refl
along-place_all t leftright x y (cons c cs) = omega (
  arith,
  size-place t x y c,
  along-place_all t leftright (add_uint x (add_uint (geometry c).sx 1)) y cs,
)
along-place_all t topbottom x y (cons c cs) = omega (
  arith,
  size-place t x y c,
  along-place_all t topbottom x (add_uint y (add_uint (geometry c).sy 1)) cs,
)

pub AllSize-place_all :
    (t u : Direction) (s x y : ℕ) (cs : Cells) → AllSize t s cs → AllSize t s (place_all u x y cs)
unfolding place
AllSize-place_all t u s x y nil a = tt
AllSize-place_all t leftright s x y (cons c cs) a = (
  size-place t x y c ∙ a.0,
  AllSize-place_all t leftright s (add_uint x (add_uint (geometry c).sx 1)) y cs a.1,
)
AllSize-place_all t topbottom s x y (cons c cs) a = (
  size-place t x y c ∙ a.0,
  AllSize-place_all t topbottom s x (add_uint y (add_uint (geometry c).sy 1)) cs a.1,
)

mutual
  unfolding place

  pub Fits-place : (x y : ℕ) (c : Cell) → Fits c → Fits (place x y c)
  Fits-place x y (leaf g p) f = tt
  Fits-place x y (node leftright g cs) f = (
    FitsAll-place_all leftright x y cs f.0,
    along-place_all leftright leftright x y cs ∙ f.1,
    AllSize-place_all topbottom leftright g.sy x y cs f.2,
  )
  Fits-place x y (node topbottom g cs) f = (
    FitsAll-place_all topbottom x y cs f.0,
    along-place_all topbottom topbottom x y cs ∙ f.1,
    AllSize-place_all leftright topbottom g.sx x y cs f.2,
  )

  pub FitsAll-place_all :
      (u : Direction) (x y : ℕ) (cs : Cells) → FitsAll cs → FitsAll (place_all u x y cs)
  FitsAll-place_all u x y nil f = tt
  FitsAll-place_all leftright x y (cons c cs) f = (
    Fits-place x y c f.0,
    FitsAll-place_all leftright (add_uint x (add_uint (geometry c).sx 1)) y cs f.1,
  )
  FitsAll-place_all topbottom x y (cons c cs) f = (
    Fits-place x y c f.0,
    FitsAll-place_all topbottom x (add_uint y (add_uint (geometry c).sy 1)) cs f.1,
  )

-- A layout after `layout_resize` to `new_x` by `new_y`: it fits, it is as wide as asked for or as wide
-- as it must be, and no less high than asked for.
pub record Resized (c : Cell) (new_x new_y : ℕ) (c' : Cell) : Type 0 where
  pub fits : Fits c'
  pub wide : size leftright c' ≡ max new_x (size leftright c - check leftright c)
  pub high : new_y ≤ size topbottom c'

resize_steps :
    (c w h : Cell) (old_x old_y high new_x new_y : ℕ)
    → resize_along leftright c old_x new_x ≡ some w
    → high ≡ old_y
    → resize_along topbottom w high new_y ≡ some h
    → resize c old_x old_y new_x new_y ≡ some (fix_offsets h)
unfolding resize
resize_steps c w h old_x old_y high new_x new_y e same e' = rw (e, sym same, e')

-- For a layout that fits and has the size of its window, all sizes being below 2^31, `layout_resize`
-- returns and leaves a layout that fits, of the width that is asked for or the least to which it can
-- be shrunk, and at least of the height that is asked for.
pub resize_lem :
    (c : Cell) (new_x new_y : ℕ)
    → Fits c
    → size leftright c < 2 ^ 31
    → size topbottom c < 2 ^ 31
    → new_x < 2 ^ 31
    → new_y < 2 ^ 31
    → (c' : Cell) × (resize c (size leftright c) (size topbottom c) new_x new_y ≡ some c')
      × Resized c new_x new_y c'
unfolding fix_offsets
resize_lem c new_x new_y f b d bx by =
    let (w, e, p) = resize_along_lem leftright c new_x f b bx in
    let same : size topbottom w ≡ size topbottom c = p.as_wide in
    let (h, e', q) = resize_along_lem topbottom w new_y p.fits (omega (arith, same)) by in
    (
      place (geometry h).xoff (geometry h).yoff h,
      resize_steps c w h _ _ _ new_x new_y e same e',
      record {
        fits = Fits-place _ _ h q.fits;
        wide = size-place leftright _ _ h ∙ q.as_wide ∙ p.exact;
        high = omega (arith, size-place topbottom (geometry h).xoff (geometry h).yoff h, q.exact);
      },
    )
