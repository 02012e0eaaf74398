-- ===== src/Splat/Render/Drawn.antt =====
-- What the drawing of a splat of kernel/src/splat.rs changes of the screen.
use polymorph_os.Prelude.{
  ℕ, zero, suc, ◌+◌, ◌%◌, ◌<◌, ◌≤◌, ◌≡◌, refl, sym, ◌∙◌, true, false, inl, inr, ◌&&◌, ◌⊎◌, Bool,
  List, [], ◌∷◌, arith,
}
use polymorph_os.Prelude.{
  done, Bool-cases, ltb, ℤ, pos, negsuc, ltℤ, leℤ, subst, maxℤ, quotient, mul_i32, div_i32, sub_i32,
  add_i32, half, as_i32, ==_iff,
}
use polymorph_os.GpuDriver.{GpuDriver}
use polymorph_os.GpuDriver.Pixels.{IsValid, pixel}
use polymorph_os.GpuDriver.Drawing.{is_at, blend_pixel_lem}
use polymorph_os.Splat.{GaussianSplat}
use polymorph_os.Splat.Render.{
  Projected, falloff_at, alpha_of, scale_fac, splat_pixel, splat_row, splat_rows, span, low_edge,
  high_edge, project, project_scale, projected, draw_projected, render_single_splat, render_splats,
}

-- The driver keeps its size and its valid buffers, and every pixel of the screen that is not in `box`.
pub record KeepsOutside (box : ℕ → ℕ → Bool) (d d' : GpuDriver) : Type 0 where
  pub valid : IsValid d'
  pub width : d'.width ≡ d.width
  pub height : d'.height ≡ d.height
  pub pixels :
      (px py : ℕ)
      → px < d.width
      → py < d.height
      → box px py ≡ false
      → pixel d' px py ≡ pixel d px py

module _ (box : ℕ → ℕ → Bool) where
  KeepsOutside-refl : (d : GpuDriver) → IsValid d → KeepsOutside box d d
  KeepsOutside-refl d v = record {
    valid = v;
    width = refl;
    height = refl;
    pixels = λ px py hx hy out. refl;
  }

  KeepsOutside-trans :
      (a b c : GpuDriver) → KeepsOutside box a b → KeepsOutside box b c → KeepsOutside box a c
  KeepsOutside-trans a b c p q = record {
    valid = q.valid;
    width = q.width ∙ p.width;
    height = q.height ∙ p.height;
    pixels = λ px py hx hy out.
        q.pixels px py (subst (λ w. px < w) (sym p.width) hx)
          (subst (λ h. py < h) (sym p.height) hy) out
        ∙ p.pixels px py hx hy out;
  }

positive-div : (a b : ℤ) → leℤ b (pos 0) ≡ false → (r : ℤ) × (div_i32 {E = ⊥} a b ≡ done r)
unfolding div_i32
positive-div a (pos zero) h = absurd (ground arith)
positive-div a (pos (suc n)) h = (quotient a (suc n), refl)
positive-div a (negsuc n) h = absurd (ground arith)

scale_fac-positive : (scale : ℤ) → leℤ (scale_fac scale) (pos 0) ≡ false
scale_fac-positive scale = at_least_one (quotient (mul_i32 scale scale) 128)
  where
    at_least_one : (a : ℤ) → leℤ (maxℤ a (pos 1)) (pos 0) ≡ false
    at_least_one (pos n) = ground arith
    at_least_one (negsuc n) = ground arith

falloff_at-done : (q : Projected) (px py : ℤ) → (f : ℤ) × (falloff_at q px py ≡ done f)
unfolding falloff_at
falloff_at-done q px py =
    let dx = sub_i32 px q.x in
    let dy = sub_i32 py q.y in
    let (a, at_x) =
      positive-div (mul_i32 dx dx) (scale_fac q.scale_x) (scale_fac-positive q.scale_x) in
    let (b, at_y) =
      positive-div (mul_i32 dy dy) (scale_fac q.scale_y) (scale_fac-positive q.scale_y) in
    (add_i32 a b, rw (at_x, at_y))

module _ (splat : GaussianSplat) (q : Projected) (box : ℕ → ℕ → Bool) where
  -- The coordinates lie in the box, if they are on the screen at all.
  abbrev Covers : ℤ → ℤ → Type 0
  Covers x y = (px py : ℕ) → (is_at x px && is_at y py) ≡ true → box px py ≡ true

  splat_pixel_lem :
      (x y : ℤ) (d : GpuDriver)
      → IsValid d
      → Covers x y
      → (d' : GpuDriver) × (splat_pixel splat q x y d ≡ done d') × KeepsOutside box d d'
  unfolding splat_pixel
  splat_pixel_lem x y d v covers =
      let (falloff, fell) = falloff_at-done q x y in
      elim (Bool-cases (ltℤ falloff (pos 255))) [
        | inr far ↦ (d, rw (fell, far), KeepsOutside-refl box d v)
        | inl near ↦ elim (Bool-cases (ltb 0 (alpha_of falloff splat.opacity))) [
          | inr clear ↦ (d, rw (fell, near, clear), KeepsOutside-refl box d v)
          | inl seen ↦
              let alpha = alpha_of falloff splat.opacity % 256 in
              let (d', run, shows) = blend_pixel_lem d x y splat.r splat.g splat.b alpha v in
              (
                d',
                rw (fell, near, seen) run,
                record {
                  valid = shows.valid;
                  width = shows.width;
                  height = shows.height;
                  pixels = λ px py hx hy out.
                      let apart : (is_at x px && is_at y py) ≡ false =
                        not_there px py (covers px py) out in
                      rw apart at (shows.pixels px py hx hy);
                },
              )
        ]
      ]
    where
      not_there :
          (px py : ℕ)
          → ((is_at x px && is_at y py) ≡ true → box px py ≡ true)
          → box px py ≡ false
          → (is_at x px && is_at y py) ≡ false
      not_there px py c out = ground arith

  splat_row_lem :
      (n a : ℕ) (y : ℤ) (d : GpuDriver)
      → IsValid d
      → ((x : ℕ) → a ≤ x → x < a + n → Covers (pos x) y)
      → (d' : GpuDriver) × (splat_row splat q n (pos a) y d ≡ done d') × KeepsOutside box d d'
  unfolding splat_row
  splat_row_lem zero a y d v covers = (d, refl, KeepsOutside-refl box d v)
  splat_row_lem (suc n) a y d v covers =
      let (d1, run, k) = splat_pixel_lem (pos a) y d v (covers a (omega arith) (omega arith)) in
      let (d', later, k') =
        splat_row_lem n (a + 1) y d1 k.valid (λ x lo hi. covers x (omega arith) (omega arith)) in
      (d', rw run later, KeepsOutside-trans box d d1 d' k k')

  splat_rows_lem :
      (n cols a b : ℕ) (d : GpuDriver)
      → IsValid d
      → ((x y : ℕ) → a ≤ x → x < a + cols → b ≤ y → y < b + n → Covers (pos x) (pos y))
      → (d' : GpuDriver) × (splat_rows splat q n cols (pos a) (pos b) d ≡ done d')
        × KeepsOutside box d d'
  unfolding splat_rows
  splat_rows_lem zero cols a b d v covers = (d, refl, KeepsOutside-refl box d v)
  splat_rows_lem (suc n) cols a b d v covers =
      let (d1, run, k) =
        splat_row_lem cols a (pos b) d v
          (λ x lo hi. covers x b lo hi (omega arith) (omega arith)) in
      let (d', later, k') =
        splat_rows_lem n cols a (b + 1) d1 k.valid
          (λ x y lo hi lo' hi'. covers x y lo hi (omega arith) (omega arith)) in
      (d', rw run later, KeepsOutside-trans box d d1 d' k k')

-- A coordinate of the screen between two edges.
abbrev pub between : ℤ → ℤ → ℕ → Bool
between lo hi p = leℤ lo (pos p) && ltℤ (pos p) hi

-- The bounding box of a splat on a screen.
abbrev pub box_of : GpuDriver → Projected → ℕ → ℕ → Bool
box_of d q px py =
    between (low_edge q.x q.scale_x) (high_edge d.width q.x q.scale_x) px
    && between (low_edge q.y q.scale_y) (high_edge d.height q.y q.scale_y) py

from_zero : (z : ℤ) → (a : ℕ) × (maxℤ (pos 0) z ≡ pos a)
from_zero (pos zero) = (0, refl)
from_zero (pos (suc n)) = (suc n, ground arith)
from_zero (negsuc n) = (0, refl)

span-between : (a x : ℕ) (hi : ℤ) → a ≤ x → x < a + span (pos a) hi → between (pos a) hi x ≡ true
span-between zero x (pos h) lo lt = ground arith
span-between (suc a) x (pos h) lo lt = ground arith
span-between zero x (negsuc h) lo lt = absurd (ground arith)
span-between (suc a) x (negsuc h) lo lt = absurd (omega arith)

is_at-eq : (x px : ℕ) → is_at (pos x) px ≡ true → x ≡ px
is_at-eq x px h = (==_iff x px).0 h

draw_projected_lem :
    (splat : GaussianSplat) (q : Projected) (d : GpuDriver)
    → IsValid d
    → (d' : GpuDriver) × (draw_projected splat q d ≡ done d') × KeepsOutside (box_of d q) d d'
unfolding draw_projected
draw_projected_lem splat q d v =
    let max_x = high_edge d.width q.x q.scale_x in
    let max_y = high_edge d.height q.y q.scale_y in
    let (a, at_a) = from_zero (sub_i32 q.x (mul_i32 q.scale_x (pos 2))) in
    let (b, at_b) = from_zero (sub_i32 q.y (mul_i32 q.scale_y (pos 2))) in
    let edges : ℕ → ℕ → Bool = λ px py. between (pos a) max_x px && between (pos b) max_y py in
    let (d', run, k) =
      splat_rows_lem splat q edges (span (pos b) max_y) (span (pos a) max_x) a b d v
        (λ x y lo hi lo' hi' px py there.
          let (is_x, is_y) = both_at x y px py there in
          subst (λ p. (between (pos a) max_x p && between (pos b) max_y py) ≡ true) is_x
            (subst (λ p. (between (pos a) max_x x && between (pos b) max_y p) ≡ true) is_y
              (both_true (span-between a x max_x lo hi) (span-between b y max_y lo' hi')))) in
    (
      d',
      rw (at_a, at_b) run,
      subst
          (λ (lo : ℤ).
            KeepsOutside (λ px py. between lo max_x px && between (low_edge q.y q.scale_y) max_y py)
              d d')
          (sym at_a)
          (subst
            (λ (lo : ℤ).
              KeepsOutside (λ px py. between (pos a) max_x px && between lo max_y py) d d')
            (sym at_b) k),
    )
  where
    both_at : (x y px py : ℕ) → (is_at (pos x) px && is_at (pos y) py) ≡ true → (x ≡ px) × (y ≡ py)
    both_at x y px py h = ground arith

    both_true : {s t : Bool} → s ≡ true → t ≡ true → (s && t) ≡ true
    both_true h k = rw (h, k)

projected-done :
    (d : GpuDriver) (splat : GaussianSplat) (z_dist : ℤ)
    → leℤ z_dist (pos 0) ≡ false
    → (q : Projected) × (projected d splat z_dist ≡ done q)
unfolding projected project project_scale
projected-done d splat z_dist h =
    let cx = half (as_i32 (pos d.width)) in
    let cy = half (as_i32 (pos d.height)) in
    let (x, at_x) = positive-div (mul_i32 (sub_i32 splat.x cx) (pos 500)) z_dist h in
    let (y, at_y) = positive-div (mul_i32 (sub_i32 splat.y cy) (pos 500)) z_dist h in
    let (sx, at_sx) = positive-div (mul_i32 splat.scale_x (pos 500)) z_dist h in
    let (sy, at_sy) = positive-div (mul_i32 splat.scale_y (pos 500)) z_dist h in
    let q : Projected = record { x = add_i32 cx x; y = add_i32 cy y; scale_x = sx; scale_y = sy } in
    (q, rw (at_x, at_y, at_sx, at_sy))

-- On a driver with valid buffers the drawing of any splat comes back: no division is by zero, no pixel
-- is out of the buffer. A splat at the camera or behind it changes nothing; of any other, every pixel
-- outside the bounding box of its projection is as it was.
pub render_single_splat_lem :
    (splat : GaussianSplat) (d : GpuDriver)
    → IsValid d
    → (d' : GpuDriver) × (render_single_splat splat d ≡ done d')
      × (((leℤ (sub_i32 splat.z (negsuc 499)) (pos 0) ≡ true) × (d' ≡ d))
          ⊎ ((q : Projected) × (projected d splat (sub_i32 splat.z (negsuc 499)) ≡ done q)
              × KeepsOutside (box_of d q) d d'))
unfolding render_single_splat
render_single_splat_lem splat d v =
    let z_dist = sub_i32 splat.z (negsuc 499) in
    elim (Bool-cases (leℤ z_dist (pos 0))) [
      | inl behind ↦ (d, rw behind, inl (behind, refl))
      | inr ahead ↦
          let (q, at_q) = projected-done d splat z_dist ahead in
          let (d', run, k) = draw_projected_lem splat q d v in
          (d', rw (ahead, at_q) run, inr (q, at_q, k))
    ]

-- A window's body, of any splats, is drawn without a panic, and leaves the buffers valid.
pub render_splats-IsValid :
    (splats : List GaussianSplat) (d : GpuDriver)
    → IsValid d
    → (d' : GpuDriver) × (render_splats splats d ≡ done d') × IsValid d'
unfolding render_splats
render_splats-IsValid [] d v = (d, refl, v)
render_splats-IsValid (splat ∷ splats) d v =
    let (d1, run, what) = render_single_splat_lem splat d v in
    let (d', later, v') = render_splats-IsValid splats d1 (still_valid d1 what) in
    (d', rw run later, v')
  where
    still_valid :
        (d1 : GpuDriver)
        → ((leℤ (sub_i32 splat.z (negsuc 499)) (pos 0) ≡ true) × (d1 ≡ d))
          ⊎ ((q : Projected) × (projected d splat (sub_i32 splat.z (negsuc 499)) ≡ done q)
              × KeepsOutside (box_of d q) d d1)
        → IsValid d1
    still_valid d1 (inl (_, e)) = subst IsValid (sym e) v
    still_valid d1 (inr (q, _, k)) = k.valid
