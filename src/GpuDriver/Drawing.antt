-- ===== src/GpuDriver/Drawing.antt =====
-- `draw_pixel` and `blend_pixel` of kernel/src/gpu_driver.rs at any coordinates, on the screen or off it.
use polymorph_os.Prelude.{
  ℕ, ◌%◌, ◌^◌, ◌≤◌, ◌<◌, ◌≡◌, ◌≢◌, refl, sym, ap, ◌∙◌, ◌⊎◌, inl, inr, arith, Bool, true, false,
  ◌&&◌, ◌==◌, if◌then◌else◌,
}
use polymorph_os.Prelude.{done, ltb, lt→ltb, ℤ, pos, negsuc, as_i32, as_usize, Bool-cases, ==_iff}
use native.Mathlib.Decide.{dec_lt}
use polymorph_os.GpuDriver.{GpuDriver, is_off_screen, draw_pixel, blend_pixel}
use polymorph_os.GpuDriver.Pixels.{
  IsValid, Rgb, pixel, Painted, store_lem, blend_lem, mixed, Shows, still,
}

pub as_i32_small : (n : ℕ) → n < 2 ^ 31 → as_i32 (pos n) ≡ pos n
as_i32_small n h = let m : n % 2 ^ 32 ≡ n = omega arith in rw (m, lt→ltb n (2 ^ 31) h)

pub not_negative : (n : ℕ) → ltb n 0 ≡ false
not_negative n = ground arith

-- An integer is a number.
abbrev pub is_at : ℤ → ℕ → Bool
is_at (pos a) p = a == p
is_at (negsuc a) p = false

-- The coordinates are those of a pixel of the screen.
record OnScreen (d : GpuDriver) (x y : ℤ) : Type 0 where
  a : ℕ
  b : ℕ
  is_a : x ≡ pos a
  is_b : y ≡ pos b
  inside_x : a < d.width
  inside_y : b < d.height
  seen : is_off_screen d x y ≡ false
  column : as_usize x ≡ a
  row : as_usize y ≡ b

-- They are not, and then no pixel of the screen has them.
record OffScreen (d : GpuDriver) (x y : ℤ) : Type 0 where
  seen : is_off_screen d x y ≡ true
  nowhere : (px py : ℕ) → px < d.width → py < d.height → (is_at x px && is_at y py) ≡ false

on_or_off : (d : GpuDriver) (x y : ℤ) → IsValid d → OffScreen d x y ⊎ OnScreen d x y
on_or_off d (negsuc a) y v = inl (record { seen = refl; nowhere = λ px py hx hy. refl })
on_or_off d (pos a) (negsuc b) v =
    inl (record { seen = rw not_negative; nowhere = λ px py hx hy. second (a == px) })
  where
    second : (c : Bool) → (c && false) ≡ false
    second true = refl
    second false = refl
on_or_off d (pos a) (pos b) v =
    let w = as_i32_small d.width v.width_fits in
    let h = as_i32_small d.height v.height_fits in
    elim (dec_lt a d.width) [
      | no out ↦ inl (record {
        seen = rw (w, not_negative a, not_negative b, past a d.width (omega arith));
        nowhere = λ px py hx hy. ap (λ c. c && (b == py)) (apart a px (omega arith));
      })
      | yes hx ↦ elim (dec_lt b d.height) [
        | no out ↦ inl (record {
          seen = rw (
            w,
            h,
            not_negative a,
            not_negative b,
            lt→ltb a d.width hx,
            past b d.height (omega arith),
          );
          nowhere =
              λ px py hx hy. ap (λ c. (a == px) && c) (apart b py (omega arith)) ∙ second (a == px);
        })
        | yes hy ↦ inr (record {
          a = a;
          b = b;
          is_a = refl;
          is_b = refl;
          inside_x = hx;
          inside_y = hy;
          seen =
              rw (w, h, not_negative a, not_negative b, lt→ltb a d.width hx, lt→ltb b d.height hy);
          column = omega (arith, v.width_fits);
          row = omega (arith, v.height_fits);
        })
      ]
    ]
  where
    second : (c : Bool) → (c && false) ≡ false
    second true = refl
    second false = refl

    past : (n m : ℕ) → m ≤ n → ltb n m ≡ false
    past n m h = ground arith

    apart : (n m : ℕ) → n ≢ m → (n == m) ≡ false
    apart n m h = ground arith

unchanged :
    (d : GpuDriver) (x y : ℤ) (c : ℕ → ℕ → Rgb)
    → IsValid d
    → OffScreen d x y
    → Shows d (λ px py. if is_at x px && is_at y py then c px py else pixel d px py) d
unchanged d x y c v off = still d _ v (λ px py hx hy. rw (off.nowhere px py hx hy))

kept :
    (d : GpuDriver) (x y : ℤ)
    → IsValid d
    → Shows d (λ px py. if is_at x px && is_at y py then pixel d px py else pixel d px py) d
kept d x y v = still d _ v (λ px py hx hy. either (is_at x px && is_at y py) (pixel d px py))
  where
    either : (c : Bool) (p : Rgb) → p ≡ (if c then p else p)
    either true p = refl
    either false p = refl

painted :
    (d : GpuDriver) (x y : ℤ) (on : OnScreen d x y) (c : ℕ → ℕ → Rgb) (d' : GpuDriver)
    → Painted d on.a on.b (c on.a on.b) d'
    → Shows d (λ px py. if is_at x px && is_at y py then c px py else pixel d px py) d'
painted d x y on c d' p = record {
  valid = p.valid;
  width = p.width;
  height = p.height;
  depth = p.depth;
  pixels = λ px py hx hy. rw (on.is_a, on.is_b) (each px py hx);
}
  where
    each :
        (px py : ℕ)
        → px < d.width
        → pixel d' px py ≡ (if (on.a == px) && (on.b == py) then c px py else pixel d px py)
    each px py hx = elim (Bool-cases (on.a == px)) [
      | inl ex ↦ elim (Bool-cases (on.b == py)) [
        | inl ey ↦ rw (ex, ey, sym ((==_iff on.a px).0 ex), sym ((==_iff on.b py).0 ey)) p.there
        | inr ny ↦ rw (ex, ny) (p.others px py hx (λ e f. ground arith))
      ]
      | inr nx ↦ rw nx (p.others px py hx (λ e. absurd (ground arith)))
    ]

-- On a driver with valid buffers `draw_pixel` comes back for any coordinates: it draws the pixel that
-- has them, where the screen has one, and every other pixel of the screen is as it was.
pub draw_pixel_lem :
    (d : GpuDriver) (x y : ℤ) (r g b : ℕ)
    → IsValid d
    → (d' : GpuDriver) × (draw_pixel d x y r g b ≡ done d')
      × Shows d
          (λ px py.
            if is_at x px && is_at y py then record { r = r; g = g; b = b } else pixel d px py)
          d'
unfolding draw_pixel
draw_pixel_lem d x y r g b v = elim (on_or_off d x y v) [
  | inl off ↦ (d, rw off.seen, unchanged d x y (λ px py. record { r = r; g = g; b = b }) v off)
  | inr on ↦
      let (d', run, p) = store_lem d on.a on.b r g b v on.inside_x on.inside_y in
      (
        d',
        rw (on.seen, on.column, on.row) run,
        painted d x y on (λ px py. record { r = r; g = g; b = b }) d' p,
      )
]

-- What `blend_pixel` makes of a colour behind it: at 255 the new colour, at 0 the old one, else a mix.
abbrev pub tint : ℕ → Rgb → Rgb → Rgb
tint alpha c bg = if alpha == 255 then c else (if alpha == 0 then bg else mixed alpha c bg)

-- On a driver with valid buffers `blend_pixel` comes back for any coordinates: it tints the pixel that
-- has them, where the screen has one, and every other pixel of the screen is as it was.
pub blend_pixel_lem :
    (d : GpuDriver) (x y : ℤ) (r g b alpha : ℕ)
    → IsValid d
    → (d' : GpuDriver) × (blend_pixel d x y r g b alpha ≡ done d')
      × Shows d
          (λ px py.
            if is_at x px && is_at y py
            then tint alpha (record { r = r; g = g; b = b }) (pixel d px py)
            else pixel d px py)
          d'
unfolding blend_pixel
blend_pixel_lem d x y r g b alpha v = elim (Bool-cases (alpha == 255)) [
  | inl opaque ↦ let (d', run, s) = draw_pixel_lem d x y r g b v in (d', rw opaque run, rw opaque s)
  | inr thin ↦ elim (Bool-cases (alpha == 0)) [
    | inl clear ↦ (d, rw (thin, clear), rw (thin, clear) (kept d x y v))
    | inr tinted ↦ elim (on_or_off d x y v) [
      | inl off ↦ (d, rw (thin, tinted, off.seen), unchanged d x y _ v off)
      | inr on ↦
          let (d', run, p) = blend_lem d on.a on.b r g b alpha v on.inside_x on.inside_y in
          (
            d',
            rw (thin, tinted, on.seen, on.column, on.row) run,
            rw (thin, tinted)
                (painted d x y on
                  (λ px py. mixed alpha (record { r = r; g = g; b = b }) (pixel d px py)) d' p),
          )
    ]
  ]
]
