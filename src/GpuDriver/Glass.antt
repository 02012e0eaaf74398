-- ===== src/GpuDriver/Glass.antt =====
-- `draw_glass_rect` of kernel/src/gpu_driver.rs: the loops over rows and columns of the rectangle.
use polymorph_os.Prelude.{
  ℕ, zero, suc, ◌+◌, ◌*◌, ◌≤◌, ◌<◌, ◌≡◌, refl, sym, ap, ap₂, ◌∙◌, inl, inr, arith, Bool, true,
  false, ◌&&◌, ◌==◌, if◌then◌else◌,
}
use polymorph_os.Prelude.{done, ℤ, ◌+ℤ◌, as_i32, Bool-cases, ==_iff}
use polymorph_os.GpuDriver.{GpuDriver, store, blend, glass_row, glass_rows, draw_glass_rect}
use polymorph_os.GpuDriver.Pixels.{
  IsValid, Rgb, pixel, offset_of, Painted, store_lem, blend_lem, Shows, still,
}
use polymorph_os.GpuDriver.Drawing.{tint}
use polymorph_os.GpuDriver.Clip.{within, within_step, within_past, covers, clip_axis}

module _ (r g b alpha : ℕ) (visible : (alpha == 0) ≡ false) where
  abbrev colour : Rgb
  colour = record { r = r; g = g; b = b }

  tint_lem :
      (d : GpuDriver) (x y : ℕ)
      → IsValid d
      → x < d.width
      → y < d.height
      → (d' : GpuDriver) × ((if alpha == 255
            then store d (offset_of d x y) r g b
            else blend d (offset_of d x y) r g b alpha)
          ≡ done d')
        × Painted d x y (tint alpha colour (pixel d x y)) d'
  tint_lem d x y v hx hy = elim (Bool-cases (alpha == 255)) [
    | inl opaque ↦
        let (d', run, p) = store_lem d x y r g b v hx hy in (d', rw opaque run, rw opaque p)
    | inr thin ↦
        let (d', run, p) = blend_lem d x y r g b alpha v hx hy in
        (d', rw thin run, rw (thin, visible) p)
  ]

  -- The screen with the columns of one row tinted, and with those of several rows.
  abbrev row_tinted : GpuDriver → ℕ → ℕ → ℕ → ℕ → ℕ → Rgb
  row_tinted d y lo n qx qy =
      if (y == qy) && within lo n qx then tint alpha colour (pixel d qx qy) else pixel d qx qy

  abbrev rows_tinted : GpuDriver → ℕ → ℕ → ℕ → ℕ → ℕ → ℕ → Rgb
  rows_tinted d y m lo n qx qy =
      if within y m qy && within lo n qx then tint alpha colour (pixel d qx qy) else pixel d qx qy

  row_none : (d : GpuDriver) (x y : ℕ) → IsValid d → Shows d (row_tinted d y x 0) d
  row_none d x y v = still d _ v (λ qx qy hx hy. rw (nothing qx qy))
    where
      nothing : (qx qy : ℕ) → ((y == qy) && within x 0 qx) ≡ false
      nothing qx qy = ground arith

  -- One more column, and one more row.
  row_more :
      (d d1 d2 : GpuDriver) (x y n : ℕ)
      → Painted d x y (tint alpha colour (pixel d x y)) d1
      → Shows d1 (row_tinted d1 y (x + 1) n) d2
      → Shows d (row_tinted d y x (suc n)) d2
  row_more d d1 d2 x y n p s = record {
    valid = s.valid;
    width = s.width ∙ p.width;
    height = s.height ∙ p.height;
    depth = s.depth ∙ p.depth;
    pixels = λ qx qy hx hy. s.pixels qx qy (rw p.width hx) (rw p.height hy) ∙ here qx qy hx;
  }
    where
      here :
          (qx qy : ℕ)
          → qx < d.width
          → row_tinted d1 y (x + 1) n qx qy ≡ row_tinted d y x (suc n) qx qy
      here qx qy hx = elim (Bool-cases (y == qy)) [
        | inr ny ↦ rw ny (p.others qx qy hx (λ e f. ground arith))
        | inl ey ↦ elim (Bool-cases (x == qx)) [
          | inr nx ↦
              let kept : pixel d1 qx qy ≡ pixel d qx qy =
                p.others qx qy hx (λ e. absurd (ground arith)) in
              rw (ey, within_step x n qx, nx, kept)
          | inl ex ↦
              let painted : pixel d1 qx qy ≡ tint alpha colour (pixel d qx qy) =
                rw (sym ((==_iff x qx).0 ex), sym ((==_iff y qy).0 ey)) p.there in
              rw (ey, within_step x n qx, ex, within_past x n qx ex, painted)
        ]
      ]

  glass_row_lem :
      (n x y : ℕ) (d : GpuDriver)
      → IsValid d
      → x + n ≤ d.width
      → y < d.height
      → (d' : GpuDriver) × (glass_row r g b alpha n (y * d.width * d.bytes_per_pixel) x d ≡ done d')
        × Shows d (row_tinted d y x n) d'
  unfolding glass_row
  glass_row_lem zero x y d v hx hy = (d, refl, row_none d x y v)
  glass_row_lem (suc n) x y d v hx hy =
      let (d1, run1, p) = tint_lem d x y v (omega arith) hy in
      let (d2, run2, s) =
        glass_row_lem n (x + 1) y d1 p.valid (omega (arith, p.width)) (rw p.height hy) in
      let same : y * d.width * d.bytes_per_pixel + x * d.bytes_per_pixel ≡ offset_of d x y =
        omega arith in
      let offset : y * d.width * d.bytes_per_pixel ≡ y * d1.width * d1.bytes_per_pixel =
        rw (p.width, p.depth) in
      (d2, rw (same, run1) (rw offset run2), row_more d d1 d2 x y n p s)

  rows_none : (d : GpuDriver) (y x n : ℕ) → IsValid d → Shows d (rows_tinted d y 0 x n) d
  rows_none d y x n v = still d _ v (λ qx qy hx hy. rw (nothing qx qy))
    where
      nothing : (qx qy : ℕ) → (within y 0 qy && within x n qx) ≡ false
      nothing qx qy = ground arith

  rows_more :
      (d d1 d2 : GpuDriver) (y m x n : ℕ)
      → Shows d (row_tinted d y x n) d1
      → Shows d1 (rows_tinted d1 (y + 1) m x n) d2
      → Shows d (rows_tinted d y (suc m) x n) d2
  rows_more d d1 d2 y m x n p s = record {
    valid = s.valid;
    width = s.width ∙ p.width;
    height = s.height ∙ p.height;
    depth = s.depth ∙ p.depth;
    pixels = λ qx qy hx hy.
        s.pixels qx qy (rw p.width hx) (rw p.height hy) ∙ here qx qy (p.pixels qx qy hx hy);
  }
    where
      here :
          (qx qy : ℕ)
          → pixel d1 qx qy ≡ row_tinted d y x n qx qy
          → rows_tinted d1 (y + 1) m x n qx qy ≡ rows_tinted d y (suc m) x n qx qy
      here qx qy e = elim (Bool-cases (y == qy)) [
        | inr ny ↦
            let kept : pixel d1 qx qy ≡ pixel d qx qy = rw ny at e in
            rw (within_step y m qy, ny, kept)
        | inl ey ↦
            let row : pixel d1 qx qy
                ≡ (if within x n qx then tint alpha colour (pixel d qx qy) else pixel d qx qy) =
              rw ey at e in
            rw (within_step y m qy, ey, within_past y m qy ey) row
      ]

  glass_rows_lem :
      (m y n x : ℕ) (d : GpuDriver)
      → IsValid d
      → x + n ≤ d.width
      → y + m ≤ d.height
      → (d' : GpuDriver) × (glass_rows r g b alpha m n x y d ≡ done d')
        × Shows d (rows_tinted d y m x n) d'
  unfolding glass_rows
  glass_rows_lem zero y n x d v hx hy = (d, refl, rows_none d y x n v)
  glass_rows_lem (suc m) y n x d v hx hy =
      let (d1, run1, p) = glass_row_lem n x y d v hx (omega arith) in
      let (d2, run2, s) =
        glass_rows_lem m (y + 1) n x d1 p.valid (rw p.width hx) (omega (arith, p.height)) in
      (d2, rw run1 run2, rows_more d d1 d2 y m x n p s)

tint_zero : (alpha : ℕ) (c bg : Rgb) → (alpha == 0) ≡ true → tint alpha c bg ≡ bg
tint_zero alpha c bg h = let no : (alpha == 255) ≡ false = ground arith in rw (no, h)

-- A picture with a test that no pixel of the screen passes.
unmarked :
    (d : GpuDriver) (marked : ℕ → ℕ → Bool) (new : ℕ → ℕ → Rgb)
    → IsValid d
    → ((px py : ℕ) → px < d.width → py < d.height → marked px py ≡ false)
    → Shows d (λ px py. if marked px py then new px py else pixel d px py) d
unmarked d marked new v nowhere = still d _ v (λ px py hx hy. rw (nowhere px py hx hy))

-- A picture may be given by another test that the pixels of the screen pass alike.
remarked :
    (d d' : GpuDriver) (marked marked' : ℕ → ℕ → Bool) (new : ℕ → ℕ → Rgb)
    → ((px py : ℕ) → px < d.width → py < d.height → marked' px py ≡ marked px py)
    → Shows d (λ px py. if marked px py then new px py else pixel d px py) d'
    → Shows d (λ px py. if marked' px py then new px py else pixel d px py) d'
remarked d d' marked marked' new same s = record {
  valid = s.valid;
  width = s.width;
  height = s.height;
  depth = s.depth;
  pixels = λ px py hx hy. rw (same px py hx hy) (s.pixels px py hx hy);
}

and_false : (c : Bool) → (c && false) ≡ false
and_false true = refl
and_false false = refl

and_comm : (b c : Bool) → (b && c) ≡ (c && b)
and_comm true c = sym (and_true c)
  where
    and_true : (c : Bool) → (c && true) ≡ c
    and_true true = refl
    and_true false = refl
and_comm false c = sym (and_false c)

-- On a driver with valid buffers `draw_glass_rect` comes back for any rectangle, on the screen, partly
-- on it or off it, whose right and lower edges x + w and y + h are numbers of an i32: the pixels of the
-- screen that lie in the rectangle are tinted, once each, and every other pixel of the screen is as it
-- was.
pub draw_glass_rect_lem :
    (d : GpuDriver) (x y w h : ℤ) (r g b alpha : ℕ)
    → IsValid d
    → as_i32 (x +ℤ w) ≡ x +ℤ w
    → as_i32 (y +ℤ h) ≡ y +ℤ h
    → (d' : GpuDriver) × (draw_glass_rect d x y w h r g b alpha ≡ done d')
      × Shows d
          (λ px py.
            if covers x w px && covers y h py
            then tint alpha (record { r = r; g = g; b = b }) (pixel d px py)
            else pixel d px py)
          d'
unfolding draw_glass_rect
draw_glass_rect_lem d x y w h r g b alpha v ex ey = elim (Bool-cases (alpha == 0)) [
  | inl clear ↦ (
    d,
    rw clear,
    still d _ v (λ px py hx hy.
        rw (tint_zero alpha (record { r = r; g = g; b = b }) (pixel d px py) clear)
          (either (covers x w px && covers y h py) (pixel d px py))),
  )
  | inr visible ↦ elim (clip_axis x (x +ℤ w) d.width v.width_fits) [
    | inl gone ↦ (
      d,
      rw (visible, ex, gone.empty),
      unmarked d _ _ v (λ px py hx hy. ap (λ c. c && covers y h py) (gone.none_in px hx)),
    )
    | inr cx ↦ elim (clip_axis y (y +ℤ h) d.height v.height_fits) [
      | inl gone ↦ (
        d,
        rw (visible, ex, cx.kept, ey, gone.empty),
        unmarked d _ _ v (λ px py hx hy.
            ap (λ c. covers x w px && c) (gone.none_in py hy) ∙ and_false (covers x w px)),
      )
      | inr cy ↦
          let (d', run, s) =
            glass_rows_lem r g b alpha visible cy.count cy.lo cx.count cx.lo d v cx.fits cy.fits in
          (
            d',
            rw (visible, ex, ey, cx.kept, cy.kept, cx.is_count, cy.is_count, cx.is_lo, cy.is_lo)
                run,
            remarked d d' (λ px py. within cy.lo cy.count py && within cx.lo cx.count px)
                (λ px py. covers x w px && covers y h py)
                (λ px py. tint alpha (record { r = r; g = g; b = b }) (pixel d px py))
                (λ px py hx hy.
                  ap₂ (λ b c. b && c) (cx.same px hx) (cy.same py hy)
                  ∙ and_comm (within cx.lo cx.count px) (within cy.lo cy.count py))
                s,
          )
    ]
  ]
]
  where
    either : (c : Bool) (p : Rgb) → p ≡ (if c then p else p)
    either true p = refl
    either false p = refl
