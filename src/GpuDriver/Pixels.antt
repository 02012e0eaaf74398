-- ===== src/GpuDriver/Pixels.antt =====
-- The pixels of the back buffer of kernel/src/gpu_driver.rs: three bytes each, apart from one another.
use polymorph_os.Prelude.{ℕ, ◌+◌, ◌*◌, ◌^◌, ◌≤◌, ◌<◌, ◌≡◌, ◌≢◌, refl, ap, ◌∙◌, ◌⊎◌, inl, inr, arith}
use polymorph_os.Prelude.{
  Bytes, length, set, get_or, length-set, get_or-set_self, get_or-set_ne, get_elem?-eq-get_or, done,
  lt→ltb,
}
use native.Mathlib.Decide.{dec_lt}
use polymorph_os.GpuDriver.{GpuDriver, store, blend, mix}

-- The buffer has `bytes_per_pixel` bytes, at least three, for each pixel of the screen.
pub record IsValid (d : GpuDriver) : Type 0 where
  pub size : length d.back_buffer ≡ d.width * d.height * d.bytes_per_pixel
  pub depth : 3 ≤ d.bytes_per_pixel
  pub width_fits : d.width < 2 ^ 31
  pub height_fits : d.height < 2 ^ 31

pub record Rgb : Type 0 where
  pub r : ℕ
  pub g : ℕ
  pub b : ℕ

abbrev pub offset_of : GpuDriver → ℕ → ℕ → ℕ
offset_of d x y = (y * d.width + x) * d.bytes_per_pixel

-- The pixel in column `x` of row `y`.
pub pixel : GpuDriver → ℕ → ℕ → Rgb
pixel d x y = record {
  r = get_or d.back_buffer (offset_of d x y + 2) 0;
  g = get_or d.back_buffer (offset_of d x y + 1) 0;
  b = get_or d.back_buffer (offset_of d x y) 0;
}

index_inside : (x y w h : ℕ) → x < w → y < h → y * w + x < w * h
index_inside x y w h hx hy = grind arith

spaced : (i j p : ℕ) → i < j → i * p + p ≤ j * p
spaced i j p h = grind arith

index_apart : (x y x' y' w : ℕ) → x < w → x' < w → (x ≡ x' → y ≢ y') → y * w + x ≢ y' * w + x'
index_apart x y x' y' w hx hx' ne e = elim (dec_lt y y') [
  | yes lt ↦ omega (arith, spaced y y' w lt)
  | no ge ↦ elim (dec_lt y' y) [
    | yes gt ↦ omega (arith, spaced y' y w gt)
    | no le ↦
        let same : y ≡ y' = omega arith in
        let rows : y * w ≡ y' * w = ap (λ k. k * w) same in ne (omega arith) same
  ]
]

-- The three bytes of a pixel on the screen lie in the buffer, and those of two pixels do not meet.
offset_inside :
    (d : GpuDriver) (x y : ℕ)
    → IsValid d
    → x < d.width
    → y < d.height
    → offset_of d x y + 2 < length d.back_buffer
offset_inside d x y v hx hy = omega (
  arith,
  v.size,
  v.depth,
  spaced (y * d.width + x) (d.width * d.height) d.bytes_per_pixel
      (index_inside x y d.width d.height hx hy),
)

offset_apart :
    (d : GpuDriver) (x y x' y' : ℕ)
    → x < d.width
    → x' < d.width
    → (x ≡ x' → y ≢ y')
    → (offset_of d x y + d.bytes_per_pixel ≤ offset_of d x' y')
      ⊎ (offset_of d x' y' + d.bytes_per_pixel ≤ offset_of d x y)
offset_apart d x y x' y' hx hx' ne =
    let i = y * d.width + x in
    let j = y' * d.width + x' in
    elim (dec_lt i j) [
      | yes lt ↦ inl (spaced i j d.bytes_per_pixel lt)
      | no ge ↦
          inr
            (spaced j i d.bytes_per_pixel (omega (arith, index_apart x y x' y' d.width hx hx' ne)))
    ]

-- Three bytes written one after the other.
abbrev set3 : Bytes → ℕ → ℕ → ℕ → ℕ → Bytes
set3 bytes o b g r = set (set (set bytes o b) (o + 1) g) (o + 2) r

get_or-set3_ne :
    (bytes : Bytes) (o b g r k : ℕ)
    → o ≢ k
    → o + 1 ≢ k
    → o + 2 ≢ k
    → get_or (set3 bytes o b g r) k 0 ≡ get_or bytes k 0
get_or-set3_ne bytes o b g r k n0 n1 n2 =
    get_or-set_ne (set (set bytes o b) (o + 1) g) r 0 n2
    ∙ get_or-set_ne (set bytes o b) g 0 n1
    ∙ get_or-set_ne bytes b 0 n0

-- The driver after one pixel was drawn: it has the colour, and every other pixel is as it was.
pub record Painted (d : GpuDriver) (x y : ℕ) (c : Rgb) (d' : GpuDriver) : Type 0 where
  pub valid : IsValid d'
  pub width : d'.width ≡ d.width
  pub height : d'.height ≡ d.height
  pub depth : d'.bytes_per_pixel ≡ d.bytes_per_pixel
  pub there : pixel d' x y ≡ c
  pub others : (x' y' : ℕ) → x' < d.width → (x ≡ x' → y ≢ y') → pixel d' x' y' ≡ pixel d x' y'

pub store_lem :
    (d : GpuDriver) (x y r g b : ℕ)
    → IsValid d
    → x < d.width
    → y < d.height
    → (d' : GpuDriver) × (store d (offset_of d x y) r g b ≡ done d')
      × Painted d x y (record { r = r; g = g; b = b }) d'
unfolding pixel
store_lem d x y r g b v hx hy =
    let o = offset_of d x y in
    let inside = offset_inside d x y v hx hy in
    let s0 = d.back_buffer in
    let s1 = set s0 o b in
    let s2 = set s1 (o + 1) g in
    let l1 : length s1 ≡ length s0 = length-set s0 o b in
    let l2 : length s2 ≡ length s0 = length-set s1 (o + 1) g ∙ l1 in
    let d' : GpuDriver = record d { back_buffer = set3 s0 o b g r } in
    (
      d',
      rw (
        lt→ltb o (length s0) (omega arith),
        lt→ltb (o + 1) (length s1) (omega (arith, l1)),
        lt→ltb (o + 2) (length s2) (omega (arith, l2)),
      ),
      record {
        valid = record {
          size = length-set s2 (o + 2) r ∙ l2 ∙ v.size;
          depth = v.depth;
          width_fits = v.width_fits;
          height_fits = v.height_fits;
        };
        width = refl;
        height = refl;
        depth = refl;
        there =
            rgb_same (get_or-set_self s2 (o + 2) r 0 (omega (arith, l2)))
              (get_or-set_ne s2 r 0 (λ e. omega arith)
                ∙ get_or-set_self s1 (o + 1) g 0 (omega (arith, l1)))
              (get_or-set_ne s2 r 0 (λ e. omega arith)
                ∙ get_or-set_ne s1 g 0 (λ e. omega arith)
                ∙ get_or-set_self s0 o b 0 (omega arith));
        others = λ x' y' hx' ne.
            let apart = offset_apart d x y x' y' hx hx' ne in
            let o' = offset_of d x' y' in
            let far : (k : ℕ) → o' ≤ k → k ≤ o' + 2 → get_or (set3 s0 o b g r) k 0 ≡ get_or s0 k 0 =
              λ k lo hi.
                get_or-set3_ne s0 o b g r k (λ e. omega (arith, apart, v.depth))
                  (λ e. omega (arith, apart, v.depth)) (λ e. omega (arith, apart, v.depth)) in
            rgb_same (far (o' + 2) (omega arith) (omega arith))
              (far (o' + 1) (omega arith) (omega arith)) (far o' (omega arith) (omega arith));
      },
    )
  where
    rgb_same :
        {r r' g g' b b' : ℕ}
        → r ≡ r'
        → g ≡ g'
        → b ≡ b'
        → ◌≡◌ {A = Rgb} (record { r = r; g = g; b = b }) (record { r = r'; g = g'; b = b' })
    rgb_same e f h = rw (e, f, h)

-- A colour mixed with the one behind it.
abbrev pub mixed : ℕ → Rgb → Rgb → Rgb
mixed a c bg = record { r = mix a c.r bg.r; g = mix a c.g bg.g; b = mix a c.b bg.b }

pub blend_lem :
    (d : GpuDriver) (x y r g b a : ℕ)
    → IsValid d
    → x < d.width
    → y < d.height
    → (d' : GpuDriver) × (blend d (offset_of d x y) r g b a ≡ done d')
      × Painted d x y (mixed a (record { r = r; g = g; b = b }) (pixel d x y)) d'
unfolding pixel
blend_lem d x y r g b a v hx hy =
    let o = offset_of d x y in
    let inside = offset_inside d x y v hx hy in
    let s = d.back_buffer in
    let (d', run, p) =
      store_lem d x y (mix a r (get_or s (o + 2) 0)) (mix a g (get_or s (o + 1) 0))
        (mix a b (get_or s o 0)) v hx hy in
    (
      d',
      rw
          (
            get_elem?-eq-get_or s o 0 (omega arith),
            get_elem?-eq-get_or s (o + 1) 0 (omega arith),
            get_elem?-eq-get_or s (o + 2) 0 (omega arith),
          )
          run,
      p,
    )

-- A driver with a picture: what the screen of a driver has become.
pub record Shows (d : GpuDriver) (picture : ℕ → ℕ → Rgb) (d' : GpuDriver) : Type 0 where
  pub valid : IsValid d'
  pub width : d'.width ≡ d.width
  pub height : d'.height ≡ d.height
  pub depth : d'.bytes_per_pixel ≡ d.bytes_per_pixel
  pub pixels : (px py : ℕ) → px < d.width → py < d.height → pixel d' px py ≡ picture px py

-- A picture that is the driver's own.
pub still :
    (d : GpuDriver) (picture : ℕ → ℕ → Rgb)
    → IsValid d
    → ((px py : ℕ) → px < d.width → py < d.height → pixel d px py ≡ picture px py)
    → Shows d picture d
still d picture v same = record {
  valid = v;
  width = refl;
  height = refl;
  depth = refl;
  pixels = same;
}
