-- ===== src/Splat/Render.antt =====
-- kernel/src/splat.rs: the drawing of a splat, with its perspective and its falloff, and of a window's
-- body.
pub mod Drawn
use polymorph_os.Prelude.{
  ℕ, zero, suc, ◌+◌, ◌-◌, ◌*◌, ◌/◌, ◌%◌, ◌^◌, Bool, true, false, List, [], ◌∷◌, Run, done, panic,
  ◌>>=◌, if◌then◌else◌, ltb,
}
use polymorph_os.Prelude.{
  ℤ, pos, negsuc, ◌+ℤ◌, negate, ltℤ, leℤ, minℤ, maxℤ, half, quotient, add_i32, sub_i32, mul_i32,
  div_i32, as_i32, bits_of,
}
use polymorph_os.GpuDriver.{GpuDriver, blend_pixel}
use polymorph_os.Splat.{GaussianSplat, SemanticWindow}

-- A splat on the screen: its centre, and its scale on either axis.
pub record Projected : Type 0 where
  pub x : ℤ
  pub y : ℤ
  pub scale_x : ℤ
  pub scale_y : ℤ

-- `(scale * scale / 128).max(1)`
abbrev pub scale_fac : ℤ → ℤ
scale_fac scale = maxℤ (quotient (mul_i32 scale scale) 128) (pos 1)

unfoldable pub falloff_at : Projected → ℤ → ℤ → Run ⊥ ℤ
falloff_at q px py =
    let dx = sub_i32 px q.x in
    let dy = sub_i32 py q.y in
    div_i32 (mul_i32 dx dx) (scale_fac q.scale_x) >>= λ over_x.
    div_i32 (mul_i32 dy dy) (scale_fac q.scale_y) >>= λ over_y. done (add_i32 over_x over_y)

-- `((255 - falloff as u32) * opacity as u32) / 255`, with u32's wrap-around.
unfoldable pub alpha_of : ℤ → ℕ → ℕ
alpha_of falloff opacity =
    let intensity = (255 + 2 ^ 32 - bits_of 32 falloff) % 2 ^ 32 in
    intensity * opacity % 2 ^ 32 / 255

module _ (splat : GaussianSplat) (q : Projected) where
  unfoldable pub splat_pixel : ℤ → ℤ → GpuDriver → Run ⊥ GpuDriver
  splat_pixel px py d = falloff_at q px py >>= λ falloff.
      if ltℤ falloff (pos 255)
      then (let alpha = alpha_of falloff splat.opacity in
          if ltb 0 alpha then blend_pixel d px py splat.r splat.g splat.b (alpha % 256) else done d)
      else done d

  -- `for px in min_x..max_x`, with `n` columns left.
  unfoldable pub splat_row : ℕ → ℤ → ℤ → GpuDriver → Run ⊥ GpuDriver
  splat_row zero px py d = done d
  splat_row (suc n) px py d = splat_pixel px py d >>= λ d'. splat_row n (px +ℤ pos 1) py d'

  -- `for py in min_y..max_y`, with `n` rows left, each of `cols` columns from `min_x` on.
  unfoldable pub splat_rows : ℕ → ℕ → ℤ → ℤ → GpuDriver → Run ⊥ GpuDriver
  splat_rows zero cols min_x py d = done d
  splat_rows (suc n) cols min_x py d =
      splat_row cols min_x py d >>= λ d'. splat_rows n cols min_x (py +ℤ pos 1) d'

-- The number of values in `lo..hi`.
abbrev pub span_of : ℤ → ℕ
span_of (pos n) = n
span_of (negsuc n) = 0

abbrev pub span : ℤ → ℤ → ℕ
span lo hi = span_of (hi +ℤ negate lo)

-- `centre + ((v - centre) * focal_length) / z_dist`
unfoldable pub project : ℤ → ℤ → ℤ → Run ⊥ ℤ
project centre z_dist v =
    div_i32 (mul_i32 (sub_i32 v centre) (pos 500)) z_dist >>= λ offset. done (add_i32 centre offset)

unfoldable pub project_scale : ℤ → ℤ → Run ⊥ ℤ
project_scale z_dist scale = div_i32 (mul_i32 scale (pos 500)) z_dist

unfoldable pub projected : GpuDriver → GaussianSplat → ℤ → Run ⊥ Projected
projected d splat z_dist = project (half (as_i32 (pos d.width))) z_dist splat.x >>= λ x.
    project (half (as_i32 (pos d.height))) z_dist splat.y >>= λ y.
    project_scale z_dist splat.scale_x >>= λ scale_x.
    project_scale z_dist splat.scale_y >>= λ scale_y.
    done (record { x = x; y = y; scale_x = scale_x; scale_y = scale_y })

-- The bounding box, cut at the edges of a screen of `size`.
abbrev pub low_edge : ℤ → ℤ → ℤ
low_edge centre scale = maxℤ (pos 0) (sub_i32 centre (mul_i32 scale (pos 2)))

abbrev pub high_edge : ℕ → ℤ → ℤ → ℤ
high_edge size centre scale = minℤ (as_i32 (pos size)) (add_i32 centre (mul_i32 scale (pos 2)))

unfoldable pub draw_projected : GaussianSplat → Projected → GpuDriver → Run ⊥ GpuDriver
draw_projected splat q d =
    let min_x = low_edge q.x q.scale_x in
    let max_x = high_edge d.width q.x q.scale_x in
    let min_y = low_edge q.y q.scale_y in
    let max_y = high_edge d.height q.y q.scale_y in
    splat_rows splat q (span min_y max_y) (span min_x max_x) min_x min_y d

unfoldable pub render_single_splat : GaussianSplat → GpuDriver → Run ⊥ GpuDriver
render_single_splat splat d =
    let z_dist = sub_i32 splat.z (negsuc 499) in
    if leℤ z_dist (pos 0)
    then done d
    else (projected d splat z_dist >>= λ q. draw_projected splat q d)

unfoldable pub render_splats : List GaussianSplat → GpuDriver → Run ⊥ GpuDriver
render_splats [] d = done d
render_splats (splat ∷ splats) d = render_single_splat splat d >>= λ d'. render_splats splats d'

unfoldable pub render_body : SemanticWindow → GpuDriver → Run ⊥ GpuDriver
render_body win d = render_splats win.splat_cloud d
