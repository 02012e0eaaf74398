-- ===== src/GpuDriver.antt =====
-- kernel/src/gpu_driver.rs: the software frame buffers and the drawing of pixels. `GpuDriver` holds the
-- fields; the boot loader's frame buffer is an argument of `new`, by its length and its `info`, and
-- nothing else is done with it. Coordinates are i32, whose sums wrap; offsets are usize. The display that
-- `swap_buffers` hands the pixels to is the driver of kernel/src/virtio_gpu.rs.
pub mod Pixels
pub mod Drawing
pub mod Clip
pub mod Glass
mod Tests
use polymorph_os.Prelude.{
  ℕ, zero, suc, ◌+◌, ◌-◌, ◌*◌, ◌/◌, ◌%◌, ◌^◌, Bool, true, false, ◌||◌, ◌&&◌, ◌==◌, if◌then◌else◌,
  List, [], ◌∷◌, ◌++◌,
}
use polymorph_os.Prelude.{
  Option, none, some, Run, done, panic, ◌>>=◌, read_at, write_at, Bytes, length, replicate, drop,
  not,
}
use polymorph_os.Prelude.{ℤ, pos, negsuc, ◌+ℤ◌, ltℤ, leℤ, minℤ, maxℤ, as_i32, as_usize}
use polymorph_os.VirtioGpu.{VirtioGpuDriver, flush_to_screen}

pub record GpuDriver : Type 0 where
  pub back_buffer : Bytes
  pub nebula_buffer : Bytes
  pub width : ℕ
  pub height : ℕ
  pub bytes_per_pixel : ℕ

-- The parts of the boot loader's frame buffer that the code reads.
pub record FrameBuffer : Type 0 where
  pub len : ℕ
  pub width : ℕ
  pub height : ℕ
  pub bytes_per_pixel : ℕ

pub new : FrameBuffer → GpuDriver
new fb = record {
  back_buffer = replicate fb.len 0;
  nebula_buffer = replicate fb.len 0;
  width = fb.width;
  height = fb.height;
  bytes_per_pixel = fb.bytes_per_pixel;
}

-- `copy_from_slice` panics on slices of different lengths.
pub save_to_nebula_cache : GpuDriver → Run ⊥ GpuDriver
save_to_nebula_cache d =
    if length d.nebula_buffer == length d.back_buffer
    then done (record d { nebula_buffer = d.back_buffer })
    else panic

pub restore_from_nebula_cache : GpuDriver → Run ⊥ GpuDriver
restore_from_nebula_cache d =
    if length d.back_buffer == length d.nebula_buffer
    then done (record d { back_buffer = d.nebula_buffer })
    else panic

pub resize_to_hardware : GpuDriver → ℕ → ℕ → GpuDriver
resize_to_hardware d new_width new_height =
    if (d.width == new_width) && (d.height == new_height)
    then d
    else (let new_size = new_width * new_height * d.bytes_per_pixel in
        record d {
          width = new_width;
          height = new_height;
          back_buffer = replicate new_size 0;
          nebula_buffer = replicate new_size 0;
        })

-- Three bytes from an offset on.
abbrev pub store : GpuDriver → ℕ → ℕ → ℕ → ℕ → Run ⊥ GpuDriver
store d offset r g b = write_at d.back_buffer offset b >>= λ buffer.
    write_at buffer (offset + 1) g >>= λ buffer.
    write_at buffer (offset + 2) r >>= λ buffer. done (record d { back_buffer = buffer })

-- `((c * a) + (bg * (255 - a))) >> 8`
abbrev pub mix : ℕ → ℕ → ℕ → ℕ
mix a c bg = (c * a + bg * (255 - a)) / 2 ^ 8 % 256

-- The three bytes from an offset on, mixed with a colour.
abbrev pub blend : GpuDriver → ℕ → ℕ → ℕ → ℕ → ℕ → Run ⊥ GpuDriver
blend d offset r g b a = read_at d.back_buffer offset >>= λ bg_b.
    read_at d.back_buffer (offset + 1) >>= λ bg_g. read_at d.back_buffer (offset + 2) >>= λ bg_r.
    store d offset (mix a r bg_r) (mix a g bg_g) (mix a b bg_b)

-- `x < 0 || y < 0 || x >= self.width as i32 || y >= self.height as i32`
abbrev pub is_off_screen : GpuDriver → ℤ → ℤ → Bool
is_off_screen d x y =
    ltℤ x (pos 0)
    || (ltℤ y (pos 0) || (leℤ (as_i32 (pos d.width)) x || leℤ (as_i32 (pos d.height)) y))

pub draw_pixel : GpuDriver → ℤ → ℤ → ℕ → ℕ → ℕ → Run ⊥ GpuDriver
draw_pixel d x y r g b =
    if is_off_screen d x y
    then done d
    else store d ((as_usize y * d.width + as_usize x) * d.bytes_per_pixel) r g b

pub blend_pixel : GpuDriver → ℤ → ℤ → ℕ → ℕ → ℕ → ℕ → Run ⊥ GpuDriver
unfolding draw_pixel
blend_pixel d x y r g b alpha =
    if alpha == 255
    then draw_pixel d x y r g b
    else (if alpha == 0
        then done d
        else (if is_off_screen d x y
            then done d
            else blend d ((as_usize y * d.width + as_usize x) * d.bytes_per_pixel) r g b alpha))

module _ (r g b alpha : ℕ) where
  -- `for px in start_x..end_x`, with `n` columns left.
  pub glass_row : ℕ → ℕ → ℕ → GpuDriver → Run ⊥ GpuDriver
  glass_row zero row_offset px d = done d
  glass_row (suc n) row_offset px d =
      let offset = row_offset + px * d.bytes_per_pixel in
      (if alpha == 255 then store d offset r g b else blend d offset r g b alpha) >>= λ d.
      glass_row n row_offset (px + 1) d

  -- `for py in start_y..end_y`, with `n` rows left.
  pub glass_rows : ℕ → ℕ → ℕ → ℕ → GpuDriver → Run ⊥ GpuDriver
  unfolding glass_row
  glass_rows zero cols start_x py d = done d
  glass_rows (suc n) cols start_x py d =
      glass_row cols (py * d.width * d.bytes_per_pixel) start_x d >>= λ d.
      glass_rows n cols start_x (py + 1) d

pub draw_glass_rect : GpuDriver → ℤ → ℤ → ℤ → ℤ → ℕ → ℕ → ℕ → ℕ → Run ⊥ GpuDriver
unfolding glass_rows
draw_glass_rect d x y w h r g b alpha =
    if alpha == 0
    then done d
    else (let start_x = maxℤ (pos 0) x in
        let start_y = maxℤ (pos 0) y in
        let end_x = minℤ (as_i32 (x +ℤ w)) (as_i32 (pos d.width)) in
        let end_y = minℤ (as_i32 (y +ℤ h)) (as_i32 (pos d.height)) in
        if leℤ end_x start_x || leℤ end_y start_y
        then done d
        else glass_rows r g b alpha (as_usize end_y - as_usize start_y)
            (as_usize end_x - as_usize start_x) (as_usize start_x) (as_usize start_y) d)

-- `chunks_exact_mut(4)`: what is left behind the last whole chunk stays.
pub fill_chunks : Bytes → Bytes → Bytes
fill_chunks pattern (p0 ∷ p1 ∷ p2 ∷ p3 ∷ rest) = pattern ++ fill_chunks pattern rest
fill_chunks pattern rest = rest

module _ (r g b : ℕ) where
  pub clear_row : ℕ → ℕ → ℕ → GpuDriver → Run ⊥ GpuDriver
  unfolding draw_pixel
  clear_row zero y x d = done d
  clear_row (suc n) y x d =
      draw_pixel d (as_i32 (pos x)) (as_i32 (pos y)) r g b >>= λ d. clear_row n y (x + 1) d

  pub clear_rows : ℕ → ℕ → GpuDriver → Run ⊥ GpuDriver
  unfolding clear_row
  clear_rows zero y d = done d
  clear_rows (suc n) y d = clear_row d.width y 0 d >>= λ d. clear_rows n (y + 1) d

pub clear_screen : GpuDriver → ℕ → ℕ → ℕ → Run ⊥ GpuDriver
unfolding fill_chunks clear_rows
clear_screen d r g b =
    if d.bytes_per_pixel == 4
    then done (record d { back_buffer = fill_chunks (b ∷ g ∷ r ∷ 255 ∷ []) d.back_buffer })
    else clear_rows r g b d.height 0 d

-- The bytes at the backing store, where there is one, and the display driver, where there is one.
pub record Display : Type 0 where
  pub backing : Option Bytes
  pub virtio : Option VirtioGpuDriver

-- The pixels are copied to the start of the backing store, and the display is told to show it.
pub swap_buffers : GpuDriver → Display → Run ⊥ Display
swap_buffers d display = elim display.backing [
  | none ↦ done display
  | some bytes ↦
      let backing : Option Bytes = some (d.back_buffer ++ drop (length d.back_buffer) bytes) in
      elim display.virtio [
        | none ↦ done (record display { backing = backing })
        | some virtio ↦
            (flush_to_screen virtio 1 (d.width % 2 ^ 32) (d.height % 2 ^ 32) >>= λ virtio.
            done (record { backing = backing; virtio = some virtio }))
      ]
]
