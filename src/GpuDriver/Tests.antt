-- ===== src/GpuDriver/Tests.antt =====
-- Runs of the drawing of kernel/src/gpu_driver.rs on a screen of two by two pixels.
use polymorph_os.Prelude.{◌≡◌, refl, arith, ◌&&◌, if◌then◌else◌, [], ◌∷◌, Run, done, pos, negsuc}
use polymorph_os.GpuDriver.{GpuDriver, draw_glass_rect, fill_chunks}
use polymorph_os.GpuDriver.Pixels.{IsValid, Rgb, pixel, Shows}
use polymorph_os.GpuDriver.Drawing.{tint}
use polymorph_os.GpuDriver.Glass.{draw_glass_rect_lem}
use polymorph_os.GpuDriver.Clip.{covers}

abbrev screen : GpuDriver
screen = record {
  back_buffer = 10 ∷ 20 ∷ 30 ∷ 40 ∷ 50 ∷ 60 ∷ 70 ∷ 80 ∷ 90 ∷ 100 ∷ 110 ∷ 120 ∷ [];
  nebula_buffer = [];
  width = 2;
  height = 2;
  bytes_per_pixel = 3;
}

screen-IsValid : IsValid screen
screen-IsValid = record {
  size = refl;
  depth = omega arith;
  width_fits = omega arith;
  height_fits = omega arith;
}

abbrev red : Rgb
red = record { r = 200; g = 0; b = 0 }

-- A rectangle of two by two from (-1, -1) on, of which one pixel is on the screen.
abbrev glazed : Run ⊥ GpuDriver
glazed = draw_glass_rect screen (negsuc 0) (negsuc 0) (pos 2) (pos 2) 200 0 0 128

one_pixel :
    glazed
    ≡ done (record screen {
      back_buffer = 4 ∷ 9 ∷ 114 ∷ 40 ∷ 50 ∷ 60 ∷ 70 ∷ 80 ∷ 90 ∷ 100 ∷ 110 ∷ 120 ∷ [];
    })
unfolding draw_glass_rect
one_pixel = refl

draw_glass_rect_lem_example :
    (d' : GpuDriver) × (glazed ≡ done d')
    × Shows screen
        (λ px py.
          if covers (negsuc 0) (pos 2) px && covers (negsuc 0) (pos 2) py
          then tint 128 red (pixel screen px py)
          else pixel screen px py)
        d'
draw_glass_rect_lem_example =
    draw_glass_rect_lem screen (negsuc 0) (negsuc 0) (pos 2) (pos 2) 200 0 0 128 screen-IsValid refl
      refl

-- The bytes behind the last whole chunk stay.
odd_buffer :
    fill_chunks (1 ∷ 2 ∷ 3 ∷ 255 ∷ []) (9 ∷ 9 ∷ 9 ∷ 9 ∷ 7 ∷ 8 ∷ []) ≡ 1 ∷ 2 ∷ 3 ∷ 255 ∷ 7 ∷ 8 ∷ []
unfolding fill_chunks
odd_buffer = refl
