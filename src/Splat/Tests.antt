-- ===== src/Splat/Tests.antt =====
-- Two windows of kernel/src/splat.rs, moved, clicked and written to.
use polymorph_os.Prelude.{
  ℕ, ◌<◌, ◌≤◌, ◌≡◌, refl, true, false, inr, ◌⊎◌, List, [], ◌∷◌, none, some, arith, done, length,
  replicate,
}
use polymorph_os.Prelude.{pos, negsuc, leℤ, sub_i32, add_i32, abs_i32}
use polymorph_os.GpuDriver.{GpuDriver}
use polymorph_os.GpuDriver.Pixels.{IsValid}
use polymorph_os.Splat.{
  SemanticWindow, Geometry, WindowState, GaussianSplat, stable, transitioning, instantiated,
  maximized, dead, start_transition, trigger_maximize, trigger_restore, trigger_close,
}
use polymorph_os.Splat.Transitions.{updates, Same, start_transition_lem, restore-maximize}
use polymorph_os.Splat.Depth.{slide_z-arrives}
use polymorph_os.Splat.Engine.{
  SplatEngine, Pointer, Focused, find_clicked, click_in, click_stable, on_button, on_title, on_body,
}
use polymorph_os.Splat.Engine.Focus.{Missed, Clicked, find_clicked_lem}
use polymorph_os.Splat.Render.{Projected, projected, render_single_splat}
use polymorph_os.Splat.Render.Drawn.{KeepsOutside, box_of, render_single_splat_lem}
use polymorph_os.Splat.Texts.{write_str, AreAscii, logged, write_str-ascii}

abbrev here : Geometry
here = record { w = pos 400; h = pos 300; x = pos 50; y = pos 60 }

abbrev there : Geometry
there = record { w = pos 40; h = pos 40; x = pos 10; y = pos 10 }

abbrev window : ℕ → Geometry → WindowState → SemanticWindow
window id shape state = record {
  id = id;
  shape = shape;
  normal = shape;
  base_z = pos 0;
  target_z = pos 300;
  state = state;
  text_buffer = b'h' ∷ b'i' ∷ [];
  input_buffer = [];
  splat_cloud = [];
}

abbrev floating : SemanticWindow
floating = window 1 here (stable instantiated)

abbrev behind : SemanticWindow
behind = window 2 here (stable instantiated)

start_transition_lem_example :
    ((n : ℕ)
      → n < 15
      → (win' : SemanticWindow) × (updates n (start_transition there dead floating) ≡ done win')
        × (win'.state ≡ transitioning (pos n) (pos 15) here there dead)
        × Same floating win')
    × ((win' : SemanticWindow) × (updates 15 (start_transition there dead floating) ≡ done win')
        × (win'.state ≡ stable dead)
        × (win'.shape ≡ there)
        × Same floating win')
start_transition_lem_example = start_transition_lem there dead floating

restore-maximize_example :
    (full back : SemanticWindow) × (updates 15 (trigger_maximize (pos 800) (pos 600) floating)
      ≡ done full)
    × (full.state ≡ stable maximized)
    × (full.shape ≡ record { w = pos 800; h = pos 600; x = pos 0; y = pos 0 })
    × (updates 15 (trigger_restore full) ≡ done back)
    × (back.state ≡ stable instantiated)
    × (back.shape ≡ here)
restore-maximize_example = restore-maximize (pos 800) (pos 600) floating refl

-- A window that has sunk stays as it is in the background.
abbrev sunken : SemanticWindow
sunken = record behind { base_z = pos 300 }

abbrev button_up : Pointer
button_up = record {
  cursor_x = pos 100;
  cursor_y = pos 200;
  left_click = false;
  is_dragging = true;
  drag_offset_x = pos 0;
  drag_offset_y = pos 0;
}

abbrev closing_last : SplatEngine
closing_last = record {
  nebula_splats = [];
  launchers = [];
  windows = sunken ∷ trigger_close (pos 10) (pos 10) floating ∷ [];
  instance_counter = 3;
}

slide_z-arrives_example :
    (win' : SemanticWindow) × (updates 18 floating ≡ done win')
    × (win'.base_z ≡ pos 300)
    × (win'.state ≡ stable instantiated)
    × (win'.shape ≡ here)
slide_z-arrives_example =
    slide_z-arrives instantiated floating 0 300 refl refl refl (omega arith) (inr refl)

-- A click into the body that the two windows share.
abbrev click : Pointer
click = record {
  cursor_x = pos 100;
  cursor_y = pos 200;
  left_click = true;
  is_dragging = false;
  drag_offset_x = pos 0;
  drag_offset_y = pos 0;
}

clicked :
    find_clicked [] (pos 800) (pos 600) click (behind ∷ floating ∷ [])
    ≡ done (some (behind ∷ floating ∷ [], click))
unfolding find_clicked click_in click_stable on_button on_title on_body sub_i32 add_i32 abs_i32
clicked = refl

find_clicked_lem_example :
    (◌≡◌ {A = Focused} (some (behind ∷ floating ∷ [], click)) none
      × Missed [] (pos 800) (pos 600) click (behind ∷ floating ∷ []))
    ⊎ ((windows' : List SemanticWindow) × (p' : Pointer) × ◌≡◌ {A = Focused}
          (some (behind ∷ floating ∷ [], click))
          (some (windows', p'))
        × Clicked [] (pos 800) (pos 600) click (behind ∷ floating ∷ []) windows' p')
find_clicked_lem_example =
    find_clicked_lem [] (pos 800) (pos 600) click (behind ∷ floating ∷ [])
      (some (behind ∷ floating ∷ [], click)) clicked

-- A screen of four columns and three rows.
abbrev screen : GpuDriver
screen = record {
  back_buffer = replicate 48 9;
  nebula_buffer = replicate 48 0;
  width = 4;
  height = 3;
  bytes_per_pixel = 4;
}

screen-IsValid : IsValid screen
screen-IsValid = record {
  size = refl;
  depth = omega arith;
  width_fits = omega arith;
  height_fits = omega arith;
}

abbrev red : GaussianSplat
red = record {
  x = pos 1;
  y = pos 1;
  z = pos 10;
  scale_x = pos 1;
  scale_y = pos 1;
  r = 255;
  g = 0;
  b = 0;
  opacity = 200;
}

render_single_splat_lem_example :
    (d' : GpuDriver) × (render_single_splat red screen ≡ done d')
    × (((leℤ (sub_i32 (pos 10) (negsuc 499)) (pos 0) ≡ true) × (d' ≡ screen))
        ⊎ ((q : Projected) × (projected screen red (sub_i32 (pos 10) (negsuc 499)) ≡ done q)
            × KeepsOutside (box_of screen q) screen d'))
render_single_splat_lem_example = render_single_splat_lem red screen screen-IsValid

abbrev two_windows : SplatEngine
two_windows = record {
  nebula_splats = [];
  launchers = [];
  windows = behind ∷ floating ∷ [];
  instance_counter = 3;
}

abbrev message : List ℕ
message = b'o' ∷ b'k' ∷ []

write_str-ascii_example :
    (write_str message two_windows
      ≡ done (record two_windows {
        windows = behind ∷ record floating { text_buffer = logged (b'h' ∷ b'i' ∷ []) message } ∷ [];
      }))
    × AreAscii (logged (b'h' ∷ b'i' ∷ []) message)
    × (length (logged (b'h' ∷ b'i' ∷ []) message) ≤ 2000)
write_str-ascii_example =
    write_str-ascii message two_windows (behind ∷ []) floating refl (omega arith) (omega arith)
      (omega arith) (omega arith)
