-- ===== src/Splat.antt =====
-- kernel/src/splat.rs: the splats that windows are made of, and a window with its state machine. All
-- arithmetic is that of i32 in a release build. A text is the list of its characters' code points; the
-- `id` of a window stands in its first line.
pub mod Render
pub mod Engine
pub mod Transitions
pub mod Depth
pub mod Texts
mod Tests
use polymorph_os.Prelude.{
  ℕ, zero, suc, ◌+◌, ◌-◌, ◌%◌, ◌^◌, Bool, true, false, not, List, [], ◌∷◌, ◌++◌, Run, done, panic,
  ◌>>=◌, if◌then◌else◌, ◌==◌, ltb, leb,
}
use polymorph_os.Prelude.{
  ℤ, pos, negsuc, ltℤ, leℤ, eqℤ, minℤ, maxℤ, half, quotient, add_i32, sub_i32, mul_i32, div_i32,
  abs_i32,
}
use polymorph_os.Mfs.Text.{print_u64}

pub record GaussianSplat : Type 0 where
  pub x : ℤ
  pub y : ℤ
  pub z : ℤ
  pub scale_x : ℤ
  pub scale_y : ℤ
  pub r : ℕ
  pub g : ℕ
  pub b : ℕ
  pub opacity : ℕ

pub data WindowMode : Type 0 where
  instantiated : WindowMode
  maximized : WindowMode
  dead : WindowMode

pub record Geometry : Type 0 where
  pub w : ℤ
  pub h : ℤ
  pub x : ℤ
  pub y : ℤ

-- `Transitioning` has its progress, its maximum, the geometry `s_*` at its start and `t_*` at its end,
-- and `final_mode`.
pub data WindowState : Type 0 where
  stable : WindowMode → WindowState
  transitioning : ℤ → ℤ → Geometry → Geometry → WindowMode → WindowState

pub record SemanticWindow : Type 0 where
  pub id : ℕ
  pub shape : Geometry
  pub normal : Geometry
  pub base_z : ℤ
  pub target_z : ℤ
  pub state : WindowState
  pub text_buffer : List ℕ
  pub input_buffer : List ℕ
  pub splat_cloud : List GaussianSplat

abbrev ten : ℤ
ten = pos 10

abbrev thickness : ℤ
thickness = pos 4

abbrev splat_at : ℤ → ℤ → ℤ → ℤ → ℤ → ℕ → ℕ → ℕ → ℕ → GaussianSplat
splat_at x y z scale_x scale_y r g b opacity = record {
  x = x;
  y = y;
  z = z;
  scale_x = scale_x;
  scale_y = scale_y;
  r = r;
  g = g;
  b = b;
  opacity = opacity;
}

-- The three buttons of a window that stands still.
unfoldable pub buttons : WindowState → Geometry → ℤ → List GaussianSplat
buttons (transitioning p m s t f) g z = []
buttons (stable dead) g z = []
buttons (stable mode) g z =
    let right = add_i32 g.x g.w in
    let by = add_i32 g.y (pos 15) in
    let bz = add_i32 z (pos 14) in
    splat_at (sub_i32 right (pos 25)) by bz (pos 12) (pos 12) 255 50 50 200
    ∷ splat_at (sub_i32 right (pos 55)) by bz (pos 12) (pos 12) 255 200 50 200
    ∷ splat_at (sub_i32 right (pos 85)) by bz (pos 12) (pos 12) 50 255 100 200
    ∷ []

-- The splats of a window: its body, its four borders, its buttons.
unfoldable pub cloud : WindowState → Geometry → ℤ → List GaussianSplat
cloud state g z =
    let cx = add_i32 g.x (half g.w) in
    let cy = add_i32 g.y (half g.h) in
    let border_z = add_i32 z (pos 12) in
    (splat_at cx cy (add_i32 z ten) (maxℤ (half g.w) ten) (maxℤ (half g.h) ten) 5 10 15 220
      ∷ splat_at cx g.y border_z (half g.w) thickness 0 255 200 120
      ∷ splat_at cx (add_i32 g.y g.h) border_z (half g.w) thickness 0 100 255 90
      ∷ splat_at g.x cy border_z thickness (half g.h) 0 150 255 90
      ∷ splat_at (add_i32 g.x g.w) cy border_z thickness (half g.h) 0 150 255 90
      ∷ [])
    ++ buttons state g z

unfoldable pub generate_cloud : SemanticWindow → SemanticWindow
generate_cloud win = record win { splat_cloud = cloud win.state win.shape win.base_z }

-- `Instance {} Instantiated.\n`
unfoldable pub greeting : ℕ → List ℕ
greeting id =
    (b'I' ∷ b'n' ∷ b's' ∷ b't' ∷ b'a' ∷ b'n' ∷ b'c' ∷ b'e' ∷ b' ' ∷ [])
    ++ (print_u64 id
        ++ (b' ' ∷ b'I' ∷ b'n' ∷ b's' ∷ b't' ∷ b'a' ∷ b'n' ∷ b't' ∷ b'i' ∷ b'a' ∷ b't' ∷ b'e' ∷ b'd'
            ∷ b'.' ∷ b'\n' ∷ []))

unfoldable pub spawn : ℕ → ℤ → ℤ → ℤ → ℤ → SemanticWindow
spawn id origin_x origin_y target_w target_h =
    let small : Geometry = record { w = pos 40; h = pos 40; x = origin_x; y = origin_y } in
    let target : Geometry = record {
      w = target_w;
      h = target_h;
      x = sub_i32 origin_x (half target_w);
      y = sub_i32 origin_y (half target_h);
    } in
    generate_cloud (record {
      id = id;
      shape = small;
      normal = target;
      base_z = pos 0;
      target_z = pos 0;
      state = transitioning (pos 0) (pos 15) small target instantiated;
      text_buffer = greeting id;
      input_buffer = [];
      splat_cloud = [];
    })

-- A step of the slide in depth.
unfoldable pub slide_z : ℤ → ℤ → ℤ
slide_z base_z target_z =
    let diff = sub_i32 target_z base_z in
    if ltℤ (abs_i32 diff) (pos 5) then target_z else add_i32 base_z (quotient diff 4)

-- `s + ((t - s) * factor) / 100`
unfoldable pub eased : ℤ → ℤ → ℤ → ℤ
eased factor s t = add_i32 s (quotient (mul_i32 (sub_i32 t s) factor) 100)

abbrev pub eased_geometry : ℤ → Geometry → Geometry → Geometry
eased_geometry factor s t = record {
  w = eased factor s.w t.w;
  h = eased factor s.h t.h;
  x = eased factor s.x t.x;
  y = eased factor s.y t.y;
}

-- `(p * (2 * max - p) * 100) / (max * max)`
unfoldable pub ease_out {ℓ} : {E : Type ℓ} → ℤ → ℤ → Run E ℤ
ease_out p max =
    div_i32 (mul_i32 (mul_i32 p (sub_i32 (mul_i32 (pos 2) max) p)) (pos 100)) (mul_i32 max max)

-- The part of `update_physics` that slides the window in depth.
unfoldable pub update_depth : SemanticWindow → SemanticWindow × Bool
update_depth win =
    if eqℤ win.base_z win.target_z
    then (win, false)
    else (generate_cloud (record win { base_z = slide_z win.base_z win.target_z }), true)

-- The part of `update_physics` that moves the window on in its transition.
unfoldable pub update_state : WindowState → SemanticWindow → Bool → Run ⊥ (SemanticWindow × Bool)
update_state (stable mode) win redrew = done (win, redrew)
update_state (transitioning progress max s t final_mode) win redrew =
    let p = add_i32 progress (pos 1) in
    ease_out p max >>= λ factor.
    let moved : SemanticWindow =
      if leℤ max p then record win { shape = t; state = stable final_mode } else record win {
        shape = eased_geometry factor s t;
        state = transitioning p max s t final_mode;
      } in
    done (generate_cloud moved, true)

unfoldable pub update_physics : SemanticWindow → Run ⊥ (SemanticWindow × Bool)
update_physics win = let (win', redrew) = update_depth win in update_state win'.state win' redrew

abbrev pub start_transition : Geometry → WindowMode → SemanticWindow → SemanticWindow
start_transition t final_mode win = record win {
  state = transitioning (pos 0) (pos 15) win.shape t final_mode;
}

unfoldable pub trigger_close : ℤ → ℤ → SemanticWindow → SemanticWindow
trigger_close launcher_x launcher_y win =
    start_transition (record { w = pos 40; h = pos 40; x = launcher_x; y = launcher_y }) dead win

abbrev pub is_normal : WindowState → Bool
is_normal (stable instantiated) = true
is_normal (stable maximized) = false
is_normal (stable dead) = false
is_normal (transitioning p m s t f) = false

unfoldable pub trigger_maximize : ℤ → ℤ → SemanticWindow → SemanticWindow
trigger_maximize screen_w screen_h win =
    let saved : SemanticWindow =
      if is_normal win.state then record win { normal = win.shape } else win in
    start_transition (record { w = screen_w; h = screen_h; x = pos 0; y = pos 0 }) maximized saved

unfoldable pub trigger_restore : SemanticWindow → SemanticWindow
trigger_restore win = start_transition win.normal instantiated win

unfoldable pub move_to : ℤ → ℤ → SemanticWindow → SemanticWindow
move_to new_x new_y win =
    generate_cloud (record win { shape = record win.shape { x = new_x; y = new_y } })
