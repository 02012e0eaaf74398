-- ===== src/Splat/Engine.antt =====
-- kernel/src/splat.rs: the engine that holds the windows, and what a frame of `render_desktop` does with
-- them and with the pointer. The statics that `render_desktop` works on are the record `Pointer`.
pub mod Ticks
pub mod Focus
use polymorph_os.Prelude.{
  ℕ, zero, suc, ◌+◌, ◌-◌, ◌%◌, ◌^◌, Bool, true, false, List, [], ◌∷◌, ◌++◌, Option, none, some, Run,
  done, fail, panic, ◌>>=◌, if◌then◌else◌, ◌&&◌, ◌||◌, ltb, ◌==◌,
}
use polymorph_os.Prelude.{ℤ, pos, negsuc, ltℤ, leℤ, half, add_i32, sub_i32, abs_i32}
use polymorph_os.Splat.{
  SemanticWindow, Geometry, WindowState, WindowMode, stable, transitioning, instantiated, maximized,
  dead, GaussianSplat, update_physics, trigger_close, trigger_restore, trigger_maximize, spawn,
  generate_cloud,
}

pub record AppLauncher : Type 0 where
  pub x : ℤ
  pub y : ℤ
  pub radius : ℤ

pub record SplatEngine : Type 0 where
  pub nebula_splats : List GaussianSplat
  pub launchers : List AppLauncher
  pub windows : List SemanticWindow
  pub instance_counter : ℕ

unfoldable pub new : SplatEngine
new = record { nebula_splats = []; launchers = []; windows = []; instance_counter = 1 }

-- `w.state != WindowState::Stable(WindowMode::Dead)`
unfoldable pub is_alive : WindowState → Bool
is_alive (stable instantiated) = true
is_alive (stable maximized) = true
is_alive (stable dead) = false
is_alive (transitioning p m s t f) = true

-- One window of the loop of `tick_physics`, and whether `retain` keeps it.
abbrev pub retained : SemanticWindow → List SemanticWindow → List SemanticWindow
retained win windows = if is_alive win.state then win ∷ windows else windows

unfoldable pub tick_windows : List SemanticWindow → Run ⊥ (List SemanticWindow × Bool)
tick_windows [] = done ([], false)
tick_windows (win ∷ windows) = update_physics win >>= λ (win', moved).
    tick_windows windows >>= λ (windows', redrew). done (retained win' windows', moved || redrew)

unfoldable pub tick_physics : SplatEngine → Run ⊥ (SplatEngine × Bool)
tick_physics engine = tick_windows engine.windows >>= λ (windows, redrew).
    done (record engine { windows = windows }, redrew)

-- CURSOR_X, CURSOR_Y, LEFT_CLICK, IS_DRAGGING, DRAG_OFFSET_X and DRAG_OFFSET_Y.
pub record Pointer : Type 0 where
  pub cursor_x : ℤ
  pub cursor_y : ℤ
  pub left_click : Bool
  pub is_dragging : Bool
  pub drag_offset_x : ℤ
  pub drag_offset_y : ℤ

-- `(c - b).abs() < 15`
abbrev near : ℤ → ℤ → Bool
near c b = ltℤ (abs_i32 (sub_i32 c b)) (pos 15)

unfoldable pub on_button : Pointer → Geometry → ℤ → Bool
on_button p g from_right =
    near p.cursor_x (sub_i32 (add_i32 g.x g.w) from_right) && near p.cursor_y (add_i32 g.y (pos 15))

abbrev between : ℤ → ℤ → ℤ → Bool
between lo hi c = leℤ lo c && leℤ c hi

unfoldable pub on_title : Pointer → Geometry → Bool
on_title p g =
    between g.x (add_i32 g.x g.w) p.cursor_x && between g.y (add_i32 g.y (pos 40)) p.cursor_y

unfoldable pub on_body : Pointer → Geometry → Bool
on_body p g = between g.x (add_i32 g.x g.w) p.cursor_x && between g.y (add_i32 g.y g.h) p.cursor_y

abbrev pub Hit : Type 0
Hit = Option (SemanticWindow × Pointer)

abbrev pub focus_body : Pointer → SemanticWindow → Hit
focus_body p win = if on_body p win.shape then some (win, p) else none

abbrev close_at : List AppLauncher → Pointer → SemanticWindow → Run ⊥ Hit
close_at [] p win = panic
close_at (l ∷ launchers) p win = done (some (trigger_close l.x l.y win, p))

-- The tests of a click on one window: its buttons and its title bar if it stands still, then its body.
-- `engine.launchers[0]` is out of range where there is no launcher.
unfoldable pub click_stable : List AppLauncher → ℤ → ℤ → Pointer → SemanticWindow → Run ⊥ Hit
click_stable launchers sw sh p win =
    if on_button p win.shape (pos 25)
    then close_at launchers p win
    else if on_button p win.shape (pos 55)
    then done (some (trigger_restore win, p))
    else if on_button p win.shape (pos 85)
    then done (some (trigger_maximize sw sh win, p))
    else if on_title p win.shape
    then done (
        some (
          win,
          record p {
            is_dragging = true;
            drag_offset_x = sub_i32 p.cursor_x win.shape.x;
            drag_offset_y = sub_i32 p.cursor_y win.shape.y;
          },
        ))
    else done (focus_body p win)

unfoldable pub click_in :
    WindowState → List AppLauncher → ℤ → ℤ → Pointer → SemanticWindow → Run ⊥ Hit
click_in (stable mode) launchers sw sh p win = click_stable launchers sw sh p win
click_in (transitioning g m s t f) launchers sw sh p win = done (focus_body p win)

abbrev pub click_window : List AppLauncher → ℤ → ℤ → Pointer → SemanticWindow → Run ⊥ Hit
click_window launchers sw sh p win = click_in win.state launchers sw sh p win

-- What the search has come to: the windows with the one hit, changed by its trigger, pushed behind the
-- others, and the pointer; or that no window is hit.
abbrev pub Focused : Type 0
Focused = Option (List SemanticWindow × Pointer)

abbrev pub focus_here : SemanticWindow → List SemanticWindow → Hit → Focused
focus_here win windows none = none
focus_here win windows (some (hit, p)) = some (windows ++ (hit ∷ []), p)

abbrev pub focus_later : SemanticWindow → Run ⊥ Focused → Focused → Run ⊥ Focused
focus_later win here none = here
focus_later win here (some (windows, p)) = done (some (win ∷ windows, p))

-- The search from the last window to the first, and the `remove` and `push` after it.
unfoldable pub find_clicked :
    List AppLauncher → ℤ → ℤ → Pointer → List SemanticWindow → Run ⊥ Focused
find_clicked launchers sw sh p [] = done none
find_clicked launchers sw sh p (win ∷ windows) = find_clicked launchers sw sh p windows >>= λ found.
    focus_later win
      (click_window launchers sw sh p win >>= λ hit. done (focus_here win windows hit)) found

-- `(cx - l.x).abs() < l.radius && (cy - l.y).abs() < l.radius`
abbrev on_launcher : Pointer → AppLauncher → Bool
on_launcher p l =
    ltℤ (abs_i32 (sub_i32 p.cursor_x l.x)) l.radius
    && ltℤ (abs_i32 (sub_i32 p.cursor_y l.y)) l.radius

unfoldable pub launch : Pointer → List AppLauncher → SplatEngine → SplatEngine
launch p [] engine = engine
launch p (l ∷ launchers) engine =
    let rest = launch p launchers engine in
    if on_launcher p l
    then record engine {
      windows = engine.windows ++ (spawn engine.instance_counter l.x l.y (pos 800) (pos 600) ∷ []);
      instance_counter = (engine.instance_counter + 1) % 2 ^ 32;
    }
    else rest

abbrev after_search : Pointer → SplatEngine → Focused → SplatEngine × Pointer
after_search p engine (some (windows, p')) = (record engine { windows = windows }, p')
after_search p engine none =
    if p.is_dragging then (engine, p) else (launch p engine.launchers engine, p)

-- The first part of `render_desktop`: the click, or the end of a drag.
unfoldable pub handle_pointer : ℤ → ℤ → Pointer → SplatEngine → Run ⊥ (SplatEngine × Pointer)
handle_pointer sw sh p engine =
    if p.left_click
    then (find_clicked engine.launchers sw sh p engine.windows >>= λ found.
        done (after_search p engine found))
    else done (engine, record p { is_dragging = false })

-- The last window comes to the front, the others sink.
unfoldable pub parallax : List SemanticWindow → List SemanticWindow
parallax [] = []
parallax (win ∷ []) = record win { target_z = pos 0 } ∷ []
parallax (win ∷ next ∷ windows) = record win { target_z = pos 300 } ∷ parallax (next ∷ windows)

-- The last window follows the cursor.
unfoldable pub drag_last : Pointer → List SemanticWindow → List SemanticWindow
drag_last p [] = []
drag_last p (win ∷ []) =
    generate_cloud (record win {
      shape = record win.shape {
        x = sub_i32 p.cursor_x p.drag_offset_x;
        y = sub_i32 p.cursor_y p.drag_offset_y;
      };
    })
    ∷ []
drag_last p (win ∷ next ∷ windows) = win ∷ drag_last p (next ∷ windows)

-- `render_desktop` up to the drawing.
unfoldable pub step_desktop : ℤ → ℤ → Pointer → SplatEngine → Run ⊥ (SplatEngine × Pointer)
step_desktop sw sh p engine = handle_pointer sw sh p engine >>= λ (engine1, p1).
    let placed = parallax engine1.windows in
    let dragged = if p1.is_dragging then drag_last p1 placed else placed in
    tick_physics (record engine1 { windows = dragged }) >>= λ (engine2, redrew). done (engine2, p1)
