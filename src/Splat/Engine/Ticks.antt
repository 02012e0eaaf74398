-- ===== src/Splat/Engine/Ticks.antt =====
-- The windows of kernel/src/splat.rs over the frames: each is updated by itself, and a closed one goes.
use polymorph_os.Prelude.{ℕ, zero, suc, false, List, [], ◌∷◌, ◌++◌, Bool, ◌||◌}
use polymorph_os.Prelude.{Run, done, ◌>>=◌}
use polymorph_os.Prelude.{ℤ, pos}
use polymorph_os.Splat.{SemanticWindow}
use polymorph_os.Splat.Engine.{SplatEngine, Pointer, retained, tick_windows, parallax, step_desktop}

abbrev windows_of : Run ⊥ (List SemanticWindow × Bool) → Run ⊥ (List SemanticWindow)
windows_of r = r >>= λ (windows, redrew). done windows

-- The windows after `tick_physics`.
abbrev pub tick : List SemanticWindow → Run ⊥ (List SemanticWindow)
tick windows = windows_of (tick_windows windows)

-- `n` frames of the desktop.
unfoldable pub frames : ℕ → ℤ → ℤ → Pointer → SplatEngine → Run ⊥ (SplatEngine × Pointer)
frames zero sw sh p engine = done (engine, p)
frames (suc n) sw sh p engine =
    step_desktop sw sh p engine >>= λ (engine', p'). frames n sw sh p' engine'

-- Windows over `n` frames in which nothing is clicked or dragged, where they are all the windows.
unfoldable pub alone : ℕ → List SemanticWindow → Run ⊥ (List SemanticWindow)
alone zero windows = done windows
alone (suc n) windows = tick (parallax windows) >>= alone n

-- Windows that sink, and over `n` frames in which they do: there is always a window in front of them.
abbrev pub sunk : List SemanticWindow → List SemanticWindow
sunk [] = []
sunk (win ∷ windows) = record win { target_z = pos 300 } ∷ sunk windows

unfoldable pub in_background : ℕ → List SemanticWindow → Run ⊥ (List SemanticWindow)
in_background zero windows = done windows
in_background (suc n) windows = tick (sunk windows) >>= in_background n

abbrev push_ticked :
    Run ⊥ (SemanticWindow × Bool)
    → Run ⊥ (List SemanticWindow × Bool)
    → Run ⊥ (List SemanticWindow × Bool)
push_ticked u r =
    u >>= λ (win, moved). r >>= λ (windows, redrew). done (retained win windows, moved || redrew)

abbrev push_kept :
    Run ⊥ (SemanticWindow × Bool) → Run ⊥ (List SemanticWindow) → Run ⊥ (List SemanticWindow)
push_kept u r = u >>= λ (win, moved). r >>= λ windows. done (retained win windows)

-- Two runs of windows, one after the other.
abbrev both :
    Run ⊥ (List SemanticWindow) → Run ⊥ (List SemanticWindow) → Run ⊥ (List SemanticWindow)
both r r' = r >>= λ a. r' >>= λ b. done (a ++ b)

-- The frames of the desktop while the button of the pointer is up.
abbrev released : Pointer → Pointer
released p = record p { is_dragging = false }

abbrev with_windows :
    Run ⊥ (List SemanticWindow) → Pointer → SplatEngine → Run ⊥ (SplatEngine × Pointer)
with_windows r p engine = r >>= λ windows. done (record engine { windows = windows }, released p)

abbrev ticked_engine : Run ⊥ (List SemanticWindow × Bool) → SplatEngine → Run ⊥ (SplatEngine × Bool)
ticked_engine r engine =
    r >>= λ (windows, redrew). done (record engine { windows = windows }, redrew)
