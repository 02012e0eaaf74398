-- ===== src/Splat/Engine/Focus.antt =====
-- A click on the windows of kernel/src/splat.rs: which window gets it, and where it stands afterwards.
use polymorph_os.Prelude.{
  ◌≡◌, ◌≢◌, refl, sym, ap, ◌∙◌, true, inl, inr, ◌⊎◌, List, [], ◌∷◌, ◌++◌, none, some, map,
  append_assoc, arith,
}
use polymorph_os.Prelude.{done, ◌>>=◌, bind-done, subst}
use polymorph_os.Prelude.{ℤ, pos}
use polymorph_os.Splat.{SemanticWindow, WindowState, stable, transitioning}
use polymorph_os.Splat.Engine.{
  AppLauncher, Pointer, Hit, Focused, click_window, click_in, click_stable, find_clicked, on_body,
  focus_here, focus_later, parallax,
}

-- No window of the list gets the click.
abbrev pub Missed : List AppLauncher → ℤ → ℤ → Pointer → List SemanticWindow → Type 0
Missed launchers sw sh p [] = Unit
Missed launchers sw sh p (win ∷ windows) =
    (click_window launchers sw sh p win ≡ done none) × Missed launchers sw sh p windows

-- What the search for the window that gets the click has come to.
pub record Clicked (launchers : List AppLauncher) (sw sh : ℤ) (p : Pointer)
    (windows windows' : List SemanticWindow) (p' : Pointer) : Type 0 where
  pub under : List SemanticWindow
  pub win : SemanticWindow
  pub over : List SemanticWindow
  pub hit : SemanticWindow
  pub was : windows ≡ under ++ (win ∷ over)
  pub gets : click_window launchers sw sh p win ≡ done (some (hit, p'))
  pub missed : Missed launchers sw sh p over
  pub now : windows' ≡ under ++ (over ++ (hit ∷ []))

module _ (launchers : List AppLauncher) (sw sh : ℤ) (p : Pointer) where
  abbrev Found : List SemanticWindow → Focused → Type 0
  Found windows none = Missed launchers sw sh p windows
  Found windows (some (windows', p')) = Clicked launchers sw sh p windows windows' p'

  search_later :
      (win : SemanticWindow) (windows windows' : List SemanticWindow) (p' : Pointer)
      → Clicked launchers sw sh p windows windows' p'
      → Clicked launchers sw sh p (win ∷ windows) (win ∷ windows') p'
  search_later win windows windows' p' c = record {
    under = win ∷ c.under;
    win = c.win;
    over = c.over;
    hit = c.hit;
    was = ap (◌∷◌ win) c.was;
    gets = c.gets;
    missed = c.missed;
    now = ap (◌∷◌ win) c.now;
  }

  search_here :
      (win : SemanticWindow) (windows : List SemanticWindow) (hit : Hit)
      → click_window launchers sw sh p win ≡ done hit
      → Missed launchers sw sh p windows
      → Found (win ∷ windows) (focus_here win windows hit)
  search_here win windows none h m = (h, m)
  search_here win windows (some (w, p')) h m = record {
    under = [];
    win = win;
    over = windows;
    hit = w;
    was = refl;
    gets = h;
    missed = m;
    now = refl;
  }

  searched :
      (windows : List SemanticWindow) (found : Focused)
      → find_clicked launchers sw sh p windows ≡ done found
      → Found windows found
  unfolding find_clicked
  searched [] found h = let e : found ≡ none = cc in subst (Found []) (sym e) tt
  searched (win ∷ windows) found h =
      let (later, ran, h1) = bind-done (find_clicked launchers sw sh p windows) _ found h in
      by_later later (searched windows later ran) h1
    where
      by_later :
          (later : Focused)
          → Found windows later
          → focus_later win
              (click_window launchers sw sh p win >>= λ hit. done (focus_here win windows hit))
              later
            ≡ done found
          → Found (win ∷ windows) found
      by_later none m e =
          let (hit, clicked, e1) = bind-done (click_window launchers sw sh p win) _ found e in
          let same : focus_here win windows hit ≡ found = cc in
          subst (Found (win ∷ windows)) same (search_here win windows hit clicked m)
      by_later (some (windows', p')) c e =
          let same : some (win ∷ windows', p') ≡ found = cc in
          subst (Found (win ∷ windows)) same (search_later win windows windows' p' c)

  -- The search ends with no window, and then every window misses the click; or with the last window
  -- that gets it: all windows over it miss the click, and it is moved behind them, changed by the button
  -- that was hit, while all others keep their places and are as they were.
  pub find_clicked_lem :
      (windows : List SemanticWindow) (found : Focused)
      → find_clicked launchers sw sh p windows ≡ done found
      → ((found ≡ none) × Missed launchers sw sh p windows)
        ⊎ ((windows' : List SemanticWindow) × (p' : Pointer) × (found ≡ some (windows', p'))
            × Clicked launchers sw sh p windows windows' p')
  find_clicked_lem windows found h = by_result found (searched windows found h)
    where
      by_result :
          (found : Focused)
          → Found windows found
          → ((found ≡ none) × Missed launchers sw sh p windows)
            ⊎ ((windows' : List SemanticWindow) × (p' : Pointer) × (found ≡ some (windows', p'))
                × Clicked launchers sw sh p windows windows' p')
      by_result none m = inl (refl, m)
      by_result (some (windows', p')) c = inr (windows', p', refl, c)

  in_body :
      (state : WindowState) (win : SemanticWindow)
      → on_body p win.shape ≡ true
      → click_in state launchers sw sh p win ≢ done none
  unfolding click_in click_stable
  in_body (transitioning g m s t f) win h = ground arith
  in_body (stable mode) win h = stands launchers
    where
      stands : (launchers : List AppLauncher) → click_stable launchers sw sh p win ≢ done none
      stands [] = ground arith
      stands (l ∷ later) = ground arith

  -- A window whose body is under the cursor does not miss the click.
  pub body_gets :
      (win : SemanticWindow)
      → on_body p win.shape ≡ true
      → click_window launchers sw sh p win ≢ done none
  body_gets win h = in_body win.state win h

abbrev pub sunk : SemanticWindow → SemanticWindow
sunk win = record win { target_z = pos 300 }

abbrev pub raised : SemanticWindow → SemanticWindow
raised win = record win { target_z = pos 0 }

pub parallax_lem :
    (windows : List SemanticWindow) (win : SemanticWindow)
    → parallax (windows ++ (win ∷ [])) ≡ map sunk windows ++ (raised win ∷ [])
unfolding parallax
parallax_lem [] win = refl
parallax_lem (w ∷ []) win = refl
parallax_lem (w ∷ next ∷ windows) win = ap (◌∷◌ (sunk w)) (parallax_lem (next ∷ windows) win)

-- The window that gets a click is the only one that comes to the front: all others sink.
pub parallax-find_clicked :
    (launchers : List AppLauncher) (sw sh : ℤ) (p p' : Pointer)
    (windows windows' : List SemanticWindow)
    → find_clicked launchers sw sh p windows ≡ done (some (windows', p'))
    → (under over : List SemanticWindow) × (win hit : SemanticWindow) × (windows
        ≡ under ++ (win ∷ over))
      × (click_window launchers sw sh p win ≡ done (some (hit, p')))
      × (parallax windows' ≡ map sunk (under ++ over) ++ (raised hit ∷ []))
parallax-find_clicked launchers sw sh p p' windows windows' h =
    elim (find_clicked_lem launchers sw sh p windows (some (windows', p')) h) [
      | inl (e, _) ↦ absurd cc
      | inr (v, q, e, c) ↦
          let same : windows' ≡ v = cc in
          let at_p : q ≡ p' = cc in
          (
            c.under,
            c.over,
            c.win,
            c.hit,
            c.was,
            c.gets ∙ ap (λ r. done (some (c.hit, r))) at_p,
            ap parallax (same ∙ c.now ∙ sym (append_assoc c.under c.over (c.hit ∷ [])))
                ∙ parallax_lem (c.under ++ c.over) c.hit,
          )
    ]
