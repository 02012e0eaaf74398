-- ===== src/Splat/Transitions.antt =====
-- The transitions of a window of kernel/src/splat.rs, over the updates of the frames.
use polymorph_os.Prelude.{
  ℕ, zero, suc, ◌+◌, ◌<◌, ◌≡◌, refl, ap, ◌∙◌, true, false, inl, inr, Bool, arith,
}
use polymorph_os.Prelude.{Run, done, ◌>>=◌, if◌then◌else◌, Bool-cases, subst}
use polymorph_os.Prelude.{
  ℤ, pos, eqℤ, leℤ, quotient, add_i32, mul_i32, sub_i32, div_i32, add_i32-small,
}
use polymorph_os.Splat.{
  SemanticWindow, Geometry, WindowState, WindowMode, stable, transitioning, generate_cloud,
  update_depth, update_state, update_physics, ease_out, is_normal, eased_geometry, start_transition,
  trigger_maximize, trigger_restore, instantiated, maximized,
}

-- `n` updates, one a frame.
unfoldable pub updates : ℕ → SemanticWindow → Run ⊥ SemanticWindow
updates zero win = done win
updates (suc n) win = update_physics win >>= λ (win', redrew). updates n win'

-- What no update changes.
pub record Same (win win' : SemanticWindow) : Type 0 where
  pub id : win'.id ≡ win.id
  pub normal : win'.normal ≡ win.normal
  pub target_z : win'.target_z ≡ win.target_z
  pub text_buffer : win'.text_buffer ≡ win.text_buffer
  pub input_buffer : win'.input_buffer ≡ win.input_buffer

Same-trans : (a b c : SemanticWindow) → Same a b → Same b c → Same a c
Same-trans a b c p q = record {
  id = q.id ∙ p.id;
  normal = q.normal ∙ p.normal;
  target_z = q.target_z ∙ p.target_z;
  text_buffer = q.text_buffer ∙ p.text_buffer;
  input_buffer = q.input_buffer ∙ p.input_buffer;
}

pub update_depth-Same : (win : SemanticWindow) → Same win (update_depth win).0
unfolding update_depth generate_cloud
update_depth-Same win = elim (Bool-cases (eqℤ win.base_z win.target_z)) [
  | inl y ↦ rw y (record {
    id = refl;
    normal = refl;
    target_z = refl;
    text_buffer = refl;
    input_buffer = refl;
  })
  | inr n ↦ rw n (record {
    id = refl;
    normal = refl;
    target_z = refl;
    text_buffer = refl;
    input_buffer = refl;
  })
]

pub update_depth-state : (win : SemanticWindow) → (update_depth win).0.state ≡ win.state
unfolding update_depth generate_cloud
update_depth-state win = elim (Bool-cases (eqℤ win.base_z win.target_z)) [
  | inl y ↦ rw y
  | inr n ↦ rw n
]

-- The easing of a transition of 15 frames divides by 225.
ease_out-done : (p : ℤ) → (factor : ℤ) × (ease_out {E = ⊥} p (pos 15) ≡ done factor)
unfolding ease_out div_i32 mul_i32
ease_out-done p = (quotient (mul_i32 (mul_i32 p (sub_i32 (pos 30) p)) (pos 100)) 225, refl)

update_moving :
    (k : ℕ) (s t : Geometry) (f : WindowMode) (win : SemanticWindow) (redrew : Bool)
    → k < 14
    → (win' : SemanticWindow) × (update_state (transitioning (pos k) (pos 15) s t f) win redrew
        ≡ done (win', true))
      × (win'.state ≡ transitioning (pos (suc k)) (pos 15) s t f)
      × Same win win'
unfolding update_state generate_cloud
update_moving k s t f win redrew h =
    let one : add_i32 (pos k) (pos 1) ≡ pos (suc k) =
      add_i32-small k 1 (omega arith) ∙ ap pos (omega arith) in
    let (factor, eased) = ease_out-done (pos (suc k)) in
    let early : leℤ (pos 15) (pos (suc k)) ≡ false = ground arith in
    let moved : SemanticWindow = record win {
      shape = eased_geometry factor s t;
      state = transitioning (pos (suc k)) (pos 15) s t f;
    } in
    (
      generate_cloud moved,
      rw (one, eased, early),
      refl,
      record { id = refl; normal = refl; target_z = refl; text_buffer = refl; input_buffer = refl },
    )

update_arriving :
    (s t : Geometry) (f : WindowMode) (win : SemanticWindow) (redrew : Bool)
    → (win' : SemanticWindow) × (update_state (transitioning (pos 14) (pos 15) s t f) win redrew
        ≡ done (win', true))
      × (win'.state ≡ stable f)
      × (win'.shape ≡ t)
      × Same win win'
unfolding update_state generate_cloud
update_arriving s t f win redrew =
    let one : add_i32 (pos 14) (pos 1) ≡ pos 15 = add_i32-small 14 1 (omega arith) in
    let (factor, eased) = ease_out-done (pos 15) in
    let moved : SemanticWindow = record win { shape = t; state = stable f } in
    (
      generate_cloud moved,
      rw (one, eased),
      refl,
      refl,
      record { id = refl; normal = refl; target_z = refl; text_buffer = refl; input_buffer = refl },
    )

pub update_physics-state :
    (win : SemanticWindow) (state : WindowState)
    → win.state ≡ state
    → update_physics win ≡ update_state state (update_depth win).0 (update_depth win).1
unfolding update_physics
update_physics-state win state h =
    ap (λ (st : WindowState). update_state st (update_depth win).0 (update_depth win).1)
      (update_depth-state win ∙ h)

module _ (s t : Geometry) (f : WindowMode) where
  -- A window in a transition of 15 frames, `k` of them done.
  abbrev pub Moves : ℕ → SemanticWindow → Type 0
  Moves k win = win.state ≡ transitioning (pos k) (pos 15) s t f

  pub update-Moves :
      (k : ℕ) (win : SemanticWindow)
      → Moves k win
      → k < 14
      → (win' : SemanticWindow) × (update_physics win ≡ done (win', true))
        × Moves (suc k) win'
        × Same win win'
  update-Moves k win m h =
      let (win1, redrew) = update_depth win in
      let (win', ran, m', same) = update_moving k s t f win1 redrew h in
      (
        win',
        update_physics-state win _ m ∙ ran,
        m',
        Same-trans win win1 win' (update_depth-Same win) same,
      )

  pub update_last :
      (win : SemanticWindow)
      → Moves 14 win
      → (win' : SemanticWindow) × (update_physics win ≡ done (win', true))
        × (win'.state ≡ stable f)
        × (win'.shape ≡ t)
        × Same win win'
  update_last win m =
      let (win1, redrew) = update_depth win in
      let (win', ran, st, at_t, same) = update_arriving s t f win1 redrew in
      (
        win',
        update_physics-state win _ m ∙ ran,
        st,
        at_t,
        Same-trans win win1 win' (update_depth-Same win) same,
      )

  -- Before the fifteenth update the window is under way.
  updates-Moves :
      (n k : ℕ) (win : SemanticWindow)
      → Moves k win
      → k + n < 15
      → (win' : SemanticWindow) × (updates n win ≡ done win') × Moves (k + n) win' × Same win win'
  unfolding updates
  updates-Moves zero k win m h =
      let e : k ≡ k + 0 = omega arith in
      (
        win,
        refl,
        subst (λ j. Moves j win) e m,
        record {
          id = refl;
          normal = refl;
          target_z = refl;
          text_buffer = refl;
          input_buffer = refl;
        },
      )
  updates-Moves (suc n) k win m h =
      let (win1, ran, m1, same) = update-Moves k win m (omega arith) in
      let (win', later, m', same') = updates-Moves n (suc k) win1 m1 (omega arith) in
      let e : suc k + n ≡ k + suc n = omega arith in
      (win', rw ran later, subst (λ j. Moves j win') e m', Same-trans win win1 win' same same')

  updates_arrive :
      (n k : ℕ) (win : SemanticWindow)
      → Moves k win
      → k + suc n ≡ 15
      → (win' : SemanticWindow) × (updates (suc n) win ≡ done win')
        × (win'.state ≡ stable f)
        × (win'.shape ≡ t)
        × Same win win'
  unfolding updates
  updates_arrive zero k win m h =
      let e : k ≡ 14 = omega arith in
      let (win', ran, st, at_t, same) = update_last win (subst (λ j. Moves j win) e m) in
      (win', rw ran, st, at_t, same)
  updates_arrive (suc n) k win m h =
      let (win1, ran, m1, same) = update-Moves k win m (omega arith) in
      let (win', later, st, at_t, same') = updates_arrive n (suc k) win1 m1 (omega arith) in
      (win', rw ran later, st, at_t, Same-trans win win1 win' same same')

-- A transition that has been started is under way, with its progress counted, up to the fourteenth
-- update, and at the fifteenth the window stands still in its final mode with exactly the geometry that
-- the transition aimed at; its texts, its saved geometry and its depth's aim are as they were.
pub start_transition_lem :
    (t : Geometry) (f : WindowMode) (win : SemanticWindow)
    → ((n : ℕ)
        → n < 15
        → (win' : SemanticWindow) × (updates n (start_transition t f win) ≡ done win')
          × (win'.state ≡ transitioning (pos n) (pos 15) win.shape t f)
          × Same win win')
      × ((win' : SemanticWindow) × (updates 15 (start_transition t f win) ≡ done win')
          × (win'.state ≡ stable f)
          × (win'.shape ≡ t)
          × Same win win')
start_transition_lem t f win =
    let started = start_transition t f win in
    let unchanged : Same win started = record {
      id = refl;
      normal = refl;
      target_z = refl;
      text_buffer = refl;
      input_buffer = refl;
    } in
    (
      λ n h.
          let (win', ran, m, same) = updates-Moves win.shape t f n 0 started refl (omega arith) in
          let e : 0 + n ≡ n = omega arith in
          (
            win',
            ran,
            subst (λ j. Moves win.shape t f j win') e m,
            Same-trans win started win' unchanged same,
          ),
      let (win', ran, st, at_t, same) =
            updates_arrive win.shape t f 14 0 started refl (omega arith) in
          (win', ran, st, at_t, Same-trans win started win' unchanged same),
    )

-- A window that floats, is maximised and, when that is done, restored, floats again after 15 updates
-- more with the geometry that it had, whatever the screen's size.
pub restore-maximize :
    (screen_w screen_h : ℤ) (win : SemanticWindow)
    → win.state ≡ stable instantiated
    → (full back : SemanticWindow) × (updates 15 (trigger_maximize screen_w screen_h win)
        ≡ done full)
      × (full.state ≡ stable maximized)
      × (full.shape ≡ record { w = screen_w; h = screen_h; x = pos 0; y = pos 0 })
      × (updates 15 (trigger_restore full) ≡ done back)
      × (back.state ≡ stable instantiated)
      × (back.shape ≡ win.shape)
unfolding trigger_maximize trigger_restore
restore-maximize screen_w screen_h win h =
    let saved : SemanticWindow = record win { normal = win.shape } in
    let screen : Geometry = record { w = screen_w; h = screen_h; x = pos 0; y = pos 0 } in
    let is_saved : trigger_maximize screen_w screen_h win
        ≡ start_transition screen maximized saved =
      ap
        (λ (st : WindowState).
          start_transition screen maximized (if is_normal st then saved else win))
        h in
    let (full, ran, st, at_full, same) = (start_transition_lem screen maximized saved).1 in
    let (back, ran', st', at_back, _) = (start_transition_lem full.normal instantiated full).1 in
    (full, back, ap (updates 15) is_saved ∙ ran, st, at_full, ran', st', at_back ∙ same.normal)
