-- ===== src/Splat/Depth.antt =====
-- The slide of a window of kernel/src/splat.rs between the front and the background.
use polymorph_os.Prelude.{
  ℕ, zero, suc, ◌≤◌, ◌≡◌, refl, sym, ap, ◌∙◌, true, false, inl, inr, ◌⊎◌, Bool, arith,
}
use polymorph_os.Prelude.{done, if◌then◌else◌, Bool-cases, subst, ==_iff}
use polymorph_os.Prelude.{ℤ, pos, negsuc, eqℤ, sub_i32, add_i32, abs_i32, quotient}
use polymorph_os.Prelude.Bits.{passes_under, passes_under-at}
use polymorph_os.Splat.{
  SemanticWindow, WindowMode, stable, slide_z, generate_cloud, update_depth, update_state,
  update_physics,
}
use polymorph_os.Splat.Transitions.{updates, update_physics-state}

-- The depth after `n` frames.
slides : ℕ → ℤ → ℤ → ℤ
slides zero base_z target_z = base_z
slides (suc n) base_z target_z =
    slides n (if eqℤ base_z target_z then base_z else slide_z base_z target_z) target_z

-- The check of one depth between the front and the background, for either aim.
arrives : ℕ → ℕ → ℕ → Bool
arrives n aim base_z = eqℤ (slides n (pos base_z) (pos aim)) (pos aim)

to_the_front : passes_under (arrives 18 0) 301 ≡ true
unfolding passes_under arrives slides slide_z sub_i32 add_i32 abs_i32 quotient
to_the_front = refl

to_the_back : passes_under (arrives 18 300) 301 ≡ true
unfolding passes_under arrives slides slide_z sub_i32 add_i32 abs_i32 quotient
to_the_back = refl

eqℤ-eq : (a b : ℤ) → eqℤ a b ≡ true → a ≡ b
eqℤ-eq (pos a) (pos b) h = ap pos ((==_iff a b).0 h)
eqℤ-eq (pos a) (negsuc b) h = cc
eqℤ-eq (negsuc a) (pos b) h = cc
eqℤ-eq (negsuc a) (negsuc b) h = ap negsuc ((==_iff a b).0 h)

slides_arrive :
    (b aim : ℕ) → b ≤ 300 → (aim ≡ 0) ⊎ (aim ≡ 300) → slides 18 (pos b) (pos aim) ≡ pos aim
unfolding arrives
slides_arrive b aim h (inl front) =
    subst (λ a. slides 18 (pos b) (pos a) ≡ pos a) (sym front)
      (eqℤ-eq (slides 18 (pos b) (pos 0)) (pos 0)
        (passes_under-at (arrives 18 0) 301 to_the_front b (omega arith)))
slides_arrive b aim h (inr back) =
    subst (λ a. slides 18 (pos b) (pos a) ≡ pos a) (sym back)
      (eqℤ-eq (slides 18 (pos b) (pos 300)) (pos 300)
        (passes_under-at (arrives 18 300) 301 to_the_back b (omega arith)))

-- What a window that stands still comes to in a frame.
update_stable :
    (mode : WindowMode) (win : SemanticWindow)
    → win.state ≡ stable mode
    → (win' : SemanticWindow) × (redrew : Bool) × (update_physics win ≡ done (win', redrew))
      × (win'.state ≡ stable mode)
      × (win'.shape ≡ win.shape)
      × (win'.target_z ≡ win.target_z)
      × (win'.base_z
          ≡ (if eqℤ win.base_z win.target_z then win.base_z else slide_z win.base_z win.target_z))
unfolding update_state generate_cloud update_depth
update_stable mode win h = elim (Bool-cases (eqℤ win.base_z win.target_z)) [
  | inl y ↦ (win, false, update_physics-state win (stable mode) h ∙ rw y, h, refl, refl, rw y)
  | inr n ↦ (
    generate_cloud (record win { base_z = slide_z win.base_z win.target_z }),
    true,
    update_physics-state win (stable mode) h ∙ rw n,
    h,
    refl,
    refl,
    rw n,
  )
]

updates_slide :
    (n : ℕ) (mode : WindowMode) (win : SemanticWindow)
    → win.state ≡ stable mode
    → (win' : SemanticWindow) × (updates n win ≡ done win')
      × (win'.state ≡ stable mode)
      × (win'.shape ≡ win.shape)
      × (win'.base_z ≡ slides n win.base_z win.target_z)
unfolding updates slides
updates_slide zero mode win h = (win, refl, h, refl, refl)
updates_slide (suc n) mode win h =
    let (win1, redrew, ran, st, same, aim, at_z) = update_stable mode win h in
    let (win', later, st', same', at_z') = updates_slide n mode win1 st in
    (
      win',
      rw ran later,
      st',
      same' ∙ same,
      at_z' ∙ ap (λ t. slides n win1.base_z t) aim ∙ ap (λ b. slides n b win.target_z) at_z,
    )

-- A window that stands still anywhere between the front, 0, and the background, 300, has after 18
-- frames come to whichever of the two it aims at, and stands still with the same geometry.
pub slide_z-arrives :
    (mode : WindowMode) (win : SemanticWindow) (b aim : ℕ)
    → win.state ≡ stable mode
    → win.base_z ≡ pos b
    → win.target_z ≡ pos aim
    → b ≤ 300
    → (aim ≡ 0) ⊎ (aim ≡ 300)
    → (win' : SemanticWindow) × (updates 18 win ≡ done win')
      × (win'.base_z ≡ win.target_z)
      × (win'.state ≡ stable mode)
      × (win'.shape ≡ win.shape)
slide_z-arrives mode win b aim st at_b at_aim small which =
    let (win', ran, st', same, at_z) = updates_slide 18 mode win st in
    (
      win',
      ran,
      at_z
          ∙ ap (λ t. slides 18 win.base_z t) at_aim
          ∙ ap (λ z. slides 18 z (pos aim)) at_b
          ∙ slides_arrive b aim small which
          ∙ sym at_aim,
      st',
      same,
    )
