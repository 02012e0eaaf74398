-- ===== src/VirtioPci/Walk.antt =====
-- What `find_capabilities` of kernel/src/virtio_pci.rs finds on a device, against the list of the
-- device's capabilities.
use polymorph_os.Prelude.{
  ℕ, zero, suc, ◌+◌, ◌≤◌, ◌≡◌, ◌≢◌, refl, ◌∙◌, bit_and, Bool, true, false, not, ◌&&◌, inl, inr,
  arith,
}
use polymorph_os.Prelude.{
  ◌==◌, if◌then◌else◌, Option, none, some, List, [], ◌∷◌, map, length, Bool-cases, ==_iff,
}
use polymorph_os.VirtioPci.{
  VirtioCapabilities, read, cap_id, next_cap, cfg_type, final_phys_addr, visit_cap, walk,
  find_within, find_capabilities, pci_cap_id_vndr, common_cfg, notify_cfg, isr_cfg,
}

abbrev pub filter : (ℕ → Bool) → List ℕ → List ℕ
filter test [] = []
filter test (c ∷ cs) = if test c then c ∷ filter test cs else filter test cs

-- The last of a list, or else a default.
abbrev pub last_or : ℕ → List ℕ → ℕ
last_or d [] = d
last_or d (c ∷ cs) = last_or c cs

last_or-filter :
    (test : ℕ → Bool) (f : ℕ → ℕ) (d c : ℕ) (cs : List ℕ)
    → last_or (if test c then f c else d) (map f (filter test cs))
      ≡ last_or d (map f (filter test (c ∷ cs)))
last_or-filter test f d c cs = elim (Bool-cases (test c)) [ inl y ↦ rw y | inr n ↦ rw n ]

module _ (config : ℕ → ℕ) (bus slot func : ℕ) where
  -- The device's list, from an offset on: it ends at offset 0.
  abbrev pub Listed : ℕ → List ℕ → Type 0
  Listed current [] = current ≡ 0
  Listed current (c ∷ cs) = (current ≡ c) × ((c ≢ 0) × Listed (next_cap config bus slot func c) cs)

  -- A VirtIO capability of a type.
  abbrev pub is_cfg : ℕ → ℕ → Bool
  is_cfg type c =
      (cap_id config bus slot func c == pci_cap_id_vndr)
      && (cfg_type config bus slot func c == type)

  -- The address in the last capability of a type, or 0.
  abbrev pub last_address : ℕ → ℕ → List ℕ → ℕ
  last_address d type cs =
      last_or d (map (final_phys_addr config bus slot func) (filter (is_cfg type) cs))

  abbrev pub multiplier_of : ℕ → ℕ
  multiplier_of c = read config bus slot func (c + 12)

  -- What a list of capabilities adds to those found before.
  abbrev pub found_in : VirtioCapabilities → List ℕ → VirtioCapabilities
  found_in caps cs = record {
    common_cfg_phys = last_address caps.common_cfg_phys common_cfg cs;
    notify_cfg_phys = last_address caps.notify_cfg_phys notify_cfg cs;
    isr_cfg_phys = last_address caps.isr_cfg_phys isr_cfg cs;
    notify_off_multiplier =
        last_or caps.notify_off_multiplier (map multiplier_of (filter (is_cfg notify_cfg) cs));
  }

  visit_cap_lem :
      (c : ℕ) (caps : VirtioCapabilities)
      → visit_cap config bus slot func c caps ≡ found_in caps (c ∷ [])
  unfolding visit_cap
  visit_cap_lem c caps = elim (Bool-cases (cap_id config bus slot func c == pci_cap_id_vndr)) [
    | inr no_vendor ↦ rw no_vendor
    | inl vendor ↦ elim (Bool-cases (cfg_type config bus slot func c == common_cfg)) [
      | inl common ↦
          let a = (==_iff (cfg_type config bus slot func c) common_cfg).0 common in rw (vendor, a)
      | inr c1 ↦ elim (Bool-cases (cfg_type config bus slot func c == notify_cfg)) [
        | inl notify ↦
            let a = (==_iff (cfg_type config bus slot func c) notify_cfg).0 notify in rw (vendor, a)
        | inr c2 ↦ elim (Bool-cases (cfg_type config bus slot func c == isr_cfg)) [
          | inl isr ↦
              let a = (==_iff (cfg_type config bus slot func c) isr_cfg).0 isr in rw (vendor, a)
          | inr c3 ↦ rw (vendor, c1, c2, c3)
        ]
      ]
    ]
  ]

  found_in-cons :
      (caps : VirtioCapabilities) (c : ℕ) (cs : List ℕ)
      → found_in (found_in caps (c ∷ [])) cs ≡ found_in caps (c ∷ cs)
  found_in-cons caps c cs =
      let address = final_phys_addr config bus slot func in
      let one = single in
      rw (
        one common_cfg address caps.common_cfg_phys,
        one notify_cfg address caps.notify_cfg_phys,
        one isr_cfg address caps.isr_cfg_phys,
        one notify_cfg multiplier_of caps.notify_off_multiplier,
      )
    where
      single :
          (type : ℕ) (f : ℕ → ℕ) (d : ℕ)
          → last_or
              (last_or d (map f (filter (is_cfg type) (c ∷ []))))
              (map f (filter (is_cfg type) cs))
            ≡ last_or d (map f (filter (is_cfg type) (c ∷ cs)))
      single type f d = elim (Bool-cases (is_cfg type c)) [ inl y ↦ rw y | inr n ↦ rw n ]

  walk_lem :
      (n current : ℕ) (caps : VirtioCapabilities) (cs : List ℕ)
      → Listed current cs
      → length cs ≤ n
      → walk config bus slot func n current caps ≡ found_in caps cs
  unfolding walk
  walk_lem zero current caps [] l le = refl
  walk_lem (suc n) current caps [] l le =
      let at_end : (current == 0) ≡ true = ground arith in rw at_end
  walk_lem zero current caps (c ∷ cs) l le = absurd (omega arith)
  walk_lem (suc n) current caps (c ∷ cs) (at_c, (ne, l)) le =
      let more : (c == 0) ≡ false = ground arith in
      rw (at_c, more, visit_cap_lem c caps)
        (walk_lem n (next_cap config bus slot func c) (found_in caps (c ∷ [])) cs l (omega arith)
          ∙ found_in-cons caps c cs)

  abbrev pub nothing_found : VirtioCapabilities
  nothing_found = record {
    common_cfg_phys = 0;
    notify_cfg_phys = 0;
    isr_cfg_phys = 0;
    notify_off_multiplier = 0;
  }

  -- What is answered of the capabilities found.
  abbrev pub answer : List ℕ → Option VirtioCapabilities
  answer cs =
      if not (last_address 0 common_cfg cs == 0) && not (last_address 0 notify_cfg cs == 0)
      then some (found_in nothing_found cs)
      else none

  find_within_lem :
      (n : ℕ) (cs : List ℕ)
      → Listed (bit_and (read config bus slot func 0x34) 0xFF) cs
      → length cs ≤ n
      → find_within config bus slot func n ≡ answer cs
  unfolding find_within
  find_within_lem n [] l le = rw (to_test l)
    where
      to_test : {n : ℕ} → n ≡ 0 → (n == 0) ≡ true
      to_test e = ground arith
  find_within_lem n (c ∷ cs) (at_c, rest) le =
      let some_list : (c == 0) ≡ false = to_test rest.0 in
      rw (at_c, some_list, walk_lem n c nothing_found (c ∷ cs) (refl, rest) le)
    where
      to_test : {n : ℕ} → n ≢ 0 → (n == 0) ≡ false
      to_test e = ground arith

  -- For a device whose list has at most 48 capabilities and ends, `find_capabilities` answers for each
  -- type the address in the last VirtIO capability of that type, and the last doorbell multiplier; it
  -- answers nothing when the common or the notify configuration is missing.
  pub find_capabilities_lem :
      (cs : List ℕ)
      → Listed (bit_and (read config bus slot func 0x34) 0xFF) cs
      → length cs ≤ 48
      → find_capabilities config bus slot func ≡ answer cs
  unfolding find_capabilities
  find_capabilities_lem cs l le = find_within_lem 48 cs l le
