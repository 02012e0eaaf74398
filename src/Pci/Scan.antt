-- ===== src/Pci/Scan.antt =====
-- Which functions the scan of kernel/src/pci.rs comes to: an independent description of the present
-- functions, and the loops against it.
use polymorph_os.Prelude.{
  ℕ, zero, suc, ◌+◌, bit_and, Bool, true, false, not, ◌&&◌, ◌||◌, ◌≡◌, refl, sym, ap, ◌∙◌,
}
use polymorph_os.Prelude.{
  ◌==◌, if◌then◌else◌, List, [], ◌∷◌, ◌++◌, Run, done, ◌>>=◌, inl, inr, Bool-cases, bind_same,
  bind_assoc, arith,
}
use polymorph_os.Pci.{
  pci_read_word, responds, is_multi_function, visit_funcs, visit_slot, visit_slots, visit_buses,
  enumerate_buses,
}

pub record Place : Type 0 where
  pub bus : ℕ
  pub slot : ℕ
  pub func : ℕ

abbrev pub place : ℕ → ℕ → ℕ → Place
place bus slot func = record { bus = bus; slot = slot; func = func }

-- The numbers from `i` on, `n` of them, each made a list.
pub concat_up {ℓ} : {A : Type ℓ} → ℕ → ℕ → (ℕ → List A) → List A
concat_up zero i f = []
concat_up (suc n) i f = f i ++ concat_up n (i + 1) f

-- Every function of every slot of every bus, in order.
pub all_places : List Place
all_places =
    concat_up 256 0
      (λ bus. concat_up 32 0 (λ slot. concat_up 8 0 (λ func. place bus slot func ∷ [])))

module _ (config : ℕ → ℕ) where
  -- A function is present when function 0 of its slot responds and it is function 0, or the slot has
  -- several functions and it responds itself.
  abbrev pub is_present : Place → Bool
  is_present p =
      responds config p.bus p.slot 0
      && ((p.func == 0)
          || (is_multi_function config p.bus p.slot && responds config p.bus p.slot p.func))

  abbrev pub present : List Place → List Place
  present [] = []
  present (p ∷ ps) = if is_present p then p ∷ present ps else present ps

  present-append : (ps qs : List Place) → present (ps ++ qs) ≡ present ps ++ present qs
  present-append [] qs = refl
  present-append (p ∷ ps) qs = elim (Bool-cases (is_present p)) [
    | inl y ↦ rw (y, present-append ps qs)
    | inr n ↦ rw (n, present-append ps qs)
  ]

  -- The functions of a slot from `i` on, `n` of them.
  abbrev pub funcs_from : ℕ → ℕ → ℕ → ℕ → List Place
  funcs_from bus slot i n = concat_up n i (λ func. place bus slot func ∷ [])

  absent_slot :
      (bus slot i n : ℕ)
      → responds config bus slot 0 ≡ false
      → present (funcs_from bus slot i n) ≡ []
  unfolding concat_up
  absent_slot bus slot i zero h = refl
  absent_slot bus slot i (suc n) h = rw h (absent_slot bus slot (i + 1) n h)

  single_function :
      (bus slot i n : ℕ)
      → is_multi_function config bus slot ≡ false
      → (i == 0) ≡ false
      → present (funcs_from bus slot i n) ≡ []
  unfolding concat_up
  single_function bus slot i zero h e = refl
  single_function bus slot i (suc n) h e = elim (Bool-cases (responds config bus slot 0)) [
    | inl y ↦ rw (y, e, h) (single_function bus slot (i + 1) n h (ground arith))
    | inr gone ↦ rw gone (absent_slot bus slot (i + 1) n gone)
  ]

  -- The present functions of a slot whose function 0 responds.
  several_functions :
      (bus slot n : ℕ)
      → responds config bus slot 0 ≡ true
      → present (funcs_from bus slot 0 (suc n))
        ≡ place bus slot 0 ∷ present (funcs_from bus slot 1 n)
  unfolding concat_up
  several_functions bus slot n y = rw y

  module _ {S : Type 0} (visit : ℕ → ℕ → ℕ → S → Run ⊥ S) where
    -- A visit to each place of a list, in order.
    abbrev pub each : List Place → S → Run ⊥ S
    each [] s = done s
    each (p ∷ ps) s = visit p.bus p.slot p.func s >>= each ps

    each-append : (ps qs : List Place) (s : S) → each (ps ++ qs) s ≡ (each ps s >>= each qs)
    each-append [] qs s = refl
    each-append (p ∷ ps) qs s =
        bind_same (visit p.bus p.slot p.func s) (each-append ps qs)
        ∙ sym (bind_assoc (visit p.bus p.slot p.func s) (each ps) (each qs))

    -- A loop whose rounds visit the present places of a list each visits those of all the lists.
    each-concat_up :
        (n i : ℕ) (f : ℕ → List Place) (s : S)
        → each (present (concat_up (suc n) i f)) s
          ≡ (each (present (f i)) s >>= each (present (concat_up n (i + 1) f)))
    unfolding concat_up
    each-concat_up n i f s =
        ap (λ ps. each ps s) (present-append (f i) (concat_up n (i + 1) f))
        ∙ each-append (present (f i)) (present (concat_up n (i + 1) f)) s

    visit_funcs_lem :
        (n bus slot i : ℕ) (s : S)
        → responds config bus slot 0 ≡ true
        → is_multi_function config bus slot ≡ true
        → (i == 0) ≡ false
        → visit_funcs config visit n bus slot i s ≡ each (present (funcs_from bus slot i n)) s
    unfolding visit_funcs concat_up
    visit_funcs_lem zero bus slot i s y m e = refl
    visit_funcs_lem (suc n) bus slot i s y m e =
        let later : (s : S)
            → visit_funcs config visit n bus slot (i + 1) s
              ≡ each (present (funcs_from bus slot (i + 1) n)) s =
          λ s. visit_funcs_lem n bus slot (i + 1) s y m (ground arith) in
        elim (Bool-cases (responds config bus slot i)) [
          | inl here ↦ rw (y, e, m, here) (bind_same (visit bus slot i s) later)
          | inr gone ↦ rw (y, e, m, gone) (later s)
        ]

    visit_slot_lem :
        (bus slot : ℕ) (s : S)
        → visit_slot config visit bus slot s ≡ each (present (funcs_from bus slot 0 8)) s
    unfolding visit_slot
    visit_slot_lem bus slot s =
        elim (Bool-cases (bit_and (pci_read_word config bus slot 0 0) 0xFFFF == 0xFFFF)) [
          | inl empty ↦
              visit_empty empty
              ∙ sym (ap (λ ps. each ps s) (absent_slot bus slot 0 8 (ap not empty)))
          | inr there ↦
              let here : responds config bus slot 0 ≡ true = ap not there in
              let all = several_functions bus slot 7 here in
              elim (Bool-cases (is_multi_function config bus slot)) [
                | inl m ↦
                    visit_several there m
                    ∙ bind_same (visit bus slot 0 s)
                        (λ s. visit_funcs_lem 7 bus slot 1 s here m refl)
                    ∙ sym (ap (λ ps. each ps s) all)
                | inr one ↦
                    visit_one there one
                    ∙ sym (
                        ap (λ ps. each ps s)
                          (all
                            ∙ ap (λ ps. place bus slot 0 ∷ ps)
                                (single_function bus slot 1 7 one refl)))
              ]
        ]
      where
        vendor : ℕ
        vendor = bit_and (pci_read_word config bus slot 0 0) 0xFFFF

        visit_empty : (vendor == 0xFFFF) ≡ true → visit_slot config visit bus slot s ≡ done s
        visit_empty h = rw h

        visit_several :
            (vendor == 0xFFFF) ≡ false
            → is_multi_function config bus slot ≡ true
            → visit_slot config visit bus slot s
              ≡ (visit bus slot 0 s >>= visit_funcs config visit 7 bus slot 1)
        visit_several h m = rw (h, m)

        visit_one :
            (vendor == 0xFFFF) ≡ false
            → is_multi_function config bus slot ≡ false
            → visit_slot config visit bus slot s ≡ (visit bus slot 0 s >>= done)
        visit_one h m = rw (h, m)

    -- The functions of the slots of a bus from `i` on, `n` slots, and those of the buses.
    visit_slots_lem :
        (n bus i : ℕ) (s : S)
        → visit_slots config visit n bus i s
          ≡ each (present (concat_up n i (λ slot. funcs_from bus slot 0 8))) s
    unfolding visit_slots concat_up
    visit_slots_lem zero bus i s = refl
    visit_slots_lem (suc n) bus i s =
        ap (λ r. r >>= visit_slots config visit n bus (i + 1)) (visit_slot_lem bus i s)
        ∙ bind_same (each (present (funcs_from bus i 0 8)) s) (visit_slots_lem n bus (i + 1))
        ∙ sym (each-concat_up n i (λ slot. funcs_from bus slot 0 8) s)

    no_buses :
        (i : ℕ) (s : S)
        → done s
          ≡ each
              (present (concat_up 0 i (λ bus. concat_up 32 0 (λ slot. funcs_from bus slot 0 8))))
              s
    unfolding concat_up
    no_buses i s = refl

    visit_buses_lem :
        (n i : ℕ) (s : S)
        → visit_buses config visit n i s
          ≡ each
              (present (concat_up n i (λ bus. concat_up 32 0 (λ slot. funcs_from bus slot 0 8))))
              s
    unfolding visit_buses
    visit_buses_lem zero i s = no_buses i s
    visit_buses_lem (suc n) i s =
        ap (λ r. r >>= visit_buses config visit n (i + 1)) (visit_slots_lem 32 i 0 s)
        ∙ bind_same (each (present (concat_up 32 0 (λ slot. funcs_from i slot 0 8))) s)
            (visit_buses_lem n (i + 1))
        ∙ sym (each-concat_up n i (λ bus. concat_up 32 0 (λ slot. funcs_from bus slot 0 8)) s)

    -- Whatever a visit does, `enumerate_buses` visits the present ones of all the functions of all the
    -- slots and buses, each once and in order, and no others; it stops at a visit that panics.
    pub enumerate_buses_lem : (s : S) → enumerate_buses config visit s ≡ each (present all_places) s
    unfolding enumerate_buses all_places
    enumerate_buses_lem s = visit_buses_lem 256 0 s
