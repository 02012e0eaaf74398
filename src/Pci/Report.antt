-- ===== src/Pci/Report.antt =====
-- The report of kernel/src/pci.rs against the scan that sets drivers up.
use polymorph_os.Prelude.{ℕ, zero, suc, ◌+◌, bit_and, ◌≡◌, refl, sym, ap, ◌∙◌}
use polymorph_os.Prelude.{
  ◌==◌, List, [], ◌∷◌, ◌++◌, Run, done, fail, panic, spin, ◌>>=◌, append_assoc, append-nil, map,
  inl, inr, Bool-cases,
}
use polymorph_os.Pci.{
  pci_read_word, responds, is_multi_function, visit_funcs, visit_slot, visit_slots, visit_buses,
  enumerate_buses,
}
use polymorph_os.Pci.{
  report_funcs, report_slot, report_slots, report_buses, scan_pci_dynamic, probe_device_to_string,
  Line,
}
use polymorph_os.Pci.Scan.{Place, all_places, present, each, enumerate_buses_lem}

module _ (config : ℕ → ℕ) where
  -- The visit that adds the line of a function to the report.
  abbrev pub log : ℕ → ℕ → ℕ → List Line → Run ⊥ (List Line)
  log bus slot func output = done (output ++ probe_device_to_string config bus slot func ∷ [])

  log_funcs :
      (n bus slot i : ℕ) (output : List Line)
      → visit_funcs config log n bus slot i output ≡ done (report_funcs config n bus slot i output)
  unfolding visit_funcs report_funcs
  log_funcs zero bus slot i output = refl
  log_funcs (suc n) bus slot i output = elim (Bool-cases (responds config bus slot i)) [
    | inl y ↦
        rw y
          (log_funcs n bus slot (i + 1) (output ++ probe_device_to_string config bus slot i ∷ []))
    | inr gone ↦ rw gone (log_funcs n bus slot (i + 1) output)
  ]

  log_slot :
      (bus slot : ℕ) (output : List Line)
      → visit_slot config log bus slot output ≡ done (report_slot config bus slot output)
  unfolding visit_slot report_slot
  log_slot bus slot output =
      elim (Bool-cases (bit_and (pci_read_word config bus slot 0 0) 0xFFFF == 0xFFFF)) [
        | inl empty ↦ rw empty
        | inr there ↦ elim (Bool-cases (is_multi_function config bus slot)) [
          | inl m ↦
              rw (there, m)
                (log_funcs 7 bus slot 1 (output ++ probe_device_to_string config bus slot 0 ∷ []))
          | inr one ↦ rw (there, one)
        ]
      ]

  log_slots :
      (n bus i : ℕ) (output : List Line)
      → visit_slots config log n bus i output ≡ done (report_slots config n bus i output)
  unfolding visit_slots report_slots
  log_slots zero bus i output = refl
  log_slots (suc n) bus i output =
      ap (λ r. r >>= visit_slots config log n bus (i + 1)) (log_slot bus i output)
      ∙ log_slots n bus (i + 1) (report_slot config bus i output)

  log_buses :
      (n i : ℕ) (output : List Line)
      → visit_buses config log n i output ≡ done (report_buses config n i output)
  unfolding visit_buses report_buses
  log_buses zero i output = refl
  log_buses (suc n) i output =
      ap (λ r. r >>= visit_buses config log n (i + 1)) (log_slots 32 i 0 output)
      ∙ log_buses n (i + 1) (report_slots config 32 i 0 output)

  -- The line of a place.
  abbrev pub probe : Place → Line
  probe p = probe_device_to_string config p.bus p.slot p.func

  each-log :
      (ps : List Place) (output : List Line)
      → each config log ps output ≡ done (output ++ map probe ps)
  each-log [] output = ap done (sym (append-nil output))
  each-log (p ∷ ps) output =
      each-log ps (output ++ probe p ∷ [])
      ∙ ap done (append_assoc output (probe p ∷ []) (map probe ps))

  -- The report of `scan_pci_dynamic`, which has loops of its own, is what `enumerate_buses` makes with a
  -- visit that adds a line, and it has a line for each present function, in order.
  pub scan_pci_dynamic_lem :
      (enumerate_buses config log [] ≡ done (scan_pci_dynamic config))
      × (scan_pci_dynamic config ≡ map probe (present config all_places))
  unfolding enumerate_buses scan_pci_dynamic
  scan_pci_dynamic_lem =
      let same : enumerate_buses config log [] ≡ done (scan_pci_dynamic config) =
        log_buses 256 0 [] in
      (
        same,
        ap unwrap (
            sym same ∙ enumerate_buses_lem config log [] ∙ each-log (present config all_places) []),
      )
    where
      unwrap : Run ⊥ (List Line) → List Line
      unwrap (done ls) = ls
      unwrap (fail e) = []
      unwrap panic = []
      unwrap spin = []
