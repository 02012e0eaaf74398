-- ===== src/Pci/Tests.antt =====
-- Runs of the scans of kernel/src/pci.rs on a small machine.
use polymorph_os.Prelude.{ℕ, ◌≡◌, refl, List, [], ◌∷◌, map, Run, done, ◌==◌, if◌then◌else◌}
use polymorph_os.Pci.{
  nvme_at, e1000_at, target_of, visit_slot, probe_device_to_string, intel_host_bridge,
  enumerate_buses, scan_pci_dynamic, pci_read_word,
}
use polymorph_os.Pci.Scan.{Place, place, present, all_places, each, enumerate_buses_lem}
use polymorph_os.Pci.Report.{log, probe, scan_pci_dynamic_lem}

-- A host bridge at slot 0, and at slot 3 a card with an e1000 as function 0 and a disk of 64-bit base as
-- function 2; what does not respond reads as ones.
abbrev machine : ℕ → ℕ
machine address =
    if address == 0x8000_0000
    then 0x1237_8086
    else (if address == 0x8000_000C
        then 0
        else (if address == 0x8000_1800
            then 0x100E_8086
            else (if address == 0x8000_180C
                then 0x0080_0000
                else (if address == 0x8000_1810
                    then 0xFEB8_0000
                    else (if address == 0x8000_1A00
                        then 0x0010_1B36
                        else (if address == 0x8000_1A08
                            then 0x0108_0200
                            else (if address == 0x8000_1A10
                                then 0xFE00_4004
                                else (if address == 0x8000_1A14
                                    then 0x0000_0001
                                    else 0xFFFF_FFFF))))))))

-- The functions that a visit comes to.
abbrev visited : ℕ → ℕ → ℕ → List Place → Run ⊥ (List Place)
visited bus slot func ps = done (place bus slot func ∷ ps)

slot_3 : visit_slot machine visited 0 3 [] ≡ done (place 0 3 2 ∷ place 0 3 0 ∷ [])
unfolding visit_slot pci_read_word
slot_3 = refl

network : target_of machine 0 3 0 ≡ e1000_at 0xFEB8_0000
unfolding target_of pci_read_word
network = refl

disk : target_of machine 0 3 2 ≡ nvme_at 0x1_FE00_4000
unfolding target_of pci_read_word
disk = refl

bridge : (probe_device_to_string machine 0 0 0).name ≡ intel_host_bridge
unfolding probe_device_to_string pci_read_word
bridge = refl

enumerate_buses_lem_example :
    enumerate_buses machine visited [] ≡ each machine visited (present machine all_places) []
enumerate_buses_lem_example = enumerate_buses_lem machine visited []

scan_pci_dynamic_lem_example :
    (enumerate_buses machine (log machine) [] ≡ done (scan_pci_dynamic machine))
    × (scan_pci_dynamic machine ≡ map (probe machine) (present machine all_places))
scan_pci_dynamic_lem_example = scan_pci_dynamic_lem machine
