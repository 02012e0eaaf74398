-- ===== src/VirtioPci/Tests.antt =====
-- Runs of `find_capabilities` of kernel/src/virtio_pci.rs on a small device.
use polymorph_os.Prelude.{ℕ, ◌≡◌, refl, arith, [], ◌∷◌, some, ◌==◌, if◌then◌else◌}
use polymorph_os.Pci.{pci_read_word}
use polymorph_os.VirtioPci.{find_capabilities, final_phys_addr}
use polymorph_os.VirtioPci.Walk.{Listed, answer, find_capabilities_lem}

-- Slot 4: a notify capability at 0x40, one of another vendor at 0x60, a common one at 0x50, in this order;
-- bar 4 is of 64 bits.
abbrev device : ℕ → ℕ
device address =
    if address == 0x8000_2034
    then 0x40
    else (if address == 0x8000_2040
        then 0x0214_6009
        else (if address == 0x8000_2044
            then 4
            else (if address == 0x8000_2048
                then 0x3000
                else (if address == 0x8000_204C
                    then 4
                    else (if address == 0x8000_2060
                        then 0x0000_5011
                        else (if address == 0x8000_2050
                            then 0x0114_0009
                            else (if address == 0x8000_2054
                                then 4
                                else (if address == 0x8000_2058
                                    then 0
                                    else (if address == 0x8000_2020
                                        then 0xFE00_000C
                                        else (if address == 0x8000_2024 then 1 else 0))))))))))

found :
    find_capabilities device 0 4 0
    ≡ some (record {
      common_cfg_phys = 0x1_FE00_0000;
      notify_cfg_phys = 0x1_FE00_3000;
      isr_cfg_phys = 0;
      notify_off_multiplier = 4;
    })
unfolding find_capabilities pci_read_word final_phys_addr
found = refl

device-Listed : Listed device 0 4 0 0x40 (0x40 ∷ 0x60 ∷ 0x50 ∷ [])
unfolding pci_read_word
device-Listed =
    (refl, (λ e. omega arith, (refl, (λ e. omega arith, (refl, (λ e. omega arith, refl))))))

find_capabilities_lem_example :
    find_capabilities device 0 4 0 ≡ answer device 0 4 0 (0x40 ∷ 0x60 ∷ 0x50 ∷ [])
unfolding pci_read_word
find_capabilities_lem_example =
    find_capabilities_lem device 0 4 0 (0x40 ∷ 0x60 ∷ 0x50 ∷ []) device-Listed (omega arith)
