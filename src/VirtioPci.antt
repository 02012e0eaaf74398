-- ===== src/VirtioPci.antt =====
-- `find_capabilities` of kernel/src/virtio_pci.rs: the walk over a device's list of PCI capabilities. As
-- for kernel/src/pci.rs, the configuration space is a function. The u8 offsets wrap.
pub mod Walk
mod Tests
use polymorph_os.Prelude.{
  ℕ, zero, suc, ◌+◌, ◌*◌, ◌/◌, ◌%◌, ◌^◌, bit_and, bit_or, Bool, true, false, not, ◌&&◌,
}
use polymorph_os.Prelude.{◌==◌, if◌then◌else◌, Option, none, some}
use polymorph_os.Pci.{pci_read_word}

abbrev pub pci_cap_id_vndr : ℕ
pci_cap_id_vndr = 0x09

abbrev pub common_cfg : ℕ
common_cfg = 1

abbrev pub notify_cfg : ℕ
notify_cfg = 2

abbrev pub isr_cfg : ℕ
isr_cfg = 3

pub record VirtioCapabilities : Type 0 where
  pub common_cfg_phys : ℕ
  pub notify_cfg_phys : ℕ
  pub isr_cfg_phys : ℕ
  pub notify_off_multiplier : ℕ

module _ (config : ℕ → ℕ) (bus slot func : ℕ) where
  abbrev pub read : ℕ → ℕ
  read offset = pci_read_word config bus slot func (offset % 256)

  -- The fields of the capability at an offset.
  abbrev pub cap_id : ℕ → ℕ
  cap_id cap = bit_and (read cap) 0xFF

  abbrev pub next_cap : ℕ → ℕ
  next_cap cap = bit_and (read cap / 2 ^ 8) 0xFF

  abbrev pub cfg_type : ℕ → ℕ
  cfg_type cap = bit_and (read cap / 2 ^ 24) 0xFF

  -- The bar's base, of 64 bits where the bar says so, and the capability's offset in it.
  pub final_phys_addr : ℕ → ℕ
  final_phys_addr cap =
      let bar_idx = bit_and (read (cap + 4)) 0xFF in
      let offset = read (cap + 8) in
      let bar_val = read (0x10 + bar_idx * 4) in
      let phys_base = bit_and bar_val 0xFFFF_FFF0 in
      let base =
        if bit_and bar_val 0x06 == 0x04
        then bit_or phys_base (read (0x14 + bar_idx * 4) * 2 ^ 32)
        else phys_base in
      (base + offset) % 2 ^ 64

  pub visit_cap : ℕ → VirtioCapabilities → VirtioCapabilities
  visit_cap cap caps =
      if cap_id cap == pci_cap_id_vndr
      then (if cfg_type cap == common_cfg
          then record caps { common_cfg_phys = final_phys_addr cap }
          else (if cfg_type cap == notify_cfg
              then record caps {
                notify_cfg_phys = final_phys_addr cap;
                notify_off_multiplier = read (cap + 12);
              }
              else (if cfg_type cap == isr_cfg
                  then record caps { isr_cfg_phys = final_phys_addr cap }
                  else caps)))
      else caps

  -- `for _ in 0..48`, with `n` rounds left.
  pub walk : ℕ → ℕ → VirtioCapabilities → VirtioCapabilities
  unfolding visit_cap
  walk zero current_cap caps = caps
  walk (suc n) current_cap caps =
      let rest = walk n (next_cap current_cap) (visit_cap current_cap caps) in
      if current_cap == 0 then caps else rest

  -- The body of `find_capabilities`, over the bound of its loop.
  pub find_within : ℕ → Option VirtioCapabilities
  unfolding walk
  find_within rounds =
      let cap_ptr = bit_and (read 0x34) 0xFF in
      if cap_ptr == 0
      then none
      else (let caps = walk rounds cap_ptr (record {
        common_cfg_phys = 0;
        notify_cfg_phys = 0;
        isr_cfg_phys = 0;
        notify_off_multiplier = 0;
      }) in
          if not (caps.common_cfg_phys == 0) && not (caps.notify_cfg_phys == 0)
          then some caps
          else none)

  pub find_capabilities : Option VirtioCapabilities
  unfolding find_within
  find_capabilities = find_within 48
