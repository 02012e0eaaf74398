-- ===== src/Pci.antt =====
-- kernel/src/pci.rs: the scan of the PCI bus, once to set drivers up (`enumerate_buses`) and once for a
-- report (`scan_pci_dynamic`). The configuration space is the environment: a function from the address
-- written to port 0xCF8 to the word read at port 0xCFC. `check_device` is the argument `visit` of the
-- scan, an operation on any state; `target_of` is the choice of driver that it starts with. A line of
-- the report is a record of what the code formats.
pub mod Scan
pub mod Report
mod Tests
use polymorph_os.Prelude.{
  ℕ, zero, suc, ◌+◌, ◌*◌, ◌/◌, ◌%◌, ◌^◌, bit_and, bit_or, Bool, true, false, not, ◌&&◌,
}
use polymorph_os.Prelude.{◌==◌, if◌then◌else◌, List, [], ◌∷◌, ◌++◌, Run, done, ◌>>=◌}

pub data DeviceName : Type 0 where
  unknown_device : DeviceName
  nvme_controller : DeviceName
  intel_e1000 : DeviceName
  intel_host_bridge : DeviceName
  vga_controller : DeviceName

pub record Line : Type 0 where
  pub bus : ℕ
  pub slot : ℕ
  pub func : ℕ
  pub vendor_id : ℕ
  pub device_id : ℕ
  pub name : DeviceName

-- What `check_device` sets up, with the physical base of its registers.
pub data Target : Type 0 where
  nvme_at : ℕ → Target
  e1000_at : ℕ → Target
  virtio_gpu : Target
  nothing : Target

pub pci_address : ℕ → ℕ → ℕ → ℕ → ℕ
pci_address bus slot func offset =
    bit_or (bit_or (bit_or (bit_or 0x8000_0000 (bus * 2 ^ 16)) (slot * 2 ^ 11)) (func * 2 ^ 8))
      (bit_and offset 0xFC)

module _ (config : ℕ → ℕ) where
  unfoldable pub pci_read_word : ℕ → ℕ → ℕ → ℕ → ℕ
  unfolding pci_address
  pci_read_word bus slot func offset = config (pci_address bus slot func offset)

  -- `(pci_read_word(bus, slot, func, 0) & 0xFFFF) != 0xFFFF`
  abbrev pub responds : ℕ → ℕ → ℕ → Bool
  responds bus slot func = not (bit_and (pci_read_word bus slot func 0) 0xFFFF == 0xFFFF)

  -- `(header_type & 0x80) != 0`
  abbrev pub is_multi_function : ℕ → ℕ → Bool
  is_multi_function bus slot =
      let header_type = bit_and (pci_read_word bus slot 0 0x0C / 2 ^ 16) 0xFF in
      not (bit_and header_type 0x80 == 0)

  -- The bar's base address, of 64 bits where the bar says so.
  pub target_of : ℕ → ℕ → ℕ → Target
  target_of bus slot func =
      let word0 = pci_read_word bus slot func 0x00 in
      let vendor_id = bit_and word0 0xFFFF in
      let device_id = word0 / 2 ^ 16 in
      let word2 = pci_read_word bus slot func 0x08 in
      let class_code = bit_and (word2 / 2 ^ 24) 0xFF in
      let subclass = bit_and (word2 / 2 ^ 16) 0xFF in
      let bar0 = pci_read_word bus slot func 0x10 in
      let bar1 = pci_read_word bus slot func 0x14 in
      let is_memory_space = bit_and bar0 0x01 == 0 in
      if (class_code == 0x01) && (subclass == 0x08)
      then (if is_memory_space
          then nvme_at (
              if bit_and bar0 0x06 == 0x04
              then bit_or (bar1 * 2 ^ 32) (bit_and bar0 0xFFFF_FFF0)
              else bit_and bar0 0xFFFF_FFF0)
          else nothing)
      else (if (vendor_id == 0x8086) && (device_id == 0x100E)
          then (if is_memory_space then e1000_at (bit_and bar0 0xFFFF_FFF0) else nothing)
          else (if (vendor_id == 0x1AF4) && (device_id == 0x1050) then virtio_gpu else nothing))

  pub probe_device_to_string : ℕ → ℕ → ℕ → Line
  probe_device_to_string bus slot func =
      let word0 = pci_read_word bus slot func 0x00 in
      let vendor_id = bit_and word0 0xFFFF in
      let device_id = word0 / 2 ^ 16 in
      let word2 = pci_read_word bus slot func 0x08 in
      let class_code = bit_and (word2 / 2 ^ 24) 0xFF in
      let subclass = bit_and (word2 / 2 ^ 16) 0xFF in
      let name : DeviceName =
        if (class_code == 0x01) && (subclass == 0x08)
        then nvme_controller
        else (if (vendor_id == 0x8086) && (device_id == 0x100E)
            then intel_e1000
            else (if (vendor_id == 0x8086) && (device_id == 0x1237)
                then intel_host_bridge
                else (if (class_code == 0x03) && (subclass == 0x00)
                    then vga_controller
                    else unknown_device))) in
      record {
        bus = bus;
        slot = slot;
        func = func;
        vendor_id = vendor_id;
        device_id = device_id;
        name = name;
      }

  module _ {S : Type 0} (visit : ℕ → ℕ → ℕ → S → Run ⊥ S) where
    -- `for func in 1..8`, with `n` of them left.
    pub visit_funcs : ℕ → ℕ → ℕ → ℕ → S → Run ⊥ S
    visit_funcs zero bus slot func s = done s
    visit_funcs (suc n) bus slot func s =
        (if responds bus slot func then visit bus slot func s else done s) >>= λ s.
        visit_funcs n bus slot (func + 1) s

    pub visit_slot : ℕ → ℕ → S → Run ⊥ S
    unfolding visit_funcs
    visit_slot bus slot s =
        let vendor = bit_and (pci_read_word bus slot 0 0) 0xFFFF in
        if vendor == 0xFFFF
        then done s
        else (visit bus slot 0 s >>= λ s.
            if is_multi_function bus slot then visit_funcs 7 bus slot 1 s else done s)

    -- `for slot in 0..32`
    pub visit_slots : ℕ → ℕ → ℕ → S → Run ⊥ S
    visit_slots zero bus slot s = done s
    visit_slots (suc n) bus slot s = visit_slot bus slot s >>= λ s. visit_slots n bus (slot + 1) s

    -- `for bus in 0..=255`
    pub visit_buses : ℕ → ℕ → S → Run ⊥ S
    visit_buses zero bus s = done s
    visit_buses (suc n) bus s = visit_slots 32 bus 0 s >>= λ s. visit_buses n (bus + 1) s

    pub enumerate_buses : S → Run ⊥ S
    unfolding visit_buses
    enumerate_buses s = visit_buses 256 0 s

  -- The same loops over the report, as the code has them; the lines between the first and the last.
  pub report_funcs : ℕ → ℕ → ℕ → ℕ → List Line → List Line
  report_funcs zero bus slot func output = output
  report_funcs (suc n) bus slot func output = report_funcs n bus slot (func + 1) (
      if responds bus slot func
      then output ++ probe_device_to_string bus slot func ∷ []
      else output)

  pub report_slot : ℕ → ℕ → List Line → List Line
  unfolding report_funcs
  report_slot bus slot output =
      let vendor = bit_and (pci_read_word bus slot 0 0) 0xFFFF in
      if vendor == 0xFFFF
      then output
      else (let output = output ++ probe_device_to_string bus slot 0 ∷ [] in
          if is_multi_function bus slot then report_funcs 7 bus slot 1 output else output)

  pub report_slots : ℕ → ℕ → ℕ → List Line → List Line
  report_slots zero bus slot output = output
  report_slots (suc n) bus slot output = report_slots n bus (slot + 1) (report_slot bus slot output)

  pub report_buses : ℕ → ℕ → List Line → List Line
  report_buses zero bus output = output
  report_buses (suc n) bus output = report_buses n (bus + 1) (report_slots 32 bus 0 output)

  pub scan_pci_dynamic : List Line
  unfolding report_buses
  scan_pci_dynamic = report_buses 256 0 []
