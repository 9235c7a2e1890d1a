-- ===== src/Pci/Identify.antt =====
-- The names that src/drivers/pci.c gives to devices, and the list of all devices.
use sector_os_re.Base.{
  ◌&&◌, zero, ◌+◌, ◌==◌, if◌then◌else◌, bit_and, suc, ◌∷◌, not, [], Bool, ◌++◌, List, ℕ,
}
use sector_os_re.Pci.{
  pci_none, off_header_type, off_subclass, dev_per_bus, pci_at, off_class, off_device_id,
  off_vendor_id, bus_per_domain, pci_read, Pci, Config,
}

-- The texts; each but `newline` ends in a space.
pub data PciWord : Type 0 where
  storage_text network_text graphics_text vga_text multimedia_text memory_text : PciWord
  bridge_text amd_text pcnet_text intel_text gigabit_text pmc_text isa_text ide_text : PciWord
  red_hat_text qemu_text realtek_text rtl8139_text newline : PciWord

-- The drivers that are started when their device is identified.
pub data PciDriver : Type 0 where
  init_am79c init_rtl8139 : PciDriver

-- A `switch` whose cases give texts, and whose default gives none.
unfoldable pub words_for : ℕ → List (ℕ × List PciWord) → List PciWord
words_for n [] = []
words_for n ((m, words) ∷ cases) = let rest = words_for n cases in if m == n then words else rest

unfoldable pub class_words : Config → Pci → List PciWord
class_words config dev = words_for (pci_read config dev off_class) (
    (0x01, storage_text ∷ [])
    ∷ (0x02, network_text ∷ [])
    ∷ (
      0x03,
      graphics_text ∷ words_for (pci_read config dev off_subclass) ((0x00, vga_text ∷ []) ∷ []),
    )
    ∷ (0x04, multimedia_text ∷ [])
    ∷ (0x05, memory_text ∷ [])
    ∷ (0x06, bridge_text ∷ [])
    ∷ [])

unfoldable pub vendor_words : Config → Pci → List PciWord
vendor_words config dev =
    let device = pci_read config dev off_device_id in
    words_for (pci_read config dev off_vendor_id) (
      (0x1022, amd_text ∷ words_for device ((0x2000, pcnet_text ∷ []) ∷ []))
      ∷ (
        0x8086,
        intel_text
            ∷ words_for device (
                (0x100e, gigabit_text ∷ [])
                ∷ (0x1237, pmc_text ∷ [])
                ∷ (0x7000, isa_text ∷ [])
                ∷ (0x7010, ide_text ∷ [])
                ∷ []),
      )
      ∷ (0x1af4, red_hat_text ∷ words_for device ((0x1100, qemu_text ∷ []) ∷ []))
      ∷ (0x10ec, realtek_text ∷ words_for device ((0x8139, rtl8139_text ∷ []) ∷ []))
      ∷ [])

unfoldable pub drivers_of : Config → Pci → List PciDriver
drivers_of config dev =
    let vendor = pci_read config dev off_vendor_id in
    let device = pci_read config dev off_device_id in
    if (vendor == 0x1022) && (device == 0x2000)
    then init_am79c ∷ []
    else if (vendor == 0x10ec) && (device == 0x8139)
    then init_rtl8139 ∷ []
    else []

-- What is printed, and the drivers that are started.
unfoldable pub identify_pci_device : Config → Pci → List PciWord × List PciDriver
identify_pci_device config dev =
    (class_words config dev ++ vendor_words config dev ++ newline ∷ [], drivers_of config dev)

-- The words are put behind what `buf` holds. This `switch` starts no driver.
unfoldable pub proc_identify_pci_device : Config → Pci → List PciWord → List PciWord
proc_identify_pci_device config dev buf =
    buf ++ class_words config dev ++ vendor_words config dev ++ newline ∷ []

-- The line of a device that enumerate_pci_devices prints.
pub record PciLine : Type 0 where
  pub bus : ℕ
  pub device : ℕ
  pub function : ℕ
  pub vendor_id : ℕ
  pub device_id : ℕ
  pub words : List PciWord

unfoldable pub has_functions : Config → Pci → Bool
has_functions config dev = not (bit_and (pci_read config dev off_header_type) 0x80 == 0)

unfoldable pub enumerate_functions : Config → ℕ → ℕ → ℕ → ℕ → List PciLine
enumerate_functions config bus device zero function = []
enumerate_functions config bus device (suc left) function =
    let dev = pci_at bus device function in
    let device_id = pci_read config dev off_device_id in
    let line : PciLine = record {
      bus = bus;
      device = device;
      function = function;
      vendor_id = pci_read config dev off_vendor_id;
      device_id = device_id;
      words = (identify_pci_device config dev).0;
    } in
    let rest = enumerate_functions config bus device left (function + 1) in
    if device_id == pci_none then [] else line ∷ rest

unfoldable pub enumerate_devices : Config → ℕ → ℕ → ℕ → List PciLine
enumerate_devices config bus zero device = []
enumerate_devices config bus (suc left) device =
    let functions = if has_functions config (pci_at bus device 0) then 8 else 1 in
    enumerate_functions config bus device functions 0
    ++ enumerate_devices config bus left (device + 1)

unfoldable pub enumerate_buses : Config → ℕ → ℕ → List PciLine
enumerate_buses config zero bus = []
enumerate_buses config (suc left) bus =
    enumerate_devices config bus dev_per_bus 0 ++ enumerate_buses config left (bus + 1)

-- The lines, in order.
unfoldable pub enumerate_pci_devices : Config → List PciLine
enumerate_pci_devices config = enumerate_buses config bus_per_domain 0
