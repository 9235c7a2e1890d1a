-- ===== src/Pci.antt =====
-- src/drivers/pci.c: the devices on the PCI buses. What a read of the configuration data gives for an
-- address that was written is an argument; a scan goes on as often as there is a bridge below it.
pub mod Identify
pub mod Scan
mod Tests
use sector_os_re.Base.{
  zero, not, ◌^◌, ◌-◌, ◌+◌, [], ◌/◌, ◌*◌, bit_or, ◌==◌, if◌then◌else◌, some, true, ◌>>=◌, List,
  bit_and, ◌%◌, none, ◌&&◌, ◌∷◌, ℕ, Bool, Option,
}
use Prim.Native.Nat.{suc, bit_or, bit_and, ℕ}

-- `pci_t`: the fields of its 32 bits.
pub record Pci : Type 0 where
  pub field_num : ℕ
  pub function_num : ℕ
  pub device_num : ℕ
  pub bus_num : ℕ
  pub enable : ℕ

-- `inb`, `inw` and `inl` of a port while an address is selected.
pub record Config : Type 0 where
  pub in8 : ℕ → ℕ → ℕ
  pub in16 : ℕ → ℕ → ℕ
  pub in32 : ℕ → ℕ → ℕ

abbrev pub pci_data_port : ℕ
pci_data_port = 0xcfc

abbrev pub off_vendor_id : ℕ
off_vendor_id = 0x00

abbrev pub off_device_id : ℕ
off_device_id = 0x02

abbrev pub off_subclass : ℕ
off_subclass = 0x0a

abbrev pub off_class : ℕ
off_class = 0x0b

abbrev pub off_header_type : ℕ
off_header_type = 0x0e

-- As pci.h has it.
abbrev pub off_secondary_bus : ℕ
off_secondary_bus = 0x09

abbrev pub type_bridge : ℕ
type_bridge = 0x0604

abbrev pub pci_none : ℕ
pci_none = 0xffff

abbrev pub dev_per_bus : ℕ
dev_per_bus = 32

abbrev pub func_per_dev : ℕ
func_per_dev = 32

abbrev pub bus_per_domain : ℕ
bus_per_domain = 8

pub dev_zero : Pci
dev_zero = record { field_num = 0; function_num = 0; device_num = 0; bus_num = 0; enable = 0 }

-- A field takes the low bits of what is assigned to it.
pub pci_at : ℕ → ℕ → ℕ → Pci
pci_at bus device function = record {
  field_num = 0;
  function_num = function % 8;
  device_num = device % 32;
  bus_num = bus % 256;
  enable = 0;
}

pub bits : Pci → ℕ
bits dev =
    dev.field_num * 4
    + dev.function_num * 2 ^ 8
    + dev.device_num * 2 ^ 11
    + dev.bus_num * 2 ^ 16
    + dev.enable * 2 ^ 31

pub find_size : ℕ → List (ℕ × ℕ) → ℕ
find_size field [] = 0
find_size field ((f, size) ∷ sizes) =
    let rest = find_size field sizes in if f == field then size else rest

-- `pci_size_map` as init_pci leaves it.
pub pci_size_map : ℕ → ℕ
unfolding find_size
pci_size_map field = find_size field (
    (0x00, 2)
    ∷ (0x02, 2)
    ∷ (0x04, 2)
    ∷ (0x06, 2)
    ∷ (0x0a, 1)
    ∷ (0x0b, 1)
    ∷ (0x0c, 1)
    ∷ (0x0d, 1)
    ∷ (0x0e, 1)
    ∷ (0x0f, 1)
    ∷ (0x10, 4)
    ∷ (0x14, 4)
    ∷ (0x18, 4)
    ∷ (0x1c, 4)
    ∷ (0x20, 4)
    ∷ (0x24, 4)
    ∷ (0x3c, 1)
    ∷ (0x09, 1)
    ∷ [])

-- The address that selects a field of a device.
pub selected : Pci → ℕ → Pci
selected dev field = record dev { field_num = bit_and field 0xfc / 4; enable = 1 }

pub pci_read : Config → Pci → ℕ → ℕ
unfolding bits selected
pci_read config dev field =
    let address = bits (selected dev field) in
    let size = pci_size_map field in
    if size == 1
    then config.in8 address (pci_data_port + bit_and field 3) % 2 ^ 8
    else if size == 2
    then config.in16 address (pci_data_port + bit_and field 2) % 2 ^ 16
    else if size == 4
    then config.in32 address pci_data_port % 2 ^ 32
    else 0xffff

-- The two words that pci_write sends, to the ports 0xcf8 and 0xcfc.
unfoldable pub pci_write : Pci → ℕ → ℕ → List (ℕ × ℕ)
unfolding bits selected
pci_write dev field value = (0xcf8, bits (selected dev field)) ∷ (pci_data_port, value) ∷ []

pub get_device_type : Config → Pci → ℕ
get_device_type config dev =
    bit_or (pci_read config dev off_class * 2 ^ 8) (pci_read config dev off_subclass)

unfoldable pub get_secondary_bus : Config → Pci → ℕ
get_secondary_bus config dev = pci_read config dev off_secondary_bus

unfoldable pub pci_reach_end : Config → Pci → Bool
pci_reach_end config dev = pci_read config dev off_header_type == 0

-- The device type -1 is `none`.
pub has_type : Config → Option ℕ → Pci → Bool
has_type config none dev = true
has_type config (some device_type) dev = device_type == get_device_type config dev

pub has_ids : Config → ℕ → ℕ → Pci → Bool
has_ids config vendor_id device_id dev =
    (pci_read config dev off_device_id == device_id)
    && (vendor_id == pci_read config dev off_vendor_id)

-- What is looked for: a vendor, a device and a device type.
pub record Wanted : Type 0 where
  pub vendor_id : ℕ
  pub device_id : ℕ
  pub device_type : Option ℕ

pub is_wanted : Config → Wanted → Pci → Bool
is_wanted config w dev =
    has_type config w.device_type dev && has_ids config w.vendor_id w.device_id dev

-- `below` is the scan of the bus behind a bridge; its result is dropped.
pub pci_scan_function : (ℕ → Option Pci) → Config → Wanted → ℕ → ℕ → ℕ → Option Pci
pci_scan_function below config w bus device function =
    let dev = pci_at bus device function in
    let found = if is_wanted config w dev then dev else dev_zero in
    if get_device_type config dev == type_bridge
    then below (get_secondary_bus config dev) >>= (λ _. some found)
    else some found

pub scan_functions : (ℕ → Option Pci) → Config → Wanted → ℕ → ℕ → ℕ → ℕ → Option Pci
scan_functions below config w bus device zero function = some dev_zero
scan_functions below config w bus device (suc left) function =
    let rest = scan_functions below config w bus device left (function + 1) in
    if pci_read config (pci_at bus device 0) off_vendor_id == pci_none
    then rest
    else pci_scan_function below config w bus device function
      >>= (λ t. if bits t == 0 then rest else some t)

-- pci_scan_device after function 0.
pub more_functions : (ℕ → Option Pci) → Config → Wanted → ℕ → ℕ → Option Pci
more_functions below config w bus device =
    if pci_reach_end config (pci_at bus device 0)
    then some dev_zero
    else scan_functions below config w bus device (func_per_dev - 1) 1

pub pci_scan_device : (ℕ → Option Pci) → Config → Wanted → ℕ → ℕ → Option Pci
pci_scan_device below config w bus device =
    if pci_read config (pci_at bus device 0) off_vendor_id == pci_none
    then some dev_zero
    else pci_scan_function below config w bus device 0
      >>= (λ t. if bits t == 0 then more_functions below config w bus device else some t)

pub scan_devices : (ℕ → Option Pci) → Config → Wanted → ℕ → ℕ → ℕ → Option Pci
scan_devices below config w bus zero device = some dev_zero
scan_devices below config w bus (suc left) device =
    let rest = scan_devices below config w bus left (device + 1) in
    pci_scan_device below config w bus device >>= (λ t. if bits t == 0 then rest else some t)

-- `levels` bounds the bridges that a scan goes through; `none` is a scan that goes deeper.
pub pci_scan_bus : ℕ → Config → Wanted → ℕ → Option Pci
pci_scan_bus zero config w bus = none
pci_scan_bus (suc levels) config w bus =
    scan_devices (pci_scan_bus levels config w) config w bus dev_per_bus 0

unfoldable pub scan_roots : ℕ → Config → Wanted → ℕ → ℕ → Option Pci
scan_roots levels config w zero function = some dev_zero
scan_roots levels config w (suc left) function =
    let rest = scan_roots levels config w left (function + 1) in
    if pci_read config (pci_at 0 0 function) off_vendor_id == pci_none
    then some dev_zero
    else pci_scan_bus levels config w function >>= (λ t. if bits t == 0 then rest else some t)

pub pci_get_device : ℕ → Config → Wanted → Option Pci
pci_get_device levels config w =
    pci_scan_bus levels config w 0
    >>= (λ t. if bits t == 0 then scan_roots levels config w (func_per_dev - 1) 1 else some t)

pub pci_is_device_available : ℕ → Config → ℕ → ℕ → Option Bool
pci_is_device_available levels config vendor_id device_id =
    pci_get_device levels config
      (record { vendor_id = vendor_id; device_id = device_id; device_type = none })
    >>= (λ t. some (not (bits t == 0)))
