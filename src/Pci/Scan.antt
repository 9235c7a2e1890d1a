-- ===== src/Pci/Scan.antt =====
-- What pci_scan_bus and pci_get_device of src/drivers/pci.c come to on a bus.
use sector_os_re.Base.{
  ◌-◌, ◌<◌, ◌≤◌, zero, ◌+◌, refl, suc, ◌∙◌, true, arith, inr, inl, ◌≢◌, false, ◌⊎◌, if◌then◌else◌,
  some, ◌==◌, Bool-cases, ◌≡◌, ◌>>=◌, ℕ, Option,
}
use sector_os_re.Pci.{
  dev_per_bus, pci_reach_end, func_per_dev, more_functions, scan_devices, pci_scan_bus,
  pci_scan_device, pci_none, off_vendor_id, pci_read, pci_scan_function, dev_zero, scan_functions,
  type_bridge, is_wanted, pci_at, get_device_type, bits, Pci, Wanted, Config,
}

-- The scan ends, and what it comes to is nothing or a device that was looked for.
abbrev pub Result : Config → Wanted → Option Pci → Type 0
Result config w r = (t : Pci) × (r ≡ some t) × ((bits t ≡ 0) ⊎ (is_wanted config w t ≡ true))

-- The scan ends at a device that was looked for.
abbrev pub Found : Config → Wanted → Option Pci → Type 0
Found config w r = (t : Pci) × (r ≡ some t) × (bits t ≢ 0) × (is_wanted config w t ≡ true)

-- To go on with `rest` if nothing was found.
abbrev or_next : Option Pci → Option Pci → Option Pci
or_next r rest = r >>= (λ t. if bits t == 0 then rest else some t)

or_next-Result :
    (config : Config) (w : Wanted) (r rest : Option Pci)
    → Result config w r
    → Result config w rest
    → Result config w (or_next r rest)
or_next-Result config w r rest (t, e, either) next = elim (Bool-cases (bits t == 0)) [
  | inl empty ↦ rw (e, empty) next
  | inr found ↦ let ne : bits t ≢ 0 = ground (arith, found) in (t, rw (e, found) refl, either)
]

or_next-here :
    (config : Config) (w : Wanted) (r rest : Option Pci)
    → Found config w r
    → Found config w (or_next r rest)
or_next-here config w r rest (t, e, set, wanted) =
    let test : (bits t == 0) ≡ false = ground (arith, set) in (t, rw (e, test) refl, set, wanted)

or_next-later :
    (config : Config) (w : Wanted) (r rest : Option Pci)
    → Result config w r
    → Found config w rest
    → Found config w (or_next r rest)
or_next-later config w r rest (t, e, either) next = elim (Bool-cases (bits t == 0)) [
  | inl empty ↦ rw (e, empty) next
  | inr found ↦
      let set : bits t ≢ 0 = ground (arith, found) in
      (
        t,
        rw (e, found) refl,
        set,
        elim either [ inl none ↦ absurd (set none) | inr wanted ↦ wanted ],
      )
]

module _ (below : ℕ → Option Pci) (config : Config) (w : Wanted) (bus : ℕ)
    (no_bridge : (device function : ℕ)
      → get_device_type config (pci_at bus device function) ≢ type_bridge) where
  function_plain :
      (device function : ℕ)
      → pci_scan_function below config w bus device function
        ≡ some (
            if is_wanted config w (pci_at bus device function)
            then pci_at bus device function
            else dev_zero)
  unfolding pci_scan_function
  function_plain device function =
      let plain = no_bridge device function in
      let test : (get_device_type config (pci_at bus device function) == type_bridge) ≡ false =
        ground (arith, plain) in
      rw test refl

  function-Result :
      (device function : ℕ) → Result config w (pci_scan_function below config w bus device function)
  unfolding bits dev_zero
  function-Result device function =
      let dev = pci_at bus device function in
      elim (Bool-cases (is_wanted config w dev)) [
        | inl yes' ↦ (dev, function_plain device function ∙ rw yes' refl, inr yes')
        | inr no' ↦ (dev_zero, function_plain device function ∙ rw no' refl, inl refl)
      ]

  function-Found :
      (device function : ℕ)
      → is_wanted config w (pci_at bus device function) ≡ true
      → bits (pci_at bus device function) ≢ 0
      → Found config w (pci_scan_function below config w bus device function)
  function-Found device function wanted set =
      (pci_at bus device function, function_plain device function ∙ rw wanted refl, set, wanted)

  functions-Result :
      (device left function : ℕ)
      → Result config w (scan_functions below config w bus device left function)
  unfolding scan_functions bits dev_zero
  functions-Result device zero function = (dev_zero, refl, inl refl)
  functions-Result device (suc left) function =
      elim (Bool-cases (pci_read config (pci_at bus device 0) off_vendor_id == pci_none)) [
        | inl absent ↦ rw absent (functions-Result device left (function + 1))
        | inr present ↦ rw present (
            or_next-Result config w (pci_scan_function below config w bus device function)
              (scan_functions below config w bus device left (function + 1))
              (function-Result device function) (functions-Result device left (function + 1)))
      ]

  -- The function that is looked for is one of those that are left.
  functions-Found :
      (device left function target : ℕ)
      → (pci_read config (pci_at bus device 0) off_vendor_id == pci_none) ≡ false
      → is_wanted config w (pci_at bus device target) ≡ true
      → bits (pci_at bus device target) ≢ 0
      → function ≤ target
      → target < function + left
      → Found config w (scan_functions below config w bus device left function)
  unfolding scan_functions
  functions-Found device zero function target present wanted set le lt = absurd (omega arith)
  functions-Found device (suc left) function target present wanted set le lt =
      let rest = scan_functions below config w bus device left (function + 1) in
      elim (Bool-cases (function == target)) [
        | inl here ↦
            let e : target ≡ function = ground arith in
            rw present (
              or_next-here config w (pci_scan_function below config w bus device function) rest
                (function-Found device function (rw e at wanted) (rw e at set)))
        | inr other ↦ rw present (
            or_next-later config w (pci_scan_function below config w bus device function) rest
              (function-Result device function)
              (functions-Found device left (function + 1) target present wanted set (ground arith)
                (omega arith)))
      ]

  more-Result : (device : ℕ) → Result config w (more_functions below config w bus device)
  unfolding more_functions bits dev_zero
  more-Result device = elim (Bool-cases (pci_reach_end config (pci_at bus device 0))) [
    | inl last ↦ rw last (dev_zero, refl, inl refl)
    | inr more ↦ rw more (functions-Result device (func_per_dev - 1) 1)
  ]

  device-Result : (device : ℕ) → Result config w (pci_scan_device below config w bus device)
  unfolding pci_scan_device bits dev_zero
  device-Result device =
      elim (Bool-cases (pci_read config (pci_at bus device 0) off_vendor_id == pci_none)) [
        | inl absent ↦ rw absent (dev_zero, refl, inl refl)
        | inr present ↦ rw present (
            or_next-Result config w (pci_scan_function below config w bus device 0)
              (more_functions below config w bus device) (function-Result device 0)
              (more-Result device))
      ]

  -- The device shows function 0, and its header tells of more functions if another one is looked for.
  abbrev Reachable : ℕ → ℕ → Type 0
  Reachable device function =
      ((pci_read config (pci_at bus device 0) off_vendor_id == pci_none) ≡ false)
      × (function < func_per_dev)
      × ((function ≡ 0) ⊎ (pci_reach_end config (pci_at bus device 0) ≡ false))

  device-Found :
      (device target : ℕ)
      → Reachable device target
      → is_wanted config w (pci_at bus device target) ≡ true
      → bits (pci_at bus device target) ≢ 0
      → Found config w (pci_scan_device below config w bus device)
  unfolding pci_scan_device more_functions
  device-Found device target (present, lt, more) wanted set =
      let first = pci_scan_function below config w bus device 0 in
      let rest = more_functions below config w bus device in
      elim (Bool-cases (target == 0)) [
        | inl here ↦
            let e : target ≡ 0 = ground arith in
            rw present (
              or_next-here config w first rest
                (function-Found device 0 (rw e at wanted) (rw e at set)))
        | inr other ↦
            let on : pci_reach_end config (pci_at bus device 0) ≡ false = ground (arith, more) in
            let found =
              functions-Found device (func_per_dev - 1) 1 target present wanted set (ground arith)
                (omega arith) in
            rw present (or_next-later config w first rest (function-Result device 0) (rw on found))
      ]

  devices-Result : (left device : ℕ) → Result config w (scan_devices below config w bus left device)
  unfolding scan_devices bits dev_zero
  devices-Result zero device = (dev_zero, refl, inl refl)
  devices-Result (suc left) device =
      or_next-Result config w (pci_scan_device below config w bus device)
        (scan_devices below config w bus left (device + 1)) (device-Result device)
        (devices-Result left (device + 1))

  devices-Found :
      (left device target function : ℕ)
      → device ≤ target
      → target < device + left
      → Reachable target function
      → is_wanted config w (pci_at bus target function) ≡ true
      → bits (pci_at bus target function) ≢ 0
      → Found config w (scan_devices below config w bus left device)
  unfolding scan_devices
  devices-Found zero device target function le lt there wanted set = absurd (omega arith)
  devices-Found (suc left) device target function le lt there wanted set =
      let rest = scan_devices below config w bus left (device + 1) in
      elim (Bool-cases (device == target)) [
        | inl here ↦
            let e : target ≡ device = ground arith in
            or_next-here config w (pci_scan_device below config w bus device) rest
              (device-Found device function (rw e at there) (rw e at wanted) (rw e at set))
        | inr other ↦
            or_next-later config w (pci_scan_device below config w bus device) rest
              (device-Result device)
              (devices-Found left (device + 1) target function (ground arith) (omega arith) there
                wanted set)
      ]

-- On a bus without bridges one level is enough: the scan ends, and whatever device it comes to has
-- the vendor, the device number and the type that were asked for.
pub pci_scan_bus-Result :
    (levels : ℕ) (config : Config) (w : Wanted) (bus : ℕ)
    → ((device function : ℕ) → get_device_type config (pci_at bus device function) ≢ type_bridge)
    → Result config w (pci_scan_bus (suc levels) config w bus)
unfolding pci_scan_bus
pci_scan_bus-Result levels config w bus no_bridge =
    devices-Result (pci_scan_bus levels config w) config w bus no_bridge dev_per_bus 0

-- A function that is asked for, on one of the 32 devices of a bus without bridges, with an address
-- other than 0, is found or another one like it, if function 0 of its device answers and the header
-- of the device tells of more functions where it is not function 0 itself.
pub pci_scan_bus-Found :
    (levels : ℕ) (config : Config) (w : Wanted) (bus device function : ℕ)
    → ((device function : ℕ) → get_device_type config (pci_at bus device function) ≢ type_bridge)
    → device < dev_per_bus
    → function < func_per_dev
    → (pci_read config (pci_at bus device 0) off_vendor_id == pci_none) ≡ false
    → (function ≡ 0) ⊎ (pci_reach_end config (pci_at bus device 0) ≡ false)
    → is_wanted config w (pci_at bus device function) ≡ true
    → bits (pci_at bus device function) ≢ 0
    → Found config w (pci_scan_bus (suc levels) config w bus)
unfolding pci_scan_bus
pci_scan_bus-Found levels config w bus device function no_bridge lt lt' present more wanted set =
    devices-Found (pci_scan_bus levels config w) config w bus no_bridge dev_per_bus 0 device
      function (omega arith) (omega arith) (present, lt', more) wanted set
