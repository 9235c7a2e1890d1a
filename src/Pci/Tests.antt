-- ===== src/Pci/Tests.antt =====
-- src/drivers/pci.c on one bus with a network card, at device 3.
use sector_os_re.Base.{
  false, refl, true, inl, [], arith, some, ◌∷◌, ◌≡◌, ◌≢◌, ◌==◌, ◌^◌, ℕ, ◌/◌, none, if◌then◌else◌,
}
use sector_os_re.Pci.{
  get_secondary_bus, scan_functions, pci_reach_end, more_functions, scan_roots, type_bridge,
  dev_zero, selected, pci_scan_function, pci_at, bits, pci_scan_device, scan_devices, pci_size_map,
  has_ids, pci_get_device, pci_scan_bus, has_type, if◌then◌else◌, none, pci_read,
  pci_is_device_available, Config, get_device_type, Wanted, is_wanted,
}
use sector_os_re.Pci.Scan.{pci_scan_bus-Found, Found}
use sector_os_re.Pci.Identify.{
  init_rtl8139, newline, rtl8139_text, realtek_text, network_text, drivers_of, words_for,
  vendor_words, has_functions, enumerate_functions, class_words, proc_identify_pci_device,
  enumerate_devices, identify_pci_device,
}

-- The card answers at function 0, all else with 0xffff; no header tells of more functions.
abbrev one_card : Config
one_card = record {
  in8 = λ address port. 0;
  in16 = λ address port.
      if address / 2 ^ 8 == 0x800018 then (if port == 0xcfc then 0x10ec else 0x8139) else 0xffff;
  in32 = λ address port. 0;
}

abbrev network_card : Wanted
network_card = record { vendor_id = 0x10ec; device_id = 0x8139; device_type = none }

no_bridge :
    (device function : ℕ) → get_device_type one_card (pci_at 0 device function) ≢ type_bridge
unfolding get_device_type pci_read pci_size_map
no_bridge device function = omega arith

pci_scan_bus-Found_example : Found one_card network_card (pci_scan_bus 1 one_card network_card 0)
unfolding is_wanted has_type has_ids pci_read pci_size_map bits pci_at selected
pci_scan_bus-Found_example =
    pci_scan_bus-Found 0 one_card network_card 0 3 0 no_bridge (omega arith) (omega arith) refl
      (inl refl) refl (omega arith)

card_available : pci_is_device_available 1 one_card 0x10ec 0x8139 ≡ some true
unfolding pci_is_device_available pci_get_device pci_scan_bus scan_devices pci_scan_device
    pci_scan_function get_device_type pci_read pci_size_map bits pci_at selected is_wanted has_type
    has_ids dev_zero
card_available = refl

other_card_missing : pci_is_device_available 1 one_card 0x1022 0x2000 ≡ some false
unfolding pci_is_device_available pci_get_device pci_scan_bus scan_devices pci_scan_device
    pci_scan_function get_device_type pci_read pci_size_map bits pci_at selected is_wanted has_type
    has_ids dev_zero scan_roots more_functions pci_reach_end scan_functions get_secondary_bus
other_card_missing = refl

card_named :
    identify_pci_device one_card (pci_at 0 3 0)
    ≡ (realtek_text ∷ rtl8139_text ∷ newline ∷ [], init_rtl8139 ∷ [])
unfolding identify_pci_device class_words vendor_words words_for drivers_of pci_read pci_size_map
    bits pci_at selected
card_named = refl

proc_card_named :
    proc_identify_pci_device one_card (pci_at 0 3 0) (network_text ∷ [])
    ≡ network_text ∷ (identify_pci_device one_card (pci_at 0 3 0)).0
unfolding identify_pci_device proc_identify_pci_device class_words vendor_words words_for drivers_of
    pci_read pci_size_map bits pci_at selected
proc_card_named = refl

card_listed :
    enumerate_devices one_card 0 4 0
    ≡ (record {
      bus = 0;
      device = 3;
      function = 0;
      vendor_id = 0x10ec;
      device_id = 0x8139;
      words = realtek_text ∷ rtl8139_text ∷ newline ∷ [];
    })
      ∷ []
unfolding enumerate_devices enumerate_functions has_functions identify_pci_device class_words
    vendor_words words_for pci_read pci_size_map bits pci_at selected
card_listed = refl
