-- ===== src/Arp/Tests.antt =====
-- The theorems about src/network/arp.c on small tables.
use sector_os_re.Arp.{
  settle, [], update, some, store_entry, broadcast_mac_addr, arp_lookup_add, empty_table, ℕ, Host,
  arp_lookup, Packet, init_arp, arp_send_packet, ArpTable,
}
use sector_os_re.Base.{arith, [], update, ◌∷◌, refl, some, ℕ, ◌≡◌, List}
use sector_os_re.Arp.Table.{arp_lookup-arp_lookup_add, IsValid}

abbrev some_mac : List ℕ
some_mac = 0x52 ∷ 0x54 ∷ 0 ∷ 0x12 ∷ 0x34 ∷ 0x56 ∷ []

abbrev other_mac : List ℕ
other_mac = 0x52 ∷ 0x54 ∷ 0 ∷ 0x12 ∷ 0x34 ∷ 0x57 ∷ []

-- The first entry is for 10.0.2.2.
abbrev one_entry : ArpTable
one_entry = record empty_table {
  entries = update empty_table.entries 0 (record { ip_addr = 0x0202_000a; mac_addr = some_mac });
  size = 1;
  current = 1;
}

one_entry-IsValid : IsValid one_entry
one_entry-IsValid = record { current_in = omega arith; size_in = omega arith }

arp_lookup-arp_lookup_add_example :
    arp_lookup (arp_lookup_add one_entry other_mac 0x0302_000a) 0x0302_000a ≡ some other_mac
arp_lookup-arp_lookup_add_example =
    arp_lookup-arp_lookup_add one_entry other_mac 0x0302_000a one_entry-IsValid
      (λ j lo hi. ground arith)

abbrev host : Host
host = record { ip = 0x0a00_020f; ip_bytes = 0x0f02_000a; mac = other_mac }

abbrev request : Packet
request = record {
  opcode = 1;
  src_mac = some_mac;
  src_ip = 0x0202_000a;
  dst_mac = broadcast_mac_addr;
  dst_ip = 0x0f02_000a;
}

asked_everybody : (arp_send_packet host some_mac 0x0202_000a).0 ≡ broadcast_mac_addr
unfolding arp_send_packet
asked_everybody = refl

broadcast_known : (init_arp empty_table).current ≡ 1
unfolding init_arp arp_lookup_add store_entry settle
broadcast_known = refl
