-- ===== src/Arp/Packets.antt =====
-- arp_handle_packet of src/network/arp.c, on each kind of packet.
use sector_os_re.Arp.{
  store_entry, none, Packet, ArpTable, Host, settle, arp_lookup_add, arp_handle_packet,
}
use sector_os_re.Base.{◌<◌, ◌==◌, if◌then◌else◌, ◌%◌, refl, arith, none, ◌^◌, ◌≤◌, ◌≡◌}
use sector_os_re.Arp.Table.{IsValid, arp_lookup_add-IsValid}

arp_handle_packet_indices :
    (host : Host) (t : ArpTable) (packet : Packet)
    → IsValid t
    → let t' = (arp_handle_packet host t packet).0 in (t'.current < 512) × (t'.size ≤ 512)
unfolding arp_handle_packet store_entry settle
arp_handle_packet_indices host t packet v =
    let current_in = v.current_in in let size_in = v.size_in in ground arith

-- Whatever packet comes, the indices stay within the table; a reply enters its sender as
-- arp_lookup_add does, and any other packet leaves the entries as they are. Only a request can be
-- answered.
pub arp_handle_packet-IsValid :
    (host : Host) (t : ArpTable) (packet : Packet)
    → IsValid t
    → let (t', sent) = arp_handle_packet host t packet in
      IsValid t'
      × (t'.entries ≡ (
          if packet.opcode == 2
          then (arp_lookup_add t packet.src_mac packet.src_ip).entries
          else t.entries))
      × ((if packet.opcode == 1 then none else sent) ≡ none)
unfolding arp_handle_packet arp_lookup_add store_entry settle
arp_handle_packet-IsValid host t packet v =
    let (current_in, size_in) = arp_handle_packet_indices host t packet v in
    (record { current_in = current_in; size_in = size_in }, ground arith, ground arith)

-- A reply enters the sender, and is not answered. The indices stay within the table.
pub arp_handle_packet_reply :
    (host : Host) (t : ArpTable) (packet : Packet)
    → IsValid t
    → packet.opcode ≡ 2
    → let (t', sent) = arp_handle_packet host t packet in
      (t' ≡ arp_lookup_add t packet.src_mac packet.src_ip) × (sent ≡ none) × IsValid t'
unfolding arp_handle_packet arp_lookup_add
arp_handle_packet_reply host t packet v e =
    let enters = arp_lookup_add-IsValid t packet.src_mac packet.src_ip v in
    rw e (refl, refl, unfold arp_lookup_add in enters)

-- No request for an address from 256 on is answered: the own address is compared with the first
-- byte of the requested one alone. Requests change no entry of the table.
pub arp_handle_packet_unanswered :
    (host : Host) (t : ArpTable) (packet : Packet)
    → packet.opcode ≡ 1
    → 256 ≤ host.ip % 2 ^ 32
    → let (t', sent) = arp_handle_packet host t packet in (sent ≡ none) × (t'.entries ≡ t.entries)
unfolding arp_handle_packet settle
arp_handle_packet_unanswered host t packet e high = ground arith
