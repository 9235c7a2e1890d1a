-- ===== src/Arp.antt =====
-- src/network/arp.c: the ARP table and the handling of ARP packets. A hardware or protocol address
-- is the list of its bytes; `*((uint32_t*)(ip_addr))` is the number that they stand for, lowest
-- byte first. Two lists of four bytes are the same if these numbers are.
pub mod Table
pub mod Packets
mod Tests
use Prim.Native.Nat.{suc, ℕ}
use sector_os_re.Base.{
  zero, ◌^◌, some, leb, ◌%◌, ◌+◌, none, ltb, [], ◌==◌, update, if◌then◌else◌, ◌∷◌, ℕ, List, Option,
}

-- `arp_table_entry_t`, with the six bytes that are written of `mac_addr`
pub record Entry : Type 0 where
  pub ip_addr : ℕ
  pub mac_addr : List ℕ

-- `arp_table`, `arp_table_size` and `arp_table_current`
pub record ArpTable : Type 0 where
  pub entries : ℕ → Entry
  pub size : ℕ
  pub current : ℕ

-- The state before the first packet.
abbrev pub empty_table : ArpTable
empty_table = record {
  entries = λ _. record { ip_addr = 0; mac_addr = 0 ∷ 0 ∷ 0 ∷ 0 ∷ 0 ∷ 0 ∷ [] };
  size = 0;
  current = 0;
}

-- `arp_packet_t`, but for the sizes and types that every packet of the kernel has alike; `opcode`
-- stands as a number of the machine.
pub record Packet : Type 0 where
  pub opcode : ℕ
  pub src_mac : List ℕ
  pub src_ip : ℕ
  pub dst_mac : List ℕ
  pub dst_ip : ℕ

-- The two steps that arp_lookup_add and arp_handle_packet take alike.
unfoldable pub store_entry : ArpTable → ℕ → List ℕ → ArpTable
store_entry t ip mac = record t {
  entries = update t.entries t.current (record { ip_addr = ip; mac_addr = mac });
  current = t.current + 1;
}

unfoldable pub settle : ArpTable → ArpTable
settle t = record t {
  size = if ltb t.size 512 then t.size + 1 else t.size;
  current = if leb 512 t.current then 0 else t.current;
}

unfoldable pub arp_lookup_add : ArpTable → List ℕ → ℕ → ArpTable
arp_lookup_add t mac ip = settle (store_entry t ip mac)

-- `for(int i = 0; i < 512; i++)`, with the rounds left and `i`
unfoldable pub lookup_from : (ℕ → Entry) → ℕ → ℕ → ℕ → Option (List ℕ)
lookup_from entries ip zero i = none
lookup_from entries ip (suc left) i =
    let rest = lookup_from entries ip left (i + 1) in
    if (entries i).ip_addr == ip then some (entries i).mac_addr else rest

-- `some` is the answer 1, with the address that is copied out.
unfoldable pub arp_lookup : ArpTable → ℕ → Option (List ℕ)
arp_lookup t ip = lookup_from t.entries ip 512 0

-- What the interface answers: its own addresses.
pub record Host : Type 0 where
  pub ip : ℕ
  pub ip_bytes : ℕ
  pub mac : List ℕ

-- arp_handle_packet: the table afterwards, and the packet that is sent, with the hardware address
-- that it goes to. `opcode` is `ntohs(packet->opcode)`. The own address is compared, as a
-- `uint32_t`, with the one byte `*(packet->dstIP)`. The reply's destination fields are those of
-- the request.
pub arp_handle_packet : Host → ArpTable → Packet → ArpTable × Option (List ℕ × Packet)
arp_handle_packet host t packet =
    let answer = record packet { opcode = 2; src_mac = host.mac; src_ip = host.ip_bytes } in
    if packet.opcode == 1
    then (
      settle t,
      if host.ip % 2 ^ 32 == packet.dst_ip % 256 then some (packet.src_mac, answer) else none,
    )
    else if packet.opcode == 2
    then (settle (store_entry t packet.src_ip packet.src_mac), none)
    else (settle t, none)

abbrev pub broadcast_mac_addr : List ℕ
broadcast_mac_addr = 0xff ∷ 0xff ∷ 0xff ∷ 0xff ∷ 0xff ∷ 0xff ∷ []

-- arp_send_packet: a request for `dst_ip`, sent to everybody.
pub arp_send_packet : Host → List ℕ → ℕ → List ℕ × Packet
arp_send_packet host dst_mac dst_ip = (
  broadcast_mac_addr,
  record {
    opcode = 1;
    src_mac = host.mac;
    src_ip = host.ip_bytes;
    dst_mac = dst_mac;
    dst_ip = dst_ip;
  },
)

-- init_arp: the table with the entry for the broadcast address.
pub init_arp : ArpTable → ArpTable
init_arp t = arp_lookup_add t broadcast_mac_addr 0xffff_ffff
