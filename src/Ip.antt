-- ===== src/Ip.antt =====
-- src/network/ipv4.c over src/network/ethernet.c: packets as lists of bytes. What the interface knows
-- (its hardware address and its IP address), and the ARP table at each lookup, are arguments.
pub mod Delivery
mod Tests
use sector_os_re.Base.{
  ◌-◌, ◌/◌, ◌==◌, none, ◌^◌, [], zero, ◌>>=◌, ◌*◌, some, if◌then◌else◌, ◌+◌, ◌%◌, ◌++◌, length, ◌∷◌,
  ℕ, Option, List,
}
use sector_os_re.Netutils.{ntohs, ip_checksum, htons, ntohb, htonb}
use sector_os_re.Arp.{arp_lookup, ArpTable}
use Prim.Native.Nat.{suc, ℕ}

abbrev pub type_arp : ℕ
type_arp = 0x0806

abbrev pub type_ip : ℕ
type_ip = 0x0800

abbrev pub drop : ℕ → List ℕ → List ℕ
drop zero bytes = bytes
drop (suc n) [] = []
drop (suc n) (b ∷ bytes) = drop n bytes

-- The byte at an index; behind the packet it is 0.
abbrev pub byte_in : List ℕ → ℕ → ℕ
byte_in [] i = 0
byte_in (b ∷ bytes) zero = b
byte_in (b ∷ bytes) (suc i) = byte_in bytes i

-- A `uint16_t` in memory, and the bytes that one takes there.
abbrev pub half_in : List ℕ → ℕ → ℕ
half_in bytes i = byte_in bytes i + byte_in bytes (i + 1) * 2 ^ 8

abbrev pub half_bytes : ℕ → List ℕ → List ℕ
half_bytes h rest = h % 2 ^ 8 ∷ h / 2 ^ 8 ∷ rest

abbrev pub take : ℕ → List ℕ → List ℕ
take zero bytes = []
take (suc n) [] = []
take (suc n) (b ∷ bytes) = b ∷ take n bytes

-- The frame that goes to interface_send: of the data, the first `size` bytes.
pub ethernet_send : List ℕ → List ℕ → List ℕ → ℕ → ℕ → List ℕ
ethernet_send src_macaddr dst_macaddr payload size protocol =
    dst_macaddr ++ src_macaddr ++ half_bytes (htons protocol) (take size payload)

-- Where the data of a frame go.
pub data FrameData : Type 0 where
  to_arp to_ip : List ℕ → FrameData
  ignored : FrameData

pub ethernet_handle_packet : List ℕ → FrameData
ethernet_handle_packet packet =
    let payload = drop 14 packet in
    if ntohs (half_in packet 12) == type_arp
    then to_arp payload
    else if ntohs (half_in packet 12) == type_ip
    then to_ip payload
    else ignored

-- The header with a checksum, as it is sent. The first byte is the version, 4, with 5 times 4 bytes
-- of header, as the compiler packs the two fields, and its halves change places.
pub ip_header : List ℕ → List ℕ → ℕ → ℕ → ℕ → List ℕ
ip_header src_ip dst_ip len protocol checksum =
    htonb (4 + 5 * 2 ^ 4) 4
    ∷ 0
    ∷ half_bytes (htons ((20 + len) % 2 ^ 16))
        (0 ∷ 0 ∷ htonb 0 3 ∷ 0 ∷ 64 ∷ protocol ∷ half_bytes checksum (src_ip ++ dst_ip))

-- A packet as the words that ip_checksum adds.
pub words_of : List ℕ → List ℕ
words_of [] = []
words_of (b ∷ []) = b ∷ []
words_of (b ∷ c ∷ bytes) = (b + c * 2 ^ 8) ∷ words_of bytes

pub ip_packet : List ℕ → List ℕ → List ℕ → ℕ → List ℕ
ip_packet src_ip dst_ip payload protocol =
    let len = length payload in
    let sum = ip_checksum (words_of (ip_header src_ip dst_ip len protocol 0)) in
    ip_header src_ip dst_ip len protocol (htons sum) ++ payload

pub answer_or : Option (List ℕ) → ℕ → Option (List ℕ × ℕ) → Option (List ℕ × ℕ)
answer_or none requests rest = rest
answer_or (some mac) requests rest = some (mac, requests)

-- `while(!arp_lookup(…))`, with the rounds that are left, the number of the lookup and `arp_sent`:
-- the hardware address, and how many ARP packets were sent.
pub resolve : ℕ → (ℕ → ArpTable) → ℕ → ℕ → ℕ → ℕ → Option (List ℕ × ℕ)
resolve zero tables dst_ip k arp_sent requests = none
resolve (suc rounds) tables dst_ip k arp_sent requests =
    let rest =
      if arp_sent == 0
      then resolve rounds tables dst_ip (k + 1) 0 requests
      else resolve rounds tables dst_ip (k + 1) (arp_sent - 1) (requests + 1) in
    answer_or (arp_lookup (tables k) dst_ip) requests rest

-- `ip_word` is the number that arp_lookup reads in the four bytes `dst_ip`. The frame, with as many
-- bytes of the packet as its length field says, and how many ARP packets were sent before it.
pub ip_send_packet :
    ℕ → (ℕ → ArpTable) → List ℕ → List ℕ → List ℕ → ℕ → List ℕ → ℕ → Option (List ℕ × ℕ)
ip_send_packet rounds tables own_mac own_ip dst_ip ip_word payload protocol = do
  (mac, requests) ← resolve rounds tables ip_word 0 3 0
  let packet = ip_packet own_ip dst_ip payload protocol
  some (ethernet_send own_mac mac packet (htons (half_in packet 2)) type_ip, requests)

-- Where the data of a packet go, with the address of the sender.
pub data IpData : Type 0 where
  to_icmp to_udp : List ℕ → List ℕ → IpData
  tcp_packet : IpData
  unsupported_protocol unsupported_version : ℕ → IpData

pub ip_handle_packet : List ℕ → IpData
ip_handle_packet packet =
    let first = ntohb (byte_in packet 0) 4 in
    let version = first % 2 ^ 4 in
    let ihl = first / 2 ^ 4 in
    let data_ptr = drop (ihl * 4) packet in
    let protocol = byte_in packet 9 in
    let src = byte_in packet 12 ∷ byte_in packet 13 ∷ byte_in packet 14 ∷ byte_in packet 15 ∷ [] in
    if version == 4
    then (if protocol == 1
        then to_icmp data_ptr src
        else if protocol == 6
        then tcp_packet
        else if protocol == 17
        then to_udp data_ptr src
        else unsupported_protocol protocol)
    else unsupported_version version
