-- ===== src/Ip/Delivery.antt =====
-- What becomes of a packet that src/network/ipv4.c sends, at the host that gets it.
use sector_os_re.Base.{◌==◌, if◌then◌else◌, [], ◌∷◌, List, ℕ}
use sector_os_re.Netutils.{ntohb, ntohs, htonb, htons}
use sector_os_re.Arp.{ArpTable}
use sector_os_re.Ip.{
  unsupported_protocol, to_udp, tcp_packet, to_icmp, ntohb, ntohs, htonb, htons, IpData, ArpTable,
}

-- Addresses as lists of so many bytes.
abbrev pub mac_of : (m0 m1 m2 m3 m4 m5 : ℕ) → List ℕ
mac_of m0 m1 m2 m3 m4 m5 = m0 ∷ m1 ∷ m2 ∷ m3 ∷ m4 ∷ m5 ∷ []

abbrev pub ip_of : (a0 a1 a2 a3 : ℕ) → List ℕ
ip_of a0 a1 a2 a3 = a0 ∷ a1 ∷ a2 ∷ a3 ∷ []

-- Which data a host hands on for a protocol.
abbrev pub handed : ℕ → List ℕ → List ℕ → IpData
handed protocol bytes src =
    if protocol == 1
    then to_icmp bytes src
    else if protocol == 6
    then tcp_packet
    else if protocol == 17
    then to_udp bytes src
    else unsupported_protocol protocol
