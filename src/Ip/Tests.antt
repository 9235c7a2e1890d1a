-- ===== src/Ip/Tests.antt =====
-- src/network/ipv4.c: three bytes by UDP to 10.0.2.2, once ARP has the address.
use sector_os_re.Base.{refl, [], zero, ◌≡◌, suc, ◌∷◌, ◌^◌, ◌*◌, ◌+◌, ℕ, List}
use sector_os_re.Arp.{arp_lookup_add, empty_table, ArpTable}
use sector_os_re.Ip.{ntohs, ip_checksum, words_of, htons, htonb, ip_header, ip_packet}
use sector_os_re.Ip.Delivery.{ip_of, mac_of}
use sector_os_re.Netutils.{
  ntohs, complement16, sum_words, ip_checksum, flip_short, htons, flip_byte, htonb,
}

abbrev gateway_mac : List ℕ
gateway_mac = mac_of 82 85 10 0 2 2

-- `10.0.2.2` as the number in memory.
abbrev gateway_ip : ℕ
gateway_ip = 10 + 2 * 2 ^ 16 + 2 * 2 ^ 24

-- The answer is there at the second lookup.
abbrev tables : ℕ → ArpTable
tables zero = empty_table
tables (suc k) = arp_lookup_add empty_table gateway_mac gateway_ip

-- The header of a packet without data, from 10.0.2.14 to 10.0.2.2 by UDP: its words add up to 0xffff.
sent_header :
    ip_packet (ip_of 10 0 2 14) (ip_of 10 0 2 2) [] 17
    ≡ 0x45 ∷ 0 ∷ 0 ∷ 20 ∷ 0 ∷ 0 ∷ 0 ∷ 0 ∷ 64 ∷ 17 ∷ 0x62 ∷ 0xca ∷ 10 ∷ 0 ∷ 2 ∷ 14 ∷ 10 ∷ 0 ∷ 2 ∷ 2
      ∷ []
unfolding ip_packet ip_header htonb flip_byte htons flip_short words_of ip_checksum sum_words
    complement16 ntohs
sent_header = refl
