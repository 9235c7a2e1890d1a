-- ===== src/Udp.antt =====
-- src/network/udp.c: the table of sockets, and where packets go. A callback is a number that names
-- it. Only what the code reads of a packet is kept; `ipv4.c` carries it.
pub mod Laws
mod Tests
use sector_os_re.Netutils.{htons, ntohs}
use sector_os_re.Base.{
  zero, ◌^◌, suc, some, update, none, ◌%◌, ◌+◌, ◌==◌, Option, ltb, ℕ, if◌then◌else◌,
}

-- `udp_socket_t`
pub record Socket : Type 0 where
  pub port : ℕ
  pub callback : ℕ

-- `sockets` and `usedSockets`
pub record UdpTable : Type 0 where
  pub sockets : ℕ → Socket
  pub used : ℕ

-- `udp_packet_t`, in the order of the network
pub record UdpPacket : Type 0 where
  pub src_port : ℕ
  pub dst_port : ℕ
  pub length : ℕ
  pub checksum : ℕ

abbrev pub max_sockets : ℕ
max_sockets = 16

-- `sizeof(udp_packet_t)`
abbrev pub udp_header : ℕ
udp_header = 8

-- The loop of get_socket_by_port, with the rounds left and `i`. A socket is its index.
pub socket_from : ℕ → (ℕ → Socket) → ℕ → ℕ → Option ℕ
socket_from zero sockets port i = none
socket_from (suc left) sockets port i =
    let rest = socket_from left sockets port (i + 1) in
    if (sockets i).port == port then some i else rest

pub get_socket_by_port : UdpTable → ℕ → Option ℕ
get_socket_by_port t port = socket_from t.used t.sockets port 0

-- The loop of register_udp_callback looks for the port 0 in all sockets.
pub register_udp_callback : UdpTable → ℕ → ℕ → UdpTable
register_udp_callback t callback port = elim (get_socket_by_port t port) [
  | some i ↦
      let socket = record (t.sockets i) { callback = callback } in
      record t { sockets = update t.sockets i socket }
  | none ↦ elim (socket_from max_sockets t.sockets 0 0) [
    | none ↦ t
    | some i ↦
        let socket : Socket = record { port = port; callback = callback } in
        record { sockets = update t.sockets i socket; used = t.used + 1 }
  ]
]

-- The header that is sent, and the size of the packet. The data follow unchanged.
pub udp_send_packet : ℕ → ℕ → ℕ → UdpPacket × ℕ
udp_send_packet src_port dst_port len =
    let size = udp_header + len in
    (
      record {
        src_port = htons src_port;
        dst_port = htons dst_port;
        length = htons (size % 2 ^ 16);
        checksum = 0;
      },
      size,
    )

-- Where a packet goes: to the DHCP client, nowhere, or to a callback with the length that it is
-- told.
pub data Delivery : Type 0 where
  to_dhcp : Delivery
  dropped : Delivery
  delivered : ℕ → ℕ → Delivery

pub udp_handle_packet : UdpTable → UdpPacket → Delivery
udp_handle_packet t packet =
    let dst_port = ntohs packet.dst_port in
    let data_len = ntohs packet.length in
    if dst_port == 68 then to_dhcp else elim (get_socket_by_port t dst_port) [
      | none ↦ dropped
      | some i ↦ delivered (t.sockets i).callback data_len
    ]

-- `usedSockets` keeps its value.
pub init_udp : UdpTable → UdpTable
init_udp t = record t {
  sockets = λ i. if ltb i max_sockets then record (t.sockets i) { port = 0 } else t.sockets i;
}
