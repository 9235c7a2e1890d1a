-- ===== src/Dhcp.antt =====
-- src/network/dhcp.c: the DHCP client. A packet is its fields and the bytes of its options; an address
-- is its four bytes. What is sent by UDP, and what set_ip gets, are parts of the answer; the hardware
-- address of the interface is an argument.
pub mod Handshake
mod Tests
use sector_os_re.Base.{
  ltb, leb, some, zero, none, ◌==◌, ◌+◌, ◌++◌, [], Option, Bool, length, if◌then◌else◌, suc, update,
  true, Memory, ◌∷◌, false, List, ℕ,
}
use sector_os_re.Netutils.{htonl, htons}
use sector_os_re.Bytes.Fields.{bytes_from}

-- `dhcp_packet_t`, without the fields that are 0 in all packets of the client and not read in others.
pub record DhcpPacket : Type 0 where
  pub op : ℕ
  pub hardware_type : ℕ
  pub hardware_addr_len : ℕ
  pub hops : ℕ
  pub xid : ℕ
  pub flags : ℕ
  pub your_ip : List ℕ
  pub client_hardware_addr : List ℕ
  pub options : Memory

-- The globals. `hostname` is the array of 64 bytes.
pub record Dhcp : Type 0 where
  pub ip_addr : List ℕ
  pub is_ip_allocated : Bool
  pub hostname : Memory
  pub hostname_size : ℕ
  pub is_static : Bool

-- What udp_send_packet is called with.
pub record Sent : Type 0 where
  pub dst_ip : List ℕ
  pub src_port : ℕ
  pub dst_port : ℕ
  pub packet : DhcpPacket

pub gethostaddr : Dhcp → ℕ × List ℕ
gethostaddr d = (if d.is_ip_allocated then 1 else 0, d.ip_addr)

pub is_ip_ready : Dhcp → ℕ
is_ip_ready d = if d.is_ip_allocated then 1 else 0

-- The bytes of a list, put into a buffer from an index on.
pub put_list : Memory → ℕ → List ℕ → Memory
put_list buffer at [] = buffer
put_list buffer at (b ∷ bytes) = put_list (update buffer at b) (at + 1) bytes

-- `memcpy` of the text, without its 0.
pub set_host_name : Dhcp → List ℕ → Dhcp
set_host_name d name = record d {
  hostname = put_list d.hostname 0 name;
  hostname_size = length name;
}

-- The bytes that make_dhcp_packet puts into the options, one behind the other.
pub option_bytes : List ℕ → Dhcp → ℕ → List ℕ → List ℕ
option_bytes mac d msg_type request_ip =
    (0x63 ∷ 0x82 ∷ 0x53 ∷ 0x63 ∷ [])
    ++ (53 ∷ 1 ∷ msg_type ∷ [])
    ++ (61 ∷ 0x07 ∷ 0x01 ∷ mac)
    ++ (50 ∷ 0x04 ∷ request_ip)
    ++ (12 ∷ d.hostname_size ∷ bytes_from d.hostname_size d.hostname 0)
    ++ (0x00 ∷ 55 ∷ 8 ∷ 0x1 ∷ 0x3 ∷ 0x6 ∷ 0xf ∷ 0x2c ∷ 0x2e ∷ 0x2f ∷ 0x39 ∷ 0xff ∷ [])

-- On a packet of zeros.
pub make_dhcp_packet : List ℕ → Dhcp → ℕ → List ℕ → DhcpPacket
make_dhcp_packet mac d msg_type request_ip = record {
  op = 1;
  hardware_type = 1;
  hardware_addr_len = 6;
  hops = 0;
  xid = htonl 0x5555_5555;
  flags = htons 0x8000;
  your_ip = 0 ∷ 0 ∷ 0 ∷ 0 ∷ [];
  client_hardware_addr = mac;
  options = put_list (λ _. 0) 0 (option_bytes mac d msg_type request_ip);
}

pub send_dhcp : DhcpPacket → Sent
send_dhcp packet = record {
  dst_ip = 0xff ∷ 0xff ∷ 0xff ∷ 0xff ∷ [];
  src_port = 68;
  dst_port = 67;
  packet = packet;
}

unfoldable pub dhcp_discover : List ℕ → Dhcp → Sent
dhcp_discover mac d = send_dhcp (make_dhcp_packet mac d 1 (0 ∷ 0 ∷ 0 ∷ 0 ∷ []))

pub dhcp_request : List ℕ → Dhcp → List ℕ → Sent
dhcp_request mac d request_ip = send_dhcp (make_dhcp_packet mac d 3 request_ip)

pub set_static_ip : List ℕ → Dhcp → List ℕ → Dhcp × List Sent
set_static_ip mac d ip =
    let d' = record d { is_static = true } in
    (d', dhcp_discover mac d' ∷ dhcp_request mac d' ip ∷ [])

-- What get_dhcp_options comes to: the bytes of an option, no return value, a read behind the 64 bytes
-- of the options, or the end of the fuel.
pub data OptionBytes : Type 0 where
  option_found : List ℕ → OptionBytes
  no_value past_options looping : OptionBytes

-- `options[64]`
abbrev pub options_size : ℕ
options_size = 64

-- The `while` loop, on fuel. `curr_type` is read once, before the loop.
pub options_from : ℕ → Memory → ℕ → ℕ → ℕ → OptionBytes
options_from zero options curr_type wanted at = looping
options_from (suc rounds) options curr_type wanted at =
    let len = options (at + 1) in
    let rest = options_from rounds options curr_type wanted (at + (2 + len)) in
    if curr_type == 0xff
    then no_value
    else if leb options_size (at + 1)
    then past_options
    else if curr_type == wanted
    then (if ltb options_size (at + 2 + len)
        then past_options
        else option_found (bytes_from len options (at + 2)))
    else rest

pub get_dhcp_options : ℕ → DhcpPacket → ℕ → OptionBytes
get_dhcp_options rounds packet wanted =
    options_from rounds packet.options (packet.options 4) wanted 4

-- How a packet is handled: the client afterwards, what it sent, and the address that set_ip got. An
-- option without a byte, or no value at all, is read as a byte that nothing has set.
pub data Handled : Type 0 where
  handled : Dhcp → List Sent → Option (List ℕ) → Handled
  reads_unset reads_past handling_loops : Handled

-- What follows for the type of a message.
pub handle_type : List ℕ → Dhcp → DhcpPacket → ℕ → Handled
handle_type mac d packet msg_type =
    if msg_type == 2
    then (if d.is_static
        then handled d [] none
        else handled d (dhcp_request mac d packet.your_ip ∷ []) none)
    else if msg_type == 6
    then (let d' = record d { is_static = false } in handled d' (dhcp_discover mac d' ∷ []) none)
    else if msg_type == 5
    then handled (record d { ip_addr = packet.your_ip; is_ip_allocated = true }) []
        (some packet.your_ip)
    else handled d [] none

pub handle_option : List ℕ → Dhcp → DhcpPacket → OptionBytes → Handled
handle_option mac d packet no_value = reads_unset
handle_option mac d packet past_options = reads_past
handle_option mac d packet looping = handling_loops
handle_option mac d packet (option_found []) = reads_unset
handle_option mac d packet (option_found (msg_type ∷ bytes)) = handle_type mac d packet msg_type

pub dhcp_handle_packet : ℕ → List ℕ → Dhcp → DhcpPacket → Handled
dhcp_handle_packet rounds mac d packet =
    if packet.op == 2
    then handle_option mac d packet (get_dhcp_options rounds packet 53)
    else handled d [] none

-- init_dhcp copies from `hostname` to its text, so that the name stays as it is.
pub init_dhcp : Dhcp → Dhcp
init_dhcp d = record d { is_ip_allocated = false; hostname_size = 13 }
