-- ===== src/Dhcp/Tests.antt =====
-- src/network/dhcp.c: a client that gets 10.0.2.15.
use sector_os_re.Base.{
  some, arith, false, none, ◌==◌, [], refl, if◌then◌else◌, ◌∷◌, ◌≡◌, true, List, ℕ,
}
use sector_os_re.Bytes.Fields.{bytes_from}
use sector_os_re.Dhcp.{
  reads_past, dhcp_discover, bytes_from, options_from, option_found, get_dhcp_options, handle_type,
  handled, init_dhcp, DhcpPacket, put_list, handle_option, is_ip_ready, set_static_ip, gethostaddr,
  Sent, dhcp_handle_packet, Dhcp, set_host_name,
}
use sector_os_re.Dhcp.Handshake.{dhcp_handle_packet_past, handshake, IsReply}

abbrev client : Dhcp
client = record {
  ip_addr = 0 ∷ 0 ∷ 0 ∷ 0 ∷ [];
  is_ip_allocated = false;
  hostname = λ _. 0;
  hostname_size = 13;
  is_static = false;
}

abbrev own_mac : List ℕ
own_mac = 2 ∷ 0 ∷ 0 ∷ 0 ∷ 0 ∷ 1 ∷ []

abbrev offered_ip : List ℕ
offered_ip = 10 ∷ 0 ∷ 2 ∷ 15 ∷ []

-- A reply of the server with one option.
abbrev reply : ℕ → ℕ → DhcpPacket
reply option_type msg_type = record {
  op = 2;
  hardware_type = 1;
  hardware_addr_len = 6;
  hops = 0;
  xid = 0x5555_5555;
  flags = 0;
  your_ip = offered_ip;
  client_hardware_addr = own_mac;
  options =
      λ i. if i == 4 then option_type else if i == 5 then 1 else if i == 6 then msg_type else 0xff;
}

is_reply : (msg_type : ℕ) → IsReply (reply 53 msg_type) msg_type
is_reply msg_type = record { is_reply = refl; first_option = refl; one_byte = refl; is_type = refl }

handshake_example :
    (sent : Sent) × (dhcp_handle_packet 1 own_mac client (reply 53 2)
      ≡ handled client (sent ∷ []) none)
    × (get_dhcp_options 1 sent.packet 53 ≡ option_found (3 ∷ []))
    × (bytes_from 6 sent.packet.options 16 ≡ 50 ∷ 4 ∷ offered_ip)
    × (dhcp_handle_packet 1 own_mac client (reply 53 5)
        ≡ handled
            (record client { ip_addr = offered_ip; is_ip_allocated = true })
            []
            (some offered_ip))
handshake_example =
    handshake 0 2 0 0 0 0 1 10 0 2 15 client (reply 53 2) (reply 53 5) refl (is_reply 2)
      (is_reply 5) refl refl

dhcp_handle_packet_past_example : dhcp_handle_packet 31 own_mac client (reply 54 2) ≡ reads_past
dhcp_handle_packet_past_example =
    dhcp_handle_packet_past 31 own_mac client (reply 54 2) refl (omega arith) (omega arith)
      (omega arith)

-- A refusal starts over.
refused :
    dhcp_handle_packet 1 own_mac client (reply 53 6)
    ≡ handled client (dhcp_discover own_mac client ∷ []) none
unfolding dhcp_handle_packet handle_option handle_type get_dhcp_options options_from bytes_from
refused = refl

-- The address is known once it is acknowledged.
known :
    gethostaddr (record client { ip_addr = offered_ip; is_ip_allocated = true }) ≡ (1, offered_ip)
unfolding gethostaddr
known = refl

not_ready : is_ip_ready (init_dhcp client) ≡ 0
unfolding is_ip_ready init_dhcp
not_ready = refl

static_asks : (set_static_ip own_mac client offered_ip).0.is_static ≡ true
unfolding set_static_ip
static_asks = refl

named : (set_host_name client (b'o' ∷ b's' ∷ [])).hostname 1 ≡ b's'
unfolding set_host_name put_list
named = refl
