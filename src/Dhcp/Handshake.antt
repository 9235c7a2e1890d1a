-- ===== src/Dhcp/Handshake.antt =====
-- What the client of src/network/dhcp.c does with offers, answers and other packets.
use sector_os_re.Base.{
  leb, Bool-cases, ◌⊎◌, inr, inl, ◌*◌, ◌≤◌, update_ne, ◌++◌, update, ap, ◌<◌, ◌∙◌, some, none, zero,
  ◌+◌, refl, arith, true, false, [], ◌==◌, ◌∷◌, suc, ◌≢◌, ◌≡◌, Memory, List, ℕ,
}
use sector_os_re.Bytes.Fields.{bytes_from}
use sector_os_re.Dhcp.{
  past_options, reads_past, options_size, option_bytes, send_dhcp, put_list, make_dhcp_packet,
  dhcp_request, option_found, handled, Sent, Dhcp, get_dhcp_options, handle_option, ℕ, DhcpPacket,
  handle_type, dhcp_handle_packet, options_from,
}

-- A reply of the server whose first option is the type of the message.
pub record IsReply (packet : DhcpPacket) (msg_type : ℕ) : Type 0 where
  pub is_reply : packet.op ≡ 2
  pub first_option : packet.options 4 ≡ 53
  pub one_byte : packet.options 5 ≡ 1
  pub is_type : packet.options 6 ≡ msg_type

put_list_before :
    (bytes : List ℕ) (buffer : Memory) (at i : ℕ) → i < at → put_list buffer at bytes i ≡ buffer i
unfolding put_list
put_list_before [] buffer at i lt = refl
put_list_before (b ∷ bytes) buffer at i lt =
    put_list_before bytes (update buffer at b) (at + 1) i (omega (arith, lt))
    ∙ update_ne buffer at b i (omega (arith, lt))

first_option_found :
    (rounds : ℕ) (packet : DhcpPacket)
    → packet.options 4 ≡ 53
    → packet.options 5 ≡ 1
    → get_dhcp_options (suc rounds) packet 53 ≡ option_found (packet.options 6 ∷ [])
unfolding get_dhcp_options options_from bytes_from
first_option_found rounds packet first one =
    let not_end : (packet.options 4 == 0xff) ≡ false = ground (arith, first) in
    let found : (packet.options 4 == 53) ≡ true = ground (arith, first) in
    rw (not_end, found, one) refl

reply_handled :
    (rounds : ℕ) (mac : List ℕ) (d : Dhcp) (packet : DhcpPacket) (msg_type : ℕ)
    → IsReply packet msg_type
    → dhcp_handle_packet (suc rounds) mac d packet ≡ handle_type mac d packet msg_type
unfolding dhcp_handle_packet handle_option
reply_handled rounds mac d packet msg_type reply =
    let op : (packet.op == 2) ≡ true = ground (arith, reply.is_reply) in
    let found = first_option_found rounds packet reply.first_option reply.one_byte in
    rw (op, found, reply.is_type) refl

module _ (m0 m1 m2 m3 m4 m5 a0 a1 a2 a3 : ℕ) (d : Dhcp) where
  abbrev request_packet : DhcpPacket
  request_packet = make_dhcp_packet (m0 ∷ m1 ∷ m2 ∷ m3 ∷ m4 ∷ m5 ∷ []) d 3 (a0 ∷ a1 ∷ a2 ∷ a3 ∷ [])

  -- The options up to the host name.
  abbrev first_bytes : List ℕ
  first_bytes =
      0x63 ∷ 0x82 ∷ 0x53 ∷ 0x63 ∷ 53 ∷ 1 ∷ 3 ∷ 61 ∷ 7 ∷ 1 ∷ m0 ∷ m1 ∷ m2 ∷ m3 ∷ m4 ∷ m5 ∷ 50 ∷ 4
      ∷ a0 ∷ a1 ∷ a2 ∷ a3 ∷ []

  request_byte : (i : ℕ) → i < 22 → request_packet.options i ≡ put_list (λ _. 0) 0 first_bytes i
  unfolding make_dhcp_packet option_bytes put_list
  request_byte i lt =
      put_list_before
        (12 ∷ d.hostname_size ∷ bytes_from d.hostname_size d.hostname 0
          ++ (0x00 ∷ 55 ∷ 8 ∷ 0x1 ∷ 0x3 ∷ 0x6 ∷ 0xf ∷ 0x2c ∷ 0x2e ∷ 0x2f ∷ 0x39 ∷ 0xff ∷ []))
        (put_list (λ _. 0) 0 first_bytes) 22 i lt

  request_type : get_dhcp_options 1 request_packet 53 ≡ option_found (3 ∷ [])
  unfolding put_list
  request_type =
      first_option_found 0 request_packet (request_byte 4 (omega arith))
        (request_byte 5 (omega arith))
      ∙ ap (λ t. option_found (t ∷ [])) (request_byte 6 (omega arith))

  request_address : bytes_from 6 request_packet.options 16 ≡ 50 ∷ 4 ∷ a0 ∷ a1 ∷ a2 ∷ a3 ∷ []
  unfolding bytes_from put_list
  request_address =
      let o16 = request_byte 16 (omega arith) in
      let o17 = request_byte 17 (omega arith) in
      let o18 = request_byte 18 (omega arith) in
      let o19 = request_byte 19 (omega arith) in
      let o20 = request_byte 20 (omega arith) in
      let o21 = request_byte 21 (omega arith) in rw (o16, o17, o18, o19, o20, o21) refl

-- A client without a static address that is offered an address asks for it, in option 50 of a packet
-- whose own type can be looked up, and takes it once it is acknowledged: then it is the address of
-- the client and of the interface.
pub handshake :
    (rounds m0 m1 m2 m3 m4 m5 a0 a1 a2 a3 : ℕ) (d : Dhcp) (offer ack : DhcpPacket)
    → let mac = m0 ∷ m1 ∷ m2 ∷ m3 ∷ m4 ∷ m5 ∷ [] in
      let address = a0 ∷ a1 ∷ a2 ∷ a3 ∷ [] in
      d.is_static ≡ false
      → IsReply offer 2
      → IsReply ack 5
      → offer.your_ip ≡ address
      → ack.your_ip ≡ address
      → (sent : Sent) × (dhcp_handle_packet (suc rounds) mac d offer ≡ handled d (sent ∷ []) none)
        × (get_dhcp_options 1 sent.packet 53 ≡ option_found (3 ∷ []))
        × (bytes_from 6 sent.packet.options 16 ≡ 50 ∷ 4 ∷ address)
        × (dhcp_handle_packet (suc rounds) mac d ack
            ≡ handled (record d { ip_addr = address; is_ip_allocated = true }) [] (some address))
unfolding handle_type dhcp_request send_dhcp
handshake rounds m0 m1 m2 m3 m4 m5 a0 a1 a2 a3 d offer ack dynamic is_offer is_ack offered acked =
    let mac = m0 ∷ m1 ∷ m2 ∷ m3 ∷ m4 ∷ m5 ∷ [] in
    let address = a0 ∷ a1 ∷ a2 ∷ a3 ∷ [] in
    (
      dhcp_request mac d address,
      reply_handled rounds mac d offer 2 is_offer ∙ rw (dynamic, offered) refl,
      request_type m0 m1 m2 m3 m4 m5 a0 a1 a2 a3 d,
      request_address m0 m1 m2 m3 m4 m5 a0 a1 a2 a3 d,
      reply_handled rounds mac d ack 5 is_ack ∙ rw acked refl,
    )

options_past :
    (rounds : ℕ) (options : Memory) (curr_type wanted at : ℕ)
    → curr_type ≢ 0xff
    → curr_type ≢ wanted
    → options_size < at + 2 * rounds
    → options_from rounds options curr_type wanted at ≡ past_options ⊎ (rounds ≡ 0)
unfolding options_from
options_past zero options curr_type wanted at more other enough = inr refl
options_past (suc rounds) options curr_type wanted at more other enough =
    let goes_on : (curr_type == 0xff) ≡ false = ground (arith, more) in
    let differs : (curr_type == wanted) ≡ false = ground (arith, other) in
    inl (elim (Bool-cases (leb options_size (at + 1))) [
      | inl past ↦ rw (goes_on, past) refl
      | inr inside ↦
          rw (goes_on, inside, differs)
            (elim (options_past rounds options curr_type wanted (at + (2 + options (at + 1))) more
              other (omega (arith, enough))) [
                | inl past ↦ past
                | inr none_left ↦ absurd (ground (arith, inside, enough, none_left))
              ])
    ])

-- A reply whose first option is neither the type of the message nor the end makes the client read
-- behind the 64 bytes of the options, after 31 rounds of its loop at most, whatever options follow: it
-- never looks at the type of a second option.
pub dhcp_handle_packet_past :
    (rounds : ℕ) (mac : List ℕ) (d : Dhcp) (packet : DhcpPacket)
    → packet.op ≡ 2
    → packet.options 4 ≢ 0xff
    → packet.options 4 ≢ 53
    → 31 ≤ rounds
    → dhcp_handle_packet rounds mac d packet ≡ reads_past
unfolding dhcp_handle_packet get_dhcp_options handle_option
dhcp_handle_packet_past rounds mac d packet reply more other enough =
    let op : (packet.op == 2) ≡ true = ground (arith, reply) in
    elim (options_past rounds packet.options (packet.options 4) 53 4 more other (omega arith)) [
      | inl past ↦ rw (op, past) refl
      | inr none_left ↦ absurd (omega (arith, none_left))
    ]
