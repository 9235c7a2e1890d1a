-- ===== src/Icmp.antt =====
-- src/network/icmp.c: which echo requests are answered. `is_replied` counts the requests that are
-- still to be passed over. Of a packet the model keeps the header, but for the checksum.
use sector_os_re.Base.{
  ◌≢◌, suc, refl, arith, ◌-◌, ◌==◌, [], if◌then◌else◌, ◌≡◌, ◌≤◌, some, none, length, ◌∷◌, Option,
  List, ℕ,
}

pub record IcmpPacket : Type 0 where
  pub type : ℕ
  pub code : ℕ
  pub id : ℕ
  pub seq : ℕ

abbrev pub echo_reply : ℕ
echo_reply = 0

abbrev pub echo_request : ℕ
echo_request = 8

-- request_echo_reply: the packet that is sent.
unfoldable pub request_echo_reply : IcmpPacket
request_echo_reply = record { type = echo_request; code = 0; id = 8913; seq = 5454 }

pub icmp_echo_reply : ℕ → ℕ → IcmpPacket
icmp_echo_reply echo_id echo_seq = record {
  type = echo_reply;
  code = 0;
  id = echo_id;
  seq = echo_seq;
}

-- icmp_handle_packet: the next `is_replied`, and the packet that is sent. Other types are printed.
pub icmp_handle_packet : ℕ → IcmpPacket → ℕ × Option IcmpPacket
icmp_handle_packet is_replied packet =
    if packet.type == echo_request
    then (if is_replied == 0
        then (100, some (icmp_echo_reply packet.id packet.seq))
        else (is_replied - 1, none))
    else (is_replied, none)

-- `is_replied` after a run of packets, and the answers.
pub answers : ℕ → List IcmpPacket → ℕ × List IcmpPacket
answers is_replied [] = (is_replied, [])
answers is_replied (packet ∷ packets) =
    let (next, sent) = icmp_handle_packet is_replied packet in
    let (end, rest) = answers next packets in
    (end, elim sent [ none ↦ rest | some reply ↦ reply ∷ rest ])

-- Every packet of the list is an echo request.
abbrev pub AllRequests : List IcmpPacket → Type 0
AllRequests [] = Unit
AllRequests (p ∷ ps) = (p.type ≡ 8) × AllRequests ps

icmp_handle_packet-request :
    (is_replied : ℕ) (p : IcmpPacket)
    → p.type ≡ 8
    → (is_replied ≢ 0 → icmp_handle_packet is_replied p ≡ (is_replied - 1, none))
      × (icmp_handle_packet 0 p
          ≡ (100, some (record { type = 0; code = 0; id = p.id; seq = p.seq })))
unfolding icmp_handle_packet icmp_echo_reply
icmp_handle_packet-request is_replied p e = (λ ne. ground arith, rw e refl)

answers-passed :
    (packets : List IcmpPacket) (is_replied : ℕ)
    → AllRequests packets
    → length packets ≤ is_replied
    → answers is_replied packets ≡ (is_replied - length packets, [])
unfolding answers
answers-passed [] is_replied h le = ground arith
answers-passed (p ∷ ps) is_replied (e, h) le =
    let rest = answers-passed ps (is_replied - 1) h (omega arith) in
    let passed = (icmp_handle_packet-request is_replied p e).0 (omega arith) in
    let left : is_replied - 1 - length ps ≡ is_replied - suc (length ps) = omega arith in
    rw (passed, passed, rest, left) refl

-- Of a run of up to 101 echo requests, to a kernel that is ready to answer, the first is answered
-- with its id and sequence number and the others are not.
pub answers-first :
    (p : IcmpPacket) (ps : List IcmpPacket)
    → AllRequests (p ∷ ps)
    → length ps ≤ 100
    → answers 0 (p ∷ ps)
      ≡ (100 - length ps, record { type = 0; code = 0; id = p.id; seq = p.seq } ∷ [])
unfolding answers
answers-first p ps (e, h) le =
    let first = (icmp_handle_packet-request 0 p e).1 in
    rw (first, first, answers-passed ps 100 h le) refl
