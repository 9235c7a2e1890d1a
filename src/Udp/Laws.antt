-- ===== src/Udp/Laws.antt =====
-- The sockets of src/network/udp.c: which callback a packet reaches.
use sector_os_re.Udp.{
  ℕ, Socket, UdpTable, Delivery, max_sockets, socket_from, get_socket_by_port,
  register_udp_callback, udp_send_packet, udp_handle_packet,
}
use sector_os_re.Netutils.Laws.{flip_short_lem}
use sector_os_re.Base.{
  refl, zero, inr, inl, false, Bool-cases, ◌==◌, suc, update, ◌%◌, arith, some, ◌≢◌, none, ◌+◌, ◌^◌,
  ◌<◌, ◌≡◌, ℕ, ◌≤◌,
}

-- The sockets in use come first, and have a port.
pub record IsValid (t : UdpTable) : Type 0 where
  pub used_in : t.used ≤ max_sockets
  pub in_use : (i : ℕ) → i < t.used → (t.sockets i).port ≢ 0
  pub unused : (i : ℕ) → t.used ≤ i → i < max_sockets → (t.sockets i).port ≡ 0

-- The search answers the first socket with the port, from `i` on.
socket_from-first :
    (left : ℕ) (sockets : ℕ → Socket) (port i k : ℕ)
    → i ≤ k
    → k < i + left
    → (sockets k).port ≡ port
    → ((j : ℕ) → i ≤ j → j < k → (sockets j).port ≢ port)
    → socket_from left sockets port i ≡ some k
unfolding socket_from
socket_from-first zero sockets port i k lo hi here before = absurd (omega arith)
socket_from-first (suc left) sockets port i k lo hi here before = elim (Bool-cases (i == k)) [
  | inl at ↦ let e : i ≡ k = ground arith in rw e (ground arith)
  | inr ahead ↦
      let rest =
        socket_from-first left sockets port (i + 1) k (ground arith) (omega arith) here
          (λ j l h. before j (omega arith) h) in
      let other = before i (omega arith) (ground arith) in ground arith
]

socket_from-none :
    (left : ℕ) (sockets : ℕ → Socket) (port i : ℕ)
    → socket_from left sockets port i ≡ none
    → (j : ℕ) → i ≤ j
    → j < i + left
    → (sockets j).port ≢ port
unfolding socket_from
socket_from-none zero sockets port i e j lo hi = absurd (omega arith)
socket_from-none (suc left) sockets port i e j lo hi = elim (Bool-cases (j == i)) [
  | inl at ↦ let at_i : j ≡ i = ground arith in rw at_i (ground arith)
  | inr ahead ↦
      socket_from-none left sockets port (i + 1) (ground arith) j (ground arith) (omega arith)
]

register_udp_callback_eq :
    (t : UdpTable) (callback port k : ℕ)
    → get_socket_by_port t port ≡ none
    → socket_from max_sockets t.sockets 0 0 ≡ some k
    → register_udp_callback t callback port ≡ record {
      sockets = update t.sockets k (record { port = port; callback = callback });
      used = t.used + 1;
    }
unfolding register_udp_callback
register_udp_callback_eq t callback port k new fresh = rw (register_udp_callback, new, fresh)

-- A port that is new takes the first free socket, and get_socket_by_port finds it there; the
-- sockets stay in order.
pub register_udp_callback-new :
    (t : UdpTable) (callback port : ℕ)
    → IsValid t
    → t.used < max_sockets
    → port ≢ 0
    → get_socket_by_port t port ≡ none
    → let t' = register_udp_callback t callback port in
      IsValid t'
      × (get_socket_by_port t' port ≡ some t.used)
      × ((t'.sockets t.used).callback ≡ callback)
unfolding get_socket_by_port
register_udp_callback-new t callback port v room ne new =
    let fresh =
      socket_from-first max_sockets t.sockets 0 0 t.used (omega arith) (omega arith)
        (v.unused t.used (omega arith) room) (λ j lo hi. v.in_use j hi) in
    let others = socket_from-none t.used t.sockets port 0 new in
    let sockets' = update t.sockets t.used (record { port = port; callback = callback }) in
    rw (register_udp_callback_eq t callback port t.used new fresh) (
      record {
        used_in = omega arith;
        in_use = λ i lt. ground (arith, v.in_use i);
        unused = λ i lo hi. ground (arith, v.unused i);
      },
      socket_from-first (t.used + 1) sockets' port 0 t.used (omega arith) (omega arith)
          (ground arith) (λ j lo hi. ground (arith, others j)),
      ground arith,
    )

-- A packet that udp_send_packet makes reaches the callback of its destination port, other than 68,
-- but the callback is told eight bytes more than were sent: the header is counted.
pub udp_handle_packet-udp_send_packet :
    (t : UdpTable) (src_port dst_port len i : ℕ)
    → dst_port < 2 ^ 16
    → dst_port ≢ 68
    → len + 8 < 2 ^ 16
    → get_socket_by_port t dst_port ≡ some i
    → udp_handle_packet t (udp_send_packet src_port dst_port len).0
      ≡ Delivery.delivered (t.sockets i).callback (len + 8)
unfolding udp_handle_packet udp_send_packet
udp_handle_packet-udp_send_packet t src_port dst_port len i small ne short found =
    let port = (flip_short_lem dst_port small).1 in
    let total : (8 + len) % 2 ^ 16 ≡ len + 8 = omega arith in
    let size = (flip_short_lem (len + 8) short).1 in
    let other : (dst_port == 68) ≡ false = ground arith in rw (port, other, found, total, size) refl
