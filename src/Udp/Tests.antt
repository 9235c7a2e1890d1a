-- ===== src/Udp/Tests.antt =====
-- The theorems about src/network/udp.c on a table with one socket.
use sector_os_re.Udp.{socket_from, get_socket_by_port, update, init_udp, UdpTable}
use sector_os_re.Base.{arith, refl, some, none, ◌≡◌, update}
use sector_os_re.Udp.Laws.{IsValid}

abbrev one : UdpTable
one = record {
  sockets = update (λ _. record { port = 0; callback = 0 }) 0 (record { port = 53; callback = 9 });
  used = 1;
}

one-IsValid : IsValid one
one-IsValid = record {
  used_in = omega arith;
  in_use = λ i lt. ground arith;
  unused = λ i lo hi. ground arith;
}

new_port : get_socket_by_port one 123 ≡ none
unfolding get_socket_by_port socket_from
new_port = refl

old_port : get_socket_by_port one 53 ≡ some 0
unfolding get_socket_by_port socket_from
old_port = refl

cleared : ((init_udp one).sockets 0).port ≡ 0
unfolding init_udp
cleared = refl
