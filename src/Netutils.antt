-- ===== src/Netutils.antt =====
-- src/network/netutils.c: byte order, addresses and the checksum. A little-endian machine.
pub mod Laws
pub mod Checksum
mod Tests
use sector_os_re.Base.{
  ◌+◌, ltb, if◌then◌else◌, ◌*◌, ◌^◌, [], ◌∷◌, ◌/◌, bit_or, ◌%◌, ◌-◌, add32, ℕ, List,
}

unfoldable pub flip_short : ℕ → ℕ
flip_short short_int = bit_or (short_int % 256 * 2 ^ 8) (short_int / 256)

pub flip_long : ℕ → ℕ
flip_long long_int =
    let first_byte = long_int % 256 in
    let second_byte = long_int / 2 ^ 8 % 256 in
    let third_byte = long_int / 2 ^ 16 % 256 in
    let fourth_byte = long_int / 2 ^ 24 % 256 in
    bit_or (bit_or (bit_or (first_byte * 2 ^ 24) (second_byte * 2 ^ 16)) (third_byte * 2 ^ 8))
      fourth_byte

-- `num_bits` is from 0 to 8.
unfoldable pub flip_byte : ℕ → ℕ → ℕ
flip_byte byte num_bits = bit_or (byte * 2 ^ (8 - num_bits) % 256) (byte / 2 ^ num_bits)

unfoldable pub htonb : ℕ → ℕ → ℕ
htonb byte num_bits = flip_byte byte num_bits

unfoldable pub ntohb : ℕ → ℕ → ℕ
ntohb byte num_bits = flip_byte byte (8 - num_bits)

unfoldable pub htons : ℕ → ℕ
htons hostshort = flip_short hostshort

pub htonl : ℕ → ℕ
htonl hostlong = flip_long hostlong

unfoldable pub ntohs : ℕ → ℕ
ntohs netshort = flip_short netshort

pub ntohl : ℕ → ℕ
ntohl netlong = flip_long netlong

-- The six bytes of `mac`, for what `interface_getmac` answers.
pub get_mac : ℕ → List ℕ
get_mac mac_addr =
    mac_addr % 256
    ∷ mac_addr / 2 ^ 8 % 256
    ∷ mac_addr / 2 ^ 16 % 256
    ∷ mac_addr / 2 ^ 24 % 256
    ∷ mac_addr / 2 ^ 32 % 256
    ∷ mac_addr / 2 ^ 40 % 256
    ∷ []

-- The four bytes of `ip`. `get_ip`, and `get_ip2` for what `interface_getip` answers, do the same.
pub iptoa : ℕ → List ℕ
iptoa ipaddr =
    ipaddr / 2 ^ 24 % 256 ∷ ipaddr / 2 ^ 16 % 256 ∷ ipaddr / 2 ^ 8 % 256 ∷ ipaddr % 256 ∷ []

-- What set_ip hands to `interface_setip`: the shifted bytes are an `int`, which widens to 64 bits
-- with its sign.
pub set_ip : ℕ → ℕ → ℕ → ℕ → ℕ
set_ip ip0 ip1 ip2 ip3 =
    let word = bit_or (bit_or (bit_or (ip0 * 2 ^ 24) (ip1 * 2 ^ 16)) (ip2 * 2 ^ 8)) ip3 in
    if ltb word (2 ^ 31) then word else word + (2 ^ 64 - 2 ^ 32)

-- The loop of checksum, and of ip_checksum in src/network/ipv4.c, over the words of the buffer.
unfoldable pub sum_words : ℕ → List ℕ → ℕ
sum_words sum [] = sum
sum_words sum (w ∷ buffer) = sum_words (add32 sum (ntohs w)) buffer

-- `(uint16_t)~sum`
unfoldable pub complement16 : ℕ → ℕ
complement16 sum = 0xffff - sum % 2 ^ 16

pub checksum : List ℕ → ℕ
checksum buffer =
    let sum = sum_words 0 buffer in
    let once = add32 (sum / 2 ^ 16) (sum % 2 ^ 16) in complement16 (add32 once (once / 2 ^ 16))

-- `ip_checksum` of src/network/ipv4.c, over the ten words of the header
unfoldable pub ip_checksum : List ℕ → ℕ
ip_checksum packet =
    let sum = sum_words 0 packet in
    let carry = sum / 2 ^ 16 in complement16 (add32 (sum % 2 ^ 16) carry)
