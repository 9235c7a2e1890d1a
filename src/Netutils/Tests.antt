-- ===== src/Netutils/Tests.antt =====
-- The theorems about src/network/netutils.c and src/network/ipv4.c on some packets.
use sector_os_re.Netutils.{get_mac}
use sector_os_re.Base.{refl, [], ◌∷◌, ℕ, ◌≡◌, arith, List}
use sector_os_re.Netutils.Checksum.{AllShort}

-- The ten words of a header, as a little-endian machine reads them.
abbrev header_words : List ℕ
header_words =
    0x0045 ∷ 0x5400 ∷ 0x0000 ∷ 0x0040 ∷ 0x0140 ∷ 0x0000 ∷ 0xa8c0 ∷ 0x0101 ∷ 0xa8c0 ∷ 0x0201 ∷ []

header_words-AllShort : AllShort header_words
header_words-AllShort = (
  omega arith,
  (
    omega arith,
    (
      omega arith,
      (
        omega arith,
        (
          omega arith,
          (omega arith, (omega arith, (omega arith, (omega arith, (omega arith, tt))))),
        ),
      ),
    ),
  ),
)

own_mac : get_mac 0x1234_5678_9abc ≡ 0xbc ∷ 0x9a ∷ 0x78 ∷ 0x56 ∷ 0x34 ∷ 0x12 ∷ []
unfolding get_mac
own_mac = refl
