-- ===== src/Netutils/Laws.antt =====
-- Byte order and addresses of src/network/netutils.c: what each conversion answers, and that
-- converting back gives the number again.
use sector_os_re.Netutils.{
  flip_byte, ntohs, ntohl, htonb, htonl, set_ip, ntohb, htons, iptoa, flip_long, flip_short,
}
use sector_os_re.Base.{
  ◌-◌, inr, ap, inl, ltb, Bool-cases, bit_or-shift, ◌∙◌, refl, ◌/◌, ==_iff, arith, true, ◌==◌, ◌+◌,
  [], ◌%◌, ◌∷◌, ◌^◌, all_below_sound, ◌*◌, bit_or, ◌≤◌, ◌≡◌, ◌<◌, ℕ, all_below,
}

-- The two bytes of a short number change places, so htons undoes itself.
pub flip_short_lem :
    (x : ℕ) → x < 2 ^ 16 → (flip_short x ≡ x % 256 * 256 + x / 256) × (ntohs (htons x) ≡ x)
unfolding flip_short htons ntohs
flip_short_lem x h = (swapped x h, rw (swapped x h) (swapped _ (omega arith) ∙ omega arith))
  where
    swapped : (y : ℕ) → y < 2 ^ 16 → bit_or (y % 256 * 2 ^ 8) (y / 256) ≡ y % 256 * 256 + y / 256
    swapped y hy = bit_or-shift 8 (y % 256) (y / 256) (omega arith)

-- Four bytes, the first one highest.
pub join_bytes :
    (a b c d : ℕ)
    → b < 256
    → c < 256
    → d < 256
    → bit_or (bit_or (bit_or (a * 2 ^ 24) (b * 2 ^ 16)) (c * 2 ^ 8)) d
      ≡ a * 2 ^ 24 + b * 2 ^ 16 + c * 2 ^ 8 + d
join_bytes a b c d hb hc hd =
    let two : a * 2 ^ 24 + b * 2 ^ 16 ≡ (a * 256 + b) * 2 ^ 16 = omega arith in
    let three : (a * 256 + b) * 2 ^ 16 + c * 2 ^ 8 ≡ (a * 65536 + b * 256 + c) * 2 ^ 8 =
      omega arith in
    rw
      (
        bit_or-shift 24 a (b * 2 ^ 16) (omega arith),
        two,
        bit_or-shift 16 (a * 256 + b) (c * 2 ^ 8) (omega arith),
        three,
        bit_or-shift 8 (a * 65536 + b * 256 + c) d (omega arith),
      )
      (omega arith)

-- The four bytes of a long number are turned round, so htonl undoes itself.
pub flip_long_lem :
    (x : ℕ)
    → x < 2 ^ 32
    → (flip_long x
        ≡ x % 256 * 2 ^ 24 + x / 2 ^ 8 % 256 * 2 ^ 16 + x / 2 ^ 16 % 256 * 2 ^ 8 + x / 2 ^ 24)
      × (ntohl (htonl x) ≡ x)
unfolding flip_long htonl ntohl
flip_long_lem x h = (turned x h, rw (turned x h) (turned _ (omega arith) ∙ omega arith))
  where
    turned :
        (y : ℕ)
        → y < 2 ^ 32
        → bit_or
            (bit_or
              (bit_or (y % 256 * 2 ^ 24) (y / 2 ^ 8 % 256 * 2 ^ 16))
              (y / 2 ^ 16 % 256 * 2 ^ 8))
            (y / 2 ^ 24 % 256)
          ≡ y % 256 * 2 ^ 24 + y / 2 ^ 8 % 256 * 2 ^ 16 + y / 2 ^ 16 % 256 * 2 ^ 8 + y / 2 ^ 24
    turned y hy =
        join_bytes (y % 256) (y / 2 ^ 8 % 256) (y / 2 ^ 16 % 256) (y / 2 ^ 24 % 256) (omega arith)
          (omega arith) (omega arith)
        ∙ omega arith

rotate_table : all_below 256 (λ byte. all_below 9 (λ n. ntohb (htonb byte n) n == byte)) ≡ true
unfolding all_below ntohb htonb flip_byte
rotate_table = refl

-- htonb turns a byte round by a number of bits, and ntohb turns it back.
pub ntohb-htonb :
    (byte num_bits : ℕ) → byte < 256 → num_bits ≤ 8 → ntohb (htonb byte num_bits) num_bits ≡ byte
ntohb-htonb byte num_bits hb hn =
    let row =
      all_below_sound 256 (λ b. all_below 9 (λ n. ntohb (htonb b n) n == b)) byte rotate_table hb in
    (==_iff _ byte).0
      (all_below_sound 9 (λ n. ntohb (htonb byte n) n == byte) num_bits row (omega arith))

-- What iptoa reads of four bytes, whatever stands above them.
iptoa_bytes :
    (a b c d high : ℕ)
    → a < 256
    → b < 256
    → c < 256
    → d < 256
    → iptoa (a * 2 ^ 24 + b * 2 ^ 16 + c * 2 ^ 8 + d + high * 2 ^ 32) ≡ a ∷ b ∷ c ∷ d ∷ []
unfolding iptoa
iptoa_bytes a b c d high ha hb hc hd = ground arith

-- The address that set_ip stores reads back as the same four bytes, also where the first is at
-- least 128 and the number that is stored has its upper 32 bits set.
pub iptoa-set_ip :
    (ip0 ip1 ip2 ip3 : ℕ)
    → ip0 < 256
    → ip1 < 256
    → ip2 < 256
    → ip3 < 256
    → iptoa (set_ip ip0 ip1 ip2 ip3) ≡ ip0 ∷ ip1 ∷ ip2 ∷ ip3 ∷ []
unfolding set_ip
iptoa-set_ip ip0 ip1 ip2 ip3 h0 h1 h2 h3 =
    let word = ip0 * 2 ^ 24 + ip1 * 2 ^ 16 + ip2 * 2 ^ 8 + ip3 in
    rw (join_bytes ip0 ip1 ip2 ip3 h1 h2 h3) (elim (Bool-cases (ltb word (2 ^ 31))) [
      | inl low ↦
          let plain : word ≡ word + 0 * 2 ^ 32 = omega arith in
          rw low (ap iptoa plain ∙ iptoa_bytes ip0 ip1 ip2 ip3 0 h0 h1 h2 h3)
      | inr high ↦ rw high (iptoa_bytes ip0 ip1 ip2 ip3 (2 ^ 32 - 1) h0 h1 h2 h3)
    ])
