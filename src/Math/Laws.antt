-- ===== src/Math/Laws.antt =====
-- The ranges of random numbers and the fields of bits in src/common/math.c.
use native.Mathlib.Nat.{mod-lt}
use sector_os_re.Math.{rand, ℕ, Seed, rand_range, get_bit, get_bits}
use sector_os_re.Base.{
  false, ◌≢◌, inr, inl, ◌==◌, Bool-cases, arith, ◌+◌, sub32, add32, some, sym, ◌∙◌, ◌⊎◌,
  bit_and-mask, bit_and-shift, none, ap, ◌%◌, ◌-◌, ◌^◌, ◌/◌, ◌<◌, ◌≤◌, ◌≡◌, ◌*◌, ℕ,
}

-- rand_range answers a number from `min` to `max`, unless that is the whole range of 32 bits: then
-- it divides by 0.
pub rand_range_bounds :
    (s : Seed) (min max : ℕ)
    → min ≤ max
    → max < 2 ^ 32
    → ((max - min ≡ 0xffff_ffff) × (rand_range s min max ≡ none))
      ⊎ ((r : ℕ) × (s' : Seed) × (rand_range s min max ≡ some (r, s')) × (min ≤ r) × (r ≤ max))
unfolding rand_range
rand_range_bounds s min max le lt =
    let r = (rand s).0 in
    let span : add32 (sub32 max min) 1 ≡ (max - min + 1) % 2 ^ 32 = omega arith in
    elim (Bool-cases (max - min == 0xffff_ffff)) [
      | inl whole ↦ let e : max - min ≡ 0xffff_ffff = ground arith in inl (e, rw (span, e))
      | inr part ↦
          let ne : max - min ≢ 0xffff_ffff = ground arith in
          let n : (max - min + 1) % 2 ^ 32 ≡ max - min + 1 = omega arith in
          let positive : (max - min + 1 == 0) ≡ false = ground arith in
          let low : r % (max - min + 1) < max - min + 1 = mod-lt r (omega arith) in
          let sum : add32 (r % (max - min + 1)) min ≡ r % (max - min + 1) + min = omega arith in
          inr (
            r % (max - min + 1) + min,
            (rand s).1,
            rw (span, n, positive, sum),
            omega arith,
            omega arith,
          )
    ]

-- get_bits answers the field of `x` bits from `start_bit` on in its place, not shifted down: it is
-- the field times `2 ^ start_bit`.
pub get_bits_in_place :
    (value start_bit x : ℕ)
    → get_bits value start_bit x ≡ value / 2 ^ start_bit % 2 ^ x * 2 ^ start_bit
unfolding get_bits
get_bits_in_place value start_bit x =
    bit_and-shift start_bit value (2 ^ x - 1)
    ∙ ap (λ n. n * 2 ^ start_bit) (bit_and-mask x (value / 2 ^ start_bit))

-- get_bit answers one bit, shifted down.
pub get_bit-get_bits : (b num : ℕ) → get_bit b num * 2 ^ num ≡ get_bits b num 1
unfolding get_bit
get_bit-get_bits b num =
    ap (λ n. n * 2 ^ num) (bit_and-mask 1 (b / 2 ^ num)) ∙ sym (get_bits_in_place b num 1)
