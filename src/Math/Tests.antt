-- ===== src/Math/Tests.antt =====
-- The theorems about src/common/math.c at concrete numbers.
use sector_os_re.Math.{get_bits, get_bit, Seed}
use sector_os_re.Base.{refl, ◌≡◌}

abbrev seed : Seed
seed = record { x = 1; y = 2; z = 3 }

third_bit : get_bit 12 3 ≡ 1
unfolding get_bit
third_bit = refl

middle_bits : get_bits 0xabcd 4 8 ≡ 0xbc0
unfolding get_bits
middle_bits = refl
