-- ===== src/Math.antt =====
-- src/common/math.c: the pseudo-random numbers and the bit fields.
pub mod Laws
mod Tests
use Prim.Native.Nat.{bit_xor, bit_and, ℕ}
use sector_os_re.Base.{
  some, none, ◌==◌, if◌then◌else◌, ◌%◌, ◌-◌, sub32, ◌^◌, ◌/◌, ◌+◌, add32, bit_xor, Option, ◌*◌,
  bit_and, ℕ,
}

-- `cseed`, three 16-bit numbers
pub record Seed : Type 0 where
  pub x : ℕ
  pub y : ℕ
  pub z : ℕ

-- `x * 0x5DEECE66D + 0xB`: the constant makes the product 64 bits wide, and the result is cut to 32.
unfoldable pub advance : ℕ → ℕ
advance x = (x * 0x5deece66d + 0xb) % 2 ^ 32

unfoldable pub rand : Seed → ℕ × Seed
rand s = (
  bit_xor (bit_xor (advance s.x) (advance s.y)) (advance s.z),
  record { x = advance s.x % 2 ^ 16; y = advance s.y % 2 ^ 16; z = advance s.z % 2 ^ 16 },
)

pub get_bit : ℕ → ℕ → ℕ
get_bit b num = bit_and (b / 2 ^ num) 1

-- `none` is the division by 0 where `max - min + 1` wraps round to it.
pub rand_range : Seed → ℕ → ℕ → Option (ℕ × Seed)
rand_range s min max =
    let (r, s') = rand s in
    let span = add32 (sub32 max min) 1 in
    if span == 0 then none else some (add32 (r % span) min, s')

-- `start_bit` and `x` add up to at most 32, so the mask is not cut.
pub get_bits : ℕ → ℕ → ℕ → ℕ
get_bits value start_bit x = bit_and value ((2 ^ x - 1) * 2 ^ start_bit)
