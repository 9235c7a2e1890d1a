-- ===== src/Base/Bits.antt =====
-- The single bits of a number, and those of `a | b` and `a & b`.
use Prim.Native.Nat.{ℕ, zero, suc, ◌*◌, ◌-◌, ◌+◌, ◌/◌, ◌%◌, ◌^◌, ◌<◌, min, max, bit_and, bit_or}
use mathlib.Core.Path.{◌≡◌, sym, ap, ◌∙◌}
use native.Mathlib.Nat.{pow-succ', pow-suc, div-div-eq-div-mul}
use native.Mathlib.Omega.{arith}
use sector_os_re.Base.Tests.{◌==◌, if◌then◌else◌}
use sector_os_re.Base.BitLaws.{pow2-pos, mod-double, bit_and_step, bit_or_step, bit_and-mask}

unfoldable pub test_bit : ℕ → ℕ → ℕ
test_bit a k = a / 2 ^ k % 2

pub test_bit-zero : (a : ℕ) → test_bit a 0 ≡ a % 2
unfolding test_bit
test_bit-zero a = omega arith

pub test_bit-suc : (a k : ℕ) → test_bit a (suc k) ≡ test_bit (a / 2) k
unfolding test_bit
test_bit-suc a k =
    ap (λ t. t % 2) (ap (λ t. a / t) (pow-succ' 2 k) ∙ sym (div-div-eq-div-mul a 2 (2 ^ k)))

pub test_bit-lt : (a k : ℕ) → test_bit a k < 2
unfolding test_bit
test_bit-lt a k = omega arith

-- The test in the source, `(a >> k) & 1`.
pub test_bit-bit_and : (a k : ℕ) → bit_and (a / 2 ^ k) 1 ≡ test_bit a k
unfolding test_bit
test_bit-bit_and a k = bit_and-mask 1 (a / 2 ^ k)

pub test_bit-bit_or : (k a b : ℕ) → test_bit (bit_or a b) k ≡ max (test_bit a k) (test_bit b k)
test_bit-bit_or zero a b =
    omega (arith, bit_or_step a b, test_bit-zero (bit_or a b), test_bit-zero a, test_bit-zero b)
test_bit-bit_or (suc k) a b =
    let half : bit_or a b / 2 ≡ bit_or (a / 2) (b / 2) = omega (arith, bit_or_step a b) in
    rw (test_bit-suc (bit_or a b) k, test_bit-suc a k, test_bit-suc b k, half)
      (test_bit-bit_or k (a / 2) (b / 2))

pub test_bit-and : (k a b : ℕ) → test_bit (bit_and a b) k ≡ min (test_bit a k) (test_bit b k)
test_bit-and zero a b =
    omega (arith, bit_and_step a b, test_bit-zero (bit_and a b), test_bit-zero a, test_bit-zero b)
test_bit-and (suc k) a b =
    let half : bit_and a b / 2 ≡ bit_and (a / 2) (b / 2) = omega (arith, bit_and_step a b) in
    rw (test_bit-suc (bit_and a b) k, test_bit-suc a k, test_bit-suc b k, half)
      (test_bit-and k (a / 2) (b / 2))

pub test_bit-pow : (j k : ℕ) → test_bit (2 ^ k) j ≡ (if j == k then 1 else 0)
test_bit-pow zero zero = ground (arith, test_bit-zero 1)
test_bit-pow zero (suc k) = ground (arith, test_bit-zero (2 ^ suc k), pow-suc 2 k)
test_bit-pow (suc j) zero =
    let none_left : test_bit 0 j ≡ 0 = test_bit_of_zero j in ground (arith, test_bit-suc 1 j)
  where
    test_bit_of_zero : (j : ℕ) → test_bit 0 j ≡ 0
    test_bit_of_zero zero = test_bit-zero 0
    test_bit_of_zero (suc j) = test_bit-suc 0 j ∙ test_bit_of_zero j
test_bit-pow (suc j) (suc k) =
    let half : 2 ^ suc k / 2 ≡ 2 ^ k = omega (arith, pow-suc 2 k) in
    ground (arith, test_bit-suc (2 ^ suc k) j, ap (λ t. test_bit t j) half, test_bit-pow j k)

mod-suc : (n a : ℕ) → a % 2 ^ suc n ≡ a / 2 % 2 ^ n * 2 + a % 2
mod-suc n a = ap (λ t. a % t) (pow-suc 2 n) ∙ sym (mod-double (2 ^ n) a (pow2-pos n))

-- Bits below the width survive the cut to it.
pub test_bit-mod : (k n a : ℕ) → k < n → test_bit (a % 2 ^ n) k ≡ test_bit a k
test_bit-mod k zero a lt = absurd (omega arith)
test_bit-mod zero (suc n) a lt =
    omega (arith, mod-suc n a, test_bit-zero (a % 2 ^ suc n), test_bit-zero a)
test_bit-mod (suc k) (suc n) a lt =
    let half : a % 2 ^ suc n / 2 ≡ a / 2 % 2 ^ n = omega (arith, mod-suc n a) in
    rw (test_bit-suc (a % 2 ^ suc n) k, test_bit-suc a k, half)
      (test_bit-mod k n (a / 2) (omega arith))

-- The bits of a number that has them all, and of one that lacks one.
pub test_bit-ones : (k n : ℕ) → k < n → test_bit (2 ^ n - 1) k ≡ 1
test_bit-ones k zero lt = absurd (omega arith)
test_bit-ones zero (suc n) lt =
    omega (arith, pow-suc 2 n, pow2-pos n, test_bit-zero (2 ^ suc n - 1))
test_bit-ones (suc k) (suc n) lt =
    let half : (2 ^ suc n - 1) / 2 ≡ 2 ^ n - 1 = omega (arith, pow-suc 2 n, pow2-pos n) in
    rw (test_bit-suc (2 ^ suc n - 1) k, half) (test_bit-ones k n (omega arith))

-- The bits of `~a` in a word of `n` bits.
pub test_bit-not : (k n a : ℕ) → k < n → a < 2 ^ n → test_bit (2 ^ n - 1 - a) k ≡ 1 - test_bit a k
test_bit-not k zero a lt small = absurd (omega arith)
test_bit-not zero (suc n) a lt small =
    omega (arith, pow-suc 2 n, pow2-pos n, test_bit-zero (2 ^ suc n - 1 - a), test_bit-zero a)
test_bit-not (suc k) (suc n) a lt small =
    let half : (2 ^ suc n - 1 - a) / 2 ≡ 2 ^ n - 1 - a / 2 =
      omega (arith, pow-suc 2 n, pow2-pos n) in
    rw (test_bit-suc (2 ^ suc n - 1 - a) k, test_bit-suc a k, half)
      (test_bit-not k n (a / 2) (omega arith) (omega (arith, pow-suc 2 n)))

pub pow2_lt : (k n : ℕ) → k < n → 2 ^ k < 2 ^ n
pow2_lt k zero lt = absurd (omega arith)
pow2_lt zero (suc n) lt = omega (arith, pow-suc 2 n, pow2-pos n)
pow2_lt (suc k) (suc n) lt =
    let below = pow2_lt k n (omega arith) in omega (arith, pow-suc 2 k, pow-suc 2 n, below)
