-- ===== src/Base/BitLaws.antt =====
-- `bit_and` and `bit_or` at variables: the law for the lowest digit, masks and shifted masks.
use Prim.Native.Nat.{
  ◌%◌, ◌/◌, ℕ, zero, suc, ◌+◌, ◌-◌, ◌*◌, ◌^◌, ◌≤◌, ◌<◌, min, max, bit_and, bit_or, digits, bitwise,
  bit_and-bitwise, bit_or-bitwise,
}
use mathlib.Core.Path.{sym, ap, ◌∙◌, ◌≡◌, refl}
use native.Mathlib.Nat.{
  pow-succ', div-add-mod', add-mul-mod_self_right, div-div-eq-div-mul, mod-eq_of_lt, mod-lt,
  pow-suc,
}
use native.Mathlib.Omega.{arith}

-- The digits that `bitwise` reads depend on the numbers alone, not on how many it is allowed.
module _ (rest : ℕ → ℕ) (op : ℕ → ℕ → ℕ) where
  digits_enough : (k l x y : ℕ) → x ≤ k → x ≤ l → digits rest op k x y ≡ digits rest op l x y
  digits_enough zero zero x y xk xl = refl
  digits_enough zero (suc l) zero y xk xl = refl
  digits_enough (suc k) zero zero y xk xl = refl
  digits_enough (suc k) (suc l) zero y xk xl = refl
  digits_enough zero (suc l) (suc x) y xk xl = absurd (omega arith)
  digits_enough (suc k) zero (suc x) y xk xl = absurd (omega arith)
  digits_enough (suc k) (suc l) (suc x) y xk xl =
      let halved = digits_enough k l (suc x / 2) (y / 2) (omega arith) (omega arith) in
      ap (λ high. high * 2 + op (suc x % 2) (y % 2)) halved

  bitwise_step :
      ((y : ℕ) → rest y ≡ rest (y / 2) * 2 + op 0 (y % 2))
      → (x y : ℕ) → bitwise rest op x y ≡ bitwise rest op (x / 2) (y / 2) * 2 + op (x % 2) (y % 2)
  bitwise_step start zero y = start y
  bitwise_step start (suc x) y =
      let half = suc x / 2 in
      let halved = digits_enough x half half (y / 2) (omega arith) (omega arith) in
      ap (λ high. high * 2 + op (suc x % 2) (y % 2)) halved

pub bit_and_step : (x y : ℕ) → bit_and x y ≡ bit_and (x / 2) (y / 2) * 2 + min (x % 2) (y % 2)
bit_and_step x y =
    let step = bitwise_step (λ _. 0) min (λ _. omega arith) x y in
    omega (arith, step, bit_and-bitwise x y, bit_and-bitwise (x / 2) (y / 2))

pub bit_or_step : (x y : ℕ) → bit_or x y ≡ bit_or (x / 2) (y / 2) * 2 + max (x % 2) (y % 2)
bit_or_step x y =
    let step = bitwise_step (λ c. c) max (λ _. omega arith) x y in
    omega (arith, step, bit_or-bitwise x y, bit_or-bitwise (x / 2) (y / 2))

bit_or-ge : (n a b : ℕ) → a + b ≤ n → b ≤ bit_or a b
bit_or-ge n a zero h = omega arith
bit_or-ge zero a (suc b) h = absurd (omega arith)
bit_or-ge (suc n) a (suc b) h =
    omega (arith, bit_or_step a (suc b), bit_or-ge n (a / 2) (suc b / 2) (omega arith))

pub le-bit_or : (a b : ℕ) → b ≤ bit_or a b
le-bit_or a b = bit_or-ge (a + b) a b (omega arith)

pub bit_and-zero : (n a : ℕ) → a ≤ n → bit_and a 0 ≡ 0
bit_and-zero n zero h = refl
bit_and-zero zero (suc a) h = absurd (omega arith)
bit_and-zero (suc n) (suc a) h =
    omega (arith, bit_and_step (suc a) 0, bit_and-zero n (suc a / 2) (omega arith))

pub pow2-pos : (k : ℕ) → 0 < 2 ^ k
pow2-pos zero = omega arith
pow2-pos (suc k) = omega (arith, pow-suc 2 k, pow2-pos k)

-- The low digit and the rest, reduced, give the number reduced.
pub mod-double : (p a : ℕ) → 0 < p → a / 2 % p * 2 + a % 2 ≡ a % (p * 2)
mod-double p a h =
    let split : a ≡ a / 2 % p * 2 + a % 2 + a / 2 / p * (p * 2) =
      omega (arith, div-add-mod' (a / 2) p) in
    let small : a / 2 % p * 2 + a % 2 < p * 2 = omega (arith, mod-lt (a / 2) h) in
    sym (
      ap (λ t. t % (p * 2)) split
      ∙ add-mul-mod_self_right (a / 2 % p * 2 + a % 2) (a / 2 / p) (p * 2)
      ∙ mod-eq_of_lt small)

-- `a & (2 ^ k - 1)`
pub bit_and-mask : (k a : ℕ) → bit_and a (2 ^ k - 1) ≡ a % 2 ^ k
bit_and-mask zero a = omega (arith, bit_and-zero a a)
bit_and-mask (suc k) a =
    let half : (2 ^ suc k - 1) / 2 ≡ 2 ^ k - 1 = omega (arith, pow-suc 2 k, pow2-pos k) in
    let odd : (2 ^ suc k - 1) % 2 ≡ 1 = omega (arith, pow-suc 2 k, pow2-pos k) in
    rw (bit_and_step a (2 ^ suc k - 1), half, odd, bit_and-mask k (a / 2), pow-suc)
      (omega (arith, mod-double (2 ^ k) a (pow2-pos k)))

-- `a & (b << k)`
pub bit_and-shift : (k a b : ℕ) → bit_and a (b * 2 ^ k) ≡ bit_and (a / 2 ^ k) b * 2 ^ k
bit_and-shift zero a b =
    let one : b * 1 ≡ b = omega arith in
    let same : a / 1 ≡ a = omega arith in rw (one, same) (omega arith)
bit_and-shift (suc k) a b =
    let half : b * 2 ^ suc k / 2 ≡ b * 2 ^ k = rw pow-suc (omega arith) in
    let even : b * 2 ^ suc k % 2 ≡ 0 = rw pow-suc (omega arith) in
    let next : a / 2 / 2 ^ k ≡ a / 2 ^ suc k =
      div-div-eq-div-mul a 2 (2 ^ k) ∙ ap (λ t. a / t) (sym (pow-succ' 2 k)) in
    rw (bit_and_step a (b * 2 ^ suc k), half, even, bit_and-shift k (a / 2) b, next, pow-suc)
      (omega arith)

-- `a & 0xFFFFF000` takes the offset in the page off.
pub bit_and-page : (a : ℕ) → a < 2 ^ 32 → bit_and a 0xffff_f000 + a % 4096 ≡ a
bit_and-page a h = omega (arith, bit_and-shift 12 a 0xf_ffff, bit_and-mask 20 (a / 4096))

pub or_zero_fuel : (n a : ℕ) → a ≤ n → bit_or a 0 ≡ a
or_zero_fuel n zero h = refl
or_zero_fuel zero (suc a) h = absurd (omega arith)
or_zero_fuel (suc n) (suc a) h =
    omega (arith, bit_or_step (suc a) 0, or_zero_fuel n (suc a / 2) (omega arith))

-- `(a << k) | b` with a `b` below `2 ^ k`
pub bit_or-shift : (k a b : ℕ) → b < 2 ^ k → bit_or (a * 2 ^ k) b ≡ a * 2 ^ k + b
bit_or-shift zero a b h =
    let none_left : b ≡ 0 = omega arith in
    let same : a * 1 ≡ a = omega arith in
    rw (same, none_left) (or_zero_fuel a a (omega arith) ∙ omega arith)
bit_or-shift (suc k) a b h =
    let half : a * 2 ^ suc k / 2 ≡ a * 2 ^ k = rw pow-suc (omega arith) in
    let even : a * 2 ^ suc k % 2 ≡ 0 = rw pow-suc (omega arith) in
    let small : b / 2 < 2 ^ k = omega (arith, pow-suc 2 k) in
    rw (bit_or_step (a * 2 ^ suc k) b, half, even, bit_or-shift k a (b / 2) small, pow-suc)
      (omega arith)

pub bit_or-zero : (a : ℕ) → bit_or a 0 ≡ a
bit_or-zero a = or_zero_fuel a a (omega arith)
