-- ===== src/CString/RoundTrip.antt =====
-- atoi of src/common/string.c reads what itoa writes.
use native.Mathlib.Nat.{pow-suc, div-div-eq-div-mul, div-le_self}
use sector_os_re.Base.{
  ◌*◌, ◌∷◌, false, ltb, add32, update, sub32, ◌≤◌, sym, ap, refl, zero, ◌∙◌, arith, some, suc, ◌%◌,
  ◌-◌, ◌+◌, ◌/◌, ◌≡◌, ◌^◌, ◌<◌, List, Memory, ℕ,
}
use sector_os_re.CString.{isspace, atoi, atoi_digits}
use sector_os_re.CString.Print.{swap_loop-reverse, swap_loop, itoa_loop-digits, itoa}
use sector_os_re.Bytes.Fields.{bytes_from}

-- `count` bytes of a buffer from `at` on
abbrev text_at : ℕ → Memory → ℕ → List ℕ
text_at count buf at = bytes_from count buf at

-- The digits of `n` from the place of 10 ^ k down, and the 0 behind them.
digits_read :
    (j : ℕ) (buf : Memory) (at n acc : ℕ)
    → n < 2 ^ 31
    → acc ≡ n / 10 ^ j
    → ((m : ℕ) → m < j → buf (at + (j - 1 - m)) ≡ n / 10 ^ m % 10 + b'0')
    → buf (at + j) ≡ 0
    → atoi_digits acc (text_at (suc j) buf at) ≡ some n
unfolding atoi_digits bytes_from
digits_read zero buf at n acc small here digits ends =
    let e0 : at + 0 ≡ at = omega arith in
    let stop : buf at ≡ 0 = rw e0 at ends in
    let whole : acc ≡ n = here ∙ ground arith in rw (stop, whole) refl
digits_read (suc j) buf at n acc small here digits ends =
    let q = n / 10 ^ j in
    let place : at + (suc j - 1 - j) ≡ at = omega arith in
    let first : buf at ≡ q % 10 + b'0' = rw place at (digits j (omega arith)) in
    let tens : acc ≡ q / 10 =
      here ∙ (ap (λ t. n / t) (pow-suc 10 j) ∙ sym (div-div-eq-div-mul n (10 ^ j) 10)) in
    let below : q ≤ n = div-le_self n (10 ^ j) in
    let digit : sub32 (q % 10 + 48) 48 ≡ q % 10 = omega arith in
    let next : add32 (10 * acc) (q % 10) ≡ q = omega (arith, tens, below) in
    let low : ltb 9 (q % 10) ≡ false = ground arith in
    let rest =
      digits_read j buf (at + 1) n q small refl
        (λ m lt.
          let place_m : at + 1 + (j - 1 - m) ≡ at + (suc j - 1 - m) = omega arith in
          ap buf place_m ∙ digits m (omega arith))
        (let end : at + 1 + j ≡ at + suc j = omega arith in ap buf end ∙ ends) in
    let fits : ltb 0x7fff_ffff (10 * acc) ≡ false = ground (arith, tens, below, small) in
    rw (first, digit, next, low, fits) rest

-- The digits with the 0 behind them, turned round.
turned_digits :
    (out : Memory) (n k : ℕ)
    → ((m : ℕ) → m ≤ k → out (0 + m) ≡ n / 10 ^ m % 10 + b'0')
    → let turned = swap_loop (suc k) (update out (suc k) 0) 0 (suc k - 1) in
      ((m : ℕ) → m < suc k → turned (0 + (suc k - 1 - m)) ≡ n / 10 ^ m % 10 + b'0')
      × (turned (0 + suc k) ≡ 0)
turned_digits out n k digits =
    let marked = update out (suc k) 0 in
    let back = λ (m : ℕ). swap_loop-reverse (suc k) marked 0 (suc k - 1) m (omega arith) in
    (
      λ m lt.
          let place : 0 + (suc k - 1) - (0 + (suc k - 1 - m)) ≡ m = omega arith in
          let plain : 0 + m ≡ m = omega arith in
          let digit : out m ≡ n / 10 ^ m % 10 + b'0' = rw plain at (digits m (omega arith)) in
          back (0 + (suc k - 1 - m)) ∙ ground (arith, ap marked place, digit),
      back (0 + suc k) ∙ ground arith,
    )

atoi-digit : (c : ℕ) (s : List ℕ) → b'0' ≤ c → c ≤ b'9' → atoi (c ∷ s) ≡ atoi_digits 0 (c ∷ s)
unfolding atoi isspace
atoi-digit c s lo hi = ground arith

-- A number below 2^31 that is written in base 10 is read back, whatever the buffer held before:
-- itoa ends within its 32 digits, and atoi gives the number from the digits and the 0 that it writes.
pub atoi-itoa :
    (n : ℕ) (buf : Memory)
    → n < 2 ^ 31
    → (out : Memory) × (k : ℕ) × (itoa buf n 10 ≡ some out)
      × (k < 32)
      × (atoi (bytes_from (suc (suc k)) out 0) ≡ some n)
unfolding itoa bytes_from
atoi-itoa n buf small =
    let (out, k, runs, le, ends, kept, digits) =
      itoa_loop-digits 32 n 0 buf (omega (arith, small)) (omega arith) in
    let index : 0 + suc k ≡ suc k = omega arith in
    let turned = swap_loop (suc k) (update out (suc k) 0) 0 (suc k - 1) in
    let (chars, stop) = turned_digits out n k digits in
    let place : 0 + (suc k - 1 - k) ≡ 0 = omega arith in
    let first : turned 0 ≡ n / 10 ^ k % 10 + b'0' = rw place at (chars k (omega arith)) in
    let read = digits_read (suc k) turned 0 n 0 small (sym ends) chars stop in
    let plain =
      atoi-digit (turned 0) (bytes_from (suc k) turned 1) (omega (arith, first))
        (omega (arith, first)) in
    (turned, k, rw (runs, index) refl, le, plain ∙ read)
