-- ===== src/CString/Print.antt =====
-- itoa of src/common/string.c, for a number below 2^32 and a base from 2 on.
use native.Mathlib.Nat.{pow-succ', pow-suc, div-div-eq-div-mul}
use sector_os_re.Base.{
  refl, ◌^◌, sym, ◌<◌, ap, ◌∙◌, arith, inl, inr, Bool-cases, ◌==◌, ◌&&◌, zero, ◌/◌, leb, ◌-◌, ◌≡◌,
  some, ◌%◌, ◌>>=◌, none, ltb, update, ◌+◌, ◌≤◌, if◌then◌else◌, Option, suc, Memory, ℕ,
}

abbrev pub digit_char : ℕ → ℕ
digit_char tmp = if ltb tmp 10 then tmp + b'0' else tmp + b'a' - 10

-- `do … while (n /= base)`: the buffer and `i` behind it, with the rounds that are left.
unfoldable pub itoa_loop : ℕ → Memory → ℕ → ℕ → ℕ → Option (Memory × ℕ)
itoa_loop zero buf n base i = none
itoa_loop (suc fuel) buf n base i =
    let buf' = update buf i (digit_char (n % base)) in
    let rest = itoa_loop fuel buf' (n / base) base (i + 1) in
    if n / base == 0 then some (buf', i + 1) else rest

-- The characters between `j` and `i` are turned round.
unfoldable pub swap_loop : ℕ → Memory → ℕ → ℕ → Memory
swap_loop zero buf j i = buf
swap_loop (suc rounds) buf j i =
    let rest = swap_loop rounds (update (update buf j (buf i)) i (buf j)) (j + 1) (i - 1) in
    if ltb j i then rest else buf

-- A number of 32 bits has 32 digits at most.
unfoldable pub itoa : Memory → ℕ → ℕ → Option Memory
itoa buf n base = do
  (buf1, i) ← itoa_loop 32 buf n base 0
  some (swap_loop i (update buf1 i 0) 0 (i - 1))

swap_met :
    (buf : Memory) (j i m : ℕ)
    → i ≤ j
    → buf m ≡ (if leb j m && leb m i then buf (j + i - m) else buf m)
swap_met buf j i m le = elim (Bool-cases (leb j m && leb m i)) [
  | inl middle ↦ let index : j + i - m ≡ m = ground arith in rw middle (ap buf (sym index))
  | inr out ↦ rw out refl
]

-- What one exchange adds to the exchanges between the two.
swap_step :
    (buf : Memory) (j i m : ℕ)
    → j < i
    → let buf' = update (update buf j (buf i)) i (buf j) in
      (if leb (j + 1) m && leb m (i - 1) then buf' (j + 1 + (i - 1) - m) else buf' m)
      ≡ (if leb j m && leb m i then buf (j + i - m) else buf m)
swap_step buf j i m lt = elim (Bool-cases (m == j)) [
  | inl low ↦ let index : j + i - m ≡ i = ground arith in ground (arith, ap buf index)
  | inr above ↦ elim (Bool-cases (m == i)) [
    | inl high ↦ let index : j + i - m ≡ j = ground arith in ground (arith, ap buf index)
    | inr below ↦
        let index : j + 1 + (i - 1) - m ≡ j + i - m = ground arith in ground (arith, ap buf index)
  ]
]

pub swap_loop-reverse :
    (rounds : ℕ) (buf : Memory) (j i m : ℕ)
    → i ≤ rounds + j
    → swap_loop rounds buf j i m ≡ (if leb j m && leb m i then buf (j + i - m) else buf m)
unfolding swap_loop
swap_loop-reverse zero buf j i m enough = swap_met buf j i m (omega arith)
swap_loop-reverse (suc rounds) buf j i m enough = elim (Bool-cases (ltb j i)) [
  | inr met ↦ rw met (swap_met buf j i m (ground arith))
  | inl apart ↦
      let buf' = update (update buf j (buf i)) i (buf j) in
      let rest = swap_loop-reverse rounds buf' (j + 1) (i - 1) m (ground arith) in
      rw apart (rest ∙ swap_step buf j i m (ground arith))
]

pub div-shift : (n m : ℕ) → n / 10 ^ suc m ≡ n / 10 / 10 ^ m
div-shift n m = ap (λ t. n / t) (pow-succ' 10 m) ∙ sym (div-div-eq-div-mul n 10 (10 ^ m))

-- The digits that the first loop leaves, lowest first, from `i` on.
pub itoa_loop-digits :
    (fuel n i : ℕ) (buf : Memory)
    → n < 2 ^ fuel
    → 0 < fuel
    → (out : Memory) × (k : ℕ) × (itoa_loop fuel buf n 10 i ≡ some (out, i + suc k))
      × (k < fuel)
      × (n / 10 ^ suc k ≡ 0)
      × ((m : ℕ) → m < i → out m ≡ buf m)
      × ((m : ℕ) → m ≤ k → out (i + m) ≡ n / 10 ^ m % 10 + b'0')
unfolding itoa_loop
itoa_loop-digits zero n i buf small some_fuel = absurd (omega arith)
itoa_loop-digits (suc fuel) n i buf small some_fuel = elim (Bool-cases (n / 10 == 0)) [
  | inl last ↦ (
    update buf i (digit_char (n % 10)),
    0,
    rw last refl,
    omega arith,
    ground arith,
    λ m lt. ground arith,
    λ m le. let e : m ≡ 0 = omega arith in rw e (ground arith),
  )
  | inr more ↦
      let less : n / 10 < 2 ^ fuel = omega (arith, pow-suc 2 fuel) in
      let some_left : 0 < fuel = elim (Bool-cases (ltb 0 fuel)) [
        | inl some_rounds ↦ ground arith
        | inr spent ↦
            let none_left : fuel ≡ 0 = ground arith in
            let one : 2 ^ fuel ≡ 2 ^ 0 = ap (λ k. 2 ^ k) none_left in absurd (ground (arith, one))
      ] in
      let (out, k, runs, le, ends, kept, digits) =
        itoa_loop-digits fuel (n / 10) (i + 1) (update buf i (digit_char (n % 10))) less
          some_left in
      (
        out,
        suc k,
        rw (more, runs) (ap (λ x. some (out, x)) (omega arith)),
        omega arith,
        div-shift n (suc k) ∙ ends,
        λ m lt. kept m (omega arith) ∙ ground arith,
        λ m le. elim (Bool-cases (m == 0)) [
          | inl lowest ↦
              let e : m ≡ 0 = ground arith in
              let at : i + 0 ≡ i = omega arith in rw (e, at) (kept i (omega arith) ∙ ground arith)
          | inr higher ↦
              let at : i + m ≡ i + 1 + (m - 1) = ground arith in
              let e : m ≡ suc (m - 1) = ground arith in
              let power : n / 10 ^ m ≡ n / 10 / 10 ^ (m - 1) =
                ap (λ k. n / 10 ^ k) e ∙ div-shift n (m - 1) in
              rw (at, power) (digits (m - 1) (ground arith))
        ],
      )
]
