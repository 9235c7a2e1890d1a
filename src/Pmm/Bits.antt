-- ===== src/Pmm/Bits.antt =====
-- The bit macros of src/Include/pmm.h, over every byte and position.
use sector_os_re.Base.{
  ◌/◌, ◌%◌, Memory, fun_ext, ℕ, ◌<◌, ◌≡◌, refl, ◌&&◌, Bool, true, ltb, ◌==◌, arith, if◌then◌else◌,
  all_below, all_below_sound,
}
use sector_os_re.Pmm.{set_bit, clear_bit, is_set, set_bit_in, clear_bit_in, is_set_in}

-- what the tables hold of each byte `b` and positions `k` and `j`
abbrev is_set_row : ℕ → ℕ → ℕ → Bool
is_set_row b k j =
    (is_set_in (set_bit_in b k) j == (if j == k then 1 else is_set_in b j))
    && (is_set_in (clear_bit_in b k) j == (if j == k then 0 else is_set_in b j))

is_set_table : all_below 256 (λ b. all_below 8 (λ k. all_below 8 (is_set_row b k))) ≡ true
unfolding all_below set_bit_in clear_bit_in is_set_in
is_set_table = refl

byte_table :
    all_below 256 (λ b. all_below 8 (λ k.
      ltb (set_bit_in b k) 256
      && ltb (clear_bit_in b k) 256
      && ltb (is_set_in b k) 2
      && (if is_set_in b k == 0 then clear_bit_in (set_bit_in b k) k == b else true)))
    ≡ true
unfolding all_below set_bit_in clear_bit_in is_set_in
byte_table = refl

module _ (b k : ℕ) (hb : b < 256) (hk : k < 8) where
  in_table : (j : ℕ) → j < 8 → is_set_row b k j ≡ true
  in_table j hj =
      all_below_sound 8 (is_set_row b k) j
        (all_below_sound 8 (λ k'. all_below 8 (is_set_row b k')) k
          (all_below_sound 256 (λ b'. all_below 8 (λ k'. all_below 8 (is_set_row b' k'))) b
            is_set_table hb)
          hk)
        hj

  pub is_set-set_in :
      (j : ℕ) → j < 8 → is_set_in (set_bit_in b k) j ≡ (if j == k then 1 else is_set_in b j)
  is_set-set_in j hj = ground (arith, in_table j hj)

  pub is_set-clear_in :
      (j : ℕ) → j < 8 → is_set_in (clear_bit_in b k) j ≡ (if j == k then 0 else is_set_in b j)
  is_set-clear_in j hj = ground (arith, in_table j hj)

  in_byte_table :
      (ltb (set_bit_in b k) 256
        && ltb (clear_bit_in b k) 256
        && ltb (is_set_in b k) 2
        && (if is_set_in b k == 0 then clear_bit_in (set_bit_in b k) k == b else true))
      ≡ true
  in_byte_table = all_below_sound 8 _ k (all_below_sound 256 _ b byte_table hb) hk

  pub bits_in_byte : (set_bit_in b k < 256) × (clear_bit_in b k < 256) × (is_set_in b k < 2)
  bits_in_byte = ground (arith, in_byte_table)

  pub clear-set_in : is_set_in b k ≡ 0 → clear_bit_in (set_bit_in b k) k ≡ b
  clear-set_in e = ground (arith, in_byte_table)

-- every index holds a byte
abbrev pub IsBytes : Memory → Type 0
IsBytes m = (a : ℕ) → m a < 256

module _ (m : Memory) (bytes : IsBytes m) where
  pub set_bit-IsBytes : (i : ℕ) → IsBytes (set_bit m i)
  unfolding set_bit
  set_bit-IsBytes i a =
      ground (arith, bytes a, bits_in_byte (m (i / 8)) (i % 8) (bytes (i / 8)) (omega arith))

  pub clear_bit-IsBytes : (i : ℕ) → IsBytes (clear_bit m i)
  unfolding clear_bit
  clear_bit-IsBytes i a =
      ground (arith, bytes a, bits_in_byte (m (i / 8)) (i % 8) (bytes (i / 8)) (omega arith))

  pub is_set-lt : (i : ℕ) → is_set m i < 2
  unfolding is_set
  is_set-lt i = (bits_in_byte (m (i / 8)) (i % 8) (bytes (i / 8)) (omega arith)).2

  pub is_set-set_bit : (i j : ℕ) → is_set (set_bit m i) j ≡ (if j == i then 1 else is_set m j)
  unfolding set_bit is_set
  is_set-set_bit i j =
      ground (
        arith,
        is_set-set_in (m (i / 8)) (i % 8) (bytes (i / 8)) (omega arith) (j % 8) (omega arith),
      )

  pub is_set-clear_bit : (i j : ℕ) → is_set (clear_bit m i) j ≡ (if j == i then 0 else is_set m j)
  unfolding clear_bit is_set
  is_set-clear_bit i j = ground (
    arith,
    is_set-clear_in (m (i / 8)) (i % 8) (bytes (i / 8)) (omega arith) (j % 8) (omega arith),
  )

  pub clear_bit-set_bit : (i : ℕ) → is_set m i ≡ 0 → clear_bit (set_bit m i) i ≡ m
  unfolding set_bit clear_bit is_set
  clear_bit-set_bit i e =
      fun_ext λ a. ground (arith, clear-set_in (m (i / 8)) (i % 8) (bytes (i / 8)) (omega arith) e)
