-- ===== src/Pmm/Alloc.antt =====
-- `alloc_block` and `free_block` of src/mem/pmm.c against the set of allocated blocks.
use sector_os_re.Base.{
  ap, bit_or, u32_max, ◌/◌, ◌%◌, ◌^◌, ℕ, ◌<◌, ◌≡◌, refl, inl, inr, Bool, true, false, update, arith,
  ◌==◌, fun_ext,
}
use sector_os_re.Pmm.{set_bit_in, Pmm, is_set, set_bit, first_free_block, alloc_block, free_block}
use sector_os_re.Pmm.Bits.{
  set_bit-IsBytes, clear_bit-IsBytes, clear_bit-set_bit, IsBytes, is_set-set_bit, is_set-clear_bit,
  is_set-lt,
}
use sector_os_re.Pmm.Search.{Found, first_free_block-Found}

-- What the bitmap means: the set of allocated blocks.
unfoldable pub allocated : Pmm → ℕ → Bool
allocated p i = is_set p.bitmap i == 1

-- Some block is free.
abbrev pub HasFree : Pmm → Type 0
HasFree p = (i : ℕ) × (i < p.total_blocks) × (allocated p i ≡ false)

module _ (p : Pmm) (bytes : IsBytes p.bitmap) where
  -- With a free block left, alloc_block answers the lowest one and adds it, and nothing else, to
  -- the set of allocated blocks.
  pub alloc_block-allocated :
      HasFree p
      → let (r, p') = alloc_block p in
        (r < p.total_blocks)
        × (allocated p r ≡ false)
        × ((j : ℕ) → j < r → allocated p j ≡ true)
        × (allocated p' ≡ update (allocated p) r true)
  unfolding allocated alloc_block
  alloc_block-allocated (i, lt, free) = go (first_free_block p) (first_free_block-Found p)
    where
      go :
          (r : ℕ)
          → Found p.bitmap 0 p.total_blocks r
          → (r < p.total_blocks)
            × ((is_set p.bitmap r == 1) ≡ false)
            × ((j : ℕ) → j < r → (is_set p.bitmap j == 1) ≡ true)
            × ((λ j. is_set (set_bit p.bitmap r) j == 1)
                ≡ update (λ j. is_set p.bitmap j == 1) r true)
      go r (inl (low, high, first)) = (
        high,
        ground (arith, first.0),
        λ j lt. ground (arith, first.1 j (omega arith), is_set-lt p.bitmap bytes j),
        fun_ext λ j. ground (arith, is_set-set_bit p.bitmap bytes r j),
      )
      go r (inr (none_left, all)) =
          absurd (ground (arith, all i (omega arith) lt, is_set-lt p.bitmap bytes i))

  -- free_block takes one block, and nothing else, out of the set of allocated blocks.
  pub free_block-allocated : (b : ℕ) → allocated (free_block p b) ≡ update (allocated p) b false
  unfolding allocated free_block
  free_block-allocated b = fun_ext λ j. ground (arith, is_set-clear_bit p.bitmap bytes b j)

  -- Freeing the block that alloc_block has just answered restores the whole state.
  pub free_block-alloc_block : HasFree p → let (r, p') = alloc_block p in free_block p' r ≡ p
  unfolding alloc_block free_block allocated
  free_block-alloc_block free =
      let (low, clear, lowest, rest) = alloc_block-allocated free in
      ap (λ m. record p { bitmap = m })
        (clear_bit-set_bit p.bitmap bytes _ (zero_of_not_one clear (is_set-lt p.bitmap bytes _)))
    where
      zero_of_not_one : {n : ℕ} → (n == 1) ≡ false → n < 2 → n ≡ 0
      zero_of_not_one h lt = ground arith

  -- Both operations keep every byte of the bitmap below 256, and free_block leaves the sizes alone.
  pub alloc_block-IsBytes : IsBytes (alloc_block p).1.bitmap
  unfolding alloc_block
  alloc_block-IsBytes = set_bit-IsBytes p.bitmap bytes (first_free_block p)

  pub free_block-IsBytes : (b : ℕ) → IsBytes (free_block p b).bitmap
  unfolding free_block
  free_block-IsBytes b = clear_bit-IsBytes p.bitmap bytes b

-- With every block taken, alloc_block answers -1 and all the same sets bit 2 ^ 32 - 1: the byte
-- 2 ^ 29 - 1 behind the start of the bitmap gets its top bit.
pub alloc_block_exhausted :
    (p : Pmm)
    → ((i : ℕ) → i < p.total_blocks → allocated p i ≡ true)
    → let (r, p') = alloc_block p in
      (r ≡ u32_max) × (p'.bitmap ≡ update p.bitmap 0x1fff_ffff (bit_or (p.bitmap 0x1fff_ffff) 128))
unfolding allocated alloc_block set_bit set_bit_in
alloc_block_exhausted p all = go (first_free_block p) (first_free_block-Found p)
  where
    go :
        (r : ℕ)
        → Found p.bitmap 0 p.total_blocks r
        → (r ≡ u32_max)
          × (update p.bitmap (r / 8) (bit_or (p.bitmap (r / 8)) (2 ^ (r % 8)))
              ≡ update p.bitmap 0x1fff_ffff (bit_or (p.bitmap 0x1fff_ffff) 128))
    go r (inl (low, high, first)) = absurd (ground (arith, first.0, all r high))
    go r (inr (e, none_left)) = (e, rw e refl)
