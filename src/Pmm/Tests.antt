-- ===== src/Pmm/Tests.antt =====
-- The theorems about src/mem/pmm.c at concrete states.
use sector_os_re.Pmm.{
  is_set_in, is_set, free_block, first_free_block, ℕ, alloc_block, update, Pmm, first_free_from,
}
use sector_os_re.Pmm.Alloc.{HasFree, alloc_block-allocated, free_block-alloc_block, allocated}
use sector_os_re.Pmm.Bits.{IsBytes}
use sector_os_re.Base.{refl, true, false, ◌≡◌, ◌<◌, arith, ℕ, update}

-- Sixteen blocks, of which the first, the second and the ninth are taken.
abbrev three_taken : Pmm
three_taken = record {
  bitmap = update (update (λ _. 0) 0 3) 1 1;
  bitmap_addr = 0x0020_0000;
  mem_start = 0x0020_1000;
  total_blocks = 16;
  bitmap_size = 2;
}

three_taken-IsBytes : IsBytes three_taken.bitmap
three_taken-IsBytes a = ground arith

block_two_free : HasFree three_taken
unfolding allocated is_set is_set_in
block_two_free = (2, omega arith, refl)

alloc_block-allocated_example :
    let (r, p') = alloc_block three_taken in
    (r < 16)
    × (allocated three_taken r ≡ false)
    × ((j : ℕ) → j < r → allocated three_taken j ≡ true)
    × (allocated p' ≡ update (allocated three_taken) r true)
alloc_block-allocated_example = alloc_block-allocated three_taken three_taken-IsBytes block_two_free

free_block-alloc_block_example :
    let (r, p') = alloc_block three_taken in free_block p' r ≡ three_taken
free_block-alloc_block_example =
    free_block-alloc_block three_taken three_taken-IsBytes block_two_free

-- One block, taken.
abbrev full : Pmm
full = record three_taken { total_blocks = 1 }

first_taken : allocated full 0 ≡ true
unfolding allocated is_set is_set_in
first_taken = refl

full_taken : (i : ℕ) → i < 1 → allocated full i ≡ true
full_taken i lt = let e : i ≡ 0 = omega arith in rw e first_taken

next_free : first_free_block three_taken ≡ 2
unfolding first_free_block first_free_from is_set is_set_in
next_free = refl
