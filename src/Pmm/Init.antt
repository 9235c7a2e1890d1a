-- ===== src/Pmm/Init.antt =====
-- `init_pmm` of src/mem/pmm.c: the state in which the allocator starts.
use sector_os_re.Pmm.{ℕ, Pmm, init_pmm, is_set, is_set_in, block_align}
use sector_os_re.Pmm.Alloc.{allocated}
use sector_os_re.Bytes.Laws.{memset_lem}
use sector_os_re.Base.{
  bit_and-page, add32, ◌≤◌, true, ◌%◌, false, ◌^◌, ◌==◌, all_below_sound, Memory, ◌<◌, all_below,
  refl, ◌*◌, arith, ltb, if◌then◌else◌, ◌+◌, ◌/◌, ◌≡◌, ℕ,
}

init_pmm_total :
    (p : Pmm) (mem_size : ℕ)
    → let p' = init_pmm p mem_size in
      (p'.total_blocks ≡ mem_size / 4096)
      × (p'.bitmap_size ≡ (mem_size / 4096 + 7) / 8)
      × ((a : ℕ) → p'.bitmap a ≡ (if ltb a p'.bitmap_size then 0 else p.bitmap a))
unfolding init_pmm
init_pmm_total p mem_size = (
  refl,
  ground arith,
  λ a. ground (
    arith,
    memset_lem p.bitmap 0 0
        (if ltb (mem_size / 4096 / 8 * 8) (mem_size / 4096)
          then mem_size / 4096 / 8 + 1
          else mem_size / 4096 / 8)
        a,
  ),
)

zero_table : all_below 8 (λ k. is_set_in 0 k == 0) ≡ true
unfolding all_below is_set_in
zero_table = refl

is_set-zero : (m : Memory) (i : ℕ) → m (i / 8) ≡ 0 → is_set m i ≡ 0
unfolding is_set
is_set-zero m i e =
    rw e
      (ground (arith, all_below_sound 8 (λ k. is_set_in 0 k == 0) (i % 8) zero_table (omega arith)))

align_lem :
    (addr size : ℕ)
    → addr + size + 0x1000 < 2 ^ 32
    → (block_align (add32 addr size) % 4096 ≡ 0) × (addr + size ≤ block_align (add32 addr size))
unfolding block_align
align_lem addr size room =
    let sum : add32 addr size ≡ addr + size = omega arith in
    let page = bit_and-page (addr + size) (omega arith) in
    rw sum (omega (arith, page), omega (arith, page))

init_pmm_start :
    (p : Pmm) (mem_size : ℕ)
    → p.bitmap_addr + mem_size / 4096 + 0x2000 < 2 ^ 32
    → let p' = init_pmm p mem_size in
      (p'.mem_start % 4096 ≡ 0) × (p.bitmap_addr + p'.bitmap_size ≤ p'.mem_start)
unfolding init_pmm
init_pmm_start p mem_size room =
    let p' = init_pmm p mem_size in
    let small : p'.bitmap_size ≤ mem_size / 4096 + 1 =
      omega (arith, (init_pmm_total p mem_size).1) in
    align_lem p.bitmap_addr p'.bitmap_size (omega arith)

-- init_pmm counts the whole blocks of the memory, clears just the bytes of the bitmap that hold
-- them, so that no block is allocated, and leaves the bytes behind the bitmap alone. The memory
-- that it hands out starts on a page behind the bitmap.
pub init_pmm-allocated :
    (p : Pmm) (mem_size : ℕ)
    → p.bitmap_addr + mem_size / 4096 + 0x2000 < 2 ^ 32
    → let p' = init_pmm p mem_size in
      (p'.total_blocks ≡ mem_size / 4096)
      × ((i : ℕ) → i < p'.total_blocks → allocated p' i ≡ false)
      × ((a : ℕ) → mem_size / 4096 + 7 < a * 8 + 8 → p'.bitmap a ≡ p.bitmap a)
      × (p'.mem_start % 4096 ≡ 0)
      × (p.bitmap_addr + p'.bitmap_size ≤ p'.mem_start)
unfolding allocated
init_pmm-allocated p mem_size room =
    let (total, size, bytes) = init_pmm_total p mem_size in
    (
      total,
      λ i lt. rw (is_set-zero (init_pmm p mem_size).bitmap i (ground (arith, bytes (i / 8)))) refl,
      λ a past. ground (arith, bytes a),
      ground (arith, init_pmm_start p mem_size room),
      ground (arith, init_pmm_start p mem_size room),
    )
