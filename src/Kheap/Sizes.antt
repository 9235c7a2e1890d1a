-- ===== src/Kheap/Sizes.antt =====
-- Sizes and marks in src/mem/kheap.c, and `malloc` where no free block fits.
use sector_os_re.Kheap.FreeList.{IsFreeList}
use sector_os_re.Kheap.Malloc.{put_tags, extend_heap, rounded_size, malloc}
use sector_os_re.Kheap.{
  set_size, best_fit_loop, header, size_of, Heap, ℕ, best_fit, set_free, Memory, is_free,
  get_real_size,
}
use sector_os_re.Base.{
  refl, update_self, ◌∙◌, zero, suc, sub32, update_ne, add32, ◌-◌, true, bit_and-shift, bit_or-zero,
  false, ◌/◌, some, bit_or, bit_and-mask, bit_or_step, ◌==◌, [], if◌then◌else◌, ◌%◌, arith, ◌≤◌,
  ◌≡◌, ◌<◌, ◌+◌, Bool, ◌≢◌, ◌^◌, Memory, ℕ,
}
use sector_os_re.Paging.Sbrk.{ksbrk_in_bounds}

-- malloc rounds a size up to the next multiple of 16.
pub rounded_size_lem :
    (size : ℕ)
    → size + 15 < 2 ^ 32
    → (rounded_size size % 16 ≡ 0) × (size ≤ rounded_size size) × (rounded_size size < size + 16)
unfolding rounded_size
rounded_size_lem size h = omega arith

-- For the last 15 sizes below 2 ^ 32 the sum wraps round, and the rounded size is 0.
pub rounded_size_wraps : (size : ℕ) → 2 ^ 32 ≤ size + 15 → size < 2 ^ 32 → rounded_size size ≡ 0
unfolding rounded_size
rounded_size_wraps size h lt = omega arith

-- setFree sets or clears the lowest bit, and getRealSize reads the size without it.
pub set_free_lem :
    (size : ℕ) (x : Bool)
    → size < 2 ^ 32
    → (get_real_size (set_free size x) ≡ get_real_size size)
      × (set_free size x % 2 ≡ (if x then 1 else 0))
unfolding get_real_size set_free
set_free_lem size true h =
    let odd = bit_or_step size 1 in
    let rest : bit_or (size / 2) 0 ≡ size / 2 = bit_or-zero (size / 2) in (omega arith, omega arith)
set_free_lem size false h =
    let even = bit_and-shift 1 size 0x7fff_ffff in
    let rest = bit_and-mask 31 (size / 2) in (omega arith, omega arith)

-- A block of a list is free exactly if the lowest bit of its size is set.
pub is_free_lem :
    (m : Memory) (block : ℕ) → block ≢ 0 → is_free m block ≡ (size_of m block % 2 == 1)
unfolding is_free
is_free_lem m block ne = ground (arith, bit_and-mask 1 (size_of m block))

set_free_even : (size : ℕ) → size < 2 ^ 32 → size % 2 ≡ 0 → set_free size false ≡ size
unfolding get_real_size
set_free_even size h even = omega (arith, set_free_lem size false h)

-- The state after ksbrk has answered the old end of the heap.
extended : Heap → ℕ → Heap
extended h size =
    let block = h.mmu.heap_curr in
    let h1 = record h {
      mmu = record h.mmu { heap_curr = block + (size + 16) };
      head = if h.head == 0 then block else h.head;
      tail = block;
    } in
    put_tags h1 block size (block + (size + 16) - 4)

extend_heap_in_bounds :
    (h : Heap) (size : ℕ)
    → size % 2 ≡ 0
    → 0 < h.mmu.heap_curr
    → h.mmu.heap_curr + (size + 16) ≤ h.mmu.heap_end
    → h.mmu.heap_end < 2 ^ 32
    → extend_heap h (size + 16) ≡ some (h.mmu.heap_curr + header, extended h size)
unfolding extend_heap extended
extend_heap_in_bounds h size even above fits end =
    let grown = (ksbrk_in_bounds h.mmu (size + 16) (omega arith) (omega arith)).0 fits in
    let back : sub32 (size + 16) 16 ≡ size = omega arith in
    let nonzero : (h.mmu.heap_curr == 0) ≡ false = ground arith in
    rw (grown, extend_heap, back, set_free_even size (omega arith) even, nonzero)

best_fit_none :
    (rounds : ℕ) (h : Heap) (size : ℕ)
    → h.free_list ≡ 0
    → 0 < rounds
    → best_fit rounds h size ≡ some 0
unfolding best_fit best_fit_loop
best_fit_none zero h size e fuel = absurd (omega arith)
best_fit_none (suc rounds) h size e fuel = rw e

-- With no block in the list malloc takes a new one from ksbrk, inside the mapped heap: the block
-- starts at the old end of the heap, is not free, holds the rounded size in its header and in its
-- last word, and is the last block. The answer is the address behind the header.
pub malloc-extend :
    (rounds : ℕ) (h : Heap) (size : ℕ)
    → IsFreeList h []
    → 0 < rounds
    → 0 < size
    → 0 < h.mmu.heap_curr
    → size + 31 < 2 ^ 32
    → h.mmu.heap_curr + (size + 31) ≤ h.mmu.heap_end
    → h.mmu.heap_end < 2 ^ 32
    → let block = h.mmu.heap_curr in
      let last = block + header + rounded_size size in
      (h' : Heap) × (malloc rounds h size ≡ some (block + header, h'))
      × (size_of h'.mem block ≡ rounded_size size)
      × (h'.mem last ≡ rounded_size size)
      × (is_free h'.mem block ≡ false)
      × (h'.tail ≡ block)
      × (h'.mmu.heap_curr ≡ last + 4)
      × ((a : ℕ) → a ≢ block + 8 → a ≢ last → h'.mem a ≡ h.mem a)
unfolding malloc extended put_tags
malloc-extend rounds h size f fuel pos above small fits end =
    let r = rounded_size size in
    let round = rounded_size_lem size (omega arith) in
    let some_size : (size == 0) ≡ false = ground arith in
    let whole : add32 r 16 ≡ r + 16 = omega arith in
    let took = extend_heap_in_bounds h r (omega arith) above (omega arith) end in
    let place : h.mmu.heap_curr + (r + 16) - 4 ≡ h.mmu.heap_curr + 12 + r = omega arith in
    let head_other : h.mmu.heap_curr + 8 ≢ h.mmu.heap_curr + 12 + r = omega arith in
    let tagged : size_of (extended h r).mem h.mmu.heap_curr ≡ r = rw place (
      update_ne (set_size h.mem h.mmu.heap_curr r) (h.mmu.heap_curr + 12 + r) r
        (h.mmu.heap_curr + 8) head_other
      ∙ update_self h.mem (h.mmu.heap_curr + 8) r) in
    let nonzero : h.mmu.heap_curr ≢ 0 = omega arith in
    (
      extended h r,
      rw (some_size, best_fit_none rounds h r f.start fuel, malloc, whole) took,
      tagged,
      rw place (update_self (set_size h.mem h.mmu.heap_curr r) (h.mmu.heap_curr + 12 + r) r),
      rw (is_free_lem (extended h r).mem h.mmu.heap_curr nonzero, tagged) (ground arith),
      refl,
      omega arith,
      λ a ne ne'. rw place (
          update_ne (set_size h.mem h.mmu.heap_curr r) (h.mmu.heap_curr + 12 + r) r a ne'
          ∙ update_ne h.mem (h.mmu.heap_curr + 8) r a ne),
    )
