-- ===== src/Kheap/Placement.antt =====
-- `kmalloc_int` of src/mem/kheap.c: before the heap there is only `placement_address`, from which
-- memory is taken without an end.
use sector_os_re.Base.{none, some, ◌==◌, not, ◌&&◌, if◌then◌else◌, Option, bit_and, add32, Bool, ℕ}
use sector_os_re.Kheap.{Heap}
use sector_os_re.Kheap.Malloc.{malloc}
use sector_os_re.Paging.{virt2phys}

-- The next page, for an address past the first one.
unfoldable pub align_placement : ℕ → Bool → ℕ
align_placement placement align =
    let page = bit_and placement 0xffff_f000 in
    if align && not (page == 0) then add32 page 0x1000 else placement

-- The answer and the next `placement_address`; `paddr` gets the same address. `kmalloc_c` does the
-- same.
unfoldable pub kmalloc_placement : ℕ → ℕ → Bool → ℕ × ℕ
kmalloc_placement placement size align =
    let tmp = align_placement placement align in (tmp, add32 tmp size)

-- With a heap: the address that is answered, and the physical one that `paddr` gets.
unfoldable pub kmalloc_heap : ℕ → Heap → ℕ → Bool → Option (ℕ × ℕ × Heap)
kmalloc_heap rounds h size align =
    let asked = if align then add32 size 4096 else size in
    elim (malloc rounds h asked) [
      | none ↦ none
      | some (addr, h1) ↦
          let aligned = add32 (bit_and addr 0xffff_f000) 0x1000 in
          let t = if align then aligned else addr in
          some (t, virt2phys h1.mmu h1.mmu.kernel_page_dir t, h1)
    ]
