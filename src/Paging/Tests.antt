-- ===== src/Paging/Tests.antt =====
-- The theorems about src/mem/paging.c in the state in which the kernel maps its first pages.
use sector_os_re.Pmm.{is_set_in, is_set, Pmm}
use sector_os_re.Pmm.Bits.{IsBytes}
use sector_os_re.Paging.Alloc.{IsValid}
use sector_os_re.Pmm.Alloc.{HasFree, allocated}
use sector_os_re.Paging.{zero_entry, ksbrk, alloc_region, free_page, alloc_page, Mmu}
use sector_os_re.Base.{
  ◌≢◌, ◌≤◌, ◌+◌, ◌<◌, ◌*◌, ◌%◌, some, none, refl, ◌≡◌, true, false, arith, ℕ, update,
}
use sector_os_re.Paging.Translate.{
  or_else, alloc_page-mapped, free_page-mapped, mapped, alloc_page-IsValid,
}
use sector_os_re.Paging.Recycle.{alloc_page-temp_page_dir, free_page-alloc_page}
use sector_os_re.Paging.Regions.{alloc_region-IsMapped, IsMapped}
use sector_os_re.Paging.Sbrk.{ksbrk-IsGrown}

abbrev blocks : Pmm
blocks = record {
  bitmap = update (λ _. 0) 0 3;
  bitmap_addr = 0x0020_0000;
  mem_start = 0x0020_1000;
  total_blocks = 1024;
  bitmap_size = 128;
}

abbrev kernel_dir : ℕ
kernel_dir = 0xc010_1000

abbrev booted : Mmu
booted = record {
  dirs = λ _. record {
    tables =
        λ _. record { present = false; rw = false; user = false; page_size = false; frame = 0 };
    ref_tables = λ _. 0;
  };
  tables = λ _ _. zero_entry;
  pmm = blocks;
  temp_mem = 0xc020_0000;
  paging_enabled = false;
  kernel_page_dir = kernel_dir;
  temp_page_dir = 0xc010_0000;
  heap_curr = 0xc0e0_0000;
  heap_end = 0xc0e0_0000;
  heap_max = 0xe000_0000;
}

booted-IsValid : IsValid booted
booted-IsValid = record { below = λ d i. omega arith; distinct = λ d i j ne e. absurd (ne refl) }

blocks-IsBytes : IsBytes blocks.bitmap
blocks-IsBytes a = ground arith

blocks-HasFree : HasFree blocks
unfolding allocated is_set is_set_in
blocks-HasFree = (2, omega arith, refl)

unmapped : (page : ℕ) → mapped booted kernel_dir page ≡ none
unfolding mapped
unmapped page = refl

free_page-alloc_page_example :
    let m' = free_page (alloc_page booted kernel_dir 0xc0e0_0000 0) kernel_dir 0xc0e0_0000 true in
    ((page : ℕ) → mapped m' kernel_dir page ≡ mapped booted kernel_dir page) × (m'.pmm ≡ blocks)
free_page-alloc_page_example =
    free_page-alloc_page booted kernel_dir 0xc0e0_0000 booted-IsValid (omega arith) blocks-IsBytes
      blocks-HasFree (omega arith) (omega arith) (omega arith) (unmapped 0xc0e00)

alloc_region-IsMapped_example :
    (m' : Mmu) × (alloc_region booted kernel_dir 0xc000_0000 0xc00f_f123 true ≡ some m')
    × IsMapped booted kernel_dir 0xc0000 0xc00ff true m'
alloc_region-IsMapped_example =
    alloc_region-IsMapped booted kernel_dir 0xc000_0000 0xc00f_f123 true booted-IsValid
      (omega arith) (omega arith) (omega arith) (omega arith)

ksbrk-IsGrown_example :
    (m' : Mmu) × (ksbrk booted 10000 ≡ some (0xc0e0_0000, m'))
    × (m'.heap_curr ≡ 0xc0e0_0000 + 10000)
    × (m'.heap_max ≡ 0xe000_0000)
    × (m'.heap_end % 4096 ≡ 0)
    × (m'.heap_curr ≤ m'.heap_end)
    × (m'.heap_end < m'.heap_curr + 4096)
    × ((page : ℕ)
        → 0xc0e0_0000 ≤ page * 4096
        → page * 4096 < m'.heap_end
        → mapped m' kernel_dir page ≢ none)
    × ((page frame : ℕ)
        → mapped booted kernel_dir page ≡ some frame
        → mapped m' kernel_dir page ≡ some frame)
    × IsValid m'
ksbrk-IsGrown_example =
    ksbrk-IsGrown booted 10000 booted-IsValid (omega arith) (omega arith) (omega arith)
      (omega arith) (omega arith) (omega arith) (omega arith)

alloc_page-mapped_example :
    mapped (alloc_page booted kernel_dir 0xc0e0_0000 7) kernel_dir 0xc0e00
    ≡ some (or_else (mapped booted kernel_dir 0xc0e00) 7)
alloc_page-mapped_example =
    alloc_page-mapped booted kernel_dir 0xc0e0_0000 7 0xc0e00 booted-IsValid (omega arith)
      (omega arith)

-- One page is mapped, to the frame 7, and paging is on.
abbrev with_page : Mmu
with_page = record (alloc_page booted kernel_dir 0xc0e0_0000 7) { paging_enabled = true }

with_page-IsValid : IsValid with_page
with_page-IsValid =
    let v = alloc_page-IsValid booted kernel_dir 0xc0e0_0000 7 booted-IsValid (omega arith) in
    record { below = v.below; distinct = v.distinct }

free_page-mapped_example :
    mapped (free_page with_page kernel_dir 0xc0e0_0000 true) kernel_dir 0xc0e00 ≡ none
free_page-mapped_example =
    free_page-mapped with_page kernel_dir 0xc0e0_0000 0xc0e00 true with_page-IsValid
      (rw (alloc_page-temp_page_dir booted kernel_dir 0xc0e0_0000 7) (omega arith))
