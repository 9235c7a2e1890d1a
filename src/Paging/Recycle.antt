-- ===== src/Paging/Recycle.antt =====
-- alloc_page and free_page of src/mem/paging.c together with the physical memory of src/mem/pmm.c.
use sector_os_re.Paging.Alloc.{new_table_rest, fill_entry_dirs, IsValid, HasRoom}
use sector_os_re.Paging.Translate.{
  free_page-pmm, free_page-mapped, alloc_page-mapped, alloc_page-pmm, alloc_page-IsValid, mapped,
}
use sector_os_re.Paging.{free_page, with_table, Mmu, alloc_page}
use sector_os_re.Base.{true, ◌%◌, none, arith, ◌≢◌, ◌^◌, ◌≤◌, ◌/◌, ◌≡◌, ℕ}
use sector_os_re.Pmm.Bits.{IsBytes}
use sector_os_re.Pmm.Alloc.{free_block-alloc_block, alloc_block-allocated, HasFree}

pub alloc_page-temp_page_dir :
    (m : Mmu) (dir vaddr frame : ℕ) → (alloc_page m dir vaddr frame).temp_page_dir ≡ m.temp_page_dir
unfolding alloc_page with_table
alloc_page-temp_page_dir m dir vaddr frame =
    let idx = vaddr / 2 ^ 22 in
    let m1 = with_table m dir idx in
    ground (
      arith,
      fill_entry_dirs m1 ((m1.dirs dir).ref_tables idx) (vaddr / 2 ^ 12 % 1024) frame,
      new_table_rest m dir idx,
    )

-- A page that was not mapped, mapped by alloc_page to a fresh block and freed again: the mapping
-- and the physical memory are as before.
pub free_page-alloc_page :
    (m : Mmu) (dir vaddr : ℕ)
    → IsValid m
    → HasRoom m
    → IsBytes m.pmm.bitmap
    → HasFree m.pmm
    → m.pmm.total_blocks ≤ 2 ^ 20
    → dir ≢ 0
    → dir ≢ m.temp_page_dir
    → mapped m dir (vaddr / 2 ^ 12) ≡ none
    → let m' = free_page (alloc_page m dir vaddr 0) dir vaddr true in
      ((page : ℕ) → mapped m' dir page ≡ mapped m dir page) × (m'.pmm ≡ m.pmm)
free_page-alloc_page m dir vaddr v room bytes free small ne ne' unmapped =
    let m1 = alloc_page m dir vaddr 0 in
    let v1 = alloc_page-IsValid m dir vaddr 0 v room in
    let ne1 : dir ≢ m1.temp_page_dir = rw (alloc_page-temp_page_dir m dir vaddr 0) ne' in
    let low = (alloc_block-allocated m.pmm bytes free).0 in
    let took = alloc_page-pmm m dir vaddr 0 v room ne in
    let entered = alloc_page-mapped m dir vaddr 0 (vaddr / 2 ^ 12) v room ne in
    (
      λ page. ground (
        arith,
        free_page-mapped m1 dir vaddr page true v1 ne1,
        alloc_page-mapped m dir vaddr 0 page v room ne,
      ),
      ground (
        arith,
        free_page-pmm m1 dir vaddr true ne1,
        took,
        entered,
        free_block-alloc_block m.pmm bytes free,
      ),
    )
