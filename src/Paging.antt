-- ===== src/Paging.antt =====
-- src/mem/paging.c: page directories and page tables, the early allocator `d_kmalloc`, and `ksbrk`.
-- Directories and tables are objects, kept by address; the address 0 is `NULL`. Of an entry the
-- model keeps the bits that the code reads or writes. Error messages are not kept.
pub mod Alloc
pub mod Translate
pub mod Recycle
pub mod Regions
pub mod Sbrk
mod Tests
use mathlib.Core.Option
use sector_os_re.Base.{
  ◌-◌, ℕ, zero, suc, ◌+◌, ◌*◌, ◌/◌, ◌%◌, ◌^◌, Bool, true, false, not, Option, none, some, ◌&&◌,
  update, add32, sub32, bit_and, bit_or, ltb, leb, ◌==◌, if◌then◌else◌,
}
use sector_os_re.Pmm.{Pmm, alloc_block, free_block}

abbrev pub page_size : ℕ
page_size = 4096

abbrev pub kernel_base : ℕ
kernel_base = 0xc000_0000

-- `page_dir_entry_t`
pub record DirEntry : Type 0 where
  pub present : Bool
  pub rw : Bool
  pub user : Bool
  pub page_size : Bool
  pub frame : ℕ

-- `page_table_entry_t`
pub record TableEntry : Type 0 where
  pub present : Bool
  pub rw : Bool
  pub user : Bool
  pub frame : ℕ

-- what `memset` to 0 leaves
abbrev pub zero_entry : TableEntry
zero_entry = record { present = false; rw = false; user = false; frame = 0 }

-- `pages` of `page_table_t`
abbrev pub Table : Type 0
Table = ℕ → TableEntry

-- `page_directory_t`; a `ref_tables` entry is the address of a table.
pub record Directory : Type 0 where
  pub tables : ℕ → DirEntry
  pub ref_tables : ℕ → ℕ

-- The globals of paging.c and the objects that they reach. `temp_page_dir` is the address of
-- `TEMP_PAGE_DIR` of loader.asm.
pub record Mmu : Type 0 where
  pub dirs : ℕ → Directory
  pub tables : ℕ → Table
  pub pmm : Pmm
  pub temp_mem : ℕ
  pub paging_enabled : Bool
  pub kernel_page_dir : ℕ
  pub temp_page_dir : ℕ
  pub heap_curr : ℕ
  pub heap_end : ℕ
  pub heap_max : ℕ

abbrev pub page_dir_index : ℕ → ℕ
page_dir_index vaddr = vaddr / 2 ^ 22

abbrev pub page_table_index : ℕ → ℕ
page_table_index vaddr = vaddr / 2 ^ 12 % 1024

abbrev pub page_frame_index : ℕ → ℕ
page_frame_index vaddr = vaddr % 4096

pub is_align : ℕ → Bool
is_align addr = bit_or addr 0xffff_f000 == 0

pub page_align : ℕ → ℕ
page_align addr = add32 (bit_and addr 0xffff_f000) 0x1000

pub virt2phys : Mmu → ℕ → ℕ → ℕ
virt2phys m dir vaddr =
    let table = (m.dirs dir).ref_tables (page_dir_index vaddr) in
    let entry = m.tables table (page_table_index vaddr) in
    if not m.paging_enabled
    then sub32 vaddr kernel_base
    else if table == 0
    then 0
    else if not entry.present
    then 0
    else add32 (entry.frame * 2 ^ 12) (page_frame_index vaddr)

-- `align` is true or false.
pub d_kmalloc : Mmu → ℕ → Bool → ℕ × Mmu
d_kmalloc m size align =
    let ret = if align && not (is_align m.temp_mem) then page_align m.temp_mem else m.temp_mem in
    (ret, record m { temp_mem = add32 m.temp_mem size })

-- The directory entry that alloc_page writes for a fresh table.
pub new_table : Mmu → ℕ → ℕ → Mmu
new_table m dir idx =
    let (table, m1) = d_kmalloc m 4096 true in
    let m2 = record m1 { tables = update m1.tables table (λ _. zero_entry) } in
    let t = virt2phys m2 m2.kernel_page_dir table in
    let entry : DirEntry = record {
      frame = t / 2 ^ 12;
      present = true;
      rw = true;
      user = true;
      page_size = false;
    } in
    let d = m2.dirs dir in
    let d' = record d {
      tables = update d.tables idx entry;
      ref_tables = update d.ref_tables idx table;
    } in
    record m2 { dirs = update m2.dirs dir d' }

-- The table entry that alloc_page writes, if there is none. `frame` has 20 bits.
pub fill_entry : Mmu → ℕ → ℕ → ℕ → Mmu
fill_entry m table idx frame =
    let (t, p) = if frame == 0 then alloc_block m.pmm else (frame, m.pmm) in
    let entry = record (m.tables table idx) {
      frame = t % 2 ^ 20;
      present = true;
      rw = true;
      user = true;
    } in
    if (m.tables table idx).present
    then m
    else record m { pmm = p; tables = update m.tables table (update (m.tables table) idx entry) }

-- The table for `idx`, made if there is none.
pub with_table : Mmu → ℕ → ℕ → Mmu
with_table m dir idx = if (m.dirs dir).ref_tables idx == 0 then new_table m dir idx else m

-- `is_kernel` and `is_writable` are read nowhere. Nothing sets `kheap_enabled` (kheap.c sets
-- `Kheap_enabled`), so a fresh table always comes from `d_kmalloc`.
pub alloc_page : Mmu → ℕ → ℕ → ℕ → Mmu
alloc_page m dir vaddr frame =
    let idx = page_dir_index vaddr in
    let m1 = with_table m dir idx in
    if dir == 0
    then m
    else fill_entry m1 ((m1.dirs dir).ref_tables idx) (page_table_index vaddr) frame

pub free_page : Mmu → ℕ → ℕ → Bool → Mmu
free_page m dir vaddr free =
    let table = (m.dirs dir).ref_tables (page_dir_index vaddr) in
    let idx = page_table_index vaddr in
    let entry = m.tables table idx in
    let gone = record entry { present = false; frame = 0 } in
    let p = if free then free_block m.pmm entry.frame else m.pmm in
    if dir == m.temp_page_dir
    then m
    else if table == 0
    then m
    else if not entry.present
    then m
    else record m { pmm = p; tables = update m.tables table (update (m.tables table) idx gone) }

-- The rounds that `alloc_region` and `free_region` need, one of them to leave the loop.
pub region_rounds : ℕ → ℕ → ℕ
region_rounds start end = (end - start) / 4096 + 2

-- `while(start <= end)`. `none` is a loop that has not ended.
pub alloc_region_loop : ℕ → Mmu → ℕ → ℕ → ℕ → Bool → Option Mmu
alloc_region_loop zero m dir start end iden_map = none
alloc_region_loop (suc rounds) m dir start end iden_map =
    let frame = if iden_map then start / page_size else 0 in
    let rest =
      alloc_region_loop rounds (alloc_page m dir start frame) dir (add32 start page_size) end
        iden_map in
    if leb start end then rest else some m

pub alloc_region : Mmu → ℕ → ℕ → ℕ → Bool → Option Mmu
alloc_region m dir start_vaddr end_vaddr iden_map =
    let start = bit_and start_vaddr 0xffff_f000 in
    let end = bit_and end_vaddr 0xffff_f000 in
    alloc_region_loop (region_rounds start end) m dir start end iden_map

unfoldable pub free_region_loop : ℕ → Mmu → ℕ → ℕ → ℕ → Option Mmu
free_region_loop zero m dir start end = none
free_region_loop (suc rounds) m dir start end =
    let rest =
      free_region_loop rounds (free_page m dir start true) dir (add32 start page_size) end in
    if leb start end then rest else some m

-- The parameter `free` is not read: `free_page` is always told to free the block.
unfoldable pub free_region : Mmu → ℕ → ℕ → ℕ → Bool → Option Mmu
free_region m dir start_vaddr end_vaddr free =
    let start = bit_and start_vaddr 0xffff_f000 in
    let end = bit_and end_vaddr 0xffff_f000 in
    free_region_loop (region_rounds start end) m dir start end

-- `while(runner < new_boundary)` of `ksbrk`
pub sbrk_loop : ℕ → Mmu → ℕ → ℕ → Option (ℕ × Mmu)
sbrk_loop zero m runner new_boundary = none
sbrk_loop (suc rounds) m runner new_boundary =
    let rest =
      sbrk_loop rounds (alloc_page m m.kernel_page_dir runner 0) (add32 runner page_size)
        new_boundary in
    if ltb runner new_boundary then rest else some (runner, m)

-- `size` is unsigned, so the branch for `size < 0` is never taken. `alloc_page` leaves `heap_curr`
-- alone (`alloc_page-rest`), so neither is the `goto restart_sbrk`.
pub ksbrk : Mmu → ℕ → Option (ℕ × Mmu)
ksbrk m size =
    let new_boundary = add32 m.heap_curr size in
    let grown = sbrk_loop ((new_boundary - m.heap_end) / 4096 + 2) m m.heap_end new_boundary in
    if size == 0
    then some (m.heap_curr, m)
    else if leb new_boundary m.heap_end
    then some (m.heap_curr, record m { heap_curr = new_boundary })
    else if ltb m.heap_max new_boundary
    then some (0, m)
    else Option.map
        (λ (runner, m'). (m.heap_curr, record m' { heap_end = runner; heap_curr = new_boundary }))
        grown
