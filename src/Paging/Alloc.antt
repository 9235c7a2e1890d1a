-- ===== src/Paging/Alloc.antt =====
-- `d_kmalloc` of src/mem/paging.c, and what `alloc_page` does to tables and directories.
use sector_os_re.Base.{
  inr, inl, Bool-cases, ℕ, ◌+◌, ◌*◌, ◌%◌, ◌^◌, ◌≤◌, ◌<◌, ◌≡◌, ◌≢◌, refl, true, false, ◌&&◌, update,
  add32, ◌==◌, if◌then◌else◌, arith, le-bit_or, bit_and-page,
}
use sector_os_re.Paging.{
  with_table, Mmu, zero_entry, is_align, page_align, d_kmalloc, new_table, fill_entry,
}

-- No address passes IS_ALIGN: it tests `addr | 0xFFFFF000`, which is never 0.
pub is_align-false : (addr : ℕ) → is_align addr ≡ false
unfolding is_align
is_align-false addr = ground (arith, le-bit_or addr 0xffff_f000)

-- PAGE_ALIGN goes to the next page also from an address that is the start of one.
pub page_align_lem : (addr : ℕ) → addr + 4096 < 2 ^ 32 → page_align addr + addr % 4096 ≡ addr + 4096
unfolding page_align
page_align_lem addr h = omega (arith, bit_and-page addr (omega arith))

pub d_kmalloc_aligned : (m : Mmu) (size : ℕ) → (d_kmalloc m size true).0 ≡ page_align m.temp_mem
unfolding d_kmalloc
d_kmalloc_aligned m size = rw (is_align-false m.temp_mem)

-- Two aligned requests for whole pages, one after the other, answer page-aligned ranges that lie
-- behind one another without a gap, although the second starts from a `temp_mem` that is not
-- aligned.
pub d_kmalloc_disjoint :
    (m : Mmu) (pages size : ℕ)
    → m.temp_mem + pages * 4096 + 4096 < 2 ^ 32
    → let (first, m1) = d_kmalloc m (pages * 4096) true in
      let (second, m2) = d_kmalloc m1 size true in
      (first % 4096 ≡ 0) × (m.temp_mem < first) × (second ≡ first + pages * 4096)
unfolding d_kmalloc
d_kmalloc_disjoint m pages size h =
    let next : add32 m.temp_mem (pages * 4096) ≡ m.temp_mem + pages * 4096 = omega arith in
    let here = page_align_lem m.temp_mem (omega arith) in
    let there = page_align_lem (m.temp_mem + pages * 4096) (omega arith) in
    rw (is_align-false m.temp_mem, is_align-false (add32 m.temp_mem (pages * 4096)), next)
      (omega arith)

-- The invariant of the page directories. A table's address is not above `temp_mem`, so the next
-- aligned one is new; no two entries of a directory lead to one table.
pub record IsValid (m : Mmu) : Type 0 where
  pub below : (d i : ℕ) → (m.dirs d).ref_tables i ≤ m.temp_mem
  pub distinct :
      (d i j : ℕ)
      → (m.dirs d).ref_tables i ≢ 0
      → (m.dirs d).ref_tables i ≡ (m.dirs d).ref_tables j
      → i ≡ j

-- Addresses are left for one more table.
abbrev pub HasRoom : Mmu → Type 0
HasRoom m = m.temp_mem + 8192 < 2 ^ 32

module _ (m : Mmu) (dir idx : ℕ) where
  pub new_table_refs :
      (d i : ℕ)
      → ((new_table m dir idx).dirs d).ref_tables i
        ≡ (if d == dir && i == idx then page_align m.temp_mem else (m.dirs d).ref_tables i)
  unfolding new_table d_kmalloc
  new_table_refs d i = rw (is_align-false m.temp_mem) (ground arith)

  pub new_table_tables :
      (new_table m dir idx).tables ≡ update m.tables (page_align m.temp_mem) (λ _. zero_entry)
  unfolding new_table d_kmalloc
  new_table_tables = rw (is_align-false m.temp_mem) refl

  pub new_table_rest :
      let m' = new_table m dir idx in
      (m'.pmm ≡ m.pmm)
      × (m'.temp_mem ≡ add32 m.temp_mem 4096)
      × (m'.paging_enabled ≡ m.paging_enabled)
      × (m'.temp_page_dir ≡ m.temp_page_dir)
      × (m'.heap_curr ≡ m.heap_curr)
  unfolding new_table d_kmalloc
  new_table_rest = (refl, refl, refl, refl, refl)

  pub new_table-IsValid :
      IsValid m → HasRoom m → (m.dirs dir).ref_tables idx ≡ 0 → IsValid (new_table m dir idx)
  new_table-IsValid v room empty = record {
    below = λ d i. ground (
      arith,
      new_table_refs d i,
      new_table_rest,
      v.below d i,
      page_align_lem m.temp_mem (omega arith),
    );
    distinct = λ d i j ne e. ground (
      arith,
      new_table_refs d i,
      new_table_refs d j,
      v.below d i,
      v.below d j,
      v.distinct d i j,
      page_align_lem m.temp_mem (omega arith),
    );
  }

module _ (m : Mmu) (table idx frame : ℕ) where
  pub fill_entry_dirs :
      let m' = fill_entry m table idx frame in
      (m'.dirs ≡ m.dirs)
      × (m'.temp_mem ≡ m.temp_mem)
      × (m'.paging_enabled ≡ m.paging_enabled)
      × (m'.temp_page_dir ≡ m.temp_page_dir)
      × (m'.heap_curr ≡ m.heap_curr)
  unfolding fill_entry
  fill_entry_dirs = ground arith

  pub fill_entry-IsValid : IsValid m → IsValid (fill_entry m table idx frame)
  fill_entry-IsValid v =
      let same = fill_entry_dirs in
      record {
        below = λ d i. rw (same.0, same.1) (v.below d i);
        distinct = λ d i j. rw same.0 (v.distinct d i j);
      }

-- After with_table the directory has a table at `idx`, and is well formed.
module _ (m : Mmu) (dir idx : ℕ) (v : IsValid m) (room : HasRoom m) where
  pub with_table-IsValid : IsValid (with_table m dir idx)
  unfolding with_table
  with_table-IsValid = elim (Bool-cases ((m.dirs dir).ref_tables idx == 0)) [
    | inl empty ↦ rw empty (new_table-IsValid m dir idx v room (ground arith))
    | inr there ↦ rw there v
  ]

  pub with_table-ne : ((with_table m dir idx).dirs dir).ref_tables idx ≢ 0
  unfolding with_table
  with_table-ne =
      ground (arith, new_table_refs m dir idx dir idx, page_align_lem m.temp_mem (omega arith))
