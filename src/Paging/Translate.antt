-- ===== src/Paging/Translate.antt =====
-- The mapping that a page directory stands for, and how `alloc_page`, `free_page` and `virt2phys`
-- of src/mem/paging.c change and read it.
use sector_os_re.Base.{
  inr, inl, ◌+◌, ◌*◌, true, Bool, Bool-cases, ℕ, ◌/◌, ◌%◌, ◌^◌, ◌≡◌, ◌≢◌, Option, none, some, ◌==◌,
  if◌then◌else◌, arith,
}
use sector_os_re.Pmm.{free_block, alloc_block}
use sector_os_re.Paging.{with_table, free_page, virt2phys, alloc_page, Mmu, new_table, fill_entry}
use sector_os_re.Paging.Alloc.{
  fill_entry-IsValid, with_table-ne, with_table-IsValid, new_table_rest, IsValid, HasRoom,
  new_table_refs, new_table_tables, page_align_lem,
}

-- The frame that page number `page` is mapped to.
unfoldable pub mapped : Mmu → ℕ → ℕ → Option ℕ
mapped m dir page =
    let table = (m.dirs dir).ref_tables (page / 1024) in
    let entry = m.tables table (page % 1024) in
    if table == 0 then none else if entry.present then some entry.frame else none

-- the frame that alloc_page enters, and what is left of the physical memory
abbrev pub frame_for : Mmu → ℕ → ℕ
frame_for m frame = (if frame == 0 then (alloc_block m.pmm).0 else frame) % 2 ^ 20

abbrev pub or_else : Option ℕ → ℕ → ℕ
or_else none d = d
or_else (some a) d = a

mapped-fill_entry :
    (m : Mmu) (dir vaddr frame page : ℕ)
    → IsValid m
    → let table = (m.dirs dir).ref_tables (vaddr / 2 ^ 22) in
      table ≢ 0
      → mapped (fill_entry m table (vaddr / 2 ^ 12 % 1024) frame) dir page ≡ (
          if page == vaddr / 2 ^ 12
          then some (or_else (mapped m dir page) (frame_for m frame))
          else mapped m dir page)
unfolding mapped fill_entry
mapped-fill_entry m dir vaddr frame page v ne =
    ground (arith, v.distinct dir (vaddr / 2 ^ 22) (page / 1024))

fill_entry-pmm :
    (m : Mmu) (dir vaddr frame : ℕ)
    → let table = (m.dirs dir).ref_tables (vaddr / 2 ^ 22) in
      table ≢ 0
      → (fill_entry m table (vaddr / 2 ^ 12 % 1024) frame).pmm
        ≡ elim (mapped m dir (vaddr / 2 ^ 12)) [
          | none ↦ if frame == 0 then (alloc_block m.pmm).1 else m.pmm
          | some _ ↦ m.pmm
        ]
unfolding fill_entry mapped
fill_entry-pmm m dir vaddr frame ne = ground arith

module _ (m : Mmu) (dir : ℕ) where
  mapped-new_table :
      (idx page : ℕ)
      → IsValid m
      → HasRoom m
      → (m.dirs dir).ref_tables idx ≡ 0
      → mapped (new_table m dir idx) dir page ≡ mapped m dir page
  unfolding mapped
  mapped-new_table idx page v room empty = ground (
    arith,
    new_table_refs m dir idx dir (page / 1024),
    new_table_tables m dir idx,
    v.below dir (page / 1024),
    page_align_lem m.temp_mem (omega arith),
  )

  mapped-with_table :
      (idx page : ℕ)
      → IsValid m
      → HasRoom m
      → mapped (with_table m dir idx) dir page ≡ mapped m dir page
  unfolding with_table
  mapped-with_table idx page v room = elim (Bool-cases ((m.dirs dir).ref_tables idx == 0)) [
    | inl empty ↦ rw empty (mapped-new_table idx page v room (ground arith))
    | inr there ↦ rw there
  ]

  with_table-pmm : (idx : ℕ) → (with_table m dir idx).pmm ≡ m.pmm
  unfolding with_table
  with_table-pmm idx = ground (arith, new_table_rest m dir idx)

  -- alloc_page enters a frame for the page of `vaddr` if it had none (the given frame, or a fresh
  -- block if that is 0), and leaves every other page of the directory as it was, also where it has
  -- to make a new page table.
  pub alloc_page-mapped :
      (vaddr frame page : ℕ)
      → IsValid m
      → HasRoom m
      → dir ≢ 0
      → mapped (alloc_page m dir vaddr frame) dir page ≡ (
          if page == vaddr / 2 ^ 12
          then some (or_else (mapped m dir page) (frame_for m frame))
          else mapped m dir page)
  unfolding alloc_page
  alloc_page-mapped vaddr frame page v room ne =
      let idx = vaddr / 2 ^ 22 in
      ground (
        arith,
        mapped-fill_entry (with_table m dir idx) dir vaddr frame page
            (with_table-IsValid m dir idx v room) (with_table-ne m dir idx v room),
        mapped-with_table idx page v room,
        with_table-pmm idx,
      )

  -- alloc_page takes a block from the physical memory only for a page that is not mapped, and only
  -- if no frame is given.
  pub alloc_page-pmm :
      (vaddr frame : ℕ)
      → IsValid m
      → HasRoom m
      → dir ≢ 0
      → (alloc_page m dir vaddr frame).pmm ≡ elim (mapped m dir (vaddr / 2 ^ 12)) [
        | none ↦ if frame == 0 then (alloc_block m.pmm).1 else m.pmm
        | some _ ↦ m.pmm
      ]
  unfolding alloc_page
  alloc_page-pmm vaddr frame v room ne =
      let idx = vaddr / 2 ^ 22 in
      ground (
        arith,
        fill_entry-pmm (with_table m dir idx) dir vaddr frame (with_table-ne m dir idx v room),
        mapped-with_table idx (vaddr / 2 ^ 12) v room,
        with_table-pmm idx,
      )

  -- alloc_page keeps the page directories well formed.
  pub alloc_page-IsValid :
      (vaddr frame : ℕ) → IsValid m → HasRoom m → IsValid (alloc_page m dir vaddr frame)
  unfolding alloc_page
  alloc_page-IsValid vaddr frame v room =
      let idx = vaddr / 2 ^ 22 in
      elim (Bool-cases (dir == 0)) [
        | inl null ↦ rw null v
        | inr ok ↦ rw ok (fill_entry-IsValid _ _ _ _ (with_table-IsValid m dir idx v room))
      ]

  -- free_page takes the page of `vaddr` out of the directory's mapping, and leaves the others.
  pub free_page-mapped :
      (vaddr page : ℕ) (free : Bool)
      → IsValid m
      → dir ≢ m.temp_page_dir
      → let m' = free_page m dir vaddr free in
        (mapped m' dir page ≡ (if page == vaddr / 2 ^ 12 then none else mapped m dir page))
  unfolding free_page mapped
  free_page-mapped vaddr page free v ne =
      ground (arith, v.distinct dir (vaddr / 2 ^ 22) (page / 1024))

  pub free_page-pmm :
      (vaddr : ℕ) (free : Bool)
      → dir ≢ m.temp_page_dir
      → (free_page m dir vaddr free).pmm ≡ elim (mapped m dir (vaddr / 2 ^ 12)) [
        | none ↦ m.pmm
        | some frame ↦ if free then free_block m.pmm frame else m.pmm
      ]
  unfolding free_page mapped
  free_page-pmm vaddr free ne = ground arith

  -- With paging on, virt2phys answers the physical address in the frame that the page is mapped
  -- to, and 0 for a page that is not mapped.
  pub virt2phys-mapped :
      (vaddr : ℕ)
      → m.paging_enabled ≡ true
      → virt2phys m dir vaddr ≡ elim (mapped m dir (vaddr / 4096)) [
        | none ↦ 0
        | some frame ↦ (frame * 4096 + vaddr % 4096) % 2 ^ 32
      ]
  unfolding virt2phys mapped
  virt2phys-mapped vaddr on = ground arith
