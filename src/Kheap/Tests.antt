-- ===== src/Kheap/Tests.antt =====
-- The theorems about src/mem/kheap.c on a heap with three free blocks.
use sector_os_re.Paging.{Mmu}
use sector_os_re.Base.{
  update, ◌≤◌, ◌⊎◌, ◌≢◌, inr, inl, some, arith, ◌≡◌, refl, ◌∷◌, true, [], false, ◌+◌, ℕ, Memory,
}
use sector_os_re.Kheap.FreeList.{add_to_list-IsFreeList, IsFreeList}
use sector_os_re.Kheap.{
  is_free, does_it_fit, size_of, add_to_list, remove_from_list, best_fit, header, Heap,
}
use sector_os_re.Kheap.Malloc.{malloc, rounded_size}
use sector_os_re.Kheap.Unlink.{remove_from_list-IsFreeList}
use sector_os_re.Kheap.Sizes.{malloc-extend}
use sector_os_re.Kheap.BestFit.{best_fit-IsBest, In}

abbrev mmu : Mmu
mmu = record {
  dirs = λ _. record {
    tables =
        λ _. record { present = false; rw = false; user = false; page_size = false; frame = 0 };
    ref_tables = λ _. 0;
  };
  tables = λ _ _. record { present = false; rw = false; user = false; frame = 0 };
  pmm = record {
    bitmap = λ _. 0;
    bitmap_addr = 0x0020_0000;
    mem_start = 0x0020_1000;
    total_blocks = 1024;
    bitmap_size = 128;
  };
  temp_mem = 0xc020_0000;
  paging_enabled = true;
  kernel_page_dir = 0xc010_1000;
  temp_page_dir = 0xc010_0000;
  heap_curr = 0xc0e0_0000;
  heap_end = 0xc0e0_1000;
  heap_max = 0xe000_0000;
}

-- Blocks at 1000, 2000 and 3000 of 64, 32 and 128 bytes, each marked free.
abbrev cells : Memory
cells =
    update
      (update
        (update (update (update (update (update (λ _. 0) 1000 2000) 1008 65) 2000 3000) 2004 1000)
          2008 33)
        3004 2000)
      3008 129

abbrev three : Heap
three = record { mem = cells; head = 1000; tail = 3000; free_list = 1000; mmu = mmu }

three-IsFreeList : IsFreeList three (1000 ∷ 2000 ∷ 3000 ∷ [])
three-IsFreeList = record {
  start = refl;
  linked = ((omega arith, refl, refl, (omega arith, refl, refl, (omega arith, refl, refl, tt))));
  apart = ((inl (omega arith), (inl (omega arith), tt)), ((inl (omega arith), tt), (tt, tt)));
}

best_fit-IsBest_example :
    (r : ℕ) × (best_fit 4 three 48 ≡ some r)
    × (((r ≡ 0) × ((b : ℕ) → In b (1000 ∷ 2000 ∷ 3000 ∷ []) → does_it_fit cells b 48 ≢ true))
        ⊎ (In r (1000 ∷ 2000 ∷ 3000 ∷ [])
            × (does_it_fit cells r 48 ≡ true)
            × ((b : ℕ)
                → In b (1000 ∷ 2000 ∷ 3000 ∷ [])
                → does_it_fit cells b 48 ≡ true
                → size_of cells r ≤ size_of cells b)))
best_fit-IsBest_example =
    best_fit-IsBest three (1000 ∷ 2000 ∷ 3000 ∷ []) 4 48 three-IsFreeList (omega arith)

remove_from_list-IsFreeList_example : IsFreeList (remove_from_list three 2000) (1000 ∷ 3000 ∷ [])
remove_from_list-IsFreeList_example =
    remove_from_list-IsFreeList three (1000 ∷ []) 2000 (3000 ∷ []) three-IsFreeList

add_to_list-IsFreeList_example :
    IsFreeList (add_to_list three 4000) (4000 ∷ 1000 ∷ 2000 ∷ 3000 ∷ [])
add_to_list-IsFreeList_example =
    add_to_list-IsFreeList three 4000 (1000 ∷ 2000 ∷ 3000 ∷ []) three-IsFreeList (omega arith)
      (inr (omega arith), (inr (omega arith), (inr (omega arith), tt)))

-- No block yet.
abbrev fresh : Heap
fresh = record { mem = λ _. 0; head = 0; tail = 0; free_list = 0; mmu = mmu }

fresh-IsFreeList : IsFreeList fresh []
fresh-IsFreeList = record { start = refl; linked = tt; apart = tt }

malloc-extend_example :
    let last = 0xc0e0_0000 + header + rounded_size 100 in
    (h' : Heap) × (malloc 1 fresh 100 ≡ some (0xc0e0_0000 + header, h'))
    × (size_of h'.mem 0xc0e0_0000 ≡ rounded_size 100)
    × (h'.mem last ≡ rounded_size 100)
    × (is_free h'.mem 0xc0e0_0000 ≡ false)
    × (h'.tail ≡ 0xc0e0_0000)
    × (h'.mmu.heap_curr ≡ last + 4)
    × ((a : ℕ) → a ≢ 0xc0e0_0008 → a ≢ last → h'.mem a ≡ 0)
malloc-extend_example =
    malloc-extend 1 fresh 100 fresh-IsFreeList (omega arith) (omega arith) (omega arith)
      (omega arith) (omega arith) (omega arith)
