-- ===== src/Paging/Sbrk.antt =====
-- `ksbrk` of src/mem/paging.c: how the kernel's heap grows.
use sector_os_re.Paging.Alloc.{IsValid, HasRoom}
use sector_os_re.Paging.Translate.{
  alloc_page-IsValid, frame_for, or_else, alloc_page-mapped, mapped,
}
use sector_os_re.Base.{
  leb, false, ◌==◌, ◌/◌, ◌%◌, refl, zero, inr, ◌∙◌, add32, inl, true, Bool-cases, ltb, suc, ◌-◌,
  ◌^◌, none, arith, ◌<◌, ◌≤◌, ◌*◌, some, ◌+◌, ◌≢◌, ◌≡◌, ℕ,
}
use sector_os_re.Paging.{
  ksbrk, fill_entry, d_kmalloc, new_table, with_table, sbrk_loop, alloc_page, Mmu,
}
use sector_os_re.Paging.Regions.{alloc_page-temp_mem}

-- alloc_page leaves the heap's bounds and the kernel's directory alone.
pub alloc_page-rest :
    (m : Mmu) (dir vaddr frame : ℕ)
    → let m' = alloc_page m dir vaddr frame in
      (m'.kernel_page_dir ≡ m.kernel_page_dir)
      × (m'.heap_curr ≡ m.heap_curr)
      × (m'.heap_end ≡ m.heap_end)
      × (m'.heap_max ≡ m.heap_max)
unfolding alloc_page with_table new_table d_kmalloc fill_entry
alloc_page-rest m dir vaddr frame = ground arith

-- The state after the loop of ksbrk has mapped the pages of the kernel from `first` up to `end`.
pub record IsGrown (m : Mmu) (first : ℕ) (m' : Mmu) (end : ℕ) : Type 0 where
  pub valid : IsValid m'
  pub same_heap :
      (m'.kernel_page_dir ≡ m.kernel_page_dir)
      × (m'.heap_curr ≡ m.heap_curr)
      × (m'.heap_max ≡ m.heap_max)
  pub kept :
      (page frame : ℕ)
      → mapped m m.kernel_page_dir page ≡ some frame
      → mapped m' m.kernel_page_dir page ≡ some frame
  pub inside :
      (page : ℕ) → first ≤ page → page * 4096 < end → mapped m' m.kernel_page_dir page ≢ none

IsGrown-step :
    (m : Mmu) (page : ℕ) (m' : Mmu) (end : ℕ)
    → IsValid m
    → HasRoom m
    → m.kernel_page_dir ≢ 0
    → IsGrown (alloc_page m m.kernel_page_dir (page * 4096) 0) (page + 1) m' end
    → IsGrown m page m' end
IsGrown-step m page m' end v room ne rest =
    let dir = m.kernel_page_dir in
    let step = λ (q : ℕ). alloc_page-mapped m dir (page * 4096) 0 q v room ne in
    let same = alloc_page-rest m dir (page * 4096) 0 in
    record {
      valid = rest.valid;
      same_heap = ground arith;
      kept = λ q f e. ground (arith, rest.kept q f, step q);
      inside = λ q lo hi.
          ground
            (arith, rest.inside q, rest.kept q (or_else (mapped m dir q) (frame_for m 0)), step q);
    }

module _ (bound : ℕ) where
  sbrk_loop_more :
      (rounds : ℕ) (m : Mmu) (page : ℕ)
      → page * 4096 < bound
      → page < 2 ^ 20 - 1
      → sbrk_loop (suc rounds) m (page * 4096) bound
        ≡ sbrk_loop rounds
            (alloc_page m m.kernel_page_dir (page * 4096) 0)
            ((page + 1) * 4096)
            bound
  unfolding sbrk_loop
  sbrk_loop_more rounds m page lt small =
      let more : ltb (page * 4096) bound ≡ true = ground arith in
      let next : add32 (page * 4096) 4096 ≡ (page + 1) * 4096 = omega arith in rw (more, next)

  sbrk_loop-IsGrown :
      (rounds : ℕ) (m : Mmu) (page : ℕ)
      → IsValid m
      → m.kernel_page_dir ≢ 0
      → m.temp_mem + rounds * 4096 + 8192 < 2 ^ 32
      → page * 4096 < bound + 4096
      → bound < 0xffff_f000
      → bound + 4096 ≤ page * 4096 + rounds * 4096
      → (last : ℕ) × (m' : Mmu) × (sbrk_loop rounds m (page * 4096) bound ≡ some (last * 4096, m'))
        × IsGrown m page m' (last * 4096)
        × (bound ≤ last * 4096)
        × (last * 4096 < bound + 4096)
  unfolding sbrk_loop
  sbrk_loop-IsGrown zero m page v ne room near small fuel = absurd (omega arith)
  sbrk_loop-IsGrown (suc rounds) m page v ne room near small fuel =
      elim (Bool-cases (ltb (page * 4096) bound)) [
        | inl more ↦
            let dir = m.kernel_page_dir in
            let m1 = alloc_page m dir (page * 4096) 0 in
            let low : page * 4096 < bound = ground arith in
            let grown = alloc_page-temp_mem m dir (page * 4096) 0 (omega arith) in
            let v1 = alloc_page-IsValid m dir (page * 4096) 0 v (omega arith) in
            let same = alloc_page-rest m dir (page * 4096) 0 in
            let ne1 : m1.kernel_page_dir ≢ 0 = rw same.0 ne in
            let (last, m', ends, rest, over, close) =
              sbrk_loop-IsGrown rounds m1 (page + 1) v1 ne1 (omega arith) (omega arith) small
                (omega arith) in
            (
              last,
              m',
              sbrk_loop_more rounds m page low (omega arith) ∙ ends,
              IsGrown-step m page m' (last * 4096) v (omega arith) ne rest,
              over,
              close,
            )
        | inr done ↦
            let high : bound ≤ page * 4096 = ground arith in
            (
              page,
              m,
              rw done,
              record {
                valid = v;
                same_heap = (refl, refl, refl);
                kept = λ q f e. e;
                inside = λ q lo hi. absurd (omega arith);
              },
              high,
              near,
            )
      ]

-- Inside the mapped heap, and past its maximum, ksbrk decides by the bounds alone: it moves
-- `heap_curr` and answers the old one, or answers NULL and changes nothing.
pub ksbrk_in_bounds :
    (m : Mmu) (size : ℕ)
    → 0 < size
    → m.heap_curr + size < 2 ^ 32
    → ((m.heap_curr + size ≤ m.heap_end)
        → ksbrk m size ≡ some (m.heap_curr, record m { heap_curr = m.heap_curr + size }))
      × ((m.heap_end < m.heap_curr + size)
          → m.heap_max < m.heap_curr + size
          → ksbrk m size ≡ some (0, m))
unfolding ksbrk
ksbrk_in_bounds m size pos small = (λ le. ground arith, λ over full. ground arith)

ksbrk_past_end :
    (m : Mmu) (size runner : ℕ) (m' : Mmu)
    → m.heap_end < m.heap_curr + size
    → m.heap_curr + size ≤ m.heap_max
    → m.heap_curr ≤ m.heap_end
    → m.heap_max < 0xffff_f000
    → m.heap_end % 4096 ≡ 0
    → sbrk_loop
        ((m.heap_curr + size - m.heap_end) / 4096 + 2)
        m
        (m.heap_end / 4096 * 4096)
        (m.heap_curr + size)
      ≡ some (runner, m')
    → ksbrk m size
      ≡ some (m.heap_curr, record m' { heap_end = runner; heap_curr = m.heap_curr + size })
unfolding ksbrk
ksbrk_past_end m size runner m' over le in_heap max aligned ends =
    let bound : add32 m.heap_curr size ≡ m.heap_curr + size = omega arith in
    let first : m.heap_end / 4096 * 4096 ≡ m.heap_end = omega arith in
    let positive : (size == 0) ≡ false = ground arith in
    let past : leb (m.heap_curr + size) m.heap_end ≡ false = ground arith in
    let below : ltb m.heap_max (m.heap_curr + size) ≡ false = ground arith in
    let ends' = rw first at ends in rw (positive, bound, past, below, ends')

-- Between the end of the mapped heap and its maximum, ksbrk ends, answers the old `heap_curr`,
-- moves it by `size`, and moves `heap_end` to the end of its page; every page of the kernel
-- between the old and the new `heap_end` is mapped, and no page has lost its frame.
pub ksbrk-IsGrown :
    (m : Mmu) (size : ℕ)
    → IsValid m
    → m.kernel_page_dir ≢ 0
    → m.heap_end % 4096 ≡ 0
    → m.heap_end < m.heap_curr + size
    → m.heap_curr + size ≤ m.heap_max
    → m.heap_curr ≤ m.heap_end
    → m.heap_max < 0xffff_f000
    → m.temp_mem + size + 0x5000 < 2 ^ 32
    → (m' : Mmu) × (ksbrk m size ≡ some (m.heap_curr, m'))
      × (m'.heap_curr ≡ m.heap_curr + size)
      × (m'.heap_max ≡ m.heap_max)
      × (m'.heap_end % 4096 ≡ 0)
      × (m'.heap_curr ≤ m'.heap_end)
      × (m'.heap_end < m'.heap_curr + 4096)
      × ((page : ℕ)
          → m.heap_end ≤ page * 4096
          → page * 4096 < m'.heap_end
          → mapped m' m.kernel_page_dir page ≢ none)
      × ((page frame : ℕ)
          → mapped m m.kernel_page_dir page ≡ some frame
          → mapped m' m.kernel_page_dir page ≡ some frame)
      × IsValid m'
unfolding mapped
ksbrk-IsGrown m size v ne aligned over le in_heap max room =
    let (last, m', ends, grown, high, near) =
      sbrk_loop-IsGrown (m.heap_curr + size) ((m.heap_curr + size - m.heap_end) / 4096 + 2) m
        (m.heap_end / 4096) v ne (omega arith) (omega arith) (omega arith) (omega arith) in
    (
      record m' { heap_end = last * 4096; heap_curr = m.heap_curr + size },
      ksbrk_past_end m size (last * 4096) m' over le in_heap max aligned ends,
      refl,
      grown.same_heap.2,
      omega arith,
      high,
      near,
      λ page lo hi. grown.inside page (omega arith) hi,
      grown.kept,
      record { below = grown.valid.below; distinct = grown.valid.distinct },
    )
