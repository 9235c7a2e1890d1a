-- ===== src/Paging/Regions.antt =====
-- `alloc_region` of src/mem/paging.c: the loop over the pages of a range ends, and maps them all.
use sector_os_re.Paging.Alloc.{new_table_rest, fill_entry_dirs, IsValid, HasRoom}
use sector_os_re.Paging.Translate.{
  alloc_page-IsValid, frame_for, or_else, alloc_page-mapped, mapped,
}
use sector_os_re.Paging.{
  region_rounds, alloc_region, alloc_region_loop, with_table, alloc_page, Mmu,
}
use sector_os_re.Base.{
  bit_and-page, bit_and, ◌-◌, refl, ◌∙◌, zero, inr, add32, inl, leb, Bool-cases, if◌then◌else◌, ◌%◌,
  true, suc, arith, none, ◌/◌, ◌*◌, some, ◌≤◌, ◌≡◌, ◌⊎◌, ◌^◌, ◌+◌, ◌<◌, ◌≢◌, Bool, ℕ,
}

-- A call of alloc_page takes at most a page table from `temp_mem`.
pub alloc_page-temp_mem :
    (m : Mmu) (dir vaddr frame : ℕ)
    → m.temp_mem + 4096 < 2 ^ 32
    → (alloc_page m dir vaddr frame).temp_mem ≤ m.temp_mem + 4096
unfolding alloc_page with_table
alloc_page-temp_mem m dir vaddr frame h =
    let idx = vaddr / 2 ^ 22 in
    let m1 = with_table m dir idx in
    ground (
      arith,
      fill_entry_dirs m1 ((m1.dirs dir).ref_tables idx) (vaddr / 2 ^ 12 % 1024) frame,
      new_table_rest m dir idx,
    )

-- What alloc_region is to do with the pages from `first` to `last`.
pub record IsMapped (m : Mmu) (dir first last : ℕ) (iden_map : Bool) (m' : Mmu) : Type 0 where
  pub valid : IsValid m'
  pub outside : (page : ℕ) → (page < first) ⊎ (last < page) → mapped m' dir page ≡ mapped m dir page
  pub kept : (page frame : ℕ) → mapped m dir page ≡ some frame → mapped m' dir page ≡ some frame
  pub inside : (page : ℕ) → first ≤ page → page ≤ last → mapped m' dir page ≢ none
  pub identity :
      (page : ℕ)
      → iden_map ≡ true
      → first ≤ page
      → page ≤ last
      → 0 < page
      → page < 2 ^ 20
      → mapped m dir page ≡ none
      → mapped m' dir page ≡ some page

module _ (dir last : ℕ) (iden_map : Bool) (ne : dir ≢ 0) (end_room : last + 1 < 2 ^ 20) where
  IsMapped-step :
      (m : Mmu) (page : ℕ) (m' : Mmu)
      → IsValid m
      → HasRoom m
      → page ≤ last
      → IsMapped
          (alloc_page m dir (page * 4096) (if iden_map then page else 0))
          dir
          (page + 1)
          last
          iden_map
          m'
      → IsMapped m dir page last iden_map m'
  IsMapped-step m page m' v room le rest =
      let frame = if iden_map then page else 0 in
      let step = λ (q : ℕ). alloc_page-mapped m dir (page * 4096) frame q v room ne in
      record {
        valid = rest.valid;
        outside = λ q out. ground (arith, rest.outside q, step q);
        kept = λ q f e. ground (arith, rest.kept q f, step q);
        inside = λ q lo hi. ground (
          arith,
          rest.inside q,
          rest.kept q (or_else (mapped m dir q) (frame_for m frame)),
          step q,
        );
        identity =
            λ q on lo hi pos small un. ground (arith, rest.identity q, rest.kept q page, step q);
      }

  alloc_region_loop_more :
      (rounds : ℕ) (m : Mmu) (page : ℕ)
      → page ≤ last
      → alloc_region_loop (suc rounds) m dir (page * 4096) (last * 4096) iden_map
        ≡ alloc_region_loop rounds
            (alloc_page m dir (page * 4096) (if iden_map then page else 0))
            dir
            ((page + 1) * 4096)
            (last * 4096)
            iden_map
  unfolding alloc_region_loop
  alloc_region_loop_more rounds m page le =
      let more : leb (page * 4096) (last * 4096) ≡ true = ground arith in
      let next : add32 (page * 4096) 4096 ≡ (page + 1) * 4096 = omega arith in
      let here : page * 4096 / 4096 ≡ page = omega arith in rw (more, next, here)

  alloc_region_loop-IsMapped :
      (rounds : ℕ) (m : Mmu) (page : ℕ)
      → IsValid m
      → m.temp_mem + rounds * 4096 + 8192 < 2 ^ 32
      → page ≤ last + 1
      → last + 1 < page + rounds
      → (m' : Mmu) × (alloc_region_loop rounds m dir (page * 4096) (last * 4096) iden_map ≡ some m')
        × IsMapped m dir page last iden_map m'
  unfolding alloc_region_loop
  alloc_region_loop-IsMapped zero m page v room le fuel = absurd (omega arith)
  alloc_region_loop-IsMapped (suc rounds) m page v room le fuel =
      elim (Bool-cases (leb (page * 4096) (last * 4096))) [
        | inl more ↦
            let frame = if iden_map then page else 0 in
            let m1 = alloc_page m dir (page * 4096) frame in
            let grown = alloc_page-temp_mem m dir (page * 4096) frame (omega arith) in
            let v1 = alloc_page-IsValid m dir (page * 4096) frame v (omega arith) in
            let low : page ≤ last = ground arith in
            let (m', ends, rest) =
              alloc_region_loop-IsMapped rounds m1 (page + 1) v1 (omega arith) (omega arith)
                (omega arith) in
            (
              m',
              alloc_region_loop_more rounds m page low ∙ ends,
              IsMapped-step m page m' v (omega arith) low rest,
            )
        | inr done ↦
            let high : last < page = ground arith in
            (
              m,
              rw done,
              record {
                valid = v;
                outside = λ q out. refl;
                kept = λ q f e. e;
                inside = λ q lo hi. absurd (omega arith);
                identity = λ q on lo hi pos small un. absurd (omega arith);
              },
            )
      ]

-- alloc_region, given an end below the last page of the address space, ends and maps every page
-- from the one of `start_vaddr` to the one of `end_vaddr`; with `iden_map` to the frame of the same
-- number, but for page 0. Pages that were mapped and pages outside keep their frames.
pub alloc_region-IsMapped :
    (m : Mmu) (dir start_vaddr end_vaddr : ℕ) (iden_map : Bool)
    → IsValid m
    → dir ≢ 0
    → start_vaddr ≤ end_vaddr
    → end_vaddr < 0xffff_f000
    → m.temp_mem + (end_vaddr - start_vaddr) + 0x5000 < 2 ^ 32
    → (m' : Mmu) × (alloc_region m dir start_vaddr end_vaddr iden_map ≡ some m')
      × IsMapped m dir (start_vaddr / 4096) (end_vaddr / 4096) iden_map m'
unfolding alloc_region region_rounds
alloc_region-IsMapped m dir start_vaddr end_vaddr iden_map v ne le lt room =
    let first : bit_and start_vaddr 0xffff_f000 ≡ start_vaddr / 4096 * 4096 =
      omega (arith, bit_and-page start_vaddr (omega arith)) in
    let last : bit_and end_vaddr 0xffff_f000 ≡ end_vaddr / 4096 * 4096 =
      omega (arith, bit_and-page end_vaddr (omega arith)) in
    let rounds : (end_vaddr / 4096 * 4096 - start_vaddr / 4096 * 4096) / 4096 + 2
        ≡ end_vaddr / 4096 - start_vaddr / 4096 + 2 =
      omega arith in
    rw (first, last, rounds)
      (alloc_region_loop-IsMapped dir (end_vaddr / 4096) iden_map ne (omega arith)
        (end_vaddr / 4096 - start_vaddr / 4096 + 2) m (start_vaddr / 4096) v (omega arith)
        (omega arith) (omega arith))

-- With an end in the last page the loop never ends: the next start wraps round to 0.
pub alloc_region_loop_endless :
    (rounds : ℕ) (m : Mmu) (dir start : ℕ) (iden_map : Bool)
    → start ≤ 0xffff_f000
    → start % 4096 ≡ 0
    → alloc_region_loop rounds m dir start 0xffff_f000 iden_map ≡ none
unfolding alloc_region_loop
alloc_region_loop_endless zero m dir start iden_map le aligned = refl
alloc_region_loop_endless (suc rounds) m dir start iden_map le aligned =
    let more : leb start 0xffff_f000 ≡ true = ground arith in
    rw more (
      alloc_region_loop_endless rounds _ dir (add32 start 4096) iden_map (omega arith)
        (omega arith))
