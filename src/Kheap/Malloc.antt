-- ===== src/Kheap/Malloc.antt =====
-- `malloc` of src/mem/kheap.c.
use sector_os_re.Kheap.{
  is_free, add_to_list, header, remove_from_list, set_free, best_fit, size_of, overhead, set_size,
  get_real_size, get_next_block, Heap,
}
use sector_os_re.Base.{
  none, some, ◌&&◌, not, true, ◌-◌, false, ◌+◌, ltb, sub32, ◌==◌, ◌*◌, if◌then◌else◌, ◌/◌, Option,
  add32, update, ℕ,
}
use sector_os_re.Paging.{ksbrk}

-- `((size + 15)/16) * 16`
unfoldable pub rounded_size : ℕ → ℕ
rounded_size size = add32 size 15 / 16 * 16

-- A header with the size and the mark, and the same word in the block's last place, where
-- `trailing` stands.
unfoldable pub put_tags : Heap → ℕ → ℕ → ℕ → Heap
put_tags h block tag trailing = record h { mem = update (set_size h.mem block tag) trailing tag }

-- The part of `malloc` under `if(best)`: the block, or its front part of `block_size` bytes, is
-- taken; what is left is a free block, joined with a free one behind it.
unfoldable pub take_block : Heap → ℕ → ℕ → Heap
take_block h best block_size =
    let next = get_next_block h best in
    let chunk_size = add32 (get_real_size (size_of h.mem best)) overhead in
    let rest = sub32 chunk_size block_size in
    let small = ltb rest (8 + overhead) in
    let which_size = if small then chunk_size else block_size in
    let tag = set_free (sub32 which_size overhead) false in
    let h1 = put_tags h best tag (best + which_size - 4) in
    let t = best + which_size in
    let joined = remove_from_list h1 next in
    let long =
      set_free
        (add32 (sub32 rest overhead) (add32 (get_real_size (size_of joined.mem next)) overhead))
        true in
    let h2 = put_tags joined t long (t + header + get_real_size long) in
    let h3 = add_to_list (if next == h2.tail then record h2 { tail = t } else h2) t in
    let short = set_free (sub32 rest overhead) true in
    let h4 = put_tags h1 t short (t + header + get_real_size short) in
    let h5 = add_to_list (if best == h4.tail then record h4 { tail = t } else h4) t in
    let split = if not (best == h1.tail) && is_free h1.mem next then h3 else h5 in
    remove_from_list (if small then h1 else split) best

-- The part under `else`: a new block from `ksbrk`. `none` is the failed ASSERT.
unfoldable pub extend_heap : Heap → ℕ → Option (ℕ × Heap)
extend_heap h block_size = elim (ksbrk h.mmu block_size) [
  | none ↦ none
  | some (ret, mmu) ↦
      let h1 = record h { mmu = mmu; head = if h.head == 0 then ret else h.head; tail = ret } in
      let tag = set_free (sub32 block_size overhead) false in
      if ret == 0 then none else some (ret + header, put_tags h1 ret tag (ret + block_size - 4))
]

-- `rounds` bounds the walk through the free list.
unfoldable pub malloc : ℕ → Heap → ℕ → Option (ℕ × Heap)
malloc rounds h size =
    let block_size = add32 (rounded_size size) overhead in
    if size == 0 then some (0, h) else elim (best_fit rounds h (rounded_size size)) [
      | none ↦ none
      | some best ↦
          if best == 0
          then extend_heap h block_size
          else some (best + header, take_block h best block_size)
    ]
