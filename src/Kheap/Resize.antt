-- ===== src/Kheap/Resize.antt =====
-- `realloc` and `calloc` of src/mem/kheap.c. `memcpy` and `memset` go over all addresses of a range,
-- and so over its words.
use sector_os_re.Kheap.{
  is_free, add_to_list, get_prev_block, get_next_block, header, overhead, set_free, size_of,
  remove_from_list, get_real_size, Heap,
}
use sector_os_re.Base.{
  leb, ◌&&◌, not, none, some, ltb, true, ◌==◌, ◌+◌, if◌then◌else◌, false, ◌-◌, mul32, add32, sub32,
  Option, ℕ,
}
use sector_os_re.Kheap.Malloc.{put_tags, rounded_size, malloc}
use sector_os_re.Kheap.Release.{free, trailing_of}
use sector_os_re.Bytes.{memset, memcpy}

-- The branch of realloc that takes the next block in.
unfoldable pub grow_forward : Heap → ℕ → ℕ → Heap
grow_forward h nptr next =
    let h1 = remove_from_list h next in
    let m = h1.mem in
    let tag =
      set_free
        (add32 (add32 (get_real_size (size_of m nptr)) overhead) (get_real_size (size_of m next)))
        false in
    let h2 = put_tags h1 nptr tag (trailing_of nptr tag) in
    if h2.tail == next then record h2 { tail = nptr } else h2

-- The branch that takes the block in front in, and moves the data there.
unfoldable pub grow_backward : Heap → ℕ → ℕ → Heap
grow_backward h nptr prev =
    let original = get_real_size (size_of h.mem nptr) in
    let h1 = remove_from_list h prev in
    let tag =
      set_free (add32 (add32 original overhead) (get_real_size (size_of h1.mem prev))) false in
    let h2 = put_tags h1 prev tag (trailing_of prev tag) in
    let h3 = if h2.tail == nptr then record h2 { tail = prev } else h2 in
    record h3 { mem = memcpy h3.mem (prev + header) (nptr + header) original }

-- The branch that cuts a block down. The last part leaves `tail` alone.
unfoldable pub shrink : Heap → ℕ → ℕ → ℕ → Heap
shrink h nptr next block_size =
    let rest = sub32 (add32 (get_real_size (size_of h.mem nptr)) overhead) block_size in
    let tag = set_free (sub32 block_size overhead) false in
    let h1 = put_tags h nptr tag (trailing_of nptr tag) in
    let split = trailing_of nptr tag + 4 in
    let long = set_free (add32 rest (get_real_size (size_of h1.mem next))) true in
    let h2 = remove_from_list (put_tags h1 split long (trailing_of split long)) next in
    let h3 = add_to_list (if h2.tail == next then record h2 { tail = split } else h2) split in
    let short = set_free (sub32 rest overhead) true in
    let h4 = add_to_list (put_tags h1 split short (trailing_of split short)) split in
    if ltb rest (8 + overhead) then h else if is_free h1.mem next then h3 else h4

unfoldable pub realloc : ℕ → Heap → ℕ → ℕ → Option (ℕ × Heap)
realloc rounds h ptr size =
    let rounded = rounded_size size in
    let block_size = add32 rounded overhead in
    let nptr = ptr - header in
    let m = h.mem in
    let next = get_next_block h nptr in
    let prev = get_prev_block h nptr in
    let own = add32 (get_real_size (size_of m nptr)) overhead in
    let moved : Option (ℕ × Heap) = elim (malloc rounds h size) [
      | none ↦ none
      | some (place, h1) ↦
          let copied = memcpy h1.mem place ptr (get_real_size (size_of h1.mem nptr)) in
          some (place, free (record h1 { mem = copied }) ptr)
    ] in
    if ptr == 0
    then malloc rounds h size
    else if size == 0
    then some (0, free h ptr)
    else if size_of m nptr == size
    then some (ptr, h)
    else if ltb (size_of m nptr) size
    then (if not (h.tail == nptr)
          && is_free m next
          && leb rounded (add32 own (get_real_size (size_of m next)))
        then some (nptr + header, grow_forward h nptr next)
        else if not (h.head == nptr)
            && is_free m prev
            && leb rounded (add32 own (get_real_size (size_of m prev)))
        then some (prev + header, grow_backward h nptr prev)
        else moved)
    else some (ptr, shrink h nptr next block_size)

unfoldable pub calloc : ℕ → Heap → ℕ → ℕ → Option (ℕ × Heap)
calloc rounds h size num = elim (malloc rounds h (mul32 num size)) [
  | none ↦ none
  | some (ptr, h1) ↦ some (ptr, record h1 { mem = memset h1.mem ptr 0 (mul32 num size) })
]

-- The arguments change places twice.
unfoldable pub kcalloc : ℕ → Heap → ℕ → ℕ → Option (ℕ × Heap)
kcalloc rounds h size num = calloc rounds h num size
