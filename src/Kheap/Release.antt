-- ===== src/Kheap/Release.antt =====
-- `free` of src/mem/kheap.c: the block is marked free, and joined with its free neighbours.
use sector_os_re.Kheap.{
  add_to_list, remove_from_list, is_free, overhead, set_free, size_of, get_next_block,
  get_prev_block, get_real_size, header, Heap,
}
use sector_os_re.Base.{◌&&◌, ◌==◌, if◌then◌else◌, true, add32, ◌+◌, ◌-◌, ℕ}
use sector_os_re.Kheap.Malloc.{put_tags}

-- The word behind the block's payload.
unfoldable pub trailing_of : ℕ → ℕ → ℕ
trailing_of block size = block + header + get_real_size size

unfoldable pub free : Heap → ℕ → Heap
free h ptr =
    let m = h.mem in
    let curr = ptr - header in
    let prev = get_prev_block h curr in
    let next = get_next_block h curr in
    let c = get_real_size (size_of m curr) in
    let p = get_real_size (size_of m prev) in
    let n = get_real_size (size_of m next) in
    let three = set_free (add32 (add32 (add32 p 32) c) n) true in
    let both = put_tags h prev three (trailing_of prev three) in
    let both' = if both.tail == next then record both { tail = prev } else both in
    let front = set_free (add32 (add32 p overhead) c) true in
    let with_prev = put_tags h prev front (trailing_of prev front) in
    let with_prev' =
      if with_prev.tail == curr then record with_prev { tail = prev } else with_prev in
    let back = set_free (add32 (add32 c overhead) n) true in
    let with_next = put_tags h curr back (trailing_of curr back) in
    let with_next' =
      if with_next.tail == next then record with_next { tail = curr } else with_next in
    let alone = set_free (size_of m curr) true in
    let marked = put_tags h curr alone (trailing_of curr alone) in
    if is_free m prev && is_free m next
    then remove_from_list both' next
    else if is_free m prev
    then with_prev'
    else if is_free m next
    then add_to_list (remove_from_list with_next' next) curr
    else add_to_list marked curr
