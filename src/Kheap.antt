-- ===== src/Kheap.antt =====
-- src/mem/kheap.c: the blocks of the kernel's heap and the list of the free ones.
-- A cell of the memory is the 32-bit word at an address; all the addresses and sizes that the
-- allocator computes are multiples of 4. A block has `next`, `prev` and `size` at its first three
-- words and its size once more in its last word; the lowest bit of a size marks a free block.
pub mod Malloc
pub mod Release
pub mod Resize
pub mod Placement
pub mod Sizes
pub mod FreeList
pub mod Unlink
pub mod BestFit
mod Tests
use sector_os_re.Base.{
  zero, some, ltb, not, ◌-◌, ◌||◌, ◌&&◌, add32, suc, false, sub32, bit_and, ◌==◌, leb, none, ◌*◌,
  bit_or, ◌+◌, Bool, Option, ◌/◌, update, if◌then◌else◌, ℕ, Memory,
}
use sector_os_re.Paging.{Mmu}

-- The globals of kheap.c, the memory, and the state behind `ksbrk`.
pub record Heap : Type 0 where
  pub mem : Memory
  pub head : ℕ
  pub tail : ℕ
  pub free_list : ℕ
  pub mmu : Mmu

-- `sizeof(memory_block_t)`
abbrev pub header : ℕ
header = 12

-- `OVERHEAD`
abbrev pub overhead : ℕ
overhead = 16

abbrev pub next_of : Memory → ℕ → ℕ
next_of m block = m block

abbrev pub prev_of : Memory → ℕ → ℕ
prev_of m block = m (block + 4)

abbrev pub size_of : Memory → ℕ → ℕ
size_of m block = m (block + 8)

abbrev pub set_next : Memory → ℕ → ℕ → Memory
set_next m block v = update m block v

abbrev pub set_prev : Memory → ℕ → ℕ → Memory
set_prev m block v = update m (block + 4) v

abbrev pub set_size : Memory → ℕ → ℕ → Memory
set_size m block v = update m (block + 8) v

unfoldable pub get_real_size : ℕ → ℕ
get_real_size size = size / 2 * 2

-- `setFree`: the new value of `*size`.
unfoldable pub set_free : ℕ → Bool → ℕ
set_free size x = if x then bit_or size 1 else bit_and size 0xffff_fffe

unfoldable pub is_free : Memory → ℕ → Bool
is_free m block = if block == 0 then false else not (bit_and (size_of m block) 1 == 0)

unfoldable pub does_it_fit : Memory → ℕ → ℕ → Bool
does_it_fit m block size = leb (get_real_size size) (size_of m block) && is_free m block

unfoldable pub remove_from_list : Heap → ℕ → Heap
remove_from_list h block =
    let m = h.mem in
    let m1 = set_next m (prev_of m block) (next_of m block) in
    let m2 =
      if next_of m1 block == 0 then m1 else set_prev m1 (next_of m1 block) (prev_of m1 block) in
    let first = next_of m block in
    let m3 = if first == 0 then m else set_prev m first 0 in
    if block == 0
    then h
    else if prev_of m block == 0
    then record h { free_list = first; mem = m3 }
    else record h { mem = m2 }

unfoldable pub add_to_list : Heap → ℕ → Heap
add_to_list h block =
    let m1 = set_next h.mem block h.free_list in
    let m2 = if h.free_list == 0 then m1 else set_prev m1 h.free_list block in
    if block == 0 then h else record h { mem = set_prev m2 block 0; free_list = block }

-- `while(curr)`, on fuel; `none` is a walk that has not come to the end of the list.
pub best_fit_loop : ℕ → Memory → ℕ → ℕ → ℕ → Option ℕ
best_fit_loop zero m size curr best = none
best_fit_loop (suc rounds) m size curr best =
    let better = best == 0 || ltb (size_of m curr) (size_of m best) in
    let best' = if does_it_fit m curr size && better then curr else best in
    let rest = best_fit_loop rounds m size (next_of m curr) best' in
    if curr == 0 then some best else rest

-- The answer 0 is NULL.
unfoldable pub best_fit : ℕ → Heap → ℕ → Option ℕ
best_fit rounds h size = best_fit_loop rounds h.mem size h.free_list 0

unfoldable pub get_prev_block : Heap → ℕ → ℕ
get_prev_block h block =
    if block == h.head then 0 else sub32 (sub32 block overhead) (get_real_size (h.mem (block - 4)))

unfoldable pub get_next_block : Heap → ℕ → ℕ
get_next_block h block =
    if block == h.tail
    then 0
    else add32 (add32 block overhead) (get_real_size (size_of h.mem block))
