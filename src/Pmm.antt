-- ===== src/Pmm.antt =====
-- src/mem/pmm.c: the bitmap of physical blocks.
-- The bytes that `pmm_bitmap` points at are a function of their index, so a write past the end of
-- the bitmap changes the byte that lies there, as it does in the kernel.
pub mod Bits
pub mod Search
pub mod Alloc
pub mod Init
mod Tests
use sector_os_re.Base.{
  ℕ, zero, suc, ◌+◌, ◌*◌, ◌/◌, ◌%◌, ◌^◌, ◌-◌, Memory, update, u32_max, add32, bit_and, bit_or, ltb,
  ◌==◌, if◌then◌else◌,
}
use sector_os_re.Bytes.{memset}

abbrev pub block_size : ℕ
block_size = 4096

abbrev pub bpp : ℕ
bpp = 8

-- `pmm_bitmap[i / BPP] | (1 << (i % BPP))`, `pmm_bitmap[i / BPP] & ~(1 << (i % BPP))` and
-- `(pmm_bitmap[i / BPP] >> (i % BPP)) & 0x1`, on the byte and the position in it
pub set_bit_in : ℕ → ℕ → ℕ
set_bit_in byte k = bit_or byte (2 ^ k)

pub clear_bit_in : ℕ → ℕ → ℕ
clear_bit_in byte k = bit_and byte (255 - 2 ^ k)

unfoldable pub is_set_in : ℕ → ℕ → ℕ
is_set_in byte k = bit_and (byte / 2 ^ k) 1

pub set_bit : Memory → ℕ → Memory
set_bit m i = update m (i / bpp) (set_bit_in (m (i / bpp)) (i % bpp))

pub clear_bit : Memory → ℕ → Memory
clear_bit m i = update m (i / bpp) (clear_bit_in (m (i / bpp)) (i % bpp))

unfoldable pub is_set : Memory → ℕ → ℕ
is_set m i = is_set_in (m (i / bpp)) (i % bpp)

-- `bitmap_addr` is `(uint32_t)&end`, where the linker puts the bitmap.
pub record Pmm : Type 0 where
  pub bitmap : Memory
  pub bitmap_addr : ℕ
  pub mem_start : ℕ
  pub total_blocks : ℕ
  pub bitmap_size : ℕ

-- `((i) & 0xFFFFF000) + 0x1000`
pub block_align : ℕ → ℕ
block_align i = add32 (bit_and i 0xffff_f000) 0x1000

pub init_pmm : Pmm → ℕ → Pmm
init_pmm p mem_size =
    let total = mem_size / block_size in
    let size = if ltb (total / bpp * bpp) total then total / bpp + 1 else total / bpp in
    record p {
      total_blocks = total;
      bitmap_size = size;
      bitmap = memset p.bitmap 0 0 size;
      mem_start = block_align (add32 p.bitmap_addr size);
    }

-- The loop of `first_free_block`, with the rounds left and `i`.
pub first_free_from : Memory → ℕ → ℕ → ℕ
first_free_from m zero i = u32_max
first_free_from m (suc left) i =
    let rest = first_free_from m left (i + 1) in if is_set m i == 0 then i else rest

-- `(uint32_t) -1` when no block is free
pub first_free_block : Pmm → ℕ
first_free_block p = first_free_from p.bitmap p.total_blocks 0

pub alloc_block : Pmm → ℕ × Pmm
alloc_block p = let free = first_free_block p in (free, record p { bitmap = set_bit p.bitmap free })

pub free_block : Pmm → ℕ → Pmm
free_block p block = record p { bitmap = clear_bit p.bitmap block }
