-- ===== src/Ext2/Bitmap.antt =====
-- The bitmaps of blocks and inodes of src/fs/ext2.c: how EXT2_alloc_block, alloc_inode,
-- EXT2_free_block and free_inode search and change them.
use sector_os_re.Ext2.{
  half_at, put_word, word_at, ℕ, Ext2Fs, read_disk_block, write_disk_block, rewrite_bgd,
}
use sector_os_re.Base.{
  zero, mul32, some, add32, ◌==◌, if◌then◌else◌, ◌^◌, bit_and, bit_or, ◌%◌, ◌+◌, ◌-◌, none, ◌*◌,
  suc, Option, Memory, u32_max, ◌/◌, ℕ,
}
use sector_os_re.Bytes.Fields.{put_half, half_at, put_word, word_at}

-- `for k`: the lowest bit from `k` on that is 0, with the rounds left.
unfoldable pub free_bit_from : ℕ → ℕ → ℕ → Option ℕ
free_bit_from zero sub_bitmap k = none
free_bit_from (suc left) sub_bitmap k =
    let rest = free_bit_from left sub_bitmap (k + 1) in
    if bit_and (sub_bitmap / 2 ^ k) 1 == 0 then some k else rest

-- A word with no free bit is passed over at once.
unfoldable pub free_in_word : ℕ → Option ℕ
free_in_word sub_bitmap = if sub_bitmap == 0xffff_ffff then none else free_bit_from 32 sub_bitmap 0

-- What a word adds to the search behind it.
abbrev pub or_rest : ℕ → Option ℕ → Option (ℕ × ℕ) → Option (ℕ × ℕ)
or_rest j none rest = rest
or_rest j (some k) rest = some (j, k)

-- `for j`: the word, and the bit in it.
unfoldable pub free_word_from : ℕ → Memory → ℕ → Option (ℕ × ℕ)
free_word_from zero buf j = none
free_word_from (suc left) buf j =
    let rest = free_word_from left buf (j + 1) in
    or_rest j (free_in_word (word_at buf (j * 4))) rest

-- Which of the two bitmaps a search goes through: where the descriptor of group `i` has its block
-- and its count, and how many items a group has.
pub record Kind : Type 0 where
  pub bitmap_at : ℕ
  pub count_at : ℕ
  pub per_group : Ext2Fs → ℕ

abbrev pub blocks : Kind
blocks = record { bitmap_at = 0; count_at = 12; per_group = λ fs. fs.block_per_group }

abbrev pub inodes : Kind
inodes = record { bitmap_at = 4; count_at = 14; per_group = λ fs. fs.inodes_per_group }

abbrev pub bitmap_block : Kind → Ext2Fs → ℕ → ℕ
bitmap_block kind fs group = word_at fs.bgd (group * 32 + kind.bitmap_at)

abbrev pub free_count : Kind → Ext2Fs → ℕ → ℕ
free_count kind fs group = half_at fs.bgd (group * 32 + kind.count_at)

abbrev pub set_free_count : Kind → Ext2Fs → ℕ → ℕ → Ext2Fs
set_free_count kind fs group count = record fs {
  bgd = put_half fs.bgd (group * 32 + kind.count_at) count;
}

-- The bit is set in the buffer, the buffer written, and the group's count lowered.
unfoldable pub take_bit : Kind → Ext2Fs → ℕ → ℕ → ℕ → ℕ × Ext2Fs
take_bit kind fs group j k =
    let block = bitmap_block kind fs group in
    let buf = read_disk_block fs block in
    let buf' = put_word buf (j * 4) (bit_or (word_at buf (j * 4)) (2 ^ k)) in
    let fs1 = write_disk_block fs block buf' in
    let fs2 = set_free_count kind fs1 group (free_count kind fs1 group + (2 ^ 16 - 1)) in
    (add32 (add32 (mul32 group (kind.per_group fs)) (j * 32)) k, rewrite_bgd fs2)

-- `for i`: the answer is -1 where no group has a free item.
unfoldable pub alloc_from : Kind → ℕ → Ext2Fs → ℕ → ℕ × Ext2Fs
alloc_from kind zero fs i = (u32_max, fs)
alloc_from kind (suc left) fs i =
    let rest = alloc_from kind left fs (i + 1) in
    let buf = read_disk_block fs (bitmap_block kind fs i) in
    if free_count kind fs i == 0 then rest else elim (free_word_from (fs.block_size / 4) buf 0) [
      | none ↦ rest
      | some (j, k) ↦ take_bit kind fs i j k
    ]

unfoldable pub ext2_alloc_block : Ext2Fs → ℕ × Ext2Fs
ext2_alloc_block fs = alloc_from blocks fs.total_groups fs 0

unfoldable pub alloc_inode : Ext2Fs → ℕ × Ext2Fs
alloc_inode fs = alloc_from inodes fs.total_groups fs 0

-- EXT2_free_block and free_inode: the word and the bit are found by division by 4.
unfoldable pub release : Kind → Ext2Fs → ℕ → Ext2Fs
release kind fs num =
    let group = num / kind.per_group fs in
    let in_group = num - kind.per_group fs * group in
    let word = in_group / 4 in
    let index = in_group % 4 in
    let block = bitmap_block kind fs group in
    let buf = read_disk_block fs block in
    let buf' =
      put_word buf (word * 4) (bit_and (word_at buf (word * 4)) (0xffff_ffff - 2 ^ index)) in
    let fs1 = write_disk_block fs block buf' in
    rewrite_bgd (set_free_count kind fs1 group (free_count kind fs1 group + 1))

unfoldable pub ext2_free_block : Ext2Fs → ℕ → Ext2Fs
ext2_free_block fs block_num = release blocks fs block_num

unfoldable pub free_inode : Ext2Fs → ℕ → Ext2Fs
free_inode fs inode_num = release inodes fs inode_num
