-- ===== src/Ext2/Blocks.antt =====
-- The block map of an inode in src/fs/ext2.c: direct blocks, and one, two or three levels of blocks
-- of pointers. Blocks count at most 4096 bytes and the number of a block is below 2^31, so that the
-- source's `int` differences are exact; where it tests one of them for its sign, the model compares.
-- What is behind `block_size` bytes of a buffer is not the file system's.
use sector_os_re.Ext2.{
  set_inode_block, word_at, put_word, Memory, ℕ, Ext2Fs, read_disk_block, write_disk_block,
  write_inode_metadata, inode_block,
}
use sector_os_re.Base.{
  Option-cases, arith, inr, inl, ◌≡◌, ◌<◌, ◌>>=◌, none, true, ◌==◌, some, not, ltb, leb, false,
  add32, mul32, ◌*◌, if◌then◌else◌, ◌-◌, Bool, Option, ◌/◌, ◌+◌, Memory, ℕ,
}
use sector_os_re.Ext2.Bitmap.{ext2_free_block, ext2_alloc_block}
use sector_os_re.Bytes.Fields.{word_at, put_word}

-- `((uint32_t *)buf)[i]`
abbrev pub pointer : Memory → ℕ → ℕ
pointer buf i = word_at buf (i * 4)

abbrev pub set_pointer : Memory → ℕ → ℕ → Memory
set_pointer buf i v = put_word buf (i * 4) v

-- The three reads of a chain of pointers.
abbrev pub follow : Ext2Fs → ℕ → ℕ → ℕ
follow fs block i = pointer (read_disk_block fs block) i

-- The source leaves its result unset behind the last block that three levels reach: `none`.
unfoldable pub get_dblock_num : Ext2Fs → Memory → ℕ → Option ℕ
get_dblock_num fs inode iblock_num =
    let p = fs.block_size / 4 in
    let a = iblock_num - 12 in
    let b = a - p in
    let c = b - p * p in
    let e = c / (p * p) in
    let f = (c - e * p * p) / p in
    let g = c - e * p * p - f * p in
    if ltb iblock_num 12
    then some (inode_block inode iblock_num)
    else if ltb a p
    then some (follow fs (inode_block inode 12) a)
    else if ltb b (p * p)
    then some (follow fs (follow fs (inode_block inode 13) (b / p)) (b - b / p * p))
    else if ltb c (p * p * p)
    then some (follow fs (follow fs (follow fs (inode_block inode 14) e) f) g)
    else none

-- The pointer stands at `at` of `holder`: the inode itself where there is no buffer, else the
-- buffer, which is written to the new block.
unfoldable pub alloc_inode_metadata_block : Ext2Fs → ℕ → Memory → ℕ → Bool → ℕ × Ext2Fs × Memory
alloc_inode_metadata_block fs inode_num holder at buffer =
    let (block_num, fs1) = ext2_alloc_block fs in
    let holder' = put_word holder at block_num in
    if not (word_at holder at == 0)
    then (0, fs, holder)
    else if block_num == 0
    then (0, fs1, holder)
    else if buffer
    then (1, write_disk_block fs1 block_num holder', holder')
    else (1, write_inode_metadata fs1 holder' inode_num, holder')

-- The three ranges behind the direct blocks, each with the differences that the source takes.
unfoldable pub set_single : Ext2Fs → Memory → ℕ → ℕ → ℕ → Ext2Fs × Memory
set_single fs inode inode_num a dblock_num =
    let (_, fs1, inode') = alloc_inode_metadata_block fs inode_num inode (40 + 12 * 4) false in
    let block = inode_block inode' 12 in
    let temp = set_pointer (read_disk_block fs1 block) a dblock_num in
    (write_disk_block fs1 block temp, inode')

unfoldable pub set_double : Ext2Fs → Memory → ℕ → ℕ → ℕ → Ext2Fs × Memory
set_double fs inode inode_num b dblock_num =
    let p = fs.block_size / 4 in
    let c = b / p in
    let d = b - c * p in
    let (_, fs1, inode') = alloc_inode_metadata_block fs inode_num inode (40 + 13 * 4) false in
    let temp = read_disk_block fs1 (inode_block inode' 13) in
    let (_, fs2, temp1) = alloc_inode_metadata_block fs1 inode_num temp (c * 4) true in
    let tmp = pointer temp1 c in
    let temp2 = set_pointer (read_disk_block fs2 tmp) d dblock_num in
    (write_disk_block fs2 tmp temp2, inode')

unfoldable pub set_triple : Ext2Fs → Memory → ℕ → ℕ → ℕ → Ext2Fs × Memory
set_triple fs inode inode_num c dblock_num =
    let p = fs.block_size / 4 in
    let e = c / (p * p) in
    let f = (c - e * p * p) / p in
    let g = c - e * p * p - f * p in
    let (_, fs1, inode') = alloc_inode_metadata_block fs inode_num inode (40 + 14 * 4) false in
    let temp = read_disk_block fs1 (inode_block inode' 14) in
    let (_, fs2, temp1) = alloc_inode_metadata_block fs1 inode_num temp (e * 4) true in
    let temp2 = read_disk_block fs2 (pointer temp1 e) in
    let (_, fs3, temp3) = alloc_inode_metadata_block fs2 inode_num temp2 (f * 4) true in
    let tmp = pointer temp3 f in
    let temp4 = set_pointer (read_disk_block fs3 tmp) g dblock_num in
    (write_disk_block fs3 tmp temp4, inode')

-- Each range is tested with `<=`, so it takes the first block of the next one too.
unfoldable pub set_dblock_num : Ext2Fs → Memory → ℕ → ℕ → ℕ → Ext2Fs × Memory
set_dblock_num fs inode inode_num iblock_num dblock_num =
    let p = fs.block_size / 4 in
    let a = iblock_num - 12 in
    let b = a - p in
    let c = b - p * p in
    if leb iblock_num 12
    then (fs, set_inode_block inode iblock_num dblock_num)
    else if leb a p
    then set_single fs inode inode_num a dblock_num
    else if leb b (p * p)
    then set_double fs inode inode_num b dblock_num
    else if leb c (p * p * p)
    then set_triple fs inode inode_num c dblock_num
    else (fs, inode)

unfoldable pub alloc_iblock : Ext2Fs → Memory → ℕ → ℕ → Ext2Fs × Memory
alloc_iblock fs inode inode_num block =
    let (res, fs1) = ext2_alloc_block fs in
    let (fs2, inode') = set_dblock_num fs1 inode inode_num block res in
    let inode2 = put_word inode' 28 (mul32 (add32 block 1) (fs.block_size / 512)) in
    (write_inode_metadata fs2 inode2 inode_num, inode2)

-- The block number that was found, and not `block`, is what the map is cleared at.
unfoldable pub free_iblock : Ext2Fs → Memory → ℕ → ℕ → Option (Ext2Fs × Memory)
free_iblock fs inode inode_num block = do
  res ← get_dblock_num fs inode block
  let (fs1, inode') = set_dblock_num (ext2_free_block fs res) inode inode_num res 0
  some (write_inode_metadata fs1 inode' inode_num, inode')

-- The buffers of the two routines are blocks.
unfoldable pub read_inode_block : Ext2Fs → Memory → ℕ → Option Memory
read_inode_block fs inode iblock = do
  block ← get_dblock_num fs inode iblock
  some (read_disk_block fs block)

unfoldable pub write_inode_block : Ext2Fs → Memory → ℕ → Memory → Option Ext2Fs
write_inode_block fs inode iblock buf = do
  block ← get_dblock_num fs inode iblock
  some (write_disk_block fs block buf)

-- How many blocks an inode maps.
abbrev pub mapped_blocks : Ext2Fs → ℕ
mapped_blocks fs = let p = fs.block_size / 4 in 12 + p + p * p + p * p * p

pub get_dblock_num-mapped :
    (fs : Ext2Fs) (inode : Memory) (i : ℕ)
    → i < mapped_blocks fs
    → (block : ℕ) × (get_dblock_num fs inode i ≡ some block)
unfolding get_dblock_num
get_dblock_num-mapped fs inode i lt = elim (Option-cases (get_dblock_num fs inode i)) [
  | inl unset ↦ absurd (ground (arith, unset))
  | inr found ↦ found
]
