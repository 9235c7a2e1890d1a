-- ===== src/Ext2.antt =====
-- src/fs/ext2.c: the disk of an ext2 file system, its inodes and its group descriptors. The disk is
-- kept as blocks, each the bytes from its start on, of which `block_size` count; it is smaller than
-- 4 GB, so `block_size * block` is exact, and VFS_read and VFS_write do not fail. An inode and the
-- table of group descriptors are the bytes of the packed structures. Freed buffers are not kept.
pub mod Bitmap
pub mod Alloc
pub mod Take
pub mod Found
pub mod Release
pub mod Blocks
pub mod Map
pub mod File
pub mod Read
pub mod Rounds
pub mod ReadLoop
pub mod WriteLoop
pub mod WriteRead
pub mod Inodes
pub mod Dir
pub mod Create
pub mod Loops
pub mod Walk
pub mod WalkEnds
pub mod Node
pub mod Listing
pub mod Mount
pub mod Groups
mod Tests
use sector_os_re.Base.{zero, ◌-◌, ◌*◌, sub32, ◌+◌, suc, ◌/◌, mul32, update, Memory, ℕ}
use sector_os_re.Bytes.Fields.{blit, half_at, put_word, word_at}

-- `ext2_fs`, with the disk behind `device` and the `inode_size` of the superblock
pub record Ext2Fs : Type 0 where
  pub disk : ℕ → Memory
  pub bgd : Memory
  pub block_size : ℕ
  pub block_per_group : ℕ
  pub inodes_per_group : ℕ
  pub total_groups : ℕ
  pub bgd_block : ℕ
  pub inode_size : ℕ

-- Where the fields of `inode_t` and `block_group_descriptor` stand.
abbrev pub inode_permission : Memory → ℕ
inode_permission inode = half_at inode 0

abbrev pub inode_bytes : Memory → ℕ
inode_bytes inode = word_at inode 4

abbrev pub inode_links : Memory → ℕ
inode_links inode = half_at inode 26

abbrev pub inode_block : Memory → ℕ → ℕ
inode_block inode i = word_at inode (40 + i * 4)

abbrev pub set_inode_block : Memory → ℕ → ℕ → Memory
set_inode_block inode i v = put_word inode (40 + i * 4) v

abbrev pub block_bitmap : Ext2Fs → ℕ → ℕ
block_bitmap fs group = word_at fs.bgd (group * 32)

abbrev pub inode_bitmap : Ext2Fs → ℕ → ℕ
inode_bitmap fs group = word_at fs.bgd (group * 32 + 4)

abbrev pub inode_table : Ext2Fs → ℕ → ℕ
inode_table fs group = word_at fs.bgd (group * 32 + 8)

abbrev pub free_blocks_count : Ext2Fs → ℕ → ℕ
free_blocks_count fs group = half_at fs.bgd (group * 32 + 12)

abbrev pub free_inodes_count : Ext2Fs → ℕ → ℕ
free_inodes_count fs group = half_at fs.bgd (group * 32 + 14)

-- The buffer that read_disk_block fills.
unfoldable pub read_disk_block : Ext2Fs → ℕ → Memory
read_disk_block fs block = fs.disk block

unfoldable pub write_disk_block : Ext2Fs → ℕ → Memory → Ext2Fs
write_disk_block fs block buf = record fs {
  disk = update fs.disk block (blit (fs.disk block) 0 buf 0 fs.block_size);
}

-- The rounds of rewrite_bgd that are left, and `i`: each of them writes block 2.
unfoldable pub rewrite_bgd_from : ℕ → ℕ → Ext2Fs → Ext2Fs
rewrite_bgd_from zero i fs = fs
rewrite_bgd_from (suc left) i fs =
    rewrite_bgd_from left (i + 1) (write_disk_block fs 2 (λ a. fs.bgd (i * fs.block_size + a)))

unfoldable pub rewrite_bgd : Ext2Fs → Ext2Fs
rewrite_bgd fs = rewrite_bgd_from fs.bgd_block 0 fs

-- The superblock is in block 1.
unfoldable pub rewrite_superblock : Ext2Fs → Memory → Ext2Fs
rewrite_superblock fs sb = write_disk_block fs 1 sb

-- The block that holds an inode, and the offset of the inode in it: as read_inode_metadata finds it
-- for the number `idx` in the group, and as write_inode_metadata does for the number of the inode.
unfoldable pub inode_place : Ext2Fs → ℕ → ℕ → ℕ × ℕ
inode_place fs group idx =
    let block_offset = mul32 (sub32 idx 1) fs.inode_size / fs.block_size in
    let offset_in_block =
      sub32 (sub32 idx 1) (mul32 block_offset (fs.block_size / fs.inode_size)) in
    (inode_table fs group + block_offset, offset_in_block * fs.inode_size)

-- The inode, whose buffer was `old` before.
unfoldable pub read_inode_metadata : Ext2Fs → Memory → ℕ → Memory
read_inode_metadata fs old inode_num =
    let group = inode_num / fs.inodes_per_group in
    let (block, at) = inode_place fs group (inode_num - group * fs.inodes_per_group) in
    blit old 0 (read_disk_block fs block) at fs.inode_size

unfoldable pub write_inode_metadata : Ext2Fs → Memory → ℕ → Ext2Fs
write_inode_metadata fs inode inode_num =
    let group = inode_num / fs.inodes_per_group in
    let (block, at) = inode_place fs group inode_num in
    write_disk_block fs block (blit (read_disk_block fs block) at inode 0 fs.inode_size)
