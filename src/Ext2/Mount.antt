-- ===== src/Ext2/Mount.antt =====
-- isExt2 and EXT2_init of src/fs/ext2.c: a file system that is found on a device, whose bytes are
-- given. What VFS_mount makes of the root is not part of it. A group that counts no blocks, which
-- the source would divide by, is not looked at.
use sector_os_re.Base.{
  some, none, ◌^◌, zero, ◌==◌, ◌*◌, ◌+◌, ltb, not, mul32, ◌/◌, Option, suc, if◌then◌else◌, Memory,
  ℕ,
}
use sector_os_re.Bytes.Fields.{blit, word_at, half_at}
use sector_os_re.Ext2.{read_inode_metadata, Ext2Fs}
use sector_os_re.Ext2.Node.{ext2_get_root, Ext2Node}

-- The blocks of a device of so many bytes each.
abbrev pub blocks_of : ℕ → Memory → ℕ → Memory
blocks_of block_size device block a = device (mul32 block_size block + a)

-- The superblock, and fields of it.
abbrev pub superblock_of : Memory → Memory
superblock_of device = blocks_of 1024 device 1

abbrev pub total_blocks : Memory → ℕ
total_blocks sb = word_at sb 4

abbrev pub log_block_size : Memory → ℕ
log_block_size sb = word_at sb 24

abbrev pub blocks_per_group : Memory → ℕ
blocks_per_group sb = word_at sb 32

abbrev pub magic : Memory → ℕ
magic sb = half_at sb 56

unfoldable pub is_ext2 : Memory → ℕ
is_ext2 device = if not (magic (superblock_of device) == 0xef53) then 0 else 1

-- One more where the condition holds, which is not that blocks are left over.
unfoldable pub groups_of : Memory → ℕ
groups_of sb =
    let total_groups = total_blocks sb / blocks_per_group sb in
    if ltb (mul32 (blocks_per_group sb) total_groups) total_groups
    then total_groups + 1
    else total_groups

-- How many blocks the descriptors take, and the rounds that read them: block 2 each time.
unfoldable pub bgd_blocks_of : ℕ → ℕ → ℕ
bgd_blocks_of total_groups block_size =
    let bgd_block = mul32 total_groups 32 / block_size in
    if ltb (mul32 bgd_block block_size) (mul32 total_groups 32) then bgd_block + 1 else bgd_block

unfoldable pub load_bgd : ℕ → (ℕ → Memory) → ℕ → ℕ → Memory → Memory
load_bgd zero disk block_size i bgd = bgd
load_bgd (suc left) disk block_size i bgd =
    load_bgd left disk block_size (i + 1) (blit bgd (i * block_size) (disk 2) 0 block_size)

-- The file system, as the superblock says, and with it the node of its root.
abbrev pub mounted : Memory → Ext2Fs
mounted device =
    let sb = superblock_of device in
    let block_size = mul32 1024 (2 ^ log_block_size sb) in
    let disk = blocks_of block_size device in
    let bgd_block = bgd_blocks_of (groups_of sb) block_size in
    record {
      disk = disk;
      bgd = load_bgd bgd_block disk block_size 0 (λ a. 0);
      block_size = block_size;
      block_per_group = blocks_per_group sb;
      inodes_per_group = word_at sb 40;
      total_groups = groups_of sb;
      bgd_block = bgd_block;
      inode_size = half_at sb 88;
    }

unfoldable pub ext2_init : Memory → Option (Ext2Fs × Ext2Node)
ext2_init device =
    let fs = mounted device in
    let root_inode = read_inode_metadata fs (λ a. 0) 2 in
    if not (magic (superblock_of device) == 0xef53)
    then none
    else some (fs, ext2_get_root root_inode)
