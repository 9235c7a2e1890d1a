-- ===== src/Ramdisk.antt =====
-- src/drivers/storage/ramdisk.c: a block device over a range of memory.
-- The sizes that reach `memcpy` are below `2 ^ 31`, where its `int` counter is not negative.
pub mod Laws
mod Tests
use sector_os_re.Bytes.{memcpy}
use sector_os_re.Vfs.{Callback, Node}
use sector_os_re.Base.{u32_max, ltb, if◌then◌else◌, some, add32, Memory, ℕ}

-- `ramdisk_t`
pub record Ramdisk : Type 0 where
  pub id : ℕ
  pub size : ℕ
  pub start : ℕ
  pub end : ℕ

-- The disk that ramdisk_create makes, and the next value of the counter `id`.
pub ramdisk_create : ℕ → ℕ → ℕ → Ramdisk × ℕ
ramdisk_create id start size =
    (record { id = id; size = size; start = start; end = add32 start size }, add32 id 1)

unfoldable pub ramdisk_read : Ramdisk → Callback Memory
ramdisk_read r m offset size buffer =
    if ltb r.size (add32 offset size)
    then (u32_max, m)
    else (size, memcpy m buffer (add32 r.start offset) size)

unfoldable pub ramdisk_write : Ramdisk → Callback Memory
ramdisk_write r m offset size buffer =
    if ltb r.size (add32 offset size)
    then (u32_max, m)
    else (size, memcpy m (add32 r.start offset) buffer size)

pub ramdisk_get_file_size : Ramdisk → Memory → ℕ
ramdisk_get_file_size r m = r.size

-- `ramdisk_getVFSNode`
unfoldable pub ramdisk_get_vfs_node : Ramdisk → Node Memory
ramdisk_get_vfs_node r = record {
  size = r.size;
  read = some (ramdisk_read r);
  write = some (ramdisk_write r);
  get_filesize = some (ramdisk_get_file_size r);
}
