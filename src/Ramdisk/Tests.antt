-- ===== src/Ramdisk/Tests.antt =====
-- The theorems about src/drivers/storage/ramdisk.c on a disk of 1024 bytes.
use sector_os_re.Ramdisk.{
  ramdisk_get_file_size, ramdisk_get_vfs_node, ℕ, ramdisk_create, Memory, Ramdisk,
}
use sector_os_re.Vfs.{vfs_get_file_size}
use sector_os_re.Base.{inl, some, arith, ◌≤◌, refl, ◌≡◌, ◌+◌, ◌%◌, ℕ, Memory}
use sector_os_re.Ramdisk.Laws.{IsApart}

abbrev disk : Ramdisk
disk = record { id = 0; size = 1024; start = 0x10_0000; end = 0x10_0400 }

-- Each address holds its own lowest byte.
abbrev filled : Memory
filled a = a % 256

apart : (buffer : ℕ) → buffer + 16 ≤ 0x10_0000 → IsApart disk buffer 16
apart buffer le = record { in_space = omega arith; small = omega arith; apart = inl le }

created : ramdisk_create 3 0x10_0000 1024 ≡ (record disk { id = 3 }, 4)
unfolding ramdisk_create
created = refl

file_size : vfs_get_file_size (some (ramdisk_get_vfs_node disk)) filled ≡ 1024
unfolding vfs_get_file_size ramdisk_get_vfs_node ramdisk_get_file_size
file_size = refl
