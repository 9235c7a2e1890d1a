-- ===== src/Mbr/Tests.antt =====
-- The theorems about src/fs/mbr.c on a ramdisk of 64 sectors.
use sector_os_re.Ramdisk.{ramdisk_get_vfs_node, Ramdisk}
use sector_os_re.Ramdisk.Laws.{IsApart}
use sector_os_re.Mbr.Probe.{probe_partitions_found, find_num}
use sector_os_re.Base.{◌≤◌, ℕ, ◌<◌, inl, some, ◌%◌, refl, ◌≡◌, arith, Memory}
use sector_os_re.Mbr.{
  partition_of, probe_partitions, mbr_write, Partition, mbr_get_vfs_node, TableEntry,
}
use sector_os_re.Mbr.Laws.{mbr_write_misplaced, IsOn}

abbrev disk : Ramdisk
disk = record { id = 0; size = 0x8000; start = 0x10_0000; end = 0x10_8000 }

abbrev filled : Memory
filled a = a % 256

-- Sixteen sectors from the ninth one on.
abbrev part : Partition Memory
part = record {
  device = some (ramdisk_get_vfs_node disk);
  num = 0;
  bootable = 0x80;
  partition_id = 0x83;
  start_lba = 8;
  length = 16;
}

part-IsOn : IsOn part disk
part-IsOn = record { device = refl; inside = omega arith; in_space = omega arith }

buffer-IsApart : IsApart disk 0x2000 64
buffer-IsApart = record { in_space = omega arith; small = omega arith; apart = inl (omega arith) }

mbr_write_misplaced_example :
    let (ret, m') = mbr_write part filled 0 64 0x2000 in
    (ret ≡ 64)
    × (m' 0x10_0008 ≡ 0)
    × (0x10_0008 < 0x10_1000)
    × ((a : ℕ) → 0x10_0048 ≤ a → m' a ≡ a % 256)
mbr_write_misplaced_example =
    mbr_write_misplaced part disk part-IsOn filled 0 64 0x2000 buffer-IsApart (omega arith)
      (omega arith) (omega arith)

abbrev unused : TableEntry
unused = record { bootable = 0; partition_id = 0; start_lba = 0; length = 0 }

abbrev linux : TableEntry
linux = record { bootable = 0x80; partition_id = 0x83; start_lba = 8; length = 16 }

probe_partitions_found_example :
    find_num
      (probe_partitions (some (ramdisk_get_vfs_node disk)) 0xaa55 unused linux unused unused unused)
      1
    ≡ some (partition_of (ramdisk_get_vfs_node disk) 1 linux)
probe_partitions_found_example =
    probe_partitions_found (ramdisk_get_vfs_node disk) 1 unused linux unused unused unused

node_size : (mbr_get_vfs_node part).size ≡ 8192
unfolding mbr_get_vfs_node
node_size = refl
