-- ===== src/Mbr.antt =====
-- src/fs/mbr.c: the partitions of a disk, as devices of their own.
pub mod Laws
pub mod Probe
mod Tests
use sector_os_re.Vfs.{vfs_write, vfs_read, Node, Callback}
use sector_os_re.Base.{
  List, [], ◌∷◌, ◌+◌, u32_max, none, ◌==◌, ltb, some, if◌then◌else◌, add32, mul32, Option, ℕ,
}

-- An entry of the partition table (`PTE_t`), with the fields that the code reads.
pub record TableEntry : Type 0 where
  pub bootable : ℕ
  pub partition_id : ℕ
  pub start_lba : ℕ
  pub length : ℕ

-- `partition_t`, but for `fs_type`, which only find_fs sets
pub record Partition (W : Type 0) : Type 0 where
  pub device : Option (Node W)
  pub num : ℕ
  pub bootable : ℕ
  pub partition_id : ℕ
  pub start_lba : ℕ
  pub length : ℕ

module _ {W : Type 0} where
  unfoldable pub mbr_read : Partition W → Callback W
  mbr_read p w offset size buffer =
      let toff = add32 (mul32 p.start_lba 512) offset in
      if ltb (mul32 p.length 512) (add32 offset size)
      then (u32_max, w)
      else vfs_read p.device w toff size buffer

  unfoldable pub mbr_write : Partition W → Callback W
  mbr_write p w offset size buffer =
      let toff = add32 p.start_lba offset in
      if ltb (mul32 p.length 512) (add32 offset size)
      then (u32_max, w)
      else vfs_write p.device w toff size buffer

  -- `mbr_getVFSNode`, without the name; `get_filesize` is not set.
  unfoldable pub mbr_get_vfs_node : Partition W → Node W
  mbr_get_vfs_node p = record {
    size = mul32 p.length 512;
    read = some (mbr_read p);
    write = some (mbr_write p);
    get_filesize = none;
  }

  -- What one of the five blocks of probe_partitions makes of an entry.
  pub partition_of : Node W → ℕ → TableEntry → Partition W
  partition_of device num e = record {
    device = some device;
    num = num;
    bootable = e.bootable;
    partition_id = e.partition_id;
    start_lba = e.start_lba;
    length = e.length;
  }

  -- The five blocks, which are alike, from the one for entry `num` on. `device` is what `file_open` answers: where it is
  -- NULL the first entry that is in use ends the function.
  unfoldable pub probe_entries : Option (Node W) → ℕ → List TableEntry → List (Partition W)
  probe_entries device num [] = []
  probe_entries none num (e ∷ es) =
      if e.partition_id == 0 then probe_entries none (num + 1) es else []
  probe_entries (some device) num (e ∷ es) =
      let rest = probe_entries (some device) (num + 1) es in
      if e.partition_id == 0 then rest else partition_of device num e ∷ rest

  -- The partitions that are handed to devfs_add and find_fs, in that order. The table has the four
  -- entries `e0` to `e3`; `behind` is what `primaryPartition[4]` reads in the memory behind it, the
  -- last two bytes of the sector and what follows its buffer.
  unfoldable pub probe_partitions :
      Option (Node W) → ℕ → (e0 e1 e2 e3 behind : TableEntry) → List (Partition W)
  probe_partitions none magicnumber e0 e1 e2 e3 behind = []
  probe_partitions (some device) magicnumber e0 e1 e2 e3 behind =
      let blocks = probe_entries (some device) 0 (e0 ∷ e1 ∷ e2 ∷ e3 ∷ behind ∷ []) in
      if magicnumber == 0xaa55 then blocks else []
