-- ===== src/Mbr/Laws.antt =====
-- Where the reads and writes of a partition (src/fs/mbr.c) go on a ramdisk that holds it.
use sector_os_re.Ramdisk.Laws.{ramdisk_write_within, ramdisk_read_within, IsApart}
use sector_os_re.Mbr.{mbr_write, mbr_read, Partition}
use sector_os_re.Base.{
  inr, false, add32, arith, mul32, u32_max, ltb, ◌⊎◌, ◌^◌, ◌≤◌, ◌<◌, ◌+◌, ◌*◌, some, ◌≡◌, ℕ, Memory,
}
use sector_os_re.Ramdisk.{ramdisk_get_vfs_node, Ramdisk}
use sector_os_re.Vfs.{vfs_write, vfs_read}

-- The partition lies on the ramdisk.
pub record IsOn (p : Partition Memory) (r : Ramdisk) : Type 0 where
  pub device : p.device ≡ some (ramdisk_get_vfs_node r)
  pub inside : (p.start_lba + p.length) * 512 ≤ r.size
  pub in_space : r.start + r.size < 2 ^ 32

module _ (p : Partition Memory) (r : Ramdisk) (v : IsOn p r) (m : Memory)
    (offset size buffer : ℕ) where
  -- A read within the partition answers its size and copies the bytes from the partition's first
  -- sector on.
  pub mbr_read_within :
      IsApart r buffer size
      → offset + size ≤ p.length * 512
      → let (ret, m') = mbr_read p m offset size buffer in
        (ret ≡ size)
        × ((i : ℕ) → i < size → m' (buffer + i) ≡ m (r.start + (p.start_lba * 512 + offset) + i))
        × ((a : ℕ) → (a < buffer) ⊎ (buffer + size ≤ a) → m' a ≡ m a)
  unfolding mbr_read vfs_read ramdisk_get_vfs_node
  mbr_read_within apart le =
      let fits : ltb (mul32 p.length 512) (add32 offset size) ≡ false =
        ground (arith, v.inside, v.in_space) in
      let at : add32 (mul32 p.start_lba 512) offset ≡ p.start_lba * 512 + offset =
        omega (arith, v.inside, v.in_space) in
      rw (fits, at, v.device)
        (ramdisk_read_within r m (p.start_lba * 512 + offset) size buffer apart
          (omega (arith, v.inside)))

  -- A write goes to the byte `start_lba` of the disk, not to the sector: it answers its size, and
  -- its first byte lands in front of the partition, for an offset below `start_lba * 511`.
  pub mbr_write_misplaced :
      IsApart r buffer size
      → 0 < size
      → offset + size ≤ p.length * 512
      → offset < p.start_lba * 511
      → let (ret, m') = mbr_write p m offset size buffer in
        (ret ≡ size)
        × (m' (r.start + (p.start_lba + offset)) ≡ m buffer)
        × (r.start + (p.start_lba + offset) < r.start + p.start_lba * 512)
        × ((a : ℕ) → r.start + (p.start_lba + offset) + size ≤ a → m' a ≡ m a)
  unfolding mbr_write vfs_write ramdisk_get_vfs_node
  mbr_write_misplaced apart pos le low =
      let fits : ltb (mul32 p.length 512) (add32 offset size) ≡ false =
        ground (arith, v.inside, v.in_space) in
      let at : add32 p.start_lba offset ≡ p.start_lba + offset =
        omega (arith, v.inside, v.in_space) in
      let wrote =
        ramdisk_write_within r m (p.start_lba + offset) size buffer apart
          (omega (arith, v.inside)) in
      rw (fits, at, v.device)
        (wrote.0, ground (arith, wrote.1 0), omega arith, λ a out. wrote.2 a (inr out))

  -- Past the end of the partition both answer -1 and change nothing, as long as `offset + size` does
  -- not wrap round.
  pub mbr_past_end :
      p.length * 512 < offset + size
      → offset + size < 2 ^ 32
      → (mbr_read p m offset size buffer ≡ (u32_max, m))
        × (mbr_write p m offset size buffer ≡ (u32_max, m))
  unfolding mbr_read mbr_write
  mbr_past_end past fits =
      (ground (arith, v.inside, v.in_space), ground (arith, v.inside, v.in_space))
