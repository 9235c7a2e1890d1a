-- ===== src/AtaPio/Sectors.antt =====
-- ata_pio_read and ata_pio_write of src/drivers/storage/ata_pio.c: a range of bytes over the sectors of
-- a disk. The sectors are those of an interface, with a state of the disk.
use sector_os_re.Base.{
  ◌^◌, ◌≢◌, zero, ◌%◌, ◌-◌, ◌+◌, ◌/◌, ◌≡◌, ◌<◌, suc, add32, ◌==◌, Memory, sub32, if◌then◌else◌, ℕ,
}
use sector_os_re.Bytes.Fields.{blit}
use sector_os_re.AtaPio.{suc, Memory, AtaPio}

-- ata_pio_read_sector and ata_pio_write_sector on a disk that answers without an error.
pub record SectorIo (D : Type 0) : Type 0 where
  pub read_sector : D → ℕ → Memory
  pub write_sector : D → ℕ → Memory → D

-- A sector of 512 bytes holds what was last written to it, for the sectors that hold the bytes below
-- 2^32.
pub record IsSectorIo {D : Type 0} (io : SectorIo D) : Type 0 where
  pub written :
      (d : D) (lba : ℕ) (buffer : Memory) (r : ℕ)
      → lba < 2 ^ 23
      → ((j : ℕ) → buffer j < 2 ^ 8)
      → r < 512
      → io.read_sector (io.write_sector d lba buffer) lba r ≡ buffer r
  pub kept :
      (d : D) (lba other : ℕ) (buffer : Memory) (r : ℕ)
      → lba < 2 ^ 23
      → other < 2 ^ 23
      → ((j : ℕ) → buffer j < 2 ^ 8)
      → other ≢ lba
      → r < 512
      → io.read_sector (io.write_sector d lba buffer) other r ≡ io.read_sector d other r
  pub read_bytes : (d : D) (lba r : ℕ) → io.read_sector d lba r < 2 ^ 8

-- `start`, `start_offset`, `end` and `end_offset` of a range.
pub record Range : Type 0 where
  pub start : ℕ
  pub start_offset : ℕ
  pub end : ℕ
  pub end_offset : ℕ

unfoldable pub range_of : ℕ → ℕ → ℕ → Range
range_of sector offset size =
    let last = sub32 (add32 offset size) 1 in
    record {
      start = offset / sector;
      start_offset = offset % sector;
      end = last / sector;
      end_offset = last % sector;
    }

-- `off` and `read_size` in the round for a sector.
unfoldable pub off_in : Range → ℕ → ℕ
off_in range counter = if counter == range.start then range.start_offset else 0

unfoldable pub size_in : ℕ → Range → ℕ → ℕ
size_in sector range counter =
    let off = off_in range counter in
    if counter == range.end
    then add32 (sub32 range.end_offset off) 1
    else if counter == range.start
    then sub32 sector off
    else sector

module _ {D : Type 0} (io : SectorIo D) where
  -- `while(counter <= end)`, with the rounds that are left: the buffer and `total`.
  unfoldable pub read_sectors : ℕ → D → ℕ → Range → ℕ → ℕ → Memory → Memory × ℕ
  read_sectors zero d sector range counter total buffer = (buffer, total)
  read_sectors (suc rounds) d sector range counter total buffer =
      let read_size = size_in sector range counter in
      read_sectors rounds d sector range (counter + 1) (add32 total read_size)
        (blit buffer total (io.read_sector d counter) (off_in range counter) read_size)

  unfoldable pub ata_pio_read : AtaPio → D → ℕ → ℕ → Memory → Memory × ℕ
  ata_pio_read disk d offset size buffer =
      let range = range_of disk.bytes_per_sector offset size in
      read_sectors (suc range.end - range.start) d disk.bytes_per_sector range range.start 0 buffer

  unfoldable pub write_sectors : ℕ → D → ℕ → Range → ℕ → ℕ → Memory → D × ℕ
  write_sectors zero d sector range counter total buffer = (d, total)
  write_sectors (suc rounds) d sector range counter total buffer =
      let write_size = size_in sector range counter in
      let ret = blit (io.read_sector d counter) (off_in range counter) buffer total write_size in
      write_sectors rounds (io.write_sector d counter ret) sector range (counter + 1)
        (add32 total write_size) buffer

  unfoldable pub ata_pio_write : AtaPio → D → ℕ → ℕ → Memory → D × ℕ
  ata_pio_write disk d offset size buffer =
      let range = range_of disk.bytes_per_sector offset size in
      write_sectors (suc range.end - range.start) d disk.bytes_per_sector range range.start 0 buffer
