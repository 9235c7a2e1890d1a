-- ===== src/AtaPio/Driver.antt =====
-- The sectors of src/drivers/storage/ata_pio.c on a disk that is always ready: ata_pio_read_sector and
-- ata_pio_write_sector over the words of the sector that the registers select, and ata_pio_read and
-- ata_pio_write over these.
use sector_os_re.AtaPio.{
  bit_and, ltb, leb, pairs, update, Out, ata_piodev_init, some, ata_pio_Flush28, Memory, List,
  ata_pio_Read28, Bool, Writing, Reading, AtaPio, ℕ, Option, ata_pio_read_sector,
  ata_pio_write_sector, task_file,
}
use sector_os_re.Base.{
  inl, true, ◌==◌, bit_and, ◌⊎◌, sym, ltb, refl, update_ne, ◌&&◌, leb, update_self, arith, ◌-◌,
  if◌then◌else◌, ◌∙◌, update, ◌≤◌, none, ◌≡◌, ap, ◌+◌, ◌^◌, ◌<◌, Memory, List, Bool, ℕ, Option,
}
use sector_os_re.AtaPio.Words.{
  take_words-at, byte_of, sector_selected-task_file, read-write28, word_in, sector_selected,
  IsReady,
}
use sector_os_re.AtaPio.Sectors.{ata_pio_read, ata_pio_write, IsSectorIo, SectorIo}
use sector_os_re.AtaPio.Loops.{read-written_range, byte_on}

-- A disk is the words of its sectors. Words that are sent stay in the sector that was selected.
pub buffer_of : Option Reading → Memory
buffer_of none = λ _. 0
buffer_of (some r) = r.buffer

pub disk_after : AtaPio → (ℕ → ℕ → ℕ) → ℕ → Option (Writing × List Out × ℕ) → ℕ → ℕ → ℕ
disk_after disk d lba none = d
disk_after disk d lba (some (w, _, _)) =
    update d (sector_selected disk (task_file disk lba 0x30)) (word_in w.words)

pub driver : ℕ → (ℕ → ℕ) → AtaPio → SectorIo (ℕ → ℕ → ℕ)
driver rounds statuses disk = record {
  read_sector = λ d lba.
      let words = d (sector_selected disk (task_file disk lba 0x20)) in
      buffer_of (ata_pio_read_sector rounds statuses words disk lba (λ _. 0));
  write_sector = λ d lba buffer.
      disk_after disk d lba (ata_pio_write_sector rounds statuses statuses disk lba buffer);
}

module _ (rounds : ℕ) (statuses : ℕ → ℕ) (ready : IsReady rounds statuses)
    (primary master : Bool) where
  selected :
      (lba command : ℕ)
      → lba < 2 ^ 23
      → let disk = ata_piodev_init primary master in
        sector_selected disk (task_file disk lba command) ≡ lba
  selected lba command lt =
      sector_selected-task_file primary master lba command (omega arith) ∙ ground arith

  -- What a sector reads as, byte by byte.
  read_bytes_of :
      (words : ℕ → ℕ) (lba r : ℕ)
      → buffer_of
          (ata_pio_read_sector rounds statuses words (ata_piodev_init primary master) lba (λ _. 0))
          r
        ≡ (if leb 0 r && ltb r 512 then byte_of words r else 0)
  unfolding buffer_of ata_pio_read_sector ata_pio_Read28 ata_piodev_init pairs
  read_bytes_of words lba r =
      let (status, polled, fine) = ready in
      let test : (bit_and status 0x01 == 0) ≡ true = ground (arith, fine) in
      rw (polled, test) (take_words-at words 512 256 0 r (λ _. 0) (omega arith) (inl (omega arith)))

  -- A sector that is written, and read from the words that it then has.
  wrote :
      (d : ℕ → ℕ → ℕ) (lba : ℕ) (buffer : Memory)
      → lba < 2 ^ 23
      → ((j : ℕ) → buffer j < 2 ^ 8)
      → let disk = ata_piodev_init primary master in
        (words : ℕ → ℕ) × ((driver rounds statuses disk).write_sector d lba buffer
          ≡ update d lba words)
        × ((r : ℕ)
            → r < 512
            → buffer_of (ata_pio_read_sector rounds statuses words disk lba (λ _. 0)) r ≡ buffer r)
  unfolding driver buffer_of disk_after ata_pio_read_sector ata_pio_write_sector ata_pio_Flush28
      ata_piodev_init
  wrote d lba buffer lt bytes =
      let disk = ata_piodev_init primary master in
      let (w, r, sent, got, _, _, same) =
        read-write28 rounds rounds statuses statuses disk lba 512 buffer (λ _. 0) ready ready refl
          (omega arith) bytes in
      let (status, polled, fine) = ready in
      let at = selected lba 0x30 lt in
      (
        word_in w.words,
        rw (sent, polled) (ap (λ i. update d i (word_in w.words)) at),
        λ j inside. rw got (same j ∙ ground (arith, inside)),
      )

  driver-IsSectorIo : IsSectorIo (driver rounds statuses (ata_piodev_init primary master))
  unfolding driver
  driver-IsSectorIo =
      let disk = ata_piodev_init primary master in
      let got = λ (words : ℕ → ℕ) (lba r : ℕ).
        buffer_of (ata_pio_read_sector rounds statuses words disk lba (λ _. 0)) r in
      record {
        written = λ d lba buffer r lt bytes inside.
            let (words, stored, same) = wrote d lba buffer lt bytes in
            ap (λ e. got (e (sector_selected disk (task_file disk lba 0x20))) lba r) stored
            ∙ ap (λ s. got (update d lba words s) lba r) (selected lba 0x20 lt)
            ∙ ap (λ (ws : ℕ → ℕ). got ws lba r) (update_self d lba words)
            ∙ same r inside;
        kept = λ d lba other buffer r lt lt' bytes ne inside.
            let (words, stored, same) = wrote d lba buffer lt bytes in
            let at = selected other 0x20 lt' in
            ap (λ e. got (e (sector_selected disk (task_file disk other 0x20))) other r) stored
            ∙ ap (λ s. got (update d lba words s) other r) at
            ∙ ap (λ (ws : ℕ → ℕ). got ws other r) (update_ne d lba words other ne)
            ∙ ap (λ s. got (d s) other r) (sym at);
        read_bytes = λ d lba r.
            let words = d (sector_selected disk (task_file disk lba 0x20)) in
            ground (arith, read_bytes_of words lba r);
      }

-- On a disk that keeps the words that it is sent for the sector that its registers select, that
-- answers with them, and that gets ready for each command in the rounds given and without an error,
-- with the registers as ata_piodev_init sets them up: bytes that were written to a range of at least one byte, whose end
-- offset + size is at most 2^32 - 1, are read from it, whatever was on the disk before, and a byte of
-- the disk outside of the range and below 2^32 is kept; both calls answer the size.
pub ata_pio_read-ata_pio_write :
    (rounds : ℕ) (statuses : ℕ → ℕ) (primary master : Bool) (d : ℕ → ℕ → ℕ) (offset size : ℕ)
    (buffer fresh : Memory)
    → IsReady rounds statuses
    → 0 < size
    → offset + size ≤ 2 ^ 32 - 1
    → ((j : ℕ) → buffer j < 2 ^ 8)
    → let disk = ata_piodev_init primary master in
      let io = driver rounds statuses disk in
      let (d', total) = ata_pio_write io disk d offset size buffer in
      (total ≡ size)
      × (ata_pio_read io disk d' offset size fresh
          ≡ ((λ a. if ltb a size then buffer a else fresh a), size))
      × ((a : ℕ)
          → a < 2 ^ 32
          → (a < offset) ⊎ (offset + size ≤ a)
          → byte_on io d' a ≡ byte_on io d a)
ata_pio_read-ata_pio_write rounds statuses primary master d offset size buffer fresh ready
      some_bytes fits bytes =
    read-written_range (driver rounds statuses (ata_piodev_init primary master)) primary master d
      offset size buffer fresh (driver-IsSectorIo rounds statuses ready primary master) some_bytes
      fits bytes
