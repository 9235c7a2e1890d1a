-- ===== src/AtaPio/Tests.antt =====
-- src/drivers/storage/ata_pio.c on a disk that is always ready.
use sector_os_re.Base.{
  ◌*◌, length, ◌≤◌, some, arith, ◌⊎◌, ◌<◌, ◌+◌, ltb, ◌^◌, if◌then◌else◌, ◌≡◌, refl, ◌%◌, false,
  true, ℕ,
}
use sector_os_re.AtaPio.{
  model_of, identified, word_at, half_at, id_bytes, busy, identity_of, identify_polled, no_bus,
  ata_pio_identify, ata_pio_Read28, some, ltb, ata_pio_Write28, Reading, Writing, task_file,
  ata_piodev_init, poll,
}
use sector_os_re.AtaPio.Words.{
  read-write28, word_in, sector_selected-task_file, IsReady, sector_selected,
}
use sector_os_re.AtaPio.Sectors.{ata_pio_read, SectorIo, ata_pio_write}
use sector_os_re.AtaPio.Loops.{byte_on}
use sector_os_re.AtaPio.Driver.{ata_pio_read-ata_pio_write, driver}
use sector_os_re.Bytes.Fields.{word_at, half_at}

ready : IsReady 1 (λ _. 0x50)
unfolding poll
ready = (0x50, refl, refl)

abbrev zero_words : ℕ → ℕ → ℕ
zero_words lba k = 0

abbrev master_io : SectorIo (ℕ → ℕ → ℕ)
master_io = driver 1 (λ _. 0x50) (ata_piodev_init true true)

-- 600 bytes from 500 on, over three sectors.
ata_pio_read-ata_pio_write_example :
    let disk = ata_piodev_init true true in
    let (d', total) = ata_pio_write master_io disk zero_words 500 600 (λ i. i % 256) in
    (total ≡ 600)
    × (ata_pio_read master_io disk d' 500 600 (λ _. 9)
        ≡ ((λ a. if ltb a 600 then a % 256 else 9), 600))
    × ((a : ℕ)
        → a < 2 ^ 32
        → (a < 500) ⊎ (500 + 600 ≤ a)
        → byte_on master_io d' a ≡ byte_on master_io zero_words a)
ata_pio_read-ata_pio_write_example =
    ata_pio_read-ata_pio_write 1 (λ _. 0x50) true true zero_words 500 600 (λ i. i % 256) (λ _. 9)
      ready (omega arith) (omega arith) (λ j. omega arith)

whole : (ata_piodev_init true false).bytes_per_sector ≡ 512
unfolding ata_piodev_init
whole = refl

read-write28_example :
    let disk = ata_piodev_init true false in
    (w : Writing) × (r : Reading) × (ata_pio_Write28 1 (λ _. 0x50) disk 7 3 (λ j. j % 251) ≡ some w)
    × (ata_pio_Read28 1 (λ _. 0x50) (word_in w.words) disk 7 3 (λ _. 0) ≡ some r)
    × (length w.words ≡ 256)
    × (r.taken ≡ 256)
    × ((j : ℕ) → r.buffer j ≡ (if ltb j 3 then j % 251 else 0))
read-write28_example =
    read-write28 1 1 (λ _. 0x50) (λ _. 0x50) (ata_piodev_init true false) 7 3 (λ j. j % 251)
      (λ _. 0) ready ready whole (omega arith) (λ j. omega arith)

sector_selected-task_file_example :
    sector_selected
      (ata_piodev_init true true)
      (task_file (ata_piodev_init true true) 0x0123_4567 0x20)
    ≡ (if true then 0x0123_4567 % 2 ^ 24 else 0x0123_4567)
sector_selected-task_file_example =
    sector_selected-task_file true true 0x0123_4567 0x20 (omega arith)

-- The words 0, 1, 2 and so on.
identify_counts :
    ata_pio_identify 1 (λ _. 0x50) (λ k. k)
    ≡ identified (record {
      channel = 1;
      disk_type = 0;
      signature = 0;
      capabilities = 49;
      command_sets = 82;
      size = 60 + 2 ^ 16 * 61;
      model = model_of (id_bytes (λ k. k));
    })
unfolding ata_pio_identify identify_polled poll identity_of id_bytes half_at word_at
identify_counts = refl

absent_bus : ata_pio_identify 1 (λ _. 0xff) (λ k. k) ≡ no_bus
unfolding ata_pio_identify
absent_bus = refl

always_busy : ata_pio_identify 9 (λ _. 0x80) (λ k. k) ≡ busy
unfolding ata_pio_identify identify_polled poll
always_busy = refl
