-- ===== src/AtaPio/Loops.antt =====
-- What ata_pio_read and ata_pio_write of src/drivers/storage/ata_pio.c do to each byte.
use sector_os_re.Base.{
  ◌⊎◌, Bool, ◌≢◌, ◌∙◌, sym, refl, ap, ◌&&◌, zero, ltb, leb, add32, fun_ext, suc, if◌then◌else◌,
  Memory, inr, arith, inl, ◌==◌, Bool-cases, ◌≡◌, ◌-◌, ◌^◌, ◌≤◌, ◌+◌, ◌<◌, ◌*◌, ◌%◌, min, max, ◌/◌,
  ℕ,
}
use sector_os_re.Bytes.Fields.{blit}
use sector_os_re.AtaPio.{Bool, ata_piodev_init}
use sector_os_re.AtaPio.Sectors.{
  ata_pio_read, ata_pio_write, IsSectorIo, write_sectors, read_sectors, size_in, off_in, SectorIo,
  range_of,
}

-- Where the round for a sector begins.
abbrev reached : ℕ → ℕ → ℕ → ℕ
reached offset size i = max offset (min (i * 512) (offset + size))

-- The byte of a disk at an offset.
abbrev pub byte_on : {D : Type 0} → SectorIo D → D → ℕ → ℕ
byte_on io d a = io.read_sector d (a / 512) (a % 512)

-- A round copies what its sector has of the range.
size_in-reached :
    (offset size i : ℕ)
    → 0 < size
    → offset + size ≤ 2 ^ 32 - 1
    → let range = range_of 512 offset size in
      range.start ≤ i
      → i ≤ range.end
      → (reached offset size i ≡ i * 512 + off_in range i)
        × (reached offset size i + size_in 512 range i ≡ reached offset size (i + 1))
        × (off_in range i + size_in 512 range i ≤ 512)
unfolding range_of off_in size_in
size_in-reached offset size i some_bytes fits lo hi = elim (Bool-cases (i == offset / 512)) [
  | inl first ↦ elim (Bool-cases (i == (offset + size - 1) / 512)) [
    | inl last ↦ (ground arith, ground arith, ground arith)
    | inr more ↦ (ground arith, ground arith, ground arith)
  ]
  | inr later ↦ elim (Bool-cases (i == (offset + size - 1) / 512)) [
    | inl last ↦ (ground arith, ground arith, ground arith)
    | inr more ↦ (ground arith, ground arith, ground arith)
  ]
]

module _ {D : Type 0} (io : SectorIo D) (offset size : ℕ) (some_bytes : 0 < size)
    (fits : offset + size ≤ 2 ^ 32 - 1) where
  -- A buffer whose first `n` bytes are those of the disk from `offset` on.
  abbrev pub filled_from : D → Memory → ℕ → Memory
  filled_from d buffer n a = if ltb a n then byte_on io d (offset + a) else buffer a

  filled_from-blit :
      (d : D) (buffer : Memory) (n i off count : ℕ)
      → offset + n ≡ i * 512 + off
      → off + count ≤ 512
      → blit (filled_from d buffer n) n (io.read_sector d i) off count
        ≡ filled_from d buffer (n + count)
  unfolding blit
  filled_from-blit d buffer n i off count at le = fun_ext λ a.
      elim (Bool-cases (leb n a && ltb a (n + count))) [
        | inl inside ↦
            let row : (offset + a) / 512 ≡ i = ground (arith, inside) in
            let column : off + (a - n) ≡ (offset + a) % 512 = ground (arith, inside) in
            let e : io.read_sector d i (off + (a - n)) ≡ byte_on io d (offset + a) =
              ap (λ s. io.read_sector d s (off + (a - n))) (sym row)
              ∙ ap (io.read_sector d ((offset + a) / 512)) column in
            ground (arith, inside, e)
        | inr outside ↦ ground (arith, outside)
      ]

  read_sectors-filled :
      (d : D) (buffer : Memory) (rounds i : ℕ)
      → let range = range_of 512 offset size in
        let n = reached offset size i - offset in
        i + rounds ≡ suc range.end
        → range.start ≤ i
        → read_sectors io rounds d 512 range i n (filled_from d buffer n)
          ≡ (filled_from d buffer size, size)
  unfolding read_sectors range_of
  read_sectors-filled d buffer zero i all lo =
      let e : reached offset size i - offset ≡ size = omega (arith, all) in rw e refl
  read_sectors-filled d buffer (suc rounds) i all lo =
      let range = range_of 512 offset size in
      let n = reached offset size i - offset in
      let count = size_in 512 range i in
      let (from, to, le) = size_in-reached offset size i some_bytes fits lo (omega (arith, all)) in
      let copied = filled_from-blit d buffer n i (off_in range i) count (omega (arith, from)) le in
      let more : add32 n count ≡ reached offset size (i + 1) - offset = omega (arith, to, fits) in
      let more' : n + count ≡ reached offset size (i + 1) - offset = omega (arith, to) in
      rw (copied, more, more')
        (read_sectors-filled d buffer rounds (i + 1) (omega (arith, all)) (omega (arith, lo)))

  -- A round of ata_pio_write puts its part of the range on the disk.
  sector_written :
      IsSectorIo io
      → (d : D) (buffer : Memory) (i a : ℕ) → ((j : ℕ) → buffer j < 2 ^ 8)
      → a < 2 ^ 32
      → let range = range_of 512 offset size in
        let n = reached offset size i - offset in
        range.start ≤ i
        → i ≤ range.end
        → byte_on io
            (io.write_sector d i
              (blit (io.read_sector d i) (off_in range i) buffer n (size_in 512 range i)))
            a
          ≡ (if leb (reached offset size i) a && ltb a (reached offset size (i + 1))
              then buffer (a - offset)
              else byte_on io d a)
  unfolding blit range_of
  sector_written laws d buffer i a bytes below lo hi =
      let range = range_of 512 offset size in
      let n = reached offset size i - offset in
      let count = size_in 512 range i in
      let off = off_in range i in
      let (from, to, le) = size_in-reached offset size i some_bytes fits lo hi in
      let ret = blit (io.read_sector d i) off buffer n count in
      let column : a % 512 < 512 = omega arith in
      let sector : i < 2 ^ 23 = omega (arith, hi, fits) in
      let ret_bytes : (j : ℕ) → ret j < 2 ^ 8 =
        λ j. ground (arith, laws.read_bytes d i j, bytes (n + (j - off))) in
      elim (Bool-cases (a / 512 == i)) [
        | inl here ↦
            let e : a / 512 ≡ i = ground arith in
            let new =
              ap (λ s. io.read_sector (io.write_sector d i ret) s (a % 512)) e
              ∙ laws.written d i ret (a % 512) sector ret_bytes column in
            let old = ap (λ s. io.read_sector d s (a % 512)) e in
            elim (Bool-cases
              (leb (reached offset size i) a && ltb a (reached offset size (i + 1)))) [
                | inl inside ↦
                    let place : n + (a % 512 - off) ≡ a - offset =
                      ground (arith, inside, e, from, to) in
                    let byte = ap buffer place in ground (arith, inside, new, byte, e, from, to)
                | inr outside ↦ ground (arith, outside, new, old, e, from, to)
              ]
        | inr away ↦
            let ne : a / 512 ≢ i = ground arith in
            let same =
              laws.kept d i (a / 512) ret (a % 512) sector (omega arith) ret_bytes ne column in
            ground (arith, same, ne, from, to, le)
      ]

  -- The disk after the rounds from sector `i` on.
  write_sectors-at :
      IsSectorIo io
      → (d : D) (buffer : Memory) (rounds i a : ℕ) → ((j : ℕ) → buffer j < 2 ^ 8)
      → a < 2 ^ 32
      → let range = range_of 512 offset size in
        let n = reached offset size i - offset in
        i + rounds ≡ suc range.end
        → range.start ≤ i
        → let done = write_sectors io rounds d 512 range i n buffer in
          (byte_on io done.0 a ≡ (
            if leb (reached offset size i) a && ltb a (offset + size)
            then buffer (a - offset)
            else byte_on io d a))
          × (done.1 ≡ size)
  unfolding write_sectors range_of
  write_sectors-at laws d buffer zero i a bytes below all lo =
      (ground (arith, all), omega (arith, all))
  write_sectors-at laws d buffer (suc rounds) i a bytes below all lo =
      let range = range_of 512 offset size in
      let n = reached offset size i - offset in
      let count = size_in 512 range i in
      let (from, to, le) = size_in-reached offset size i some_bytes fits lo (omega (arith, all)) in
      let ret = blit (io.read_sector d i) (off_in range i) buffer n count in
      let more : add32 n count ≡ reached offset size (i + 1) - offset = omega (arith, to, fits) in
      let (later, total) =
        write_sectors-at laws (io.write_sector d i ret) buffer rounds (i + 1) a bytes below
          (omega (arith, all)) (omega (arith, lo)) in
      let here = sector_written laws d buffer i a bytes below lo (omega (arith, all)) in
      let next =
        ap (λ m. write_sectors io rounds (io.write_sector d i ret) 512 range (i + 1) m buffer)
          more in
      (ap (λ r. byte_on io r.0 a) next ∙ later ∙ ground (arith, here), ap (λ r. r.1) next ∙ total)

-- A range of at least one byte that ends below 2^32 - 1, on a disk as ata_piodev_init sets it up: a
-- read gives the bytes of the disk from the offset on, keeps the rest of the buffer and answers the
-- size.
pub ata_pio_read-filled :
    {D : Type 0} (io : SectorIo D) (primary master : Bool) (d : D) (offset size : ℕ)
    (buffer : Memory)
    → 0 < size
    → offset + size ≤ 2 ^ 32 - 1
    → ata_pio_read io (ata_piodev_init primary master) d offset size buffer
      ≡ ((λ a. if ltb a size then byte_on io d (offset + a) else buffer a), size)
unfolding ata_pio_read ata_piodev_init range_of
ata_pio_read-filled io primary master d offset size buffer some_bytes fits =
    let range = range_of 512 offset size in
    let start : reached offset size (offset / 512) - offset ≡ 0 = omega arith in
    let none' : filled_from io offset size some_bytes fits d buffer 0 ≡ buffer =
      fun_ext λ a. ground arith in
    let loop =
      read_sectors-filled io offset size some_bytes fits d buffer (suc range.end - range.start)
        (offset / 512) (omega (arith, fits)) (omega arith) in
    let from_zero =
      ap
        (λ m.
          read_sectors io (suc range.end - range.start) d 512 range (offset / 512) m
            (filled_from io offset size some_bytes fits d buffer m))
        start in
    let from_buffer =
      ap (λ b. read_sectors io (suc range.end - range.start) d 512 range (offset / 512) 0 b)
        none' in
    sym from_buffer ∙ sym from_zero ∙ loop

written_at :
    {D : Type 0} (io : SectorIo D) (primary master : Bool) (d : D) (offset size : ℕ)
    (buffer : Memory)
    → IsSectorIo io
    → 0 < size
    → offset + size ≤ 2 ^ 32 - 1
    → ((j : ℕ) → buffer j < 2 ^ 8)
    → (a : ℕ) → a < 2 ^ 32
    → let done = ata_pio_write io (ata_piodev_init primary master) d offset size buffer in
      (byte_on io done.0 a
        ≡ (if leb offset a && ltb a (offset + size) then buffer (a - offset) else byte_on io d a))
      × (done.1 ≡ size)
unfolding ata_pio_write ata_piodev_init range_of
written_at io primary master d offset size buffer laws some_bytes fits bytes a below =
    let range = range_of 512 offset size in
    let start : reached offset size (offset / 512) - offset ≡ 0 = omega arith in
    let first : reached offset size (offset / 512) ≡ offset = omega arith in
    let (byte, total) =
      write_sectors-at io offset size some_bytes fits laws d buffer (suc range.end - range.start)
        (offset / 512) a bytes below (omega (arith, fits)) (omega arith) in
    let from_zero =
      ap (λ m. write_sectors io (suc range.end - range.start) d 512 range (offset / 512) m buffer)
        start in
    (
      ap (λ r. byte_on io r.0 a) (sym from_zero) ∙ byte ∙ ground (arith, first),
      ap (λ r. r.1) (sym from_zero) ∙ total,
    )

-- What is written to a range is read from it, and the bytes of the disk outside of the range and below
-- 2^32 are kept, for sectors that keep what is written to them.
pub read-written_range :
    {D : Type 0} (io : SectorIo D) (primary master : Bool) (d : D) (offset size : ℕ)
    (buffer fresh : Memory)
    → IsSectorIo io
    → 0 < size
    → offset + size ≤ 2 ^ 32 - 1
    → ((j : ℕ) → buffer j < 2 ^ 8)
    → let disk = ata_piodev_init primary master in
      let (d', total) = ata_pio_write io disk d offset size buffer in
      (total ≡ size)
      × (ata_pio_read io disk d' offset size fresh
          ≡ ((λ a. if ltb a size then buffer a else fresh a), size))
      × ((a : ℕ)
          → a < 2 ^ 32
          → (a < offset) ⊎ (offset + size ≤ a)
          → byte_on io d' a ≡ byte_on io d a)
read-written_range io primary master d offset size buffer fresh laws some_bytes fits bytes =
    let disk = ata_piodev_init primary master in
    let done = ata_pio_write io disk d offset size buffer in
    let at = λ (a : ℕ) (below : a < 2 ^ 32).
      written_at io primary master d offset size buffer laws some_bytes fits bytes a below in
    let same_bytes : (a : ℕ)
        → (if ltb a size then byte_on io done.0 (offset + a) else fresh a)
          ≡ (if ltb a size then buffer a else fresh a) =
      λ a. elim (Bool-cases (ltb a size)) [
        | inl inside ↦
            let place : offset + a - offset ≡ a = omega arith in
            let same = ap buffer place in
            let below : offset + a < 2 ^ 32 = ground (arith, inside, fits) in
            ground (arith, inside, at (offset + a) below, same)
        | inr outside ↦ rw outside refl
      ] in
    (
      (at 0 (omega arith)).1,
      ata_pio_read-filled io primary master done.0 offset size fresh some_bytes fits
          ∙ ap (λ (f : Memory). (f, size)) (fun_ext same_bytes),
      λ a below out. (at a below).0 ∙ ground (arith, out),
    )
