-- ===== src/Ramdisk/Laws.antt =====
-- What reading and writing a ramdisk (src/drivers/storage/ramdisk.c) does to the memory.
use sector_os_re.Ramdisk.{ramdisk_write, ramdisk_read, Ramdisk}
use sector_os_re.Base.{
  refl, false, arith, add32, u32_max, ltb, ◌∙◌, ◌≡◌, ◌⊎◌, ◌≤◌, ◌<◌, ◌^◌, ◌+◌, Memory, ℕ,
}
use sector_os_re.Bytes.Laws.{memcpy_outside, memcpy_inside}

-- The disk lies below the end of the address space, and the buffer apart from it.
pub record IsApart (r : Ramdisk) (buffer size : ℕ) : Type 0 where
  pub in_space : r.start + r.size < 2 ^ 32
  pub small : size < 2 ^ 31
  pub apart : (buffer + size ≤ r.start) ⊎ (r.start + r.size ≤ buffer)

module _ (r : Ramdisk) (m : Memory) (offset size buffer : ℕ) where
  -- A read within the disk answers its size, copies the disk's bytes into the buffer, and changes
  -- nothing else.
  pub ramdisk_read_within :
      IsApart r buffer size
      → offset + size ≤ r.size
      → let (ret, m') = ramdisk_read r m offset size buffer in
        (ret ≡ size)
        × ((i : ℕ) → i < size → m' (buffer + i) ≡ m (r.start + offset + i))
        × ((a : ℕ) → (a < buffer) ⊎ (buffer + size ≤ a) → m' a ≡ m a)
  unfolding ramdisk_read
  ramdisk_read_within v le =
      let fits : ltb r.size (add32 offset size) ≡ false = ground (arith, v.in_space) in
      let at : add32 r.start offset ≡ r.start + offset = omega (arith, v.in_space) in
      rw (fits, at)
        (
          refl,
          λ i lt. memcpy_inside m buffer (r.start + offset) size i (omega (arith, v.apart)) lt,
          λ a out. memcpy_outside m buffer (r.start + offset) size a out,
        )

  -- A write within the disk answers its size, copies the buffer to the disk, and changes nothing
  -- else; in particular no byte outside the disk.
  pub ramdisk_write_within :
      IsApart r buffer size
      → offset + size ≤ r.size
      → let (ret, m') = ramdisk_write r m offset size buffer in
        (ret ≡ size)
        × ((i : ℕ) → i < size → m' (r.start + offset + i) ≡ m (buffer + i))
        × ((a : ℕ) → (a < r.start + offset) ⊎ (r.start + offset + size ≤ a) → m' a ≡ m a)
  unfolding ramdisk_write
  ramdisk_write_within v le =
      let fits : ltb r.size (add32 offset size) ≡ false = ground (arith, v.in_space) in
      let at : add32 r.start offset ≡ r.start + offset = omega (arith, v.in_space) in
      rw (fits, at)
        (
          refl,
          λ i lt. memcpy_inside m (r.start + offset) buffer size i (omega (arith, v.apart)) lt,
          λ a out. memcpy_outside m (r.start + offset) buffer size a out,
        )

  -- Past the end of the disk both answer -1 and change nothing, as long as `offset + size` does not
  -- wrap round.
  pub ramdisk_past_end :
      r.size < offset + size
      → offset + size < 2 ^ 32
      → (ramdisk_read r m offset size buffer ≡ (u32_max, m))
        × (ramdisk_write r m offset size buffer ≡ (u32_max, m))
  unfolding ramdisk_read ramdisk_write
  ramdisk_past_end past fits = (ground arith, ground arith)

  -- Where `offset + size` wraps round to a number within the size, the test passes: the read
  -- answers `size`, with the bytes from `start + offset` on, the first of which is not on the disk.
  pub ramdisk_read_wraps :
      2 ^ 32 ≤ offset + size
      → offset < 2 ^ 32
      → size < 2 ^ 31
      → offset + size ≤ 2 ^ 32 + r.size
      → r.size ≤ offset
      → r.start + offset < 2 ^ 32
      → (buffer + size ≤ r.start + offset)
      → let (ret, m') = ramdisk_read r m offset size buffer in
        (ret ≡ size)
        × (r.start + r.size ≤ r.start + offset)
        × ((i : ℕ) → i < size → m' (buffer + i) ≡ m (r.start + offset + i))
  unfolding ramdisk_read
  ramdisk_read_wraps wrap off small le outside space apart =
      let fits : ltb r.size (add32 offset size) ≡ false = ground arith in
      let at : add32 r.start offset ≡ r.start + offset = omega arith in
      rw (fits, at)
        (
          refl,
          omega arith,
          λ i lt. memcpy_inside m buffer (r.start + offset) size i (omega arith) lt,
        )

-- What was written to the disk from one buffer is what is read back into another.
pub ramdisk_read-ramdisk_write :
    (r : Ramdisk) (m : Memory) (offset size source target i : ℕ)
    → IsApart r source size
    → IsApart r target size
    → offset + size ≤ r.size
    → i < size
    → let (_, m1) = ramdisk_write r m offset size source in
      let (_, m2) = ramdisk_read r m1 offset size target in m2 (target + i) ≡ m (source + i)
ramdisk_read-ramdisk_write r m offset size source target i v w le lt =
    let (_, wrote, _) = ramdisk_write_within r m offset size source v le in
    let (_, got, _) =
      ramdisk_read_within r (ramdisk_write r m offset size source).1 offset size target w le in
    got i lt ∙ wrote i lt
