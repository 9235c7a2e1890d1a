-- ===== src/Logdisk/Device.antt =====
-- The log of src/drivers/storage/logdisk.c read and written as a device, and its change of size.
use sector_os_re.Logdisk.{
  Memory, ℕ, Logdisk, logdisk_putc, logdisk_chsize, logdisk_read, logdisk_write, clamp,
}
use sector_os_re.Base.{
  refl, add32, arith, update, min, ◌-◌, ◌⊎◌, ◌≡◌, ◌^◌, ◌≤◌, ◌+◌, ◌<◌, Memory, ℕ,
}
use sector_os_re.Bytes.Laws.{memcpy_outside, memcpy_inside}

-- A read at an offset in the log cuts its size down to what is left, answers that, and copies the
-- bytes; it changes nothing else.
pub logdisk_read_clamped :
    (d : Logdisk) (m : Memory) (offset size buf : ℕ)
    → d.buffer + d.size < 2 ^ 32
    → offset ≤ d.size
    → offset + size < 2 ^ 32
    → (buf + size ≤ d.buffer) ⊎ (d.buffer + d.size ≤ buf)
    → let (n, m') = logdisk_read d m offset size buf in
      (n ≡ min size (d.size - offset))
      × ((i : ℕ) → i < n → m' (buf + i) ≡ m (d.buffer + offset + i))
      × ((a : ℕ) → (a < buf) ⊎ (buf + n ≤ a) → m' a ≡ m a)
unfolding logdisk_read clamp
logdisk_read_clamped d m offset size buf space le fits apart =
    let n : clamp d offset size ≡ min size (d.size - offset) = ground arith in
    let at : add32 d.buffer offset ≡ d.buffer + offset = omega arith in
    rw (at, n)
      (
        refl,
        λ i lt.
            memcpy_inside m buf (d.buffer + offset) (min size (d.size - offset)) i (omega arith) lt,
        λ a out. memcpy_outside m buf (d.buffer + offset) (min size (d.size - offset)) a out,
      )

-- A write at an offset in the log never leaves it: what lies outside the buffer stays as it was.
pub logdisk_write_inside :
    (d : Logdisk) (m : Memory) (offset size buf a : ℕ)
    → d.buffer + d.size < 2 ^ 32
    → offset ≤ d.size
    → offset + size < 2 ^ 32
    → (a < d.buffer) ⊎ (d.buffer + d.size ≤ a)
    → let (n, m') = logdisk_write d m offset size buf in
      (n ≡ min size (d.size - offset)) × (m' a ≡ m a)
unfolding logdisk_write clamp
logdisk_write_inside d m offset size buf a space le fits out =
    let n : clamp d offset size ≡ min size (d.size - offset) = ground arith in
    let at : add32 d.buffer offset ≡ d.buffer + offset = omega arith in
    rw (at, n)
      (refl, memcpy_outside m (d.buffer + offset) buf (min size (d.size - offset)) a (omega arith))

-- At an offset past the end of the log the size wraps round: a read of `size` bytes there is asked
-- for at least `2 ^ 32 - (offset - d.size)` of them.
pub clamp_past_end :
    (d : Logdisk) (offset size : ℕ)
    → d.size < offset
    → offset + size < 2 ^ 32
    → clamp d offset size + (offset - d.size) ≡ 2 ^ 32
unfolding clamp
clamp_past_end d offset size past fits = ground arith

-- logdisk_chsize leaves the position where it was: after a change to a size that the position has
-- passed, the next logdisk_putc writes outside the new buffer.
pub logdisk_putc-logdisk_chsize :
    (d : Logdisk) (m : Memory) (fresh size c : ℕ)
    → size ≤ d.pos
    → fresh + d.pos < 2 ^ 32
    → let (d1, m1) = logdisk_chsize d m fresh size in
      let (d2, m2) = logdisk_putc d1 m1 c in
      (fresh + size ≤ fresh + d.pos) × (m2 ≡ update m1 (fresh + d.pos) c) × (d2.pos ≡ 0)
unfolding logdisk_chsize logdisk_putc
logdisk_putc-logdisk_chsize d m fresh size c le space =
    let at : add32 fresh d.pos ≡ fresh + d.pos = omega arith in
    rw at (omega arith, refl, ground arith)
