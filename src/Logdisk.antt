-- ===== src/Logdisk.antt =====
-- src/drivers/storage/logdisk.c: the kernel's log, a ring of bytes in memory that is also a device.
pub mod Ring
pub mod Device
mod Tests
use sector_os_re.Bytes.{memcpy}
use sector_os_re.Base.{[], ◌∷◌, update, sub32, leb, ltb, if◌then◌else◌, add32, List, Memory, ℕ}
use sector_os_re.Vfs.{Callback}

-- `logdisk_dev_t`; `buffer` is an address.
pub record Logdisk : Type 0 where
  pub size : ℕ
  pub pos : ℕ
  pub buffer : ℕ

-- `fresh` is what `kmalloc` answers. `pos` keeps its value, 0 at the start.
pub init_logdisk : Logdisk → ℕ → ℕ → Logdisk
init_logdisk d fresh size = record d { size = size; buffer = fresh }

-- `size` is set before the copy, so the new size is the number of bytes copied.
pub logdisk_chsize : Logdisk → Memory → ℕ → ℕ → Logdisk × Memory
logdisk_chsize d m fresh size =
    (record d { size = size; buffer = fresh }, memcpy m fresh d.buffer size)

-- The size that a read or write of `size` bytes at `offset` is cut down to.
pub clamp : Logdisk → ℕ → ℕ → ℕ
clamp d offset size = if ltb d.size (add32 offset size) then sub32 d.size offset else size

-- The loop of logdisk_read copies byte by byte, as memcpy does.
pub logdisk_read : Logdisk → Callback Memory
logdisk_read d m offset size buf =
    let n = clamp d offset size in (n, memcpy m buf (add32 d.buffer offset) n)

pub logdisk_write : Logdisk → Callback Memory
logdisk_write d m offset size buf =
    let n = clamp d offset size in (n, memcpy m (add32 d.buffer offset) buf n)

pub logdisk_putc : Logdisk → Memory → ℕ → Logdisk × Memory
logdisk_putc d m c =
    let next = add32 d.pos 1 in
    (record d { pos = if leb d.size next then 0 else next }, update m (add32 d.buffer d.pos) c)

-- The list holds the characters in front of the terminating 0.
pub logdisk_puts : Logdisk → Memory → List ℕ → Logdisk × Memory
logdisk_puts d m [] = (d, m)
logdisk_puts d m (c ∷ str) = let (d', m') = logdisk_putc d m c in logdisk_puts d' m' str

pub logdisk_getc : Logdisk → Memory → ℕ → ℕ
logdisk_getc d m offset = if leb d.size offset then 0 else m (add32 d.buffer offset)

unfoldable pub logdisk_gets : Logdisk → Memory → ℕ → ℕ → ℕ → Memory
logdisk_gets d m offset buf size = memcpy m buf (add32 d.buffer offset) (clamp d offset size)
