-- ===== src/Bytes.antt =====
-- The routines of src/common/string.c that work on raw bytes: memcmp, memcpy and memset over one
-- address space. A `while (n--)` loop is a recursion on the rounds left; `n` is an `int` that the
-- callers give a value from 0 on.
pub mod Laws
pub mod Fields
use sector_os_re.Base.{ℕ, zero, suc, ◌+◌, Memory, update, ◌==◌, if◌then◌else◌}

-- Answers 1 for equal bytes and 0 for a difference, the other way round than the C library.
pub memcmp : Memory → ℕ → ℕ → ℕ → ℕ
memcmp m data1 data2 zero = 1
memcmp m data1 data2 (suc n) =
    let rest = memcmp m (data1 + 1) (data2 + 1) n in if m data1 == m data2 then rest else 0

pub memcpy : Memory → ℕ → ℕ → ℕ → Memory
memcpy m dst src zero = m
memcpy m dst src (suc n) = memcpy (update m dst (m src)) (dst + 1) (src + 1) n

pub memset : Memory → ℕ → ℕ → ℕ → Memory
memset m dst val zero = m
memset m dst val (suc n) = memset (update m dst val) (dst + 1) val n

-- On an array of 16-bit and of 32-bit numbers, by index.
unfoldable pub memsetw : Memory → ℕ → ℕ → ℕ → Memory
memsetw m dest val zero = m
memsetw m dest val (suc count) = memsetw (update m dest val) (dest + 1) val count

unfoldable pub memsetdw : Memory → ℕ → ℕ → ℕ → Memory
memsetdw m dest val zero = m
memsetdw m dest val (suc count) = memsetdw (update m dest val) (dest + 1) val count
