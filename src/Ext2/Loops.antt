-- ===== src/Ext2/Loops.antt =====
-- The loops through a directory of src/fs/ext2.c end: each round goes at least 8 bytes further.
use sector_os_re.Base.{
  ◌==◌, ◌%◌, if◌then◌else◌, bit_and-mask, bit_and-shift, arith, ◌*◌, ◌/◌, ◌+◌, bit_and, ◌≡◌, ◌^◌,
  ◌<◌, ℕ,
}
use sector_os_re.Ext2.Dir.{expected_size, expected_size_finddir}

words_of : (x : ℕ) → x < 2 ^ 32 → bit_and x 0xffff_fffc ≡ x / 4 * 4
words_of x lt = omega (arith, bit_and-shift 2 x 0x3fff_ffff, bit_and-mask 30 (x / 4))

pub expected_size-value : (n : ℕ) → n < 2 ^ 8 → expected_size n ≡ (8 + n) / 4 * 4 + 4
unfolding expected_size
expected_size-value n lt = omega (arith, words_of (8 + n) (omega arith))

pub expected_size_finddir-value :
    (n : ℕ) → n < 2 ^ 8 → expected_size_finddir n ≡ (8 + n + 3) / 4 * 4
unfolding expected_size_finddir
expected_size_finddir-value n lt =
    ground (arith, words_of (8 + n) (omega arith), bit_and-mask 2 (8 + n))

-- For the lengths of name that an entry can have, EXT2_createEntry, EXT2_removeEntry and EXT2_listdir
-- hold an entry for 4 bytes longer than EXT2_finddir does if the length is a multiple of 4, and for
-- as long otherwise. What the first shortens to make room, the last takes for the end in that case.
pub expected_size-finddir :
    (n : ℕ) → n < 2 ^ 8 → expected_size n ≡ expected_size_finddir n + (if n % 4 == 0 then 4 else 0)
expected_size-finddir n lt =
    ground (arith, expected_size-value n lt, expected_size_finddir-value n lt)
