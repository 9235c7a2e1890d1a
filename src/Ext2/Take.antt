-- ===== src/Ext2/Take.antt =====
-- One item of a bitmap of src/fs/ext2.c is marked or cleared.
use sector_os_re.Bytes.Fields.{
  blit, word_at, put_word, word_at-put_word, word_at-put_word_ne, word_at-blit_start,
}
use sector_os_re.Ext2.{ℕ, Memory, Ext2Fs, write_disk_block}
use sector_os_re.Ext2.Alloc.{bit_of}
use sector_os_re.Base.{
  ◌⊎◌, ◌≤◌, inr, test_bit-lt, test_bit-mod, inl, test_bit-pow, Bool-cases, test_bit-bit_or, ◌%◌,
  arith, ◌+◌, ap, test_bit, ◌==◌, ◌^◌, if◌then◌else◌, update_self, ◌≡◌, bit_or, ◌*◌, ◌/◌, ◌<◌,
  Memory, ℕ,
}

module _ (buf : Memory) (j v : ℕ) where
  -- A bitmap after word `j` is written.
  pub bit_of-put_word :
      (m : ℕ)
      → bit_of (put_word buf (j * 4) v) m
        ≡ (if m / 32 == j then test_bit v (m % 32) else bit_of buf m)
  bit_of-put_word m = elim (Bool-cases (m / 32 == j)) [
    | inl at ↦
        let e : m / 32 ≡ j = ground arith in
        rw (at, e, word_at-put_word buf (j * 4) v) (test_bit-mod (m % 32) 32 v (omega arith))
    | inr off ↦
        let apart : (j * 4 + 4 ≤ m / 32 * 4) ⊎ (m / 32 * 4 + 4 ≤ j * 4) = ground arith in
        rw (off, word_at-put_word_ne buf (j * 4) v (m / 32 * 4) apart)
  ]

-- Setting bit `k` of word `j` sets item `j * 32 + k` and no other.
pub bit_of-set :
    (buf : Memory) (j k m : ℕ)
    → k < 32
    → bit_of (put_word buf (j * 4) (bit_or (word_at buf (j * 4)) (2 ^ k))) m
      ≡ (if m == j * 32 + k then 1 else bit_of buf m)
bit_of-set buf j k m lt = ground (
  arith,
  bit_of-put_word buf j (bit_or (word_at buf (j * 4)) (2 ^ k)) m,
  test_bit-bit_or (m % 32) (word_at buf (j * 4)) (2 ^ k),
  test_bit-pow (m % 32) k,
  test_bit-lt (word_at buf (j * 4)) (m % 32),
)

pub bit_of-written :
    (fs : Ext2Fs) (block : ℕ) (buf : Memory) (m : ℕ)
    → m < fs.block_size / 4 * 32
    → bit_of ((write_disk_block fs block buf).disk block) m ≡ bit_of buf m
unfolding write_disk_block
bit_of-written fs block buf m lt =
    rw (update_self fs.disk block (blit (fs.disk block) 0 buf 0 fs.block_size)) (
      ap (λ w. test_bit w (m % 32))
        (word_at-blit_start (fs.disk block) buf fs.block_size (m / 32 * 4) (omega arith)))
