-- ===== src/Ext2/Release.antt =====
-- EXT2_free_block and free_inode of src/fs/ext2.c find the word and the bit by division by 4, not 32.
use sector_os_re.Base.{
  test_bit-lt, test_bit-pow, test_bit-not, test_bit-and, pow2_lt, arith, ◌∙◌, ap, ◌≤◌, ◌%◌, ◌+◌,
  ◌==◌, if◌then◌else◌, ◌≡◌, ◌≢◌, ◌^◌, ◌-◌, ◌/◌, bit_and, ◌*◌, ◌<◌, Memory, ℕ,
}
use sector_os_re.Ext2.Bitmap.{free_count, set_free_count, bitmap_block, Kind, release}
use sector_os_re.Ext2.{rewrite_bgd, write_disk_block, Ext2Fs, put_word, read_disk_block}
use sector_os_re.Ext2.Alloc.{rewrite_bgd-disk, bit_of}
use sector_os_re.Bytes.Fields.{word_at, put_word}
use sector_os_re.Ext2.Found.{written_ne, room}
use sector_os_re.Ext2.Take.{bit_of-put_word, bit_of-written}

module _ (old : Memory) (word index m : ℕ) where
  pub bit_of-clear :
      index < 32
      → bit_of
          (put_word old (word * 4) (bit_and (word_at old (word * 4)) (0xffff_ffff - 2 ^ index)))
          m
        ≡ (if m == word * 32 + index then 0 else bit_of old m)
  bit_of-clear lt =
      let small : 2 ^ index < 2 ^ 32 = pow2_lt index 32 lt in
      ground (
        arith,
        bit_of-put_word old word (bit_and (word_at old (word * 4)) (0xffff_ffff - 2 ^ index)) m,
        test_bit-and (m % 32) (word_at old (word * 4)) (0xffff_ffff - 2 ^ index),
        test_bit-not (m % 32) 32 (2 ^ index) (omega arith) small,
        test_bit-pow (m % 32) index,
        test_bit-lt (word_at old (word * 4)) (m % 32),
      )

-- Freeing item `n` of group `group`, whose bitmap is not block 2 and has room for the word that is
-- cleared, clears item `n / 4 * 32 + n % 4` of that bitmap and no other, and no other block but
-- block 2 changes. So an item from 4 on stays marked as taken.
pub release-misplaced :
    (kind : Kind) (fs : Ext2Fs) (num : ℕ)
    → let group = num / kind.per_group fs in
      let n = num - kind.per_group fs * group in
      let block = bitmap_block kind fs group in
      block ≢ 2
      → n < fs.block_size / 4 * 4
      → ((m : ℕ)
          → m < room fs
          → bit_of ((release kind fs num).disk block) m
            ≡ (if m == n / 4 * 32 + n % 4 then 0 else bit_of (fs.disk block) m))
        × ((b : ℕ) → b ≢ block → b ≢ 2 → (release kind fs num).disk b ≡ fs.disk b)
        × (4 ≤ n → bit_of ((release kind fs num).disk block) n ≡ bit_of (fs.disk block) n)
unfolding release read_disk_block
release-misplaced kind fs num ne fits =
    let group = num / kind.per_group fs in
    let n = num - kind.per_group fs * group in
    let block = bitmap_block kind fs group in
    let old = fs.disk block in
    let buf' =
      put_word old (n / 4 * 4) (bit_and (word_at old (n / 4 * 4)) (0xffff_ffff - 2 ^ (n % 4))) in
    let fs1 = write_disk_block fs block buf' in
    let fs2 = set_free_count kind fs1 group (free_count kind fs1 group + 1) in
    let now : (m : ℕ)
        → m < room fs
        → bit_of ((rewrite_bgd fs2).disk block) m
          ≡ (if m == n / 4 * 32 + n % 4 then 0 else bit_of old m) =
      λ m hi.
        ap (λ b. bit_of b m) (rewrite_bgd-disk fs2 block ne)
        ∙ (bit_of-written fs block buf' m hi ∙ bit_of-clear old (n / 4) (n % 4) m (omega arith)) in
    (
      now,
      λ b nb n2. rewrite_bgd-disk fs2 b n2 ∙ written_ne fs block buf' b nb,
      λ far. let here = now n (omega arith) in ground arith,
    )
