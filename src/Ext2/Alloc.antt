-- ===== src/Ext2/Alloc.antt =====
-- What EXT2_alloc_block and alloc_inode of src/fs/ext2.c find, and what they change.
use sector_os_re.Ext2.{Ext2Fs, write_disk_block, rewrite_bgd_from, rewrite_bgd, word_at, ℕ, Memory}
use sector_os_re.Ext2.Bitmap.{free_in_word, or_rest, free_word_from, free_bit_from}
use sector_os_re.Base.{
  ◌∙◌, refl, test_bit-ones, zero, test_bit-bit_and, none, inr, inl, ◌%◌, ◌^◌, ◌≡◌, some, ◌==◌,
  bit_and, ◌*◌, suc, ◌/◌, Bool-cases, ◌<◌, ◌≢◌, arith, ◌≤◌, ◌+◌, test_bit, Option, ℕ, Memory,
}
use sector_os_re.Bytes.Fields.{word_at}

-- Item `m` of a bitmap.
abbrev pub bit_of : Memory → ℕ → ℕ
bit_of buf m = test_bit (word_at buf (m / 32 * 4)) (m % 32)

-- A search among `left` bits from `k` on.
abbrev BitFound : ℕ → ℕ → ℕ → Option ℕ → Type 0
BitFound w k end none = (m : ℕ) → k ≤ m → m < end → test_bit w m ≢ 0
BitFound w k end (some r) = (k ≤ r) × (r < end) × (test_bit w r ≡ 0)

BitFound-step :
    (w k end : ℕ) (r : Option ℕ) → test_bit w k ≢ 0 → BitFound w (k + 1) end r → BitFound w k end r
BitFound-step w k end none here rest = λ m lo hi. elim (Bool-cases (m == k)) [
  | inl at ↦ let e : m ≡ k = ground arith in rw e here
  | inr behind ↦ rest m (ground arith) hi
]
BitFound-step w k end (some r) here (lo, hi, free) = (omega arith, hi, free)

free_bit_from-BitFound : (left w k : ℕ) → BitFound w k (k + left) (free_bit_from left w k)
unfolding free_bit_from
free_bit_from-BitFound zero w k = λ m lo hi. absurd (omega arith)
free_bit_from-BitFound (suc left) w k = elim (Bool-cases (bit_and (w / 2 ^ k) 1 == 0)) [
  | inl free ↦ rw free (omega arith, omega arith, ground (arith, test_bit-bit_and w k))
  | inr taken ↦
      let here : test_bit w k ≢ 0 = ground (arith, test_bit-bit_and w k) in
      let shift : k + 1 + left ≡ k + suc left = omega arith in
      rw taken (
        BitFound-step w k (k + suc left) (free_bit_from left w (k + 1)) here
          (rw shift at (free_bit_from-BitFound left w (k + 1))))
]

-- A search among the items from word `j` up to word `end`.
abbrev pub WordFound : Memory → ℕ → ℕ → Option (ℕ × ℕ) → Type 0
WordFound buf j end none = (m : ℕ) → j * 32 ≤ m → m < end * 32 → bit_of buf m ≢ 0
WordFound buf j end (some (r, k)) =
    (j ≤ r) × (r < end) × (k < 32) × (test_bit (word_at buf (r * 4)) k ≡ 0)

-- Word `j` has no free item, and neither have those behind it.
WordFound-step :
    (buf : Memory) (j end : ℕ) (r : Option (ℕ × ℕ))
    → ((k : ℕ) → k < 32 → test_bit (word_at buf (j * 4)) k ≢ 0)
    → WordFound buf (j + 1) end r
    → WordFound buf j end r
WordFound-step buf j end none here rest = λ m lo hi. elim (Bool-cases (m / 32 == j)) [
  | inl at ↦ let e : m / 32 ≡ j = ground arith in rw e (here (m % 32) (omega arith))
  | inr behind ↦ rest m (ground arith) hi
]
WordFound-step buf j end (some (r, k)) here (lo, hi, small, free) = (omega arith, hi, small, free)

free_in_word-BitFound : (w : ℕ) → BitFound w 0 32 (free_in_word w)
unfolding free_in_word
free_in_word-BitFound w = elim (Bool-cases (w == 0xffff_ffff)) [
  | inl full ↦
      let e : w ≡ 0xffff_ffff = ground arith in
      rw full (λ m lo hi. let one = test_bit-ones m 32 hi in rw e (ground arith))
  | inr part ↦ rw part (free_bit_from-BitFound 32 w 0)
]

or_rest-WordFound :
    (buf : Memory) (j end : ℕ) (found : Option ℕ) (r : Option (ℕ × ℕ))
    → j < end
    → BitFound (word_at buf (j * 4)) 0 32 found
    → WordFound buf (j + 1) end r
    → WordFound buf j end (or_rest j found r)
or_rest-WordFound buf j end none r lt bits rest =
    WordFound-step buf j end r (λ k small. bits k (omega arith) small) rest
or_rest-WordFound buf j end (some k) r lt (lo, hi, free) rest = (omega arith, lt, hi, free)

pub free_word_from-WordFound :
    (left : ℕ) (buf : Memory) (j : ℕ) → WordFound buf j (j + left) (free_word_from left buf j)
unfolding free_word_from
free_word_from-WordFound zero buf j = λ m lo hi. absurd (omega arith)
free_word_from-WordFound (suc left) buf j =
    let shift : j + 1 + left ≡ j + suc left = omega arith in
    or_rest-WordFound buf j (j + suc left) (free_in_word (word_at buf (j * 4)))
      (free_word_from left buf (j + 1)) (omega arith) (free_in_word-BitFound (word_at buf (j * 4)))
      (rw shift at (free_word_from-WordFound left buf (j + 1)))

-- rewrite_bgd changes block 2 alone.
pub rewrite_bgd_from-disk :
    (left i : ℕ) (fs : Ext2Fs) (b : ℕ) → b ≢ 2 → (rewrite_bgd_from left i fs).disk b ≡ fs.disk b
unfolding rewrite_bgd_from write_disk_block
rewrite_bgd_from-disk zero i fs b ne = refl
rewrite_bgd_from-disk (suc left) i fs b ne =
    rewrite_bgd_from-disk left (i + 1) _ b ne ∙ ground arith

pub rewrite_bgd_from-bgd : (left i : ℕ) (fs : Ext2Fs) → (rewrite_bgd_from left i fs).bgd ≡ fs.bgd
unfolding rewrite_bgd_from write_disk_block
rewrite_bgd_from-bgd zero i fs = refl
rewrite_bgd_from-bgd (suc left) i fs = rewrite_bgd_from-bgd left (i + 1) _

pub rewrite_bgd-disk : (fs : Ext2Fs) (b : ℕ) → b ≢ 2 → (rewrite_bgd fs).disk b ≡ fs.disk b
unfolding rewrite_bgd
rewrite_bgd-disk fs b ne = rewrite_bgd_from-disk fs.bgd_block 0 fs b ne

pub rewrite_bgd-bgd : (fs : Ext2Fs) → (rewrite_bgd fs).bgd ≡ fs.bgd
unfolding rewrite_bgd
rewrite_bgd-bgd fs = rewrite_bgd_from-bgd fs.bgd_block 0 fs
