-- ===== src/Ext2/Found.antt =====
-- EXT2_alloc_block and alloc_inode of src/fs/ext2.c take a free item; EXT2_free_block and free_inode
-- clear another one than was asked for.
use sector_os_re.Ext2.{word_at, ℕ, Ext2Fs, write_disk_block, read_disk_block, rewrite_bgd}
use sector_os_re.Ext2.Bitmap.{
  inodes, blocks, alloc_inode, ext2_alloc_block, free_word_from, alloc_from, Kind, bitmap_block,
  free_count, set_free_count, take_bit,
}
use sector_os_re.Ext2.Alloc.{
  free_word_from-WordFound, WordFound, rewrite_bgd-disk, rewrite_bgd-bgd, bit_of,
}
use sector_os_re.Ext2.Take.{bit_of-set, bit_of-written}
use sector_os_re.Base.{
  refl, zero, none, some, inr, Bool-cases, suc, inl, Option, update_ne, ◌-◌, arith, bit_or, ◌∙◌,
  ◌==◌, if◌then◌else◌, ap, test_bit, ◌+◌, ◌%◌, ◌⊎◌, ◌^◌, u32_max, ◌*◌, Memory, ◌≡◌, ◌≤◌, ◌/◌, ◌≢◌,
  ◌<◌, ℕ,
}
use sector_os_re.Bytes.Fields.{half_at-put_half, half_at, put_word, word_at}

-- The items that a bitmap has room for.
abbrev pub room : Ext2Fs → ℕ
room fs = fs.block_size / 4 * 32

-- Item `n` of group `i` was free, and is the only one that is taken now.
pub record IsTaken (kind : Kind) (fs : Ext2Fs) (i n r : ℕ) (fs' : Ext2Fs) : Type 0 where
  pub in_room : n < room fs
  pub counted : free_count kind fs i ≢ 0
  pub was_free : bit_of (fs.disk (bitmap_block kind fs i)) n ≡ 0
  pub number : r ≡ (i * kind.per_group fs + n) % 2 ^ 32
  pub now :
      (m : ℕ)
      → m < room fs
      → bit_of (fs'.disk (bitmap_block kind fs i)) m
        ≡ (if m == n then 1 else bit_of (fs.disk (bitmap_block kind fs i)) m)
  pub elsewhere : (b : ℕ) → b ≢ bitmap_block kind fs i → b ≢ 2 → fs'.disk b ≡ fs.disk b
  pub count : free_count kind fs' i + 1 ≡ free_count kind fs i

-- No group whose count is not 0 has a free item, from group `i` on.
abbrev pub NoneFree : Kind → Ext2Fs → ℕ → ℕ → Type 0
NoneFree kind fs i end =
    (g m : ℕ)
    → i ≤ g
    → g < end
    → m < room fs
    → free_count kind fs g ≢ 0
    → bit_of (fs.disk (bitmap_block kind fs g)) m ≢ 0

abbrev pub Outcome : Kind → Ext2Fs → ℕ → ℕ → ℕ × Ext2Fs → Type 0
Outcome kind fs i end out =
    ((out.0 ≡ u32_max) × (out.1 ≡ fs) × NoneFree kind fs i end)
    ⊎ ((g : ℕ) × (n : ℕ) × (i ≤ g) × (g < end) × IsTaken kind fs g n out.0 out.1)

-- The count of a group after it is set and the descriptors are written.
count_set :
    (kind : Kind) (fs : Ext2Fs) (block : ℕ) (buf : Memory) (i count : ℕ)
    → free_count kind (rewrite_bgd (set_free_count kind (write_disk_block fs block buf) i count)) i
      ≡ count % 2 ^ 16
unfolding write_disk_block
count_set kind fs block buf i count =
    ap (λ bgd. half_at bgd (i * 32 + kind.count_at))
      (rewrite_bgd-bgd (set_free_count kind (write_disk_block fs block buf) i count))
    ∙ half_at-put_half fs.bgd (i * 32 + kind.count_at) count

pub written_ne :
    (fs : Ext2Fs) (block : ℕ) (buf : Memory) (b : ℕ)
    → b ≢ block
    → (write_disk_block fs block buf).disk b ≡ fs.disk b
unfolding write_disk_block
written_ne fs block buf b ne = update_ne fs.disk block _ b ne

module _ (kind : Kind) (fs : Ext2Fs) (i : ℕ) (ne : bitmap_block kind fs i ≢ 2) where
  take_bit-IsTaken :
      (j k : ℕ)
      → j < fs.block_size / 4
      → k < 32
      → free_count kind fs i ≢ 0
      → free_count kind fs i < 2 ^ 16
      → test_bit (word_at (fs.disk (bitmap_block kind fs i)) (j * 4)) k ≡ 0
      → let (r, fs') = take_bit kind fs i j k in IsTaken kind fs i (j * 32 + k) r fs'
  unfolding take_bit read_disk_block write_disk_block
  take_bit-IsTaken j k lt small counted short free =
      let block = bitmap_block kind fs i in
      let old = fs.disk block in
      let buf' = put_word old (j * 4) (bit_or (word_at old (j * 4)) (2 ^ k)) in
      let fs1 = write_disk_block fs block buf' in
      let less = free_count kind fs i + (2 ^ 16 - 1) in
      let fs2 = set_free_count kind fs1 i less in
      record {
        in_room = omega arith;
        counted = counted;
        was_free =
            let (at, index) : ((j * 32 + k) / 32 ≡ j) × ((j * 32 + k) % 32 ≡ k) = omega arith in
            rw (at, index) free;
        number = omega arith;
        now = λ m hi.
            ap (λ b. bit_of b m) (rewrite_bgd-disk fs2 block ne)
            ∙ (bit_of-written fs block buf' m hi ∙ bit_of-set old j k m small);
        elsewhere = λ b nb n2. rewrite_bgd-disk fs2 b n2 ∙ written_ne fs block buf' b nb;
        count =
            let e : free_count kind (rewrite_bgd fs2) i ≡ less % 2 ^ 16 =
              count_set kind fs block buf' i less in
            omega (arith, e);
      }

-- Group `i` is passed over.
Outcome-step :
    (kind : Kind) (fs : Ext2Fs) (i end : ℕ) (out : ℕ × Ext2Fs)
    → ((m : ℕ)
        → m < room fs
        → free_count kind fs i ≢ 0
        → bit_of (fs.disk (bitmap_block kind fs i)) m ≢ 0)
    → Outcome kind fs (i + 1) end out
    → Outcome kind fs i end out
Outcome-step kind fs i end out here (inl (r, same, rest)) = inl (
  r,
  same,
  λ g m lo hi small counted. elim (Bool-cases (g == i)) [
    | inl at ↦ let e : g ≡ i = ground arith in rw e (here m small (rw e at counted))
    | inr behind ↦ rest g m (ground arith) hi small counted
  ],
)
Outcome-step kind fs i end out here (inr (g, n, lo, hi, taken)) = inr (g, n, omega arith, hi, taken)

module _ (kind : Kind) (fs : Ext2Fs) (bytes : (a : ℕ) → fs.bgd a < 2 ^ 8)
    (apart : (g : ℕ) → g < fs.total_groups → bitmap_block kind fs g ≢ 2) where
  free_count_lt : (i : ℕ) → free_count kind fs i < 2 ^ 16
  unfolding half_at
  free_count_lt i =
      let lo = bytes (i * 32 + kind.count_at) in
      let hi = bytes (i * 32 + kind.count_at + 1) in omega (arith, lo, hi)

  -- What is made of the search through the bitmap of group `i`, whose count is not 0.
  searched :
      (i left : ℕ) (found : Option (ℕ × ℕ)) (rest : ℕ × Ext2Fs)
      → i + suc left ≡ fs.total_groups
      → free_count kind fs i ≢ 0
      → WordFound (fs.disk (bitmap_block kind fs i)) 0 (0 + fs.block_size / 4) found
      → Outcome kind fs (i + 1) fs.total_groups rest
      → Outcome kind fs i fs.total_groups
          (elim found [ none ↦ rest | some (j, k) ↦ take_bit kind fs i j k ])
  searched i left none rest all counted bits later =
      Outcome-step kind fs i fs.total_groups rest (λ m hi _. bits m (omega arith) (omega arith))
        later
  searched i left (some (j, k)) rest all counted (_, lt, small, free) later = inr (
    i,
    j * 32 + k,
    omega arith,
    omega arith,
    take_bit-IsTaken kind fs i (apart i (omega arith)) j k (omega arith) small counted
        (free_count_lt i) free,
  )

  pub alloc_from-Outcome :
      (left i : ℕ)
      → i + left ≡ fs.total_groups
      → Outcome kind fs i fs.total_groups (alloc_from kind left fs i)
  unfolding alloc_from read_disk_block
  alloc_from-Outcome zero i all = inl (refl, refl, λ g m lo hi. absurd (omega arith))
  alloc_from-Outcome (suc left) i all =
      let later = alloc_from-Outcome left (i + 1) (omega arith) in
      let out = alloc_from kind left fs (i + 1) in
      elim (Bool-cases (free_count kind fs i == 0)) [
        | inl empty ↦
            let e : free_count kind fs i ≡ 0 = ground arith in
            rw empty (
              Outcome-step kind fs i fs.total_groups out (λ m hi counted. absurd (counted e)) later)
        | inr counted ↦ rw counted (
            searched i left
              (free_word_from (fs.block_size / 4) (fs.disk (bitmap_block kind fs i)) 0) out all
              (ground arith)
              (free_word_from-WordFound (fs.block_size / 4) (fs.disk (bitmap_block kind fs i)) 0)
              later)
      ]

-- Where the bitmap of no group is block 2, EXT2_alloc_block and alloc_inode take the free item they
-- answer with, in a group whose count says that it has one: that bit is set, no other bit of the
-- bitmap and no other block but block 2 changes, and the count falls by one. They answer -1 and
-- change nothing only where no group whose count is not 0 has a free bit.
pub alloc-Outcome :
    (fs : Ext2Fs)
    → ((a : ℕ) → fs.bgd a < 2 ^ 8)
    → ((g : ℕ)
        → g < fs.total_groups
        → (bitmap_block blocks fs g ≢ 2) × (bitmap_block inodes fs g ≢ 2))
    → Outcome blocks fs 0 fs.total_groups (ext2_alloc_block fs)
      × Outcome inodes fs 0 fs.total_groups (alloc_inode fs)
unfolding ext2_alloc_block alloc_inode
alloc-Outcome fs bytes apart = (
  alloc_from-Outcome blocks fs bytes (λ g lt. (apart g lt).0) fs.total_groups 0 (omega arith),
  alloc_from-Outcome inodes fs bytes (λ g lt. (apart g lt).1) fs.total_groups 0 (omega arith),
)
