-- ===== src/Ext2/Map.antt =====
-- set_DBlock_num and get_DBlock_num of src/fs/ext2.c on the direct blocks and behind one block of
-- pointers.
use sector_os_re.Base.{
  ap, not, ltb, ◌∙◌, true, refl, ◌-◌, false, update_self, leb, ◌≢◌, Bool, ◌⊎◌, ◌≤◌, inr, ◌*◌, inl,
  arith, Bool-cases, some, ◌==◌, if◌then◌else◌, ◌/◌, ◌≡◌, ◌+◌, ◌^◌, ◌<◌, Memory, ℕ,
}
use sector_os_re.Ext2.{read_disk_block, write_disk_block, set_inode_block, inode_block, Ext2Fs}
use sector_os_re.Ext2.Blocks.{
  follow, set_pointer, set_single, alloc_inode_metadata_block, pointer, get_dblock_num,
  set_dblock_num,
}
use sector_os_re.Bytes.Fields.{
  word_at-blit_start, blit, word_at, word_at-put_word_ne, word_at-put_word,
}

module _ (fs : Ext2Fs) (inode : Memory) (inode_num v : ℕ) (small : v < 2 ^ 32) where
  -- A direct block, or the twelfth pointer, is a word of the inode.
  inode_block-set :
      (i j : ℕ)
      → inode_block (set_inode_block inode i v) j ≡ (if j == i then v else inode_block inode j)
  inode_block-set i j = elim (Bool-cases (j == i)) [
    | inl same ↦
        let e : j ≡ i = ground arith in
        rw (same, e, word_at-put_word inode (40 + i * 4) v) (omega arith)
    | inr other ↦
        let apart : (40 + i * 4 + 4 ≤ 40 + j * 4) ⊎ (40 + j * 4 + 4 ≤ 40 + i * 4) = ground arith in
        rw (other, word_at-put_word_ne inode (40 + i * 4) v (40 + j * 4) apart)
  ]

  pub set_dblock_num-direct :
      (i j : ℕ)
      → i < 12
      → j < 12 + fs.block_size / 4
      → let (fs', inode') = set_dblock_num fs inode inode_num i v in
        get_dblock_num fs' inode' j ≡ (if j == i then some v else get_dblock_num fs inode j)
  unfolding set_dblock_num get_dblock_num
  set_dblock_num-direct i j lt hi = ground (arith, inode_block-set i j, inode_block-set i 12)

-- A pointer that is there already is kept.
alloc_inode_metadata_block-kept :
    (fs : Ext2Fs) (inode_num : ℕ) (holder : Memory) (at : ℕ) (buffer : Bool)
    → word_at holder at ≢ 0
    → alloc_inode_metadata_block fs inode_num holder at buffer ≡ (0, fs, holder)
unfolding alloc_inode_metadata_block
alloc_inode_metadata_block-kept fs inode_num holder at buffer there =
    let e : (word_at holder at == 0) ≡ false = ground arith in rw e refl

pointer-set :
    (buf : Memory) (a v k : ℕ)
    → v < 2 ^ 32
    → pointer (set_pointer buf a v) k ≡ (if k == a then v else pointer buf k)
pointer-set buf a v k small = elim (Bool-cases (k == a)) [
  | inl same ↦
      let e : k ≡ a = ground arith in rw (same, e, word_at-put_word buf (a * 4) v) (omega arith)
  | inr other ↦
      let apart : (a * 4 + 4 ≤ k * 4) ⊎ (k * 4 + 4 ≤ a * 4) = ground arith in
      rw (other, word_at-put_word_ne buf (a * 4) v (k * 4) apart)
]

pub follow-set :
    (fs : Ext2Fs) (block a v k : ℕ)
    → v < 2 ^ 32
    → k < fs.block_size / 4
    → follow (write_disk_block fs block (set_pointer (read_disk_block fs block) a v)) block k
      ≡ (if k == a then v else follow fs block k)
unfolding write_disk_block read_disk_block
follow-set fs block a v k small lt =
    let old = fs.disk block in
    let buf = set_pointer old a v in
    rw (update_self fs.disk block (blit old 0 buf 0 fs.block_size))
      (word_at-blit_start old buf fs.block_size (k * 4) (omega arith) ∙ pointer-set old a v k small)

get_dblock_num-near :
    (fs : Ext2Fs) (inode : Memory) (j : ℕ)
    → j < 12 + fs.block_size / 4
    → get_dblock_num fs inode j
      ≡ some (if ltb j 12 then inode_block inode j else follow fs (inode_block inode 12) (j - 12))
unfolding get_dblock_num
get_dblock_num-near fs inode j hi = ground arith

block_size-write :
    (fs : Ext2Fs) (block : ℕ) (buf : Memory)
    → (write_disk_block fs block buf).block_size ≡ fs.block_size
unfolding write_disk_block
block_size-write fs block buf = refl

pub set_dblock_num-single :
    (fs : Ext2Fs) (inode : Memory) (inode_num v i j : ℕ)
    → v < 2 ^ 32
    → inode_block inode 12 ≢ 0
    → 12 < i
    → i < 12 + fs.block_size / 4
    → j < 12 + fs.block_size / 4
    → let (fs', inode') = set_dblock_num fs inode inode_num i v in
      get_dblock_num fs' inode' j ≡ (if j == i then some v else get_dblock_num fs inode j)
unfolding set_dblock_num set_single
set_dblock_num-single fs inode inode_num v i j small there behind lt hi =
    let block = inode_block inode 12 in
    let fs' = write_disk_block fs block (set_pointer (read_disk_block fs block) (i - 12) v) in
    let hi' : j < 12 + fs'.block_size / 4 =
      rw (block_size-write fs block (set_pointer (read_disk_block fs block) (i - 12) v)) hi in
    let (far, near) : (leb i 12 ≡ false) × (leb (i - 12) (fs.block_size / 4) ≡ true) =
      ground arith in
    rw
      (
        far,
        near,
        alloc_inode_metadata_block-kept fs inode_num inode (40 + 12 * 4) false there,
        get_dblock_num-near fs' inode j hi',
        get_dblock_num-near fs inode j hi,
      )
      (elim (Bool-cases (ltb j 12)) [
        | inl direct ↦ ground arith
        | inr single ↦
            let set = follow-set fs block (i - 12) v (j - 12) small (ground arith) in ground arith
      ])

set_dblock_num-twelfth :
    (fs : Ext2Fs) (inode : Memory) (inode_num v j : ℕ)
    → v < 2 ^ 32
    → j < 12 + fs.block_size / 4
    → let (fs', inode') = set_dblock_num fs inode inode_num 12 v in
      get_dblock_num fs' inode' j
      ≡ some (if ltb j 12 then inode_block inode j else follow fs v (j - 12))
unfolding set_dblock_num
set_dblock_num-twelfth fs inode inode_num v j small hi =
    let inode' = set_inode_block inode 12 v in
    let top : inode_block inode' 12 ≡ v = inode_block-set fs inode inode_num v small 12 12 in
    get_dblock_num-near fs inode' j hi ∙ elim (Bool-cases (ltb j 12)) [
      | inl direct ↦
          let same = inode_block-set fs inode inode_num v small 12 j in
          rw direct (ap some (ground arith))
      | inr behind ↦ rw (behind, top) refl
    ]

-- Of the blocks that the direct ones and one block of pointers reach, set_DBlock_num maps one, and
-- keeps the others where they are, if the block of pointers is there when it is needed. Block 12 is
-- the exception: its number replaces the pointer to the block of pointers, so that from there on the
-- words of the data block itself are taken for block numbers.
pub get-set_dblock_num :
    (fs : Ext2Fs) (inode : Memory) (inode_num v i j : ℕ)
    → v < 2 ^ 32
    → i < 12 + fs.block_size / 4
    → j < 12 + fs.block_size / 4
    → (12 < i → inode_block inode 12 ≢ 0)
    → let (fs', inode') = set_dblock_num fs inode inode_num i v in
      get_dblock_num fs' inode' j ≡ (
        if not (i == 12)
        then if j == i then some v else get_dblock_num fs inode j
        else some (if ltb j 12 then inode_block inode j else follow fs v (j - 12)))
get-set_dblock_num fs inode inode_num v i j small lt hi there = elim (Bool-cases (ltb i 12)) [
  | inl direct ↦
      let e : (i == 12) ≡ false = ground arith in
      rw e (set_dblock_num-direct fs inode inode_num v small i j (ground arith) hi)
  | inr beyond ↦ elim (Bool-cases (i == 12)) [
    | inl twelve ↦
        let e : i ≡ 12 = ground arith in
        rw e (set_dblock_num-twelfth fs inode inode_num v j small hi)
    | inr single ↦ rw single (
        set_dblock_num-single fs inode inode_num v i j small (there (ground arith)) (ground arith)
          lt hi)
  ]
]
