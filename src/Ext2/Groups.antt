-- ===== src/Ext2/Groups.antt =====
-- What EXT2_init of src/fs/ext2.c makes of the counts in the superblock.
use native.Mathlib.Nat.{
  mul-le-mul_left, mul-le-mul_right, suc-mul, mul_comm, div-mul-le_self, div-add-mod', mod-lt,
}
use sector_os_re.Base.{
  refl, zero, inr, ◌-◌, ◌∙◌, ap, true, some, inl, ltb, ◌==◌, suc, Bool-cases, arith, ◌/◌, ◌≡◌, ◌≤◌,
  ◌*◌, ◌^◌, ◌+◌, mul32, ◌<◌, Memory, ℕ,
}
use sector_os_re.Ext2.Mount.{
  mounted, magic, total_blocks, log_block_size, blocks_per_group, superblock_of, ext2_init,
  groups_of, load_bgd, bgd_blocks_of,
}
use sector_os_re.Bytes.Fields.{blit}
use sector_os_re.Ext2.{read_inode_metadata, Ext2Fs}
use sector_os_re.Ext2.Node.{ext2_get_root, Ext2Node}

load_bgd-block :
    (left : ℕ) (disk : ℕ → Memory) (n i : ℕ) (bgd : Memory) (a : ℕ)
    → a < n
    → (k : ℕ) → k < i + left
    → (k < i → bgd (k * n + a) ≡ disk 2 a)
    → load_bgd left disk n i bgd (k * n + a) ≡ disk 2 a
unfolding load_bgd blit
load_bgd-block zero disk n i bgd a lt k within done = done (omega arith)
load_bgd-block (suc left) disk n i bgd a lt k within done =
    load_bgd-block left disk n (i + 1) (blit bgd (i * n) (disk 2) 0 n) a lt k (omega arith)
      (λ under. elim (Bool-cases (k == i)) [
        | inl last ↦
            let row : k * n ≡ i * n = ap (λ r. r * n) (ground arith) in
            let at : 0 + (k * n + a - i * n) ≡ a = omega (arith, row) in
            ground (arith, row, ap (disk 2) at)
        | inr before ↦
            let lower : k < i = ground arith in
            let row : suc k * n ≤ i * n = mul-le-mul_right n lower in
            ground (arith, row, suc-mul k n, done lower)
      ])

bgd_blocks_of-room :
    (total_groups block_size : ℕ)
    → 0 < block_size
    → block_size < 2 ^ 31
    → total_groups * 32 < 2 ^ 31
    → total_groups * 32 ≤ bgd_blocks_of total_groups block_size * block_size
unfolding bgd_blocks_of
bgd_blocks_of-room total_groups block_size pos small short =
    let whole = div-add-mod' (total_groups * 32) block_size in
    let rest = mod-lt (total_groups * 32) pos in
    let q = total_groups * 32 / block_size in
    let e : mul32 total_groups 32 ≡ total_groups * 32 = omega arith in
    rw e (elim (Bool-cases (ltb (mul32 q block_size) (total_groups * 32))) [
      | inl more ↦
          let next : (q + 1) * block_size ≡ q * block_size + block_size =
            ap (λ k. k * block_size) (omega arith) ∙ suc-mul q block_size in
          ground (arith, whole, rest, next)
      | inr enough ↦ ground (arith, whole, rest)
    ])

groups_of-floor :
    (sb : Memory)
    → 0 < blocks_per_group sb
    → total_blocks sb < 2 ^ 32
    → groups_of sb ≡ total_blocks sb / blocks_per_group sb
unfolding groups_of
groups_of-floor sb pos small =
    let q = total_blocks sb / blocks_per_group sb in
    let le : q * blocks_per_group sb ≤ total_blocks sb =
      div-mul-le_self (total_blocks sb) (blocks_per_group sb) in
    let swap = mul_comm q (blocks_per_group sb) in
    let atleast : q * 1 ≤ q * blocks_per_group sb = mul-le-mul_left q pos in
    ground (arith, le, swap, atleast)

-- A device with the magic number, blocks of less than 2 GB and groups that count blocks is taken as a
-- file system. A partial group at its end is left out; the table of descriptors has room for all
-- groups, if that is less than 2 GB; and each of its blocks is read from block 2, so that the groups
-- behind the first block's get the descriptors of the first.
pub ext2_init-groups :
    (device : Memory)
    → let sb = superblock_of device in
      let block_size = mul32 1024 (2 ^ log_block_size sb) in
      let total_groups = total_blocks sb / blocks_per_group sb in
      magic sb ≡ 0xef53
      → 0 < block_size
      → block_size < 2 ^ 31
      → 0 < blocks_per_group sb
      → total_blocks sb < 2 ^ 32
      → total_groups * 32 < 2 ^ 31
      → (fs : Ext2Fs) × (root : Ext2Node) × (ext2_init device ≡ some (fs, root))
        × (fs.total_groups ≡ total_groups)
        × (total_groups * 32 ≤ fs.bgd_block * fs.block_size)
        × ((k a : ℕ)
            → k < fs.bgd_block
            → a < fs.block_size
            → fs.bgd (k * fs.block_size + a) ≡ fs.disk 2 a)
unfolding ext2_init
ext2_init-groups device ok pos small per_group blocks_lt groups_lt =
    let sb = superblock_of device in
    let block_size = mul32 1024 (2 ^ log_block_size sb) in
    let floor = groups_of-floor sb per_group blocks_lt in
    let room =
      bgd_blocks_of-room (total_blocks sb / blocks_per_group sb) block_size pos small groups_lt in
    let found : (magic sb == 0xef53) ≡ true = ground (arith, ok) in
    let fs = mounted device in
    (
      fs,
      ext2_get_root (read_inode_metadata fs (λ a. 0) 2),
      rw found refl,
      floor,
      rw floor room,
      λ k a lt small_a.
          load_bgd-block fs.bgd_block fs.disk fs.block_size 0 (λ a. 0) a small_a k (omega arith)
            (λ under. absurd (omega arith)),
    )
