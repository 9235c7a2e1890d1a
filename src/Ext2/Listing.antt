-- ===== src/Ext2/Listing.antt =====
-- EXT2_listdir and EXT2_finddir of src/fs/ext2.c on a directory.
use sector_os_re.Base.{◌+◌, ◌>>=◌, refl, arith, suc, some, ◌≡◌, List, ◌^◌, ◌*◌, ◌≤◌, ◌<◌, Memory, ℕ}
use sector_os_re.Ext2.{read_disk_block, read_inode_metadata, inode_bytes, Ext2Fs}
use sector_os_re.Ext2.Blocks.{get_dblock_num-mapped, read_inode_block, mapped_blocks}
use sector_os_re.Ext2.Node.{node_of, ext2_finddir}
use sector_os_re.Ext2.Dir.{expected_size_finddir, expected_size, Cursor, first_block}
use sector_os_re.Ext2.Create.{ext2_listdir}
use mathlib.Core.Option.{some}
use sector_os_re.Ext2.Walk.{listdir_from-walk, finddir_from-walk, first_named, names_in_use, walk}
use sector_os_re.Ext2.WalkEnds.{walk-ends, IsCursor}
use sector_os_re.Ext2.Loops.{expected_size_finddir-value, expected_size-value}

module _ (fs : Ext2Fs) (heap : Memory) (parent : ℕ) (room : 0 < fs.block_size)
    (wide : inode_bytes (read_inode_metadata fs heap parent) ≤ mapped_blocks fs * fs.block_size)
    (short : inode_bytes (read_inode_metadata fs heap parent) + 2 ^ 9 ≤ 2 ^ 32)
    (bytes : (b a : ℕ) → fs.disk b a < 2 ^ 8) where
  first_block-IsCursor :
      (c : Cursor) × (first_block fs (read_inode_metadata fs heap parent) ≡ some c) × IsCursor fs c
  unfolding first_block read_inode_block read_disk_block
  first_block-IsCursor =
      let (block, at) =
        get_dblock_num-mapped fs (read_inode_metadata fs heap parent) 0 (omega arith) in
      (
        record {
          block_buf = fs.disk block;
          block_offset = 0;
          in_block_offset = 0;
          curr_offset = 0;
        },
        rw at refl,
        record { bytes = λ a. bytes block a; behind = omega arith },
      )

  -- Whatever the blocks of a directory hold, EXT2_listdir ends, and its answer is the names in use
  -- among the entries that the walk from the first block comes to, if the directory is not longer
  -- than an inode can map and its size is 512 bytes or more below 2^32.
  pub ext2_listdir-names_in_use :
      let p_inode = read_inode_metadata fs heap parent in
      (c : Cursor) × (es : List (Memory × ℕ)) × (first_block fs p_inode ≡ some c)
      × (walk expected_size (suc (inode_bytes p_inode)) fs p_inode c ≡ some es)
      × (ext2_listdir fs heap parent ≡ some (names_in_use es))
  unfolding ext2_listdir
  ext2_listdir-names_in_use =
      let p_inode = read_inode_metadata fs heap parent in
      let (c, first, good) = first_block-IsCursor in
      let (es, walked) =
        walk-ends fs p_inode room wide short bytes expected_size
          (λ n lt.
            (omega (arith, expected_size-value n lt), omega (arith, expected_size-value n lt)))
          (suc (inode_bytes p_inode)) c good (omega arith) in
      (c, es, first, walked, rw (first, listdir_from-walk, walked) refl)

  -- Whatever the blocks of a directory hold, EXT2_finddir ends, if the directory is not longer than an
  -- inode can map and its size is 512 bytes or more below 2^32. It makes a node of the first entry in
  -- use with the name among those that its walk comes to, or answers NULL if there is none.
  pub ext2_finddir-first_named :
      (name : List ℕ)
      → let p_inode = read_inode_metadata fs heap parent in
        (c : Cursor) × (es : List (Memory × ℕ)) × (first_block fs p_inode ≡ some c)
        × (walk expected_size_finddir (suc (inode_bytes p_inode)) fs p_inode c ≡ some es)
        × (ext2_finddir fs heap parent name
            ≡ (first_named name es >>= λ entry. some (node_of fs heap entry)))
  unfolding ext2_finddir
  ext2_finddir-first_named name =
      let p_inode = read_inode_metadata fs heap parent in
      let fuel = suc (inode_bytes p_inode) in
      let (c, first, good) = first_block-IsCursor in
      let (es, walked) =
        walk-ends fs p_inode room wide short bytes expected_size_finddir
          (λ n lt. (
            omega (arith, expected_size_finddir-value n lt),
            omega (arith, expected_size_finddir-value n lt),
          ))
          fuel c good (omega arith) in
      let found =
        finddir_from-walk fuel fs p_inode name c (λ e. absurd (ground (arith, walked, e))) in
      (c, es, first, walked, rw (first, found, walked) refl)
