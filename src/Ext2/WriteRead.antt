-- ===== src/Ext2/WriteRead.antt =====
-- What write_inode_filedata of src/fs/ext2.c writes into one block is what read_inode_filedata reads.
use sector_os_re.Base.{
  inr, refl, inl, Bool-cases, fun_ext, false, ap, ◌∙◌, ◌≢◌, ◌-◌, ◌⊎◌, ◌&&◌, leb, ltb, if◌then◌else◌,
  ◌*◌, ◌/◌, ◌%◌, arith, ◌≤◌, some, ◌+◌, ◌≡◌, ◌^◌, ◌<◌, Memory, ℕ,
}
use native.Mathlib.Nat.{mod-lt, div-add-mod'}
use sector_os_re.Ext2.{blit, write_disk_block, inode_bytes, inode_block, Ext2Fs}
use sector_os_re.Ext2.Blocks.{mapped_blocks, get_dblock_num}
use sector_os_re.Ext2.Read.{filled, file_byte-at, file_byte}
use sector_os_re.Bytes.Fields.{blit}
use sector_os_re.Ext2.File.{end_of, read_inode_filedata, write_inode_filedata}
use sector_os_re.Ext2.WriteLoop.{end_row, block-written, write_inode_filedata-one, end_of-inside}
use sector_os_re.Ext2.Found.{written_ne}
use sector_os_re.Ext2.ReadLoop.{read_inode_filedata-filled}

-- The direct blocks of an inode do not depend on the disk.
get_dblock_num-direct :
    (fs : Ext2Fs) (inode : Memory) (i : ℕ)
    → i < 12
    → get_dblock_num fs inode i ≡ some (inode_block inode i)
unfolding get_dblock_num
get_dblock_num-direct fs inode i lt = ground arith

module _ (fs : Ext2Fs) (inode buf : Memory) (inode_num offset size : ℕ) (room : 0 < fs.block_size)
    (short : fs.block_size < 2 ^ 32) (inside : offset + size ≤ inode_bytes inode)
    (bounded : inode_bytes inode < 2 ^ 32)
    (one_block : offset % fs.block_size + size < fs.block_size)
    (direct : offset / fs.block_size < 12) where
  block : ℕ
  block = inode_block inode (offset / fs.block_size)

  written : Ext2Fs
  written = write_disk_block fs block (blit (fs.disk block) (offset % fs.block_size) buf 0 size)

  -- Byte `r` of the block, as the file has it after the write.
  file_byte-written :
      (r : ℕ)
      → r < fs.block_size
      → file_byte written inode (offset / fs.block_size * fs.block_size + r) ≡ (
          if leb (offset % fs.block_size) r && ltb r (offset % fs.block_size + size)
          then buf (r - offset % fs.block_size)
          else file_byte fs inode (offset / fs.block_size * fs.block_size + r))
  unfolding written block write_disk_block
  file_byte-written r lt =
      let q = offset / fs.block_size in
      let before = file_byte-at fs inode q block r (get_dblock_num-direct fs inode q direct) lt in
      let after =
        file_byte-at written inode q block r (get_dblock_num-direct written inode q direct) lt in
      rw before (after ∙ block-written fs block (offset % fs.block_size) size buf r lt)

  filled-written :
      (old : Memory)
      → filled written inode offset old size ≡ (λ a. if ltb a size then buf a else old a)
  unfolding filled
  filled-written old = fun_ext λ a. elim (Bool-cases (ltb a size)) [
    | inl within ↦
        let bs = fs.block_size in
        let parts = div-add-mod' offset bs in
        let place : offset + a ≡ offset / bs * bs + (offset % bs + a) = omega (arith, parts) in
        let byte = file_byte-written (offset % bs + a) (ground arith) in
        let index : offset % bs + a - offset % bs ≡ a = omega arith in
        let at_byte : buf (offset % bs + a - offset % bs) ≡ buf a = ap buf index in
        let new : file_byte written inode (offset + a) ≡ buf a =
          ap (λ x. file_byte written inode x) place ∙ (byte ∙ ground (arith, at_byte)) in
        rw within new
    | inr out ↦ rw out refl
  ]

  kept-outside :
      (x : ℕ)
      → x / fs.block_size ≡ offset / fs.block_size
      → (x < offset) ⊎ (offset + size ≤ x)
      → file_byte written inode x ≡ file_byte fs inode x
  kept-outside x row out =
      let bs = fs.block_size in
      let parts = div-add-mod' offset bs in
      let parts_x = div-add-mod' x bs in
      let rest_lt = mod-lt x room in
      let row_bs : x / bs * bs ≡ offset / bs * bs = ap (λ q. q * bs) row in
      let place : offset / bs * bs + x % bs ≡ x = omega (arith, parts_x, row_bs) in
      let outside : leb (offset % bs) (x % bs) && ltb (x % bs) (offset % bs + size) ≡ false =
        ground (arith, parts, place) in
      let byte = rw (place, outside) at (file_byte-written (x % bs) rest_lt) in byte

  -- A write of a range that ends before the end of the direct block it begins in,
  -- and within the file, succeeds without touching the inode. Reading the range back gives what was
  -- written, the other bytes of that block of the file are kept, and so is every other disk block.
  pub write-read_inode_filedata :
      (old : Memory)
      → (fs' : Ext2Fs) × (write_inode_filedata fs inode inode_num offset size buf
          ≡ some (fs', inode))
        × (read_inode_filedata fs' inode offset size old
            ≡ some (size, λ a. if ltb a size then buf a else old a))
        × ((x : ℕ)
            → x / fs.block_size ≡ offset / fs.block_size
            → (x < offset) ⊎ (offset + size ≤ x)
            → file_byte fs' inode x ≡ file_byte fs inode x)
        × ((b : ℕ) → b ≢ inode_block inode (offset / fs.block_size) → fs'.disk b ≡ fs.disk b)
  unfolding written block write_disk_block
  write-read_inode_filedata old =
      let bs = fs.block_size in
      let q = offset / bs in
      let parts = div-add-mod' offset bs in
      let at = get_dblock_num-direct fs inode q direct in
      let end =
        end_of-inside fs inode buf inode_num offset size block room short inside bounded one_block
          at in
      let row =
        end_row fs inode buf inode_num offset size block room short inside bounded one_block at in
      let mapped : end_of inode offset size / bs < mapped_blocks fs = rw (end, row) (omega arith) in
      let length : offset + size - offset ≡ size = omega arith in
      (
        written,
        write_inode_filedata-one fs inode buf inode_num offset size block room short inside bounded
            one_block at,
        read_inode_filedata-filled written inode old offset size room short (omega (arith, end))
              mapped
            ∙ rw (end, length, filled-written old) refl,
        kept-outside,
        λ b ne. written_ne fs block _ b ne,
      )
