-- ===== src/Ext2/WriteLoop.antt =====
-- write_inode_filedata of src/fs/ext2.c on a range that ends in the block it begins in.
use sector_os_re.Base.{
  ◌&&◌, leb, if◌then◌else◌, Option, ◌>>=◌, refl, mul32, sub32, ◌-◌, suc, false, add32, ltb, ◌∙◌, ap,
  arith, ◌*◌, some, ◌≡◌, ◌/◌, ◌%◌, ◌≤◌, ◌+◌, ◌^◌, ◌<◌, Memory, ℕ,
}
use native.Mathlib.Nat.{div-add-mod'}
use sector_os_re.Ext2.{read_disk_block, blit, write_disk_block, inode_bytes, Ext2Fs}
use sector_os_re.Ext2.Blocks.{write_inode_block, read_inode_block, get_dblock_num}
use sector_os_re.Ext2.File.{
  left_of, Span, span_of, count_of, write_rounds, end_of, write_inode_filedata,
}
use sector_os_re.Bytes.Fields.{blit}
use sector_os_re.Ext2.Read.{div_in_row}

-- A range in one block.
abbrev row_of : Ext2Fs → ℕ → ℕ → Span
row_of fs offset size = record {
  start_block = offset / fs.block_size;
  end_block = offset / fs.block_size;
  start_off = offset % fs.block_size;
  end_size = offset % fs.block_size + size;
}

module _ (fs : Ext2Fs) (inode buf : Memory) (inode_num offset size block : ℕ)
    (room : 0 < fs.block_size) (short : fs.block_size < 2 ^ 32)
    (inside : offset + size ≤ inode_bytes inode) (bounded : inode_bytes inode < 2 ^ 32)
    (one_block : offset % fs.block_size + size < fs.block_size)
    (at : get_dblock_num fs inode (offset / fs.block_size) ≡ some block) where
  pub end_row : (offset + size) / fs.block_size ≡ offset / fs.block_size
  end_row =
      let bs = fs.block_size in
      let parts = div-add-mod' offset bs in
      let e : offset + size ≡ offset / bs * bs + (offset % bs + size) = omega (arith, parts) in
      ap (λ x. x / bs) e ∙ div_in_row (offset / bs) bs (offset % bs + size) one_block

  pub end_of-inside : end_of inode offset size ≡ offset + size
  end_of-inside = ground arith

  span_of-inside : span_of fs inode offset size ≡ row_of fs offset size
  span_of-inside =
      let bs = fs.block_size in
      let parts = div-add-mod' offset bs in
      let last : sub32 (offset + size) (mul32 (offset / bs) bs) ≡ offset % bs + size =
        omega (arith, parts) in
      rw (end_of-inside, end_row, last) refl

  count_of-row :
      (whole : ℕ) → count_of (row_of fs offset size) whole (offset / fs.block_size) ≡ size
  count_of-row whole = ground arith

  pub write_inode_filedata-one :
      write_inode_filedata fs inode inode_num offset size buf
      ≡ some (
        write_disk_block fs block (blit (fs.disk block) (offset % fs.block_size) buf 0 size),
        inode,
      )
  unfolding write_inode_filedata write_rounds read_inode_block write_inode_block read_disk_block
  write_inode_filedata-one =
      let bs = fs.block_size in
      let q = offset / bs in
      let parts = div-add-mod' offset bs in
      let fits : ltb (inode_bytes inode) (add32 offset size) ≡ false = ground arith in
      let rounds : suc q - q ≡ 1 = omega arith in
      let left : left_of (row_of fs offset size) q ≡ offset % bs = ground arith in
      let loop : Span → Option (Ext2Fs × Memory) = λ s.
        write_rounds (suc s.end_block - s.start_block) fs inode s s.start_block 0 buf >>= λ fs2.
        some (fs2, inode) in
      let one : loop (row_of fs offset size)
          ≡ some (
            write_disk_block fs block (blit (fs.disk block) (offset % fs.block_size) buf 0 size),
            inode,
          ) =
        rw (rounds, at, count_of-row fs.block_size, left) refl in
      rw fits (ap loop span_of-inside ∙ one)

-- The bytes of the block that is written.
pub block-written :
    (fs : Ext2Fs) (block at n : ℕ) (buf : Memory) (r : ℕ)
    → r < fs.block_size
    → (write_disk_block fs block (blit (fs.disk block) at buf 0 n)).disk block r
      ≡ (if leb at r && ltb r (at + n) then buf (r - at) else fs.disk block r)
unfolding write_disk_block blit
block-written fs block at n buf r lt = ground arith
