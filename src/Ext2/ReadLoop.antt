-- ===== src/Ext2/ReadLoop.antt =====
-- read_inode_filedata of src/fs/ext2.c gives the bytes of the file.
use sector_os_re.Base.{
  refl, sub32, zero, add32, ◌∙◌, arith, ap, ◌*◌, some, suc, ◌≡◌, ◌+◌, ◌-◌, ◌/◌, ◌≤◌, ◌^◌, ◌<◌,
  Memory, ℕ,
}
use native.Mathlib.Nat.{div-mul-le_self, div-add-mod', mod-lt, suc-mul}
use sector_os_re.Ext2.{read_disk_block, Ext2Fs}
use sector_os_re.Ext2.File.{read_inode_filedata, left_of, count_of, span_of, read_rounds, end_of}
use sector_os_re.Ext2.Blocks.{get_dblock_num-mapped, read_inode_block, mapped_blocks}
use sector_os_re.Ext2.Rounds.{div_mono, end_of-lt, count_of-position, position}
use sector_os_re.Ext2.Read.{filled-zero, filled-blit, filled}

module _ (fs : Ext2Fs) (inode buf : Memory) (offset size : ℕ) (room : 0 < fs.block_size)
    (short : fs.block_size < 2 ^ 32) (inside : offset ≤ end_of inode offset size)
    (mapped : end_of inode offset size / fs.block_size < mapped_blocks fs) where
  read_rounds-filled :
      (rounds i : ℕ)
      → let s = span_of fs inode offset size in
        let e = end_of inode offset size in
        let done = position fs.block_size offset e i - offset in
        i + rounds ≡ suc s.end_block
        → s.start_block ≤ i
        → read_rounds rounds fs inode s i done (filled fs inode offset buf done)
          ≡ some (filled fs inode offset buf (e - offset))
  unfolding read_rounds read_inode_block read_disk_block
  read_rounds-filled zero i all lo =
      let e = end_of inode offset size in
      let bs = fs.block_size in
      let last = div-add-mod' e bs in
      let last_lt = mod-lt e room in
      let past : i * bs ≡ e / bs * bs + bs =
        ap (λ r. r * bs) (omega (arith, all)) ∙ suc-mul (e / bs) bs in
      ap (λ p. some (filled fs inode offset buf (p - offset))) (omega arith)
  read_rounds-filled (suc rounds) i all lo =
      let s = span_of fs inode offset size in
      let e = end_of inode offset size in
      let done = position fs.block_size offset e i - offset in
      let count = count_of s (fs.block_size - 1) i in
      let (block, at) = get_dblock_num-mapped fs inode i (omega arith) in
      let (from, to, fits) =
        count_of-position fs inode offset size room short inside i lo (omega arith) in
      let more : add32 done count ≡ position fs.block_size offset e (suc i) - offset =
        (let small = end_of-lt fs inode offset size room short inside in
          omega (arith, to, small)) in
      let copied =
        filled-blit fs inode buf offset i done (left_of s i) count block at (omega arith) fits in
      let step : i + 1 ≡ suc i = omega arith in
      let more' : done + count ≡ position fs.block_size offset e (suc i) - offset =
        omega (arith, to) in
      rw (at, copied, step, more, more')
        (read_rounds-filled rounds (suc i) (omega arith) (omega arith))

  -- A read that begins no later than it ends answers how many bytes it read, and puts them into the
  -- buffer: the file's bytes from `offset` to the end of what was asked for or, if that is sooner, of
  -- the file. The rest of the buffer is kept. Blocks count from 1 to 2^32 - 1 bytes, and the block at
  -- the end of the range is one that an inode can map.
  pub read_inode_filedata-filled :
      read_inode_filedata fs inode offset size buf
      ≡ some (
        end_of inode offset size - offset,
        filled fs inode offset buf (end_of inode offset size - offset),
      )
  unfolding read_inode_filedata
  read_inode_filedata-filled =
      let s = span_of fs inode offset size in
      let e = end_of inode offset size in
      let bs = fs.block_size in
      let first = div-mul-le_self offset bs in
      let order = div_mono bs room inside in
      let start : position bs offset e (offset / bs) - offset ≡ 0 = omega (arith, first) in
      let loop =
        read_rounds-filled (suc s.end_block - s.start_block) (offset / bs) (omega (arith, order))
          (omega arith) in
      let loop' = rw (start, filled-zero fs inode buf offset) at loop in
      let small = end_of-lt fs inode offset size room short inside in
      let length : sub32 e offset ≡ e - offset = omega (arith, small) in rw (loop', length) refl
