-- ===== src/Ext2/File.antt =====
-- The bytes of a file in src/fs/ext2.c: read_inode_filedata and write_inode_filedata.
use sector_os_re.Base.{
  zero, ◌+◌, ◌-◌, mul32, suc, ◌%◌, some, ◌>>=◌, ltb, sub32, ◌==◌, ◌/◌, Option, leb, if◌then◌else◌,
  add32, Memory, ℕ,
}
use sector_os_re.Ext2.{write_inode_metadata, inode_bytes, put_word, Ext2Fs}
use sector_os_re.Bytes.Fields.{blit, put_word}
use sector_os_re.Ext2.Blocks.{write_inode_block, read_inode_block}

-- The range that both loops go through: the blocks of its ends, the offset in the first, and the
-- bytes in the last.
pub record Span : Type 0 where
  pub start_block : ℕ
  pub end_block : ℕ
  pub start_off : ℕ
  pub end_size : ℕ

abbrev pub end_of : Memory → ℕ → ℕ → ℕ
end_of inode offset size =
    if leb (add32 offset size) (inode_bytes inode) then add32 offset size else inode_bytes inode

abbrev pub span_of : Ext2Fs → Memory → ℕ → ℕ → Span
span_of fs inode offset size =
    let end_offset = end_of inode offset size in
    record {
      start_block = offset / fs.block_size;
      end_block = end_offset / fs.block_size;
      start_off = offset % fs.block_size;
      end_size = sub32 end_offset (mul32 (end_offset / fs.block_size) fs.block_size);
    }

-- `left` and `right` in block `i`, where `whole` is the value of `right` in all blocks but the last.
abbrev pub left_of : Span → ℕ → ℕ
left_of s i = if i == s.start_block then s.start_off else 0

abbrev pub right_of : Span → ℕ → ℕ → ℕ
right_of s whole i = if i == s.end_block then sub32 s.end_size 1 else whole

abbrev pub count_of : Span → ℕ → ℕ → ℕ
count_of s whole i = add32 (sub32 (right_of s whole i) (left_of s i)) 1

-- `while (i <= end_block)`, with the rounds that are left. There is no result where a block is
-- beyond what an inode maps.
unfoldable pub read_rounds : ℕ → Ext2Fs → Memory → Span → ℕ → ℕ → Memory → Option Memory
read_rounds zero fs inode s i curr_off buf = some buf
read_rounds (suc rounds) fs inode s i curr_off buf = do
  block_buf ← read_inode_block fs inode i
  let count = count_of s (fs.block_size - 1) i
  let buf' = blit buf curr_off block_buf (left_of s i) count
  read_rounds rounds fs inode s (i + 1) (add32 curr_off count) buf'

unfoldable pub read_inode_filedata : Ext2Fs → Memory → ℕ → ℕ → Memory → Option (ℕ × Memory)
read_inode_filedata fs inode offset size buf = do
  let s = span_of fs inode offset size
  buf' ← read_rounds (suc s.end_block - s.start_block) fs inode s s.start_block 0 buf
  some (sub32 (end_of inode offset size) offset, buf')

-- Here `right` is `block_size`, one more than the last byte of a block.
unfoldable pub write_rounds : ℕ → Ext2Fs → Memory → Span → ℕ → ℕ → Memory → Option Ext2Fs
write_rounds zero fs inode s i curr_off buf = some fs
write_rounds (suc rounds) fs inode s i curr_off buf = do
  block_buf ← read_inode_block fs inode i
  let count = count_of s fs.block_size i
  let block_buf' = blit block_buf (left_of s i) buf curr_off count
  fs' ← write_inode_block fs inode i block_buf'
  write_rounds rounds fs' inode s (i + 1) (add32 curr_off count) buf

-- `inode->size` grows to the end of what is written.
abbrev pub grow : Ext2Fs → Memory → ℕ → ℕ → Ext2Fs × Memory
grow fs inode inode_num end_offset =
    let inode' = put_word inode 4 end_offset in
    if ltb (inode_bytes inode) end_offset
    then (write_inode_metadata fs inode' inode_num, inode')
    else (fs, inode)

unfoldable pub write_inode_filedata :
    Ext2Fs → Memory → ℕ → ℕ → ℕ → Memory → Option (Ext2Fs × Memory)
write_inode_filedata fs inode inode_num offset size buf = do
  let (fs1, inode') = grow fs inode inode_num (add32 offset size)
  let s = span_of fs1 inode' offset size
  fs2 ← write_rounds (suc s.end_block - s.start_block) fs1 inode' s s.start_block 0 buf
  some (fs2, inode')
