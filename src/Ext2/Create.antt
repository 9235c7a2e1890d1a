-- ===== src/Ext2/Create.antt =====
-- EXT2_createEntry of src/fs/ext2.c, and the calls behind the nodes of the file system. `heap` is what
-- the memory that kmalloc gives for an inode holds.
use sector_os_re.Base.{
  not, ◌==◌, [], ◌^◌, false, ◌%◌, zero, some, update, ltb, ◌>>=◌, bit_and, ◌+◌, none, ◌-◌, ◌&&◌,
  ◌∷◌, Option, leb, suc, bit_or, Bool, if◌then◌else◌, List, Memory, ℕ,
}
use sector_os_re.Bytes.Fields.{put_word, put_half}
use sector_os_re.Ext2.{
  inode_permission, rewrite_bgd, inode_links, write_inode_metadata, read_inode_metadata,
  inode_bytes, Ext2Fs,
}
use sector_os_re.Ext2.Dir.{
  has_name, move_on, name_len, expected_size, listdir_from, remove_from, rec_len, turn_page,
  first_block, Cursor,
}
use sector_os_re.Ext2.Bitmap.{alloc_inode}
use sector_os_re.Ext2.File.{read_inode_filedata, write_inode_filedata}
use sector_os_re.CString.{strlen}
use sector_os_re.Ext2.Blocks.{write_inode_block, alloc_iblock}

-- `count` bytes of a text, written from `at` on.
unfoldable pub put_bytes : ℕ → Memory → ℕ → List ℕ → Memory
put_bytes zero buf at name = buf
put_bytes (suc count) buf at [] = buf
put_bytes (suc count) buf at (c ∷ name) = put_bytes count (update buf at c) (at + 1) name

abbrev pub clear : Memory → ℕ → ℕ → Memory
clear buf at n a = if leb at a && ltb a (at + n) then 0 else buf a

-- The new entry takes what is left of the block.
unfoldable pub dirent_written : Memory → ℕ → ℕ → ℕ → List ℕ → ℕ → Memory
dirent_written buf at left entry_inode name len =
    let buf1 = put_half (put_word buf at entry_inode) (at + 4) left in
    put_bytes len (update (update buf1 (at + 6) (len % 256)) (at + 7) 0) (at + 8) name

-- The entry is written, and the header of what comes behind it is cleared: as the entry goes to the
-- end of its block, that is the header at the start of the next one.
unfoldable pub place_entry : Ext2Fs → Memory → List ℕ → ℕ → ℕ → Cursor → Option Ext2Fs
place_entry fs p_inode name len entry_inode d = do
  let at = d.in_block_offset
  let buf = dirent_written d.block_buf at (fs.block_size - at) entry_inode name len
  fs1 ← write_inode_block fs p_inode d.block_offset buf
  let c = record d { block_buf = buf; in_block_offset = at + rec_len buf at }
  d1 ← turn_page fs1 p_inode c
  write_inode_block fs1 p_inode d1.block_offset (clear d1.block_buf d1.in_block_offset 8)

-- The loop: `found` once an entry has been cut to the length that its name needs.
unfoldable pub create_from : ℕ → Ext2Fs → Memory → List ℕ → ℕ → ℕ → Bool → Cursor → Option Ext2Fs
create_from zero fs p_inode name len entry_inode found c = none
create_from (suc fuel) fs p_inode name len entry_inode found c =
    let look = (do
      d ← turn_page fs p_inode c
      let at = d.in_block_offset
      let needed = expected_size (name_len d.block_buf at)
      let fits = needed == rec_len d.block_buf at
      let cut = put_half d.block_buf (at + 4) needed
      let kept = record d { block_buf = if fits then d.block_buf else cut }
      let rest = create_from fuel fs p_inode name len entry_inode (not fits) (move_on kept needed)
      let placed = place_entry fs p_inode name len entry_inode d
      there ← has_name d.block_buf at name len
      if there then some fs else if found then placed else rest) in
    if ltb c.curr_offset (inode_bytes p_inode) then look else some fs

unfoldable pub ext2_create_entry : Ext2Fs → Memory → ℕ → List ℕ → ℕ → Option Ext2Fs
ext2_create_entry fs heap parent name entry_inode = do
  let p_inode = read_inode_metadata fs heap parent
  len ← strlen name
  c ← first_block fs p_inode
  create_from (suc (inode_bytes p_inode)) fs p_inode name len entry_inode false c

unfoldable pub ext2_remove_entry : Ext2Fs → Memory → ℕ → List ℕ → Option Ext2Fs
ext2_remove_entry fs heap parent name = do
  let p_inode = read_inode_metadata fs heap parent
  len ← strlen name
  c ← first_block fs p_inode
  remove_from (suc (inode_bytes p_inode)) fs p_inode name len c

-- The hard links of the parent are one more or one less, and the descriptors are written.
abbrev pub relink : Ext2Fs → Memory → ℕ → ℕ → Ext2Fs
relink fs heap parent more =
    let p_inode = read_inode_metadata fs heap parent in
    let p_inode' = put_half p_inode 26 (inode_links p_inode + more) in
    rewrite_bgd (write_inode_metadata fs p_inode' parent)

-- The fields that a new inode is given; its `mtime` stays what it was.
unfoldable pub fresh_inode : ℕ → ℕ → ℕ → Memory → Memory
fresh_inode format permission block_size old =
    let m1 = put_half old 0 (bit_or format (bit_and 0xfff permission)) in
    let m2 = put_word (clear m1 2 2) 4 block_size in
    let m3 = clear (clear m2 8 8) 20 6 in clear (put_half m3 26 2) 28 100

-- EXT2_mkdir and EXT2_mkfile, which differ in the format alone.
unfoldable pub make : ℕ → Ext2Fs → Memory → ℕ → List ℕ → ℕ → Option Ext2Fs
make format fs heap parent name permission = do
  let (inode_num, fs1) = alloc_inode fs
  let old = read_inode_metadata fs1 heap inode_num
  let inode = fresh_inode format permission fs.block_size old
  let (fs2, inode') = alloc_iblock fs1 inode inode_num 0
  let fs3 = write_inode_metadata fs2 inode' inode_num
  fs4 ← ext2_create_entry fs3 heap parent name inode_num
  some (relink fs4 heap parent 1)

unfoldable pub ext2_mkdir : Ext2Fs → Memory → ℕ → List ℕ → ℕ → Option Ext2Fs
ext2_mkdir fs heap parent name permission = make 0x4000 fs heap parent name permission

unfoldable pub ext2_mkfile : Ext2Fs → Memory → ℕ → List ℕ → ℕ → Option Ext2Fs
ext2_mkfile fs heap parent name permission = make 0x8000 fs heap parent name permission

-- One link less is 2 ^ 16 - 1 more.
unfoldable pub ext2_unlink : Ext2Fs → Memory → ℕ → List ℕ → Option Ext2Fs
ext2_unlink fs heap parent name = do
  fs1 ← ext2_remove_entry fs heap parent name
  some (relink fs1 heap parent (2 ^ 16 - 1))

unfoldable pub ext2_listdir : Ext2Fs → Memory → ℕ → Option (List (List ℕ))
ext2_listdir fs heap parent = do
  let p_inode = read_inode_metadata fs heap parent
  c ← first_block fs p_inode
  listdir_from (suc (inode_bytes p_inode)) fs p_inode c

unfoldable pub ext2_get_file_size : Ext2Fs → Memory → ℕ → ℕ
ext2_get_file_size fs heap inode_num = inode_bytes (read_inode_metadata fs heap inode_num)

unfoldable pub ext2_chmod : Ext2Fs → Memory → ℕ → ℕ → Ext2Fs
ext2_chmod fs heap inode_num mode =
    let inode = read_inode_metadata fs heap inode_num in
    let permission = bit_or (bit_and (inode_permission inode) 0xffff_f000) mode in
    write_inode_metadata fs (put_half inode 0 permission) inode_num

-- With OPEN_TRUNC among the flags, or without.
unfoldable pub ext2_open : Ext2Fs → Memory → ℕ → Bool → Ext2Fs
ext2_open fs heap inode_num trunc =
    let inode = read_inode_metadata fs heap inode_num in
    if trunc then write_inode_metadata fs (put_word inode 4 0) inode_num else fs

-- Both answer the size that was asked for.
unfoldable pub ext2_read : Ext2Fs → Memory → ℕ → ℕ → ℕ → Memory → Option (ℕ × Memory)
ext2_read fs heap inode_num offset size buffer = do
  (_, buffer') ← read_inode_filedata fs (read_inode_metadata fs heap inode_num) offset size buffer
  some (size, buffer')

unfoldable pub ext2_write : Ext2Fs → Memory → ℕ → ℕ → ℕ → Memory → Option (ℕ × Ext2Fs)
ext2_write fs heap inode_num offset size buffer = do
  let inode = read_inode_metadata fs heap inode_num
  (fs', _) ← write_inode_filedata fs inode inode_num offset size buffer
  some (size, fs')
