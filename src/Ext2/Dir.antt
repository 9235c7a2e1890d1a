-- ===== src/Ext2/Dir.antt =====
-- The directories of src/fs/ext2.c: entries in the blocks of an inode, and the loops that go through
-- them. A name is the array of its bytes with the 0 behind them; `none` is a read past the end of an
-- array, a block that no inode maps, or the end of the fuel. A loop goes on only past an entry whose
-- length is what its name needs, 8 bytes at least, so as many rounds as the directory has bytes are
-- enough. The entry at an offset of a block is read where it stands; what lies behind the block is
-- not the file system's.
use mathlib.Core.Option
use sector_os_re.Base.{
  zero, leb, ◌&&◌, false, ltb, some, ◌==◌, ◌∷◌, suc, not, bit_and, Bool, ◌>>=◌, [], none, ◌++◌, ◌+◌,
  Option, if◌then◌else◌, List, add32, Memory, ℕ,
}
use sector_os_re.Ext2.{inode_bytes, Ext2Fs}
use sector_os_re.Bytes.Fields.{bytes_from, put_word, word_at, half_at}
use sector_os_re.CString.{strcmp}
use sector_os_re.Ext2.Blocks.{write_inode_block, read_inode_block}

-- `Dirent`, at an offset of a block
abbrev pub dirent_inode : Memory → ℕ → ℕ
dirent_inode buf at = word_at buf at

abbrev pub rec_len : Memory → ℕ → ℕ
rec_len buf at = half_at buf (at + 4)

abbrev pub name_len : Memory → ℕ → ℕ
name_len buf at = buf (at + 6)

-- The name of an entry, as it is copied into memory that was cleared.
abbrev pub dirent_name : Memory → ℕ → List ℕ
dirent_name buf at = bytes_from (name_len buf at) buf (at + 8) ++ 0 ∷ []

-- The length of an entry for a name of `n` bytes: in EXT2_finddir, and in the other loops, which go 4
-- bytes further for a multiple of 4.
unfoldable pub expected_size_finddir : ℕ → ℕ
expected_size_finddir n =
    if not (bit_and (8 + n) 3 == 0)
    then add32 (bit_and (8 + n) 0xffff_fffc) 4
    else bit_and (8 + n) 0xffff_fffc

unfoldable pub expected_size : ℕ → ℕ
expected_size n = add32 (bit_and (8 + n) 0xffff_fffc) 4

-- The variables of a loop.
pub record Cursor : Type 0 where
  pub block_buf : Memory
  pub block_offset : ℕ
  pub in_block_offset : ℕ
  pub curr_offset : ℕ

unfoldable pub first_block : Ext2Fs → Memory → Option Cursor
first_block fs p_inode = do
  buf ← read_inode_block fs p_inode 0
  some (record { block_buf = buf; block_offset = 0; in_block_offset = 0; curr_offset = 0 })

-- The next block, once the offset is past the end of this one.
unfoldable pub turn_page : Ext2Fs → Memory → Cursor → Option Cursor
turn_page fs p_inode c =
    let next = (do
      buf ← read_inode_block fs p_inode (c.block_offset + 1)
      some (record {
        block_buf = buf;
        block_offset = c.block_offset + 1;
        in_block_offset = 0;
        curr_offset = c.curr_offset;
      })) in
    if leb fs.block_size c.in_block_offset then next else some c

abbrev pub move_on : Cursor → ℕ → Cursor
move_on c n = record c {
  in_block_offset = add32 c.in_block_offset n;
  curr_offset = add32 c.curr_offset n;
}

-- Whether the entry is in use and has this name.
abbrev pub is_named : Memory → ℕ → Option ℕ → Option Bool
is_named buf at compared = do
  differs ← compared
  some (not (dirent_inode buf at == 0) && (differs == 0))

-- The comparison of the loops that go by the length first.
unfoldable pub has_name : Memory → ℕ → List ℕ → ℕ → Option Bool
has_name buf at name len =
    let compared = is_named buf at (strcmp name (dirent_name buf at)) in
    if name_len buf at == len then compared else some false

-- EXT2_finddir: the entry that is found, or NULL.
unfoldable pub finddir_from : ℕ → Ext2Fs → Memory → List ℕ → Cursor → Option (Option (Memory × ℕ))
finddir_from zero fs p_inode name c = none
finddir_from (suc fuel) fs p_inode name c =
    let look = (do
      d ← turn_page fs p_inode c
      let at = d.in_block_offset
      let go_on = finddir_from fuel fs p_inode name (move_on d (rec_len d.block_buf at))
      let matches = expected_size_finddir (name_len d.block_buf at) == rec_len d.block_buf at
      found ← is_named d.block_buf at (strcmp (dirent_name d.block_buf at) name)
      if found then some (some (d.block_buf, at)) else if matches then go_on else some none) in
    if ltb c.curr_offset (inode_bytes p_inode) then look else some none

-- EXT2_listdir: the names in use, as they come.
unfoldable pub listdir_from : ℕ → Ext2Fs → Memory → Cursor → Option (List (List ℕ))
listdir_from zero fs p_inode c = none
listdir_from (suc fuel) fs p_inode c =
    let look = (do
      d ← turn_page fs p_inode c
      let at = d.in_block_offset
      let here = if dirent_inode d.block_buf at == 0 then [] else dirent_name d.block_buf at ∷ []
      let go_on = listdir_from fuel fs p_inode (move_on d (rec_len d.block_buf at))
      let matches = expected_size (name_len d.block_buf at) == rec_len d.block_buf at
      if matches then Option.map (λ names. here ++ names) go_on else some here) in
    if ltb c.curr_offset (inode_bytes p_inode) then look else some []

-- EXT2_removeEntry: the file system after it.
unfoldable pub remove_from : ℕ → Ext2Fs → Memory → List ℕ → ℕ → Cursor → Option Ext2Fs
remove_from zero fs p_inode name len c = none
remove_from (suc fuel) fs p_inode name len c =
    let look = (do
      d ← turn_page fs p_inode c
      let at = d.in_block_offset
      let go_on = remove_from fuel fs p_inode name len (move_on d (rec_len d.block_buf at))
      let matches = expected_size (name_len d.block_buf at) == rec_len d.block_buf at
      let cleared = put_word d.block_buf at 0
      found ← has_name d.block_buf at name len
      if found
          then write_inode_block fs p_inode d.block_offset cleared
          else if matches
          then go_on
          else some fs) in
    if ltb c.curr_offset (inode_bytes p_inode) then look else some fs
