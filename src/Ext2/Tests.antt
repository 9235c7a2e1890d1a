-- ===== src/Ext2/Tests.antt =====
-- src/fs/ext2.c on concrete disks.
use sector_os_re.Base.{
  ◌>>=◌, [], ◌∷◌, suc, List, ◌||◌, ◌⊎◌, ◌≤◌, ◌/◌, ◌-◌, ltb, ◌&&◌, ◌≢◌, arith, refl, some, ◌^◌, ◌==◌,
  ◌≡◌, if◌then◌else◌, ◌<◌, Memory, ℕ,
}
use sector_os_re.Ext2.{
  inode_place, read_disk_block, write_inode_metadata, inode_bytes, inode_block, read_inode_metadata,
  Ext2Fs,
}
use sector_os_re.Ext2.Blocks.{read_inode_block, get_dblock_num, set_dblock_num}
use sector_os_re.Ext2.Found.{alloc-Outcome, Outcome}
use sector_os_re.Ext2.File.{end_of, write_inode_filedata, read_inode_filedata}
use sector_os_re.Bytes.Fields.{bytes_from, half_at, blit, word_at, put_word}
use sector_os_re.Ext2.Bitmap.{
  take_bit, free_bit_from, free_in_word, alloc_inode, free_word_from, inodes, blocks, alloc_from,
  bitmap_block, ext2_alloc_block,
}
use sector_os_re.Ext2.Map.{get-set_dblock_num}
use sector_os_re.Ext2.Inodes.{read-write_inode_metadata}
use sector_os_re.Ext2.Read.{file_byte, filled}
use sector_os_re.Ext2.ReadLoop.{read_inode_filedata-filled}
use sector_os_re.Ext2.WriteRead.{write-read_inode_filedata}
use sector_os_re.Ext2.Dir.{
  turn_page, listdir_from, first_block, expected_size_finddir, expected_size, Cursor,
}
use sector_os_re.Ext2.Walk.{first_named, names_in_use, walk}
use sector_os_re.Ext2.Node.{node_of, ext2_finddir}
use sector_os_re.Ext2.Create.{ext2_listdir}
use sector_os_re.Ext2.Listing.{ext2_finddir-first_named, ext2_listdir-names_in_use}
use sector_os_re.Ext2.Mount.{superblock_of, total_blocks, log_block_size, magic, blocks_per_group}

-- One group: bitmaps in blocks 3 and 4, the inodes from block 5 on.
abbrev descriptors : Memory
descriptors a =
    if a == 0
    then 3
    else if a == 4
    then 4
    else if a == 8
    then 5
    else if a == 12
    then 9
    else if a == 14
    then 7
    else 0

-- The first two blocks of the group are taken.
abbrev small_disk : Ext2Fs
small_disk = record {
  disk = λ b a. if b == 3 && (a == 0) then 3 else 0;
  bgd = descriptors;
  block_size = 1024;
  block_per_group = 8192;
  inodes_per_group = 64;
  total_groups = 1;
  bgd_block = 1;
  inode_size = 128;
}

-- An inode of 3000 bytes in blocks 20, 21 and 22, with block 30 for pointers.
abbrev three_blocks : Memory
three_blocks =
    put_word (put_word (put_word (put_word (put_word (λ a. 0) 4 3000) 40 20) 44 21) 48 22) 88 30

abbrev typed : Memory
typed a = 65

abbrev empty : Memory
empty a = 0

descriptors-bytes : (a : ℕ) → small_disk.bgd a < 2 ^ 8
descriptors-bytes a = ground arith

bitmaps-apart :
    (g : ℕ)
    → g < small_disk.total_groups
    → (bitmap_block blocks small_disk g ≢ 2) × (bitmap_block inodes small_disk g ≢ 2)
unfolding word_at
bitmaps-apart g lt = let e : g ≡ 0 = omega arith in rw e (ground arith, ground arith)

alloc-Outcome_example :
    Outcome blocks small_disk 0 1 (ext2_alloc_block small_disk)
    × Outcome inodes small_disk 0 1 (alloc_inode small_disk)
alloc-Outcome_example = alloc-Outcome small_disk descriptors-bytes bitmaps-apart

-- The block that is taken is the third.
third_block : (ext2_alloc_block small_disk).0 ≡ 2
unfolding ext2_alloc_block alloc_from free_word_from free_in_word free_bit_from take_bit
    read_disk_block word_at half_at
third_block = refl

pointer_there : inode_block three_blocks 12 ≢ 0
unfolding word_at put_word
pointer_there = ground arith

get-set_dblock_num_example :
    let (fs', inode') = set_dblock_num small_disk three_blocks 7 14 99 in
    get_dblock_num fs' inode' 14 ≡ some 99
get-set_dblock_num_example =
    get-set_dblock_num small_disk three_blocks 7 99 14 14 (omega arith) (omega arith) (omega arith)
      (λ _. pointer_there)

bytes_there : inode_bytes three_blocks ≡ 3000
unfolding word_at put_word
bytes_there = refl

read_inode_filedata-filled_example :
    read_inode_filedata small_disk three_blocks 500 1000 empty
    ≡ some (
      end_of three_blocks 500 1000 - 500,
      filled small_disk three_blocks 500 empty (end_of three_blocks 500 1000 - 500),
    )
unfolding word_at put_word
read_inode_filedata-filled_example =
    read_inode_filedata-filled small_disk three_blocks empty 500 1000 (omega arith) (omega arith)
      (omega (arith, bytes_there)) (omega (arith, bytes_there))

write-read_inode_filedata_example :
    (fs' : Ext2Fs) × (write_inode_filedata small_disk three_blocks 7 1100 200 typed
      ≡ some (fs', three_blocks))
    × (read_inode_filedata fs' three_blocks 1100 200 empty
        ≡ some (200, λ a. if ltb a 200 then typed a else empty a))
    × ((x : ℕ)
        → x / 1024 ≡ 1
        → (x < 1100) ⊎ (1300 ≤ x)
        → file_byte fs' three_blocks x ≡ file_byte small_disk three_blocks x)
    × ((b : ℕ) → b ≢ inode_block three_blocks 1 → fs'.disk b ≡ small_disk.disk b)
write-read_inode_filedata_example =
    write-read_inode_filedata small_disk three_blocks typed 7 1100 200 (omega arith) (omega arith)
      (omega (arith, bytes_there)) (omega (arith, bytes_there)) (omega arith) (omega arith) empty

read-write_inode_metadata_example :
    read_inode_metadata (write_inode_metadata small_disk three_blocks 7) empty 7
    ≡ blit empty 0 three_blocks 0 128
read-write_inode_metadata_example =
    read-write_inode_metadata small_disk 8 three_blocks empty 7 7 (omega arith) (omega arith) refl
      (omega arith) (omega arith) (omega arith) (omega arith) (omega arith)

-- A directory in block 20 with the entries "." and "..", the second as long as the block.
abbrev two_entries : Memory
two_entries a =
    if a == 0
    then 2
    else if a == 4
    then 12
    else if a == 6
    then 1
    else if a == 8
    then b'.'
    else if a == 12
    then 2
    else if a == 17
    then 4
    else if a == 18
    then 2
    else if a == 20 || (a == 21)
    then b'.'
    else 0

-- Inode 2 of this disk is the directory, of 1024 bytes.
abbrev dir_disk : Ext2Fs
dir_disk = record small_disk {
  disk = λ b a.
      if b == 20
      then two_entries a
      else if b == 5 && (a == 133)
      then 4
      else if b == 5 && (a == 168)
      then 20
      else 0;
}

dir_disk-bytes : (b a : ℕ) → dir_disk.disk b a < 2 ^ 8
dir_disk-bytes b a = ground arith

root_size : inode_bytes (read_inode_metadata dir_disk empty 2) ≡ 1024
unfolding read_inode_metadata read_disk_block word_at blit inode_place
root_size = refl

ext2_listdir-names_in_use_example :
    let p_inode = read_inode_metadata dir_disk empty 2 in
    (c : Cursor) × (es : List (Memory × ℕ)) × (first_block dir_disk p_inode ≡ some c)
    × (walk expected_size (suc (inode_bytes p_inode)) dir_disk p_inode c ≡ some es)
    × (ext2_listdir dir_disk empty 2 ≡ some (names_in_use es))
ext2_listdir-names_in_use_example =
    ext2_listdir-names_in_use dir_disk empty 2 (omega arith) (omega (arith, root_size))
      (omega (arith, root_size)) dir_disk-bytes

ext2_finddir-first_named_example :
    let p_inode = read_inode_metadata dir_disk empty 2 in
    (c : Cursor) × (es : List (Memory × ℕ)) × (first_block dir_disk p_inode ≡ some c)
    × (walk expected_size_finddir (suc (inode_bytes p_inode)) dir_disk p_inode c ≡ some es)
    × (ext2_finddir dir_disk empty 2 (b'.' ∷ 0 ∷ [])
        ≡ (first_named (b'.' ∷ 0 ∷ []) es >>= λ entry. some (node_of dir_disk empty entry)))
ext2_finddir-first_named_example =
    ext2_finddir-first_named dir_disk empty 2 (omega arith) (omega (arith, root_size))
      (omega (arith, root_size)) dir_disk-bytes (b'.' ∷ 0 ∷ [])

-- The two names are listed.
listing : ext2_listdir dir_disk empty 2 ≡ some ((b'.' ∷ 0 ∷ []) ∷ (b'.' ∷ b'.' ∷ 0 ∷ []) ∷ [])
unfolding ext2_listdir first_block read_inode_metadata read_disk_block word_at half_at blit
    inode_place read_inode_block get_dblock_num listdir_from turn_page expected_size bytes_from
listing = refl

-- A device whose superblock counts 8192 blocks of 1024 bytes in one group.
abbrev device : Memory
device a =
    if a == 1029 || (a == 1057)
    then 32
    else if a == 1080
    then 0x53
    else if a == 1081
    then 0xef
    else 0

device-magic : magic (superblock_of device) ≡ 0xef53
unfolding half_at
device-magic = refl

device-total_blocks : total_blocks (superblock_of device) ≡ 8192
unfolding word_at
device-total_blocks = refl

device-blocks_per_group : blocks_per_group (superblock_of device) ≡ 8192
unfolding word_at
device-blocks_per_group = refl

device-log_block_size : log_block_size (superblock_of device) ≡ 0
unfolding word_at
device-log_block_size = refl
