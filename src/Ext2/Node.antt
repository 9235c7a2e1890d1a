-- ===== src/Ext2/Node.antt =====
-- The nodes that src/fs/ext2.c makes of directory entries, and EXT2_finddir. The callbacks of a node,
-- which its flags and its format decide, and its device are not kept.
use sector_os_re.Base.{
  suc, bit_or, ◌+◌, ◌>>=◌, none, some, ◌==◌, Option, [], bit_and, List, if◌then◌else◌, ◌∷◌, Memory,
  ℕ,
}
use sector_os_re.Ext2.Dir.{finddir_from, first_block, name_len, dirent_inode}
use sector_os_re.Ext2.{
  inode_links, word_at, half_at, inode_permission, read_inode_metadata, inode_bytes, Ext2Fs,
}
use sector_os_re.Bytes.Fields.{bytes_from, word_at, half_at}

pub record Ext2Node : Type 0 where
  pub inode_num : ℕ
  pub name : List ℕ
  pub uid : ℕ
  pub size : ℕ
  pub mask : ℕ
  pub nlink : ℕ
  pub flags : ℕ
  pub last_accessed : ℕ
  pub last_modified : ℕ
  pub creation_time : ℕ

-- `flags |= flag` where the permission has all bits of the format.
abbrev pub flag_for : ℕ → ℕ → ℕ → ℕ → ℕ
flag_for permission format flag flags =
    if bit_and permission format == format then bit_or flags flag else flags

unfoldable pub flags_of : ℕ → ℕ
flags_of permission =
    let f1 = flag_for permission 0x8000 0x01 0 in
    let f2 = flag_for permission 0x4000 0x02 f1 in
    let f3 = flag_for permission 0x6000 0x08 f2 in
    let f4 = flag_for permission 0x2000 0x04 f3 in
    let f5 = flag_for permission 0x1000 0x10 f4 in flag_for permission 0xa000 0x20 f5

-- The group of the inode replaces its user.
unfoldable pub vfsnode_from_direntry : Memory → ℕ → Memory → Ext2Node
vfsnode_from_direntry buf at inode = record {
  inode_num = dirent_inode buf at;
  name = bytes_from (name_len buf at) buf (at + 8);
  uid = half_at inode 24;
  size = inode_bytes inode;
  mask = bit_and (inode_permission inode) 0xfff;
  nlink = inode_links inode;
  flags = flags_of (inode_permission inode);
  last_accessed = word_at inode 8;
  last_modified = word_at inode 16;
  creation_time = word_at inode 12;
}

-- What is made of the entry that was found.
unfoldable pub node_of : Ext2Fs → Memory → Option (Memory × ℕ) → Option Ext2Node
node_of fs heap none = none
node_of fs heap (some (buf, at)) =
    some (vfsnode_from_direntry buf at (read_inode_metadata fs heap (dirent_inode buf at)))

unfoldable pub ext2_finddir : Ext2Fs → Memory → ℕ → List ℕ → Option (Option Ext2Node)
ext2_finddir fs heap parent name = do
  let p_inode = read_inode_metadata fs heap parent
  c ← first_block fs p_inode
  entry ← finddir_from (suc (inode_bytes p_inode)) fs p_inode name c
  some (node_of fs heap entry)

-- EXT2_get_root, whose source has no `return`: the fields of the node that it fills.
unfoldable pub ext2_get_root : Memory → Ext2Node
ext2_get_root inode = record {
  inode_num = 2;
  name = b'/' ∷ [];
  uid = 0;
  size = inode_bytes inode;
  mask = inode_permission inode;
  nlink = 0;
  flags = 0x02;
  last_accessed = word_at inode 8;
  last_modified = word_at inode 16;
  creation_time = word_at inode 12;
}
