-- ===== src/Sorfs.antt =====
-- src/fs/sorfs.c: a read-only file system. The device is the bytes that VFS_read gives of it, from
-- offset 0 on; names are texts, and a name without a 0 ends with the block that holds it.
pub mod Files
mod Tests
use sector_os_re.Base.{
  ◌^◌, ◌∷◌, zero, ◌%◌, ◌==◌, suc, ◌*◌, leb, none, [], sub32, if◌then◌else◌, ◌+◌, some, ℕ, Memory,
  Option, List, Bool,
}
use sector_os_re.Bytes.Fields.{word_at, bytes_from}
use sector_os_re.CString.Split.{same_text}

abbrev pub superblock_magic : ℕ
superblock_magic = 0xe0_9baa

-- `sizeof(sorfs_superblock_t)` and `sizeof(sorfs_block_t)`
abbrev pub superblock_size : ℕ
superblock_size = 48

abbrev pub block_size : ℕ
block_size = 45

abbrev pub type_reg : ℕ
type_reg = 0

abbrev pub type_dir : ℕ
type_dir = 1

abbrev pub type_free : ℕ
type_free = 3

-- `sorfs_t`, with the two numbers of the superblock that are read later on.
pub record Sorfs : Type 0 where
  pub device : Memory
  pub sb_total_blocks : ℕ
  pub total_blocks : ℕ
  pub free_blocks : ℕ

-- `sorfs_block_t`
pub record SorfsBlock : Type 0 where
  pub magic : ℕ
  pub name : List ℕ
  pub block_type : ℕ
  pub size : ℕ
  pub offset : ℕ

-- The text at an address, of at most so many bytes.
pub text_in : ℕ → Memory → ℕ → List ℕ
text_in zero m a = []
text_in (suc left) m a = let rest = text_in left m (a + 1) in if m a == 0 then [] else m a ∷ rest

-- Where a block stands on the device.
pub block_place : ℕ → ℕ
block_place n = (superblock_size + n * block_size) % 2 ^ 32

-- A wrong magic number is only printed.
pub sorfs_read_block : Sorfs → ℕ → SorfsBlock
sorfs_read_block fs n =
    let at = block_place n in
    record {
      magic = word_at fs.device at;
      name = text_in 41 fs.device (at + 4);
      block_type = fs.device (at + 36);
      size = word_at fs.device (at + 37);
      offset = word_at fs.device (at + 41);
    }

-- `size` bytes of a block's contents.
pub sorfs_read_block_content : Sorfs → SorfsBlock → ℕ → ℕ → List ℕ
sorfs_read_block_content fs block offset size =
    bytes_from size fs.device ((block.offset + offset) % 2 ^ 32)

-- The node of a file: what it is called, its size, its block, and whether it can be searched or read.
pub record SorfsNode : Type 0 where
  pub name : List ℕ
  pub size : ℕ
  pub inode_num : ℕ
  pub has_finddir : Bool
  pub has_read : Bool

pub node_of_block : SorfsBlock → ℕ → Option SorfsNode
node_of_block block n =
    if block.block_type == type_free
    then none
    else some (record {
      name = block.name;
      size = block.size;
      inode_num = n;
      has_finddir = block.block_type == type_dir;
      has_read = block.block_type == type_reg;
    })

pub sorfs_block_to_vfs_node : Sorfs → ℕ → Option SorfsNode
sorfs_block_to_vfs_node fs n =
    if leb fs.sb_total_blocks n then none else node_of_block (sorfs_read_block fs n) n

pub sorfs_get_file_size : Sorfs → ℕ → ℕ
sorfs_get_file_size fs inode_num = (sorfs_read_block fs inode_num).size

-- The bytes and the number that is returned.
pub sorfs_read : Sorfs → ℕ → ℕ → ℕ → List ℕ × ℕ
sorfs_read fs inode_num offset size =
    (sorfs_read_block_content fs (sorfs_read_block fs inode_num) offset size, size)

-- How many blocks the loops go through.
unfoldable pub used_blocks : Sorfs → ℕ
used_blocks fs = sub32 fs.total_blocks fs.free_blocks

pub node_name : Option SorfsNode → Option (List ℕ)
node_name none = none
node_name (some f) = some f.name

-- The names in the list; `none` is an element that is not set.
pub names_in : ℕ → Sorfs → ℕ → List (Option (List ℕ))
names_in zero fs i = []
names_in (suc left) fs i =
    let rest = names_in left fs (i + 1) in node_name (sorfs_block_to_vfs_node fs i) ∷ rest

-- Of another node than the root there is no return value.
pub sorfs_listdir : Sorfs → Bool → Option (List (Option (List ℕ)))
sorfs_listdir fs is_root = if is_root then some (names_in (used_blocks fs) fs 0) else none

pub if_named : List ℕ → Option SorfsNode → Option SorfsNode → Option SorfsNode
if_named name none rest = rest
if_named name (some f) rest = if same_text f.name name then some f else rest

pub find_in : ℕ → Sorfs → List ℕ → ℕ → Option SorfsNode
find_in zero fs name i = none
find_in (suc left) fs name i =
    let rest = find_in left fs name (i + 1) in if_named name (sorfs_block_to_vfs_node fs i) rest

-- `none` is an end without a return value.
pub sorfs_finddir : Sorfs → Bool → List ℕ → Option SorfsNode
sorfs_finddir fs is_root name = if is_root then find_in (used_blocks fs) fs name 0 else none

pub is_sorfs : Memory → ℕ
is_sorfs device = if word_at device 0 == superblock_magic then 1 else 0

-- The file system that the root node leads to.
pub init_sorfs : Memory → Option Sorfs
init_sorfs device =
    if word_at device 0 == superblock_magic
    then some (record {
      device = device;
      sb_total_blocks = word_at device 40;
      total_blocks = word_at device 40;
      free_blocks = word_at device 44;
    })
    else none
