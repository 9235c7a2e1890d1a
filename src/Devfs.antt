-- ===== src/Devfs.antt =====
-- src/fs/devfs.c: the table of devices. A name is a text without its 0; an unlink callback is a number
-- that names it, 0 for none. What VFS_mountDev gets is a part of the answer.
pub mod Table
mod Tests
use sector_os_re.Base.{
  length, zero, ◌+◌, leb, ◌||◌, update, not, suc, false, some, ltb, ◌∷◌, none, ℕ, Bool, Option,
  List, [], if◌then◌else◌,
}
use sector_os_re.CString.Split.{same_text}

-- The fields of a `FILE` that devfs reads.
pub record DevNode : Type 0 where
  pub name : List ℕ
  pub inode_num : ℕ
  pub unlink : ℕ

-- `nodes` and `num_nodes`
pub record Devfs : Type 0 where
  pub nodes : ℕ → DevNode
  pub num_nodes : ℕ

abbrev pub max_devices : ℕ
max_devices = 64

-- What `memset` leaves.
abbrev pub zero_node : DevNode
zero_node = record { name = []; inode_num = 0; unlink = 0 }

-- `num_nodes` keeps its value.
pub init_devfs : Devfs → Devfs
init_devfs d = record d { nodes = λ i. if ltb i max_devices then zero_node else d.nodes i }

-- A pointer to a node: the node, and its index if it points into the table.
pub record NodePointer : Type 0 where
  pub node : DevNode
  pub slot : Option ℕ

pub is_added : Devfs → Option ℕ → Bool
is_added d none = false
is_added d (some i) = ltb i d.num_nodes

-- The path for VFS_mountDev: "/dev/" and the name.
pub mountpoint_of : List ℕ → List ℕ
mountpoint_of name = b'/' ∷ b'd' ∷ b'e' ∷ b'v' ∷ b'/' ∷ name

-- `none` is a path that is written past its buffer of 128 bytes. Whether VFS_mountDev mounts the node
-- at the path that it gets, or refuses to, is not kept.
pub devfs_add : Devfs → Option NodePointer → Option (Devfs × Option (List ℕ))
devfs_add d none = some (d, none)
devfs_add d (some p) =
    let path = mountpoint_of p.node.name in
    if leb max_devices d.num_nodes || is_added d p.slot
    then some (d, none)
    else if ltb 128 (length path + 1)
    then none
    else some (
      record { nodes = update d.nodes d.num_nodes p.node; num_nodes = d.num_nodes + 1 },
      some path,
    )

-- The loops for a name, with the rounds that are left and `i`.
pub find_name : ℕ → (ℕ → DevNode) → List ℕ → ℕ → Option ℕ
find_name zero nodes name i = none
find_name (suc left) nodes name i =
    let rest = find_name left nodes name (i + 1) in
    if same_text (nodes i).name name then some i else rest

-- The entry is cleared, and stays in the table. Behind a name that is not found, the loop that would
-- move entries has no round. The callback that is called is a part of the answer.
pub clear_entry : Devfs → Option ℕ → Devfs × ℕ
clear_entry d none = (d, 0)
clear_entry d (some i) = (record d { nodes = update d.nodes i zero_node }, (d.nodes i).unlink)

pub devfs_remove : Devfs → List ℕ → Devfs × ℕ
devfs_remove d name = clear_entry d (find_name d.num_nodes d.nodes name 0)

pub devfs_unlink : Devfs → Bool → List ℕ → Devfs × ℕ
devfs_unlink d is_root name = if is_root then devfs_remove d name else (d, 0)

-- NULL, a pointer that nothing has set, or the entry with an index.
pub data FoundNode : Type 0 where
  no_directory not_set : FoundNode
  entry_at : ℕ → FoundNode

pub found_of : Option ℕ → FoundNode
found_of none = not_set
found_of (some i) = entry_at i

pub devfs_finddir : Devfs → Bool → List ℕ → FoundNode
devfs_finddir d is_root name =
    if is_root then found_of (find_name d.num_nodes d.nodes name 0) else no_directory

-- The name and the inode number of an entry.
pub devfs_readdir : Devfs → Bool → ℕ → Option (List ℕ × ℕ)
devfs_readdir d is_root index =
    if not is_root || leb d.num_nodes index
    then none
    else some ((d.nodes index).name, (d.nodes index).inode_num)

pub names_from : ℕ → (ℕ → DevNode) → ℕ → List (List ℕ)
names_from zero nodes i = []
names_from (suc left) nodes i = let rest = names_from left nodes (i + 1) in (nodes i).name ∷ rest

pub devfs_listdir : Devfs → Bool → Option (List (List ℕ))
devfs_listdir d is_root = if is_root then some (names_from d.num_nodes d.nodes 0) else none
