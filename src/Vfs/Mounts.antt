-- ===== src/Vfs/Mounts.antt =====
-- The tree of mount points in src/fs/vfs.c, kept as a value: the nodes of src/common/structures/
-- gentree.c with the entries that they lead to. A name or a path is a text, without the 0 behind it;
-- a path is the tokens that strsep takes from it, up to the first that is empty, as no entry is
-- named "/". Of a file only its
-- address is kept, and vfs_root is not.
use sector_os_re.Base.{false, Bool, ◌==◌, [], if◌then◌else◌, some, Option, none, ◌∷◌, List, ℕ}
use sector_os_re.CString.Split.{same_text, tokens_of}

mutual
  pub data Tree : Type 0 where
    entry : List ℕ → Option ℕ → Forest → Tree

  pub data Forest : Type 0 where
    leaves : Forest
    child : Tree → Forest → Forest

abbrev pub entry_name : Tree → List ℕ
entry_name (entry name file children) = name

-- `foreach` with a break at the first child of the name
unfoldable pub find_child : List ℕ → Forest → Option Tree
find_child token leaves = none
find_child token (child c cs) =
    let rest = find_child token cs in if same_text (entry_name c) token then some c else rest

-- `foreach` without: the last child of the name is the one that changes.
unfoldable pub change_child : (Tree → Tree) → List ℕ → Forest → Option Forest
change_child f token leaves = none
change_child f token (child c cs) =
    let here = if same_text (entry_name c) token then some (child (f c) cs) else none in
    elim (change_child f token cs) [ none ↦ here | some cs' ↦ some (child c cs') ]

-- A node without files is put in front where no child has the name.
abbrev pub or_front : Tree → Forest → Option Forest → Forest
or_front t cs none = child t cs
or_front t cs (some cs') = cs'

abbrev pub with_child : (Tree → Tree) → List ℕ → Forest → Forest
with_child f token cs = or_front (f (entry token none leaves)) cs (change_child f token cs)

abbrev pub mount_here : ℕ → Option ℕ → Option ℕ
mount_here fs_obj none = some fs_obj
mount_here fs_obj (some file) = some file

unfoldable pub vfs_mount_recur : List (List ℕ) → ℕ → Tree → Tree
vfs_mount_recur [] fs_obj (entry name file cs) = entry name (mount_here fs_obj file) cs
vfs_mount_recur ([] ∷ path) fs_obj (entry name file cs) = entry name (mount_here fs_obj file) cs
vfs_mount_recur ((c ∷ token) ∷ path) fs_obj (entry name file cs) =
    entry name file (with_child (λ t. vfs_mount_recur path fs_obj t) (c ∷ token) cs)

unfoldable pub vfs_unmount_recur : List (List ℕ) → Tree → Tree
vfs_unmount_recur [] (entry name file cs) = entry name none cs
vfs_unmount_recur ([] ∷ path) (entry name file cs) = entry name none cs
vfs_unmount_recur ((c ∷ token) ∷ path) (entry name file cs) =
    entry name file (with_child (λ t. vfs_unmount_recur path t) (c ∷ token) cs)

-- The file, and the tokens from the one on that has no node.
unfoldable pub get_mountpoint_recur : List (List ℕ) → Tree → Option ℕ × List (List ℕ)
get_mountpoint_recur [] (entry name file cs) = (file, [])
get_mountpoint_recur ([] ∷ path) (entry name file cs) = (file, path)
get_mountpoint_recur ((c ∷ token) ∷ path) (entry name file cs) = elim (find_child (c ∷ token) cs) [
  | none ↦ (file, (c ∷ token) ∷ path)
  | some t ↦ get_mountpoint_recur path t
]

-- VFS_mount and VFS_unmount on a path that begins with "/". An empty path, which they read beyond, is
-- left alone.
unfoldable pub vfs_mount : List ℕ → ℕ → Tree → Tree
vfs_mount [] fs_obj t = t
vfs_mount (c ∷ path) fs_obj t = vfs_mount_recur (tokens_of b'/' [] path) fs_obj t

unfoldable pub vfs_unmount : List ℕ → Tree → Tree
vfs_unmount [] t = t
vfs_unmount (c ∷ path) t = vfs_unmount_recur (tokens_of b'/' [] path) t

-- Whether the last character of a text is this one.
unfoldable pub last_is : ℕ → List ℕ → Bool
last_is delim [] = false
last_is delim (c ∷ []) = c == delim
last_is delim (c ∷ d ∷ path) = last_is delim (d ∷ path)

-- `none` is the write through `*(path)[strlen(*path) - 1]`, which is not a character of the path but
-- what a pointer far behind `path` leads to.
unfoldable pub get_mountpoint : List ℕ → Tree → Option (Option ℕ × List (List ℕ))
get_mountpoint [] t = some (none, [])
get_mountpoint (c ∷ path) t =
    let found = get_mountpoint_recur (tokens_of b'/' [] path) t in
    if last_is b'/' path then none else if c == b'/' then some found else some (none, [])
