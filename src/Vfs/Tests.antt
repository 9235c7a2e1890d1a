-- ===== src/Vfs/Tests.antt =====
-- src/fs/vfs.c on a small tree of mount points.
use sector_os_re.Base.{false, refl, some, none, ◌≡◌, [], ◌∷◌, List, ℕ}
use sector_os_re.Vfs.Children.{AreDistinct, IsDistinct}
use sector_os_re.Vfs.Lookup.{get_mountpoint-vfs_mount, behind, file_there}
use sector_os_re.Vfs.Mounts.{
  last_is, find_child, vfs_unmount, change_child, leaves, mount_here, get_mountpoint_recur,
  vfs_mount_recur, entry, vfs_mount, Tree, get_mountpoint,
}
use sector_os_re.CString.Split.{same_text, tokens_of}

-- The root without children, as init_vfs makes it.
abbrev new_tree : Tree
new_tree = entry (b'r' ∷ b'o' ∷ b'o' ∷ b't' ∷ []) none leaves

-- "/d/a"
abbrev path_a : List ℕ
path_a = b'/' ∷ b'd' ∷ b'/' ∷ b'a' ∷ []

new_tree-IsDistinct : IsDistinct new_tree
unfolding IsDistinct AreDistinct
new_tree-IsDistinct = tt

inner_path : last_is b'/' (b'd' ∷ b'/' ∷ b'a' ∷ []) ≡ false
unfolding last_is
inner_path = refl

get_mountpoint-vfs_mount_example :
    (get_mountpoint path_a (vfs_mount path_a 7 new_tree)
      ≡ some (
        mount_here 7 (file_there (tokens_of b'/' [] (b'd' ∷ b'/' ∷ b'a' ∷ [])) new_tree),
        behind (tokens_of b'/' [] (b'd' ∷ b'/' ∷ b'a' ∷ [])),
      ))
    × (get_mountpoint path_a (vfs_unmount path_a new_tree)
        ≡ some (none, behind (tokens_of b'/' [] (b'd' ∷ b'/' ∷ b'a' ∷ []))))
get_mountpoint-vfs_mount_example =
    get_mountpoint-vfs_mount (b'd' ∷ b'/' ∷ b'a' ∷ []) 7 new_tree inner_path new_tree-IsDistinct

mounted_here : get_mountpoint path_a (vfs_mount path_a 7 new_tree) ≡ some (some 7, [])
unfolding get_mountpoint last_is vfs_mount tokens_of vfs_mount_recur get_mountpoint_recur
    change_child find_child same_text
mounted_here = refl
