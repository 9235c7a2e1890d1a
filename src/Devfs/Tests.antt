-- ===== src/Devfs/Tests.antt =====
-- src/fs/devfs.c with the device "null", and a second device "rd0".
use sector_os_re.Base.{arith, [], false, ◌∷◌, refl, update, none, ◌≡◌, true, some, ℕ, List}
use mathlib.Core.Option
use sector_os_re.CString.Split.{same_text}
use sector_os_re.Devfs.{
  entry_at, not_set, devfs_finddir, clear_entry, zero_node, names_from, devfs_remove, same_text,
  is_added, NodePointer, devfs_unlink, mountpoint_of, find_name, devfs_listdir, found_of, Devfs,
  init_devfs, devfs_readdir, devfs_add,
}
use sector_os_re.Devfs.Table.{devfs_finddir-devfs_add}

abbrev null_name : List ℕ
null_name = b'n' ∷ b'u' ∷ b'l' ∷ b'l' ∷ []

abbrev rd0_name : List ℕ
rd0_name = b'r' ∷ b'd' ∷ b'0' ∷ []

abbrev with_null : Devfs
with_null = record {
  nodes = update (λ _. zero_node) 0 (record { name = null_name; inode_num = 0; unlink = 0 });
  num_nodes = 1;
}

abbrev rd0 : NodePointer
rd0 = record { node = record { name = rd0_name; inode_num = 3; unlink = 7 }; slot = none }

rd0_new : find_name 1 with_null.nodes rd0_name 0 ≡ none
unfolding find_name same_text
rd0_new = refl

unheld : is_added with_null rd0.slot ≡ false
unfolding is_added mountpoint_of
unheld = refl

devfs_finddir-devfs_add_example :
    (added : Devfs) × (devfs_add with_null (some rd0) ≡ some (added, some (mountpoint_of rd0_name)))
    × (let removed = (devfs_remove added rd0_name).0 in
        (devfs_finddir added true rd0_name ≡ entry_at 1)
        × (added.nodes 1 ≡ rd0.node)
        × (devfs_finddir removed true rd0_name ≡ not_set)
        × (removed.num_nodes ≡ 2))
devfs_finddir-devfs_add_example =
    devfs_finddir-devfs_add with_null rd0 b'r' (b'd' ∷ b'0' ∷ []) (omega arith) unheld refl
      (omega arith) rd0_new

-- The callback of a removed device is called, and its name is gone from the list.
unlinked :
    Option.map (λ added. (devfs_unlink added.0 true rd0_name).1) (devfs_add with_null (some rd0))
    ≡ some 7
unfolding devfs_unlink devfs_remove devfs_add clear_entry find_name same_text is_added mountpoint_of
unlinked = refl

names_left :
    Option.map
      (λ added. devfs_listdir (devfs_remove added.0 rd0_name).0 true)
      (devfs_add with_null (some rd0))
    ≡ some (some (null_name ∷ [] ∷ []))
unfolding devfs_listdir names_from devfs_remove devfs_add clear_entry find_name same_text is_added
    mountpoint_of
names_left = refl

first_entry : devfs_readdir with_null true 0 ≡ some (null_name, 0)
unfolding devfs_readdir
first_entry = refl

emptied : (init_devfs with_null).nodes 0 ≡ zero_node
unfolding init_devfs
emptied = refl

mounted_at : mountpoint_of rd0_name ≡ b'/' ∷ b'd' ∷ b'e' ∷ b'v' ∷ b'/' ∷ rd0_name
unfolding mountpoint_of
mounted_at = refl

nothing_set : found_of none ≡ not_set
unfolding found_of
nothing_set = refl
