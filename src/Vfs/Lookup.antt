-- ===== src/Vfs/Lookup.antt =====
-- VFS_mount, VFS_unmount and get_mountpoint of src/fs/vfs.c.
use sector_os_re.Base.{
  sym, ◌&&◌, false, Bool-cases, true, if◌then◌else◌, Bool, ap, inr, ◌∙◌, inl, Option-cases, refl,
  ◌>>=◌, none, ◌≡◌, [], some, ◌∷◌, Option, List, ℕ,
}
use sector_os_re.Vfs.Mounts.{
  last_is, vfs_unmount, vfs_mount, get_mountpoint, mount_here, leaves, Forest, entry_name,
  find_child, vfs_unmount_recur, vfs_mount_recur, get_mountpoint_recur, entry, Tree,
}
use sector_os_re.Vfs.Children.{
  same_text-≡, find_child-with_child, find_child-changed, AreDistinct, or_fresh, IsDistinct,
}
use sector_os_re.Vfs.Distinct.{find_child-IsDistinct, with_child-AreDistinct}
use sector_os_re.CString.Split.{same_text, tokens_of}

-- What is mounted at a path, exactly.
unfoldable pub file_there : List (List ℕ) → Tree → Option ℕ
file_there [] (entry name file cs) = file
file_there ([] ∷ path) (entry name file cs) = file
file_there ((c ∷ token) ∷ path) (entry name file cs) =
    find_child (c ∷ token) cs >>= λ t. file_there path t

-- The tokens behind the first that is empty.
unfoldable pub behind : List (List ℕ) → List (List ℕ)
behind [] = []
behind ([] ∷ path) = path
behind ((c ∷ token) ∷ path) = behind path

mount-name :
    (path : List (List ℕ)) (fs_obj : ℕ) (t : Tree)
    → entry_name (vfs_mount_recur path fs_obj t) ≡ entry_name t
unfolding vfs_mount_recur
mount-name [] fs_obj (entry name file cs) = refl
mount-name ([] ∷ path) fs_obj (entry name file cs) = refl
mount-name ((c ∷ token) ∷ path) fs_obj (entry name file cs) = refl

unmount-name :
    (path : List (List ℕ)) (t : Tree) → entry_name (vfs_unmount_recur path t) ≡ entry_name t
unfolding vfs_unmount_recur
unmount-name [] (entry name file cs) = refl
unmount-name ([] ∷ path) (entry name file cs) = refl
unmount-name ((c ∷ token) ∷ path) (entry name file cs) = refl

or_fresh-IsDistinct :
    (token : List ℕ) (cs : Forest)
    → AreDistinct cs
    → IsDistinct (or_fresh token (find_child token cs))
unfolding IsDistinct AreDistinct
or_fresh-IsDistinct token cs good = elim (Option-cases (find_child token cs)) [
  | inl new ↦ rw new tt
  | inr (t, there) ↦ rw there (find_child-IsDistinct token cs t good there)
]

-- VFS_mount and VFS_unmount keep the names of the children of each node different.
pub vfs_mount_recur-IsDistinct :
    (path : List (List ℕ)) (fs_obj : ℕ) (t : Tree)
    → IsDistinct t
    → IsDistinct (vfs_mount_recur path fs_obj t) × IsDistinct (vfs_unmount_recur path t)
unfolding vfs_mount_recur vfs_unmount_recur IsDistinct
vfs_mount_recur-IsDistinct [] fs_obj (entry name file cs) good = (good, good)
vfs_mount_recur-IsDistinct ([] ∷ path) fs_obj (entry name file cs) good = (good, good)
vfs_mount_recur-IsDistinct ((c ∷ token) ∷ path) fs_obj (entry name file cs) good = (
  with_child-AreDistinct (λ t. vfs_mount_recur path fs_obj t) (mount-name path fs_obj)
      (λ t fine. (vfs_mount_recur-IsDistinct path fs_obj t fine).0) (c ∷ token) cs good,
  with_child-AreDistinct (λ t. vfs_unmount_recur path t) (unmount-name path)
      (λ t fine. (vfs_mount_recur-IsDistinct path fs_obj t fine).1) (c ∷ token) cs good,
)

fresh-nothing :
    (path : List (List ℕ)) (token : List ℕ) → file_there path (entry token none leaves) ≡ none
unfolding file_there find_child
fresh-nothing [] token = refl
fresh-nothing ([] ∷ path) token = refl
fresh-nothing ((c ∷ name) ∷ path) token = refl

or_fresh-file :
    (path : List (List ℕ)) (token : List ℕ) (o : Option Tree)
    → file_there path (or_fresh token o) ≡ (o >>= λ t. file_there path t)
or_fresh-file path token none = fresh-nothing path token
or_fresh-file path token (some t) = refl

get_mountpoint_recur-mounts :
    (path : List (List ℕ)) (fs_obj : ℕ) (t : Tree)
    → IsDistinct t
    → (get_mountpoint_recur path (vfs_mount_recur path fs_obj t)
        ≡ (mount_here fs_obj (file_there path t), behind path))
      × (get_mountpoint_recur path (vfs_unmount_recur path t) ≡ (none, behind path))
unfolding get_mountpoint_recur vfs_mount_recur vfs_unmount_recur file_there behind IsDistinct
get_mountpoint_recur-mounts [] fs_obj (entry name file cs) good = (refl, refl)
get_mountpoint_recur-mounts ([] ∷ path) fs_obj (entry name file cs) good = (refl, refl)
get_mountpoint_recur-mounts ((c ∷ token) ∷ path) fs_obj (entry name file cs) good =
    let below = or_fresh (c ∷ token) (find_child (c ∷ token) cs) in
    let fine = or_fresh-IsDistinct (c ∷ token) cs good in
    let (mounted, unmounted) = get_mountpoint_recur-mounts path fs_obj below fine in
    let here =
      find_child-changed (λ t. vfs_mount_recur path fs_obj t) (mount-name path fs_obj) (c ∷ token)
        cs good in
    let gone =
      find_child-changed (λ t. vfs_unmount_recur path t) (unmount-name path) (c ∷ token) cs good in
    (
      rw (get_mountpoint_recur, here)
          (mounted
            ∙ ap (λ o. (mount_here fs_obj o, behind path))
                (or_fresh-file path (c ∷ token) (find_child (c ∷ token) cs))),
      rw (get_mountpoint_recur, gone) unmounted,
    )

-- Where the children of each node have different names, what VFS_mount mounts at a path that begins
-- with "/", and ends with it only if it is "/" alone, is found at it by get_mountpoint, with no token left but those behind an empty one: the new file, or the one
-- that was there before, which is kept. After VFS_unmount none is found.
pub get_mountpoint-vfs_mount :
    (path : List ℕ) (fs_obj : ℕ) (t : Tree)
    → last_is b'/' path ≡ false
    → IsDistinct t
    → let tokens = tokens_of b'/' [] path in
      (get_mountpoint (b'/' ∷ path) (vfs_mount (b'/' ∷ path) fs_obj t)
        ≡ some (mount_here fs_obj (file_there tokens t), behind tokens))
      × (get_mountpoint (b'/' ∷ path) (vfs_unmount (b'/' ∷ path) t) ≡ some (none, behind tokens))
unfolding get_mountpoint vfs_mount vfs_unmount
get_mountpoint-vfs_mount path fs_obj t inner good =
    let (mounted, unmounted) = get_mountpoint_recur-mounts (tokens_of b'/' [] path) fs_obj t good in
    (rw inner (ap some mounted), rw inner (ap some unmounted))

-- Whether two sequences of tokens lead to the same node.
unfoldable pub same_place : List (List ℕ) → List (List ℕ) → Bool
same_place [] [] = true
same_place [] ([] ∷ path') = true
same_place [] ((d ∷ token') ∷ path') = false
same_place ([] ∷ path) [] = true
same_place ([] ∷ path) ([] ∷ path') = true
same_place ([] ∷ path) ((d ∷ token') ∷ path') = false
same_place ((c ∷ token) ∷ path) [] = false
same_place ((c ∷ token) ∷ path) ([] ∷ path') = false
same_place ((c ∷ token) ∷ path) ((d ∷ token') ∷ path') =
    let rest = same_place path path' in same_text (c ∷ token) (d ∷ token') && rest

-- VFS_mount changes what is mounted at its own path alone, and there only if nothing was, where the
-- children of each node have different names.
pub file_there-vfs_mount_recur :
    (path path' : List (List ℕ)) (fs_obj : ℕ) (t : Tree)
    → IsDistinct t
    → file_there path' (vfs_mount_recur path fs_obj t) ≡ (
        if same_place path path' then mount_here fs_obj (file_there path t) else file_there path' t)
unfolding file_there vfs_mount_recur same_place IsDistinct
file_there-vfs_mount_recur [] [] fs_obj (entry name file cs) good = refl
file_there-vfs_mount_recur [] ([] ∷ path') fs_obj (entry name file cs) good = refl
file_there-vfs_mount_recur [] ((d ∷ token') ∷ path') fs_obj (entry name file cs) good = refl
file_there-vfs_mount_recur ([] ∷ path) [] fs_obj (entry name file cs) good = refl
file_there-vfs_mount_recur ([] ∷ path) ([] ∷ path') fs_obj (entry name file cs) good = refl
file_there-vfs_mount_recur ([] ∷ path) ((d ∷ token') ∷ path') fs_obj (entry name file cs) good =
    refl
file_there-vfs_mount_recur ((c ∷ token) ∷ path) [] fs_obj (entry name file cs) good = refl
file_there-vfs_mount_recur ((c ∷ token) ∷ path) ([] ∷ path') fs_obj (entry name file cs) good = refl
file_there-vfs_mount_recur ((c ∷ token) ∷ path) ((d ∷ token') ∷ path') fs_obj (entry name file cs)
      good =
    let own = c ∷ token in
    let other = d ∷ token' in
    let below = or_fresh own (find_child own cs) in
    let rest =
      file_there-vfs_mount_recur path path' fs_obj below (or_fresh-IsDistinct own cs good) in
    let found =
      find_child-with_child (λ t. vfs_mount_recur path fs_obj t) (mount-name path fs_obj) own cs
        other good in
    elim (Bool-cases (same_text own other)) [
      | inr differ ↦ rw (found, differ) refl
      | inl same ↦
          let e = same_text-≡ own other same in
          let own_file = or_fresh-file path own (find_child own cs) in
          let other_file = or_fresh-file path' own (find_child own cs) in
          rw (found, same, sym e) (rw (own_file, other_file) at rest)
    ]
