-- ===== src/Devfs/Table.antt =====
-- What devfs_finddir and devfs_add of src/fs/devfs.c make of a device that came and went.
use sector_os_re.Base.{
  ltb, length, inr, ap, update_self, leb, inl, Bool-cases, ◌∙◌, some, zero, update_ne, refl, arith,
  if◌then◌else◌, ◌==◌, false, suc, fun_ext, ◌≤◌, ◌<◌, ◌∷◌, update, ◌+◌, true, none, ◌≡◌, [], ℕ,
  List,
}
use sector_os_re.CString.Split.{same_text}
use sector_os_re.Devfs.{
  zero_node, not_set, entry_at, mountpoint_of, devfs_add, is_added, found_of, max_devices,
  clear_entry, devfs_remove, NodePointer, DevNode, find_name, Devfs, devfs_finddir,
}

-- A change behind the entries that are looked at.
find_name-beyond :
    (left : ℕ) (nodes : ℕ → DevNode) (name : List ℕ) (i at : ℕ) (n : DevNode)
    → i + left ≤ at
    → find_name left (update nodes at n) name i ≡ find_name left nodes name i
unfolding find_name
find_name-beyond zero nodes name i at n le = refl
find_name-beyond (suc left) nodes name i at n le =
    let kept = update_ne nodes at n i (omega (arith, le)) in
    let later = find_name-beyond left nodes name (i + 1) at n (omega (arith, le)) in
    rw (kept, later) refl

-- A name that no entry has is found at the entry behind them, if that one has it.
find_name-last :
    (left : ℕ) (nodes : ℕ → DevNode) (name : List ℕ) (i : ℕ)
    → find_name left nodes name i ≡ none
    → find_name (suc left) nodes name i
      ≡ (if same_text (nodes (i + left)).name name then some (i + left) else none)
unfolding find_name
find_name-last zero nodes name i missed = let here : i + 0 ≡ i = omega arith in rw here refl
find_name-last (suc left) nodes name i missed = elim (Bool-cases (same_text (nodes i).name name)) [
  | inl here ↦ let found : some i ≡ none = rw here at missed in cc
  | inr other ↦
      let later = find_name-last left nodes name (i + 1) (rw other at missed) in
      let next : i + 1 + left ≡ i + suc left = omega arith in
      rw other (later ∙ ap (λ k. if same_text (nodes k).name name then some k else none) next)
]

same_text_refl : (s : List ℕ) → same_text s s ≡ true
unfolding same_text
same_text_refl [] = refl
same_text_refl (c ∷ s) =
    let same : (c == c) ≡ true = ground arith in rw (same, same_text_refl s) refl

module _ (d : Devfs) (p : NodePointer) (room : d.num_nodes < max_devices)
    (outside : is_added d p.slot ≡ false) (short : length p.node.name ≤ 122)
    (new : find_name d.num_nodes d.nodes p.node.name 0 ≡ none) where
  add_result :
      devfs_add d (some p)
      ≡ some (
        record { nodes = update d.nodes d.num_nodes p.node; num_nodes = d.num_nodes + 1 },
        some (mountpoint_of p.node.name),
      )
  unfolding devfs_add mountpoint_of
  add_result =
      let free : leb max_devices d.num_nodes ≡ false = ground (arith, room) in
      let fits : ltb 128 (length (mountpoint_of p.node.name) + 1) ≡ false = ground (arith, short) in
      rw (free, outside, fits) refl

  -- After an entry has been put behind the others, the first one with its name is that entry.
  find_added :
      (n : DevNode)
      → find_name (d.num_nodes + 1) (update d.nodes d.num_nodes n) p.node.name 0
        ≡ (if same_text n.name p.node.name then some d.num_nodes else none)
  find_added n =
      let nodes = update d.nodes d.num_nodes n in
      let missed =
        find_name-beyond d.num_nodes d.nodes p.node.name 0 d.num_nodes n (omega arith) ∙ new in
      let next : d.num_nodes + 1 ≡ suc d.num_nodes = omega arith in
      let start : 0 + d.num_nodes ≡ d.num_nodes = omega arith in
      let at = update_self d.nodes d.num_nodes n in
      ap (λ left. find_name left nodes p.node.name 0) next
      ∙ find_name-last d.num_nodes nodes p.node.name 0 missed
      ∙ ap (λ k. if same_text (nodes k).name p.node.name then some k else none) start
      ∙ ap (λ (m : DevNode). if same_text m.name p.node.name then some d.num_nodes else none) at

no_name : (c : ℕ) (rest : List ℕ) → same_text [] (c ∷ rest) ≡ false
unfolding same_text
no_name c rest = refl

update_again :
    (nodes : ℕ → DevNode) (k : ℕ) (a b : DevNode) → update (update nodes k a) k b ≡ update nodes k b
update_again nodes k a b = fun_ext λ i. ground arith

-- A device that is added while there is room, under a name of at most 122 characters that no entry has,
-- is found by its name as the last entry, and VFS_mountDev gets the path "/dev/" with the name. Once it is removed it is not found, but its entry stays
-- counted, so that the room is not given back.
pub devfs_finddir-devfs_add :
    (d : Devfs) (p : NodePointer) (c : ℕ) (rest : List ℕ)
    → d.num_nodes < max_devices
    → is_added d p.slot ≡ false
    → p.node.name ≡ c ∷ rest
    → length p.node.name ≤ 122
    → find_name d.num_nodes d.nodes p.node.name 0 ≡ none
    → (added : Devfs) × (devfs_add d (some p) ≡ some (added, some (mountpoint_of p.node.name)))
      × (let removed = (devfs_remove added p.node.name).0 in
          (devfs_finddir added true p.node.name ≡ entry_at d.num_nodes)
          × (added.nodes d.num_nodes ≡ p.node)
          × (devfs_finddir removed true p.node.name ≡ not_set)
          × (removed.num_nodes ≡ d.num_nodes + 1))
unfolding devfs_finddir devfs_remove clear_entry found_of
devfs_finddir-devfs_add d p c rest room outside named short new =
    let added : Devfs = record {
      nodes = update d.nodes d.num_nodes p.node;
      num_nodes = d.num_nodes + 1;
    } in
    let result = add_result d p room outside short new in
    let own = same_text_refl p.node.name in
    let found : find_name added.num_nodes added.nodes p.node.name 0 ≡ some d.num_nodes =
      find_added d p room outside short new p.node ∙ rw own refl in
    let nameless : same_text [] p.node.name ≡ false = rw named (no_name c rest) in
    let gone : find_name added.num_nodes (update added.nodes d.num_nodes zero_node) p.node.name 0
        ≡ none =
      ap (λ nodes. find_name added.num_nodes nodes p.node.name 0)
        (update_again d.nodes d.num_nodes p.node zero_node)
      ∙ find_added d p room outside short new zero_node
      ∙ rw nameless refl in
    (added, result, rw (found, gone) (refl, update_self d.nodes d.num_nodes p.node, refl, refl))
