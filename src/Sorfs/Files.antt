-- ===== src/Sorfs/Files.antt =====
-- Which file sorfs_finddir of src/fs/sorfs.c comes to, and what is read of it.
use mathlib.Core.Path.{ap, sym, subst}
use sector_os_re.Base.{
  ap, ◌∙◌, inr, sym, refl, inl, ◌==◌, zero, false, Bool-cases, ◌≡◌, none, suc, ◌<◌, arith, true,
  ◌≤◌, some, ◌+◌, Option, List, ℕ,
}
use sector_os_re.CString.Split.{same_text}
use sector_os_re.Sorfs.{
  sorfs_block_to_vfs_node, SorfsNode, used_blocks, List, ℕ, find_in, Sorfs, if_named, sorfs_finddir,
}

-- Block `i` is in use, and named so.
abbrev pub IsNamed : Sorfs → List ℕ → ℕ → SorfsNode → Type 0
IsNamed fs name i f = (sorfs_block_to_vfs_node fs i ≡ some f) × (same_text f.name name ≡ true)

-- No block in use from `i` up to `end` has the name.
abbrev pub NoneNamed : Sorfs → List ℕ → ℕ → ℕ → Type 0
NoneNamed fs name i end =
    (j : ℕ) (f : SorfsNode)
    → i ≤ j
    → j < end
    → sorfs_block_to_vfs_node fs j ≡ some f
    → same_text f.name name ≡ false

-- What a search through the blocks from `i` up to `end` comes to.
abbrev pub Search : Sorfs → List ℕ → ℕ → ℕ → Option SorfsNode → Type 0
Search fs name i end none = NoneNamed fs name i end
Search fs name i end (some f) =
    (k : ℕ) × (i ≤ k) × (k < end) × IsNamed fs name k f × NoneNamed fs name i k

none_first :
    (fs : Sorfs) (name : List ℕ) (i end : ℕ) (here : Option SorfsNode)
    → sorfs_block_to_vfs_node fs i ≡ here
    → ((f : SorfsNode) → here ≡ some f → same_text f.name name ≡ false)
    → NoneNamed fs name (i + 1) end
    → NoneNamed fs name i end
none_first fs name i end here at other later j f le lt found = elim (Bool-cases (j == i)) [
  | inl first ↦
      let e : j ≡ i = ground arith in
      other f (sym at ∙ ap (sorfs_block_to_vfs_node fs) (sym e) ∙ found)
  | inr behind ↦ later j f (ground arith) lt found
]

Search-behind :
    (fs : Sorfs) (name : List ℕ) (i end : ℕ) (here result : Option SorfsNode)
    → sorfs_block_to_vfs_node fs i ≡ here
    → ((f : SorfsNode) → here ≡ some f → same_text f.name name ≡ false)
    → Search fs name (i + 1) end result
    → Search fs name i end result
Search-behind fs name i end here none at other later = none_first fs name i end here at other later
Search-behind fs name i end here (some f) at other (k, le, lt, named, before) =
    (k, omega (arith, le), lt, named, none_first fs name i k here at other before)

if_named-Search :
    (fs : Sorfs) (name : List ℕ) (i end : ℕ) (here rest : Option SorfsNode)
    → i < end
    → sorfs_block_to_vfs_node fs i ≡ here
    → Search fs name (i + 1) end rest
    → Search fs name i end (if_named name here rest)
unfolding if_named
if_named-Search fs name i end none rest lt at later =
    Search-behind fs name i end none rest at (λ f e. cc) later
if_named-Search fs name i end (some f) rest lt at later =
    elim (Bool-cases (same_text f.name name)) [
      | inl named ↦
          rw named
            (i, omega arith, lt, (at, named), λ j g le below. absurd (omega (arith, le, below)))
      | inr other ↦ rw other (
          Search-behind fs name i end (some f) rest at
            (λ g e. let same : f ≡ g = ground (arith, e) in rw (← same) other) later)
    ]

find_in-Search :
    (left : ℕ) (fs : Sorfs) (name : List ℕ) (i : ℕ)
    → Search fs name i (i + left) (find_in left fs name i)
unfolding find_in
find_in-Search zero fs name i = λ j f le lt. absurd (omega (arith, le, lt))
find_in-Search (suc left) fs name i =
    let next : i + 1 + left ≡ i + suc left = omega arith in
    let later =
      subst (λ end. Search fs name (i + 1) end (find_in left fs name (i + 1))) next
        (find_in-Search left fs name (i + 1)) in
    if_named-Search fs name i (i + suc left) (sorfs_block_to_vfs_node fs i)
      (find_in left fs name (i + 1)) (omega arith) refl later

-- In the root, sorfs_finddir answers the node of the first block in use that has the name, among as
-- many blocks as are not free by the superblock; there is no answer if none of these has the name.
pub sorfs_finddir-Search :
    (fs : Sorfs) (name : List ℕ) → Search fs name 0 (used_blocks fs) (sorfs_finddir fs true name)
unfolding sorfs_finddir
sorfs_finddir-Search fs name =
    let whole : 0 + used_blocks fs ≡ used_blocks fs = omega arith in
    subst (λ end. Search fs name 0 end (find_in (used_blocks fs) fs name 0)) whole
      (find_in-Search (used_blocks fs) fs name 0)
