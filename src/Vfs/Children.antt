-- ===== src/Vfs/Children.antt =====
-- The children of a node in the tree of mount points, src/fs/vfs.c: one of them changes.
use mathlib.Core.Option
use sector_os_re.Base.{
  if◌then◌else◌, Option, sym, Option-cases, ap, false, inr, refl, inl, [], Bool-cases, some, arith,
  none, ◌∷◌, ◌≡◌, true, List, ℕ,
}
use sector_os_re.Vfs.Mounts.{
  with_child, change_child, leaves, child, Forest, find_child, entry, entry_name, Tree,
}
use mathlib.Core.Option.{Option}
use sector_os_re.CString.Split.{same_text}

same_text_refl : (s : List ℕ) → same_text s s ≡ true
unfolding same_text
same_text_refl [] = refl
same_text_refl (c ∷ s) = rw (same_text_refl s) (ground arith)

pub same_text-≡ : (s t : List ℕ) → same_text s t ≡ true → s ≡ t
unfolding same_text
same_text-≡ [] [] h = refl
same_text-≡ [] (d ∷ t) h = absurd (ground (arith, h))
same_text-≡ (c ∷ s) [] h = absurd (ground (arith, h))
same_text-≡ (c ∷ s) (d ∷ t) h =
    let head : c ≡ d = ground (arith, h) in
    let tail : same_text s t ≡ true = ground (arith, h) in rw (head, same_text-≡ s t tail) refl

-- No two children of a node have the same name, here and below.
unfoldable mutual
  pub IsDistinct : Tree → Type 0
  IsDistinct (entry name file cs) = AreDistinct cs

  pub AreDistinct : Forest → Type 0
  AreDistinct leaves = Unit
  AreDistinct (child c cs) = (find_child (entry_name c) cs ≡ none) × IsDistinct c × AreDistinct cs

-- The child that was found, or a new node.
abbrev pub or_fresh : List ℕ → Option Tree → Tree
or_fresh token none = entry token none leaves
or_fresh token (some t) = t

-- What is left of the children of another name.
abbrev IsKept : List ℕ → Option Forest → Forest → Type 0
IsKept token none cs = Unit
IsKept token (some cs') cs = find_child token cs' ≡ find_child token cs

find_child-front :
    (c : Tree) (cs : Forest) (token : List ℕ)
    → same_text (entry_name c) token ≡ false
    → find_child token (child c cs) ≡ find_child token cs
unfolding find_child
find_child-front c cs token differ = rw differ refl

find_child-first :
    (c : Tree) (cs : Forest) (token : List ℕ)
    → same_text (entry_name c) token ≡ true
    → find_child token (child c cs) ≡ some c
unfolding find_child
find_child-first c cs token same = rw same refl

module _ (f : Tree → Tree) (keeps : (t : Tree) → entry_name (f t) ≡ entry_name t)
    (token : List ℕ) where
  change_child-none : (cs : Forest) → find_child token cs ≡ none → change_child f token cs ≡ none
  unfolding find_child change_child
  change_child-none leaves h = refl
  change_child-none (child c cs) h = elim (Bool-cases (same_text (entry_name c) token)) [
    | inl same ↦ absurd (ground (arith, same, h))
    | inr other ↦ let below = change_child-none cs (rw other at h) in rw (below, other) refl
  ]

  pub change_child-some :
      (cs : Forest) (t : Tree)
      → AreDistinct cs
      → find_child token cs ≡ some t
      → (cs' : Forest) × (change_child f token cs ≡ some cs') × (find_child token cs' ≡ some (f t))
  unfolding find_child change_child AreDistinct
  change_child-some leaves t good h = absurd (ground (arith, h))
  change_child-some (child c cs) t (alone, _, good) h =
      elim (Bool-cases (same_text (entry_name c) token)) [
        | inl same ↦
            let name = same_text-≡ (entry_name c) token same in
            let none_left : find_child token cs ≡ none = rw name at alone in
            let below = change_child-none cs none_left in
            (
              child (f c) cs,
              rw (below, same) refl,
              rw (keeps c, same) (ap (λ o. Option.map f o) (rw same at h)),
            )
        | inr other ↦
            let (cs', changed, found) = change_child-some cs t good (rw other at h) in
            (child c cs', rw changed refl, rw other found)
      ]

  change_child-other :
      (cs : Forest) (token' : List ℕ)
      → same_text token token' ≡ false
      → IsKept token' (change_child f token cs) cs
  unfolding find_child change_child
  change_child-other leaves token' differ = tt
  change_child-other (child c cs) token' differ =
      let rest = change_child-other cs token' differ in
      elim (Option-cases (change_child f token cs)) [
        | inr (ds, below) ↦ let kept = rw below at rest in rw (below, kept) refl
        | inl below ↦ elim (Bool-cases (same_text (entry_name c) token)) [
          | inr other ↦ rw (below, other) tt
          | inl same ↦
              let name = same_text-≡ (entry_name c) token same in
              let differ' : same_text (entry_name c) token' ≡ false = rw name differ in
              rw (below, same, keeps c, differ') refl
        ]
      ]

  pub find_child-changed :
      (cs : Forest)
      → AreDistinct cs
      → find_child token (with_child f token cs) ≡ some (f (or_fresh token (find_child token cs)))
  find_child-changed cs good = elim (Option-cases (find_child token cs)) [
    | inl new ↦
        let name : same_text (entry_name (f (entry token none leaves))) token ≡ true =
          rw (keeps (entry token none leaves)) (same_text_refl token) in
        rw (change_child-none cs new, new)
          (find_child-first (f (entry token none leaves)) cs token name)
    | inr (t, there) ↦
        let (ds, changed, found) = change_child-some cs t good there in rw (changed, there) found
  ]

  -- Nothing but the child of the name is another one, and that is what `f` makes of it, or of a new
  -- node if there was none.
  pub find_child-with_child :
      (cs : Forest) (token' : List ℕ)
      → AreDistinct cs
      → find_child token' (with_child f token cs) ≡ (
          if same_text token token'
          then some (f (or_fresh token (find_child token cs)))
          else find_child token' cs)
  find_child-with_child cs token' good = elim (Bool-cases (same_text token token')) [
    | inl same ↦
        let e = same_text-≡ token token' same in rw (same, sym e) (find_child-changed cs good)
    | inr differ ↦
        let kept = change_child-other cs token' differ in
        elim (Option-cases (change_child f token cs)) [
          | inl new ↦
              let name : same_text (entry_name (f (entry token none leaves))) token' ≡ false =
                rw (keeps (entry token none leaves)) differ in
              rw (differ, new) (find_child-front (f (entry token none leaves)) cs token' name)
          | inr (ds, changed) ↦ rw (differ, changed) (rw changed at kept)
        ]
  ]
