-- ===== src/Vfs/Distinct.antt =====
-- The names of the children of a node in src/fs/vfs.c stay different.
use mathlib.Core.Option.{some-injective}
use mathlib.Core.Path.{subst}
use sector_os_re.Base.{inl, inr, Option-cases, Bool-cases, arith, none, ◌≡◌, some, Option, List, ℕ}
use sector_os_re.Vfs.Mounts.{
  leaves, entry, child, with_child, change_child, entry_name, find_child, Forest, Tree,
}
use sector_os_re.Vfs.Children.{change_child-some, IsDistinct, AreDistinct}
use sector_os_re.CString.Split.{same_text}

abbrev IsFine : Forest → Option Forest → Type 0
IsFine cs none = Unit
IsFine cs (some cs') =
    AreDistinct cs' × ((token : List ℕ) → find_child token cs ≡ none → find_child token cs' ≡ none)

pub find_child-IsDistinct :
    (token : List ℕ) (cs : Forest) (t : Tree)
    → AreDistinct cs
    → find_child token cs ≡ some t
    → IsDistinct t
unfolding find_child AreDistinct
find_child-IsDistinct token leaves t good h = absurd (ground (arith, h))
find_child-IsDistinct token (child c cs) t (alone, fine, good) h =
    elim (Bool-cases (same_text (entry_name c) token)) [
      | inl same ↦ subst IsDistinct (some-injective c t (rw same at h)) fine
      | inr other ↦ find_child-IsDistinct token cs t good (rw other at h)
    ]

module _ (f : Tree → Tree) (keeps : (t : Tree) → entry_name (f t) ≡ entry_name t)
    (fine : (t : Tree) → IsDistinct t → IsDistinct (f t)) (token : List ℕ) where
  change_child-IsFine : (cs : Forest) → AreDistinct cs → IsFine cs (change_child f token cs)
  unfolding find_child change_child AreDistinct
  change_child-IsFine leaves good = tt
  change_child-IsFine (child c cs) (alone, fine_c, good) =
      let rest = change_child-IsFine cs good in
      elim (Option-cases (change_child f token cs)) [
        | inr (ds, below) ↦
            let (good', gone) = rw below at rest in
            rw below (
              (gone (entry_name c) alone, fine_c, good'),
              λ other h. elim (Bool-cases (same_text (entry_name c) other)) [
                | inl same ↦ absurd (ground (arith, same, h))
                | inr differ ↦ rw differ (gone other (rw differ at h))
              ],
            )
        | inl below ↦ elim (Bool-cases (same_text (entry_name c) token)) [
          | inr differ ↦ rw (below, differ) tt
          | inl same ↦
              rw (below, same)
                (
                  (rw (keeps c) alone, fine c fine_c, good),
                  λ other h. elim (Bool-cases (same_text (entry_name c) other)) [
                    | inl hit ↦ absurd (ground (arith, hit, h))
                    | inr differ ↦ rw (keeps c, differ) (rw differ at h)
                  ],
                )
        ]
      ]

  pub with_child-AreDistinct : (cs : Forest) → AreDistinct cs → AreDistinct (with_child f token cs)
  unfolding AreDistinct IsDistinct
  with_child-AreDistinct cs good =
      let changed = change_child-IsFine cs good in
      let new = entry token none leaves in
      elim (Option-cases (change_child f token cs)) [
        | inr (ds, made) ↦ let (good', _) = rw made at changed in rw made good'
        | inl unmade ↦ elim (Option-cases (find_child token cs)) [
          | inl gone ↦ rw unmade (rw (keeps new) gone, fine new tt, good)
          | inr (t, there) ↦
              let (ds, made, _) = change_child-some f keeps token cs t good there in
              absurd (ground (arith, unmade, made))
        ]
      ]
