-- ===== src/Ext2/Walk.antt =====
-- The entries that the loops of EXT2_listdir and EXT2_finddir in src/fs/ext2.c come to, as a sequence,
-- and the loops as what they make of it.
use mathlib.Core.Option
use mathlib.Core.List.{append-nil}
use sector_os_re.Base.{
  arith, ◌≢◌, sym, Option-cases, ap, inl, inr, Bool-cases, ◌++◌, ltb, [], ◌∷◌, if◌then◌else◌, ◌==◌,
  refl, ◌>>=◌, zero, suc, none, ◌≡◌, some, Option, List, Memory, ℕ,
}
use sector_os_re.Ext2.{inode_bytes, Ext2Fs}
use sector_os_re.Ext2.Dir.{
  dirent_name, is_named, dirent_inode, move_on, rec_len, name_len, turn_page, expected_size,
  expected_size_finddir, Cursor, listdir_from, finddir_from,
}
use mathlib.Core.Option.{some, none, Option}
use sector_os_re.CString.{strcmp}

-- A loop stops behind an entry whose length is not the one that `size_of` gives for its name.
unfoldable pub walk : (ℕ → ℕ) → ℕ → Ext2Fs → Memory → Cursor → Option (List (Memory × ℕ))
walk size_of zero fs p_inode c = none
walk size_of (suc fuel) fs p_inode c =
    let look = (do
      d ← turn_page fs p_inode c
      let at = d.in_block_offset
      let matches = size_of (name_len d.block_buf at) == rec_len d.block_buf at
      let rest = walk size_of fuel fs p_inode (move_on d (rec_len d.block_buf at))
      if matches
          then Option.map (λ es. (d.block_buf, at) ∷ es) rest
          else some ((d.block_buf, at) ∷ [])) in
    if ltb c.curr_offset (inode_bytes p_inode) then look else some []

-- The names of the entries that are in use.
unfoldable pub names_in_use : List (Memory × ℕ) → List (List ℕ)
names_in_use [] = []
names_in_use ((buf, at) ∷ es) =
    (if dirent_inode buf at == 0 then [] else dirent_name buf at ∷ []) ++ names_in_use es

-- The first entry that is in use and has the name.
unfoldable pub first_named : List ℕ → List (Memory × ℕ) → Option (Option (Memory × ℕ))
first_named name [] = some none
first_named name ((buf, at) ∷ es) = do
  found ← is_named buf at (strcmp (dirent_name buf at) name)
  let rest = first_named name es
  if found then some (some (buf, at)) else rest

-- What a round of listdir_from adds to what is behind it.
listed :
    (fs : Ext2Fs) (p_inode : Memory) (d : Cursor) (fuel : ℕ)
    → let at = d.in_block_offset in
      let next = move_on d (rec_len d.block_buf at) in
      let here = if dirent_inode d.block_buf at == 0 then [] else dirent_name d.block_buf at ∷ [] in
      let matches = expected_size (name_len d.block_buf at) == rec_len d.block_buf at in
      listdir_from fuel fs p_inode next
        ≡ Option.map names_in_use (walk expected_size fuel fs p_inode next)
      → (if matches
          then Option.map (λ names. here ++ names) (listdir_from fuel fs p_inode next)
          else some here)
        ≡ Option.map names_in_use (
            if matches
            then Option.map (λ es. (d.block_buf, at) ∷ es) (walk expected_size fuel fs p_inode next)
            else some ((d.block_buf, at) ∷ []))
unfolding names_in_use
listed fs p_inode d fuel rest =
    let at = d.in_block_offset in
    elim (Bool-cases (expected_size (name_len d.block_buf at) == rec_len d.block_buf at)) [
      | inl matches ↦
          rw (matches, rest)
            (elim (walk expected_size fuel fs p_inode (move_on d (rec_len d.block_buf at)))
              as (λ w.
                Option.map
                  (λ names.
                    (if dirent_inode d.block_buf at == 0
                      then []
                      else dirent_name d.block_buf at ∷ [])
                    ++ names)
                  (Option.map names_in_use w)
                ≡ Option.map names_in_use (Option.map (λ es. (d.block_buf, at) ∷ es) w)) [
                  | none ↦ refl
                  | some es ↦ refl
                ])
      | inr ends ↦ rw ends (ap some (sym (append-nil _)))
    ]

pub listdir_from-walk :
    (fuel : ℕ) (fs : Ext2Fs) (p_inode : Memory) (c : Cursor)
    → listdir_from fuel fs p_inode c
      ≡ Option.map names_in_use (walk expected_size fuel fs p_inode c)
unfolding listdir_from walk names_in_use
listdir_from-walk zero fs p_inode c = refl
listdir_from-walk (suc fuel) fs p_inode c =
    elim (Bool-cases (ltb c.curr_offset (inode_bytes p_inode))) [
      | inr over ↦ rw over refl
      | inl more ↦ rw more (elim (Option-cases (turn_page fs p_inode c)) [
        | inl unset ↦ rw unset refl
        | inr (d, turned) ↦ rw turned (
            listed fs p_inode d fuel (
              listdir_from-walk fuel fs p_inode
                (move_on d (rec_len d.block_buf d.in_block_offset))))
      ])
    ]

pub finddir_from-walk :
    (fuel : ℕ) (fs : Ext2Fs) (p_inode : Memory) (name : List ℕ) (c : Cursor)
    → walk expected_size_finddir fuel fs p_inode c ≢ none
    → finddir_from fuel fs p_inode name c
      ≡ (walk expected_size_finddir fuel fs p_inode c >>= first_named name)
unfolding finddir_from walk first_named
finddir_from-walk zero fs p_inode name c ends = absurd (ends refl)
finddir_from-walk (suc fuel) fs p_inode name c ends =
    elim (Bool-cases (ltb c.curr_offset (inode_bytes p_inode))) [
      | inr over ↦ rw over refl
      | inl more ↦ elim (Option-cases (turn_page fs p_inode c)) [
        | inl unset ↦ rw (more, unset) refl
        | inr (d, turned) ↦
            let buf = d.block_buf in
            let at = d.in_block_offset in
            let next = move_on d (rec_len buf at) in
            let rest = finddir_from-walk fuel fs p_inode name next in
            elim (Bool-cases (expected_size_finddir (name_len buf at) == rec_len buf at)) [
              | inr last ↦ rw (more, turned, last) refl
              | inl matches ↦
                  elim (Option-cases (walk expected_size_finddir fuel fs p_inode next)) [
                    | inl open_end ↦ absurd (ends (rw (more, turned, matches, open_end) refl))
                    | inr (es, walked) ↦
                        let tail = rest (λ e. absurd (ground (arith, walked, e))) in
                        rw (more, turned, matches, tail, walked) refl
                  ]
            ]
      ]
    ]
