-- ===== src/Ext2/WalkEnds.antt =====
-- The loops through a directory of src/fs/ext2.c end, whatever its blocks hold.
use native.Mathlib.Nat.{mul-le-mul_right, suc-mul}
use sector_os_re.Base.{
  ◌%◌, zero, ◌∷◌, ◌==◌, refl, ap, inl, [], inr, ltb, leb, suc, Bool-cases, arith, some, ◌≡◌, List,
  ◌-◌, ◌+◌, ◌*◌, ◌≤◌, ◌^◌, ◌<◌, Memory, ℕ,
}
use sector_os_re.Ext2.{read_disk_block, inode_bytes, Ext2Fs}
use sector_os_re.Ext2.Dir.{move_on, rec_len, name_len, turn_page, Cursor}
use sector_os_re.Ext2.Blocks.{get_dblock_num-mapped, read_inode_block, mapped_blocks}
use sector_os_re.Ext2.Walk.{walk}

-- The block in hand is one of bytes, and begins no later than the loop has come.
pub record IsCursor (fs : Ext2Fs) (c : Cursor) : Type 0 where
  pub bytes : (a : ℕ) → c.block_buf a < 2 ^ 8
  pub behind : c.block_offset * fs.block_size + c.in_block_offset ≤ c.curr_offset

module _ (fs : Ext2Fs) (p_inode : Memory) (room : 0 < fs.block_size)
    (wide : inode_bytes p_inode ≤ mapped_blocks fs * fs.block_size)
    (short : inode_bytes p_inode + 2 ^ 9 ≤ 2 ^ 32) (bytes : (b a : ℕ) → fs.disk b a < 2 ^ 8) where
  turn_page-IsCursor :
      (c : Cursor)
      → IsCursor fs c
      → c.curr_offset < inode_bytes p_inode
      → (d : Cursor) × (turn_page fs p_inode c ≡ some d)
        × (d.curr_offset ≡ c.curr_offset)
        × IsCursor fs d
  unfolding turn_page read_inode_block read_disk_block
  turn_page-IsCursor c good more = elim (Bool-cases (leb fs.block_size c.in_block_offset)) [
    | inr here ↦ (c, rw here refl, refl, good)
    | inl past ↦
        let next = suc-mul c.block_offset fs.block_size in
        let reach : c.block_offset + 1 < mapped_blocks fs =
          elim (Bool-cases (ltb (c.block_offset + 1) (mapped_blocks fs))) [
            | inl lt ↦ ground arith
            | inr out ↦
                let row : mapped_blocks fs * fs.block_size ≤ suc c.block_offset * fs.block_size =
                  mul-le-mul_right fs.block_size (ground arith) in
                absurd (ground (arith, row, next, good.behind))
          ] in
        let (block, at) = get_dblock_num-mapped fs p_inode (c.block_offset + 1) reach in
        (
          record {
            block_buf = fs.disk block;
            block_offset = c.block_offset + 1;
            in_block_offset = 0;
            curr_offset = c.curr_offset;
          },
          rw (past, at) refl,
          refl,
          record {
            bytes = λ a. bytes block a;
            behind =
                let row : (c.block_offset + 1) * fs.block_size
                    ≡ suc c.block_offset * fs.block_size =
                  ap (λ k. k * fs.block_size) (omega arith) in
                ground (arith, row, next, good.behind);
          },
        )
  ]

  move_on-IsCursor :
      (d : Cursor) (n : ℕ)
      → IsCursor fs d
      → d.curr_offset < inode_bytes p_inode
      → n ≤ 2 ^ 9
      → IsCursor fs (move_on d n) × ((move_on d n).curr_offset ≡ d.curr_offset + n)
  move_on-IsCursor d n good more small =
      let inside : (d.in_block_offset + n) % 2 ^ 32 ≡ d.in_block_offset + n =
        omega (arith, good.behind) in
      let come : (d.curr_offset + n) % 2 ^ 32 ≡ d.curr_offset + n = omega arith in
      (record { bytes = good.bytes; behind = omega (arith, good.behind, inside, come) }, come)

  pub walk-ends :
      (size_of : ℕ → ℕ)
      → ((n : ℕ) → n < 2 ^ 8 → (0 < size_of n) × (size_of n ≤ 2 ^ 9))
      → (fuel : ℕ) (c : Cursor) → IsCursor fs c
      → inode_bytes p_inode - c.curr_offset < fuel
      → (es : List (Memory × ℕ)) × (walk size_of fuel fs p_inode c ≡ some es)
  unfolding walk
  walk-ends size_of positive zero c good enough = absurd (omega arith)
  walk-ends size_of positive (suc fuel) c good enough =
      elim (Bool-cases (ltb c.curr_offset (inode_bytes p_inode))) [
        | inr over ↦ ([], rw over refl)
        | inl more ↦
            let (d, turned, same, good_d) = turn_page-IsCursor c good (ground arith) in
            let at = d.in_block_offset in
            let n = name_len d.block_buf at in
            let length = rec_len d.block_buf at in
            elim (Bool-cases (size_of n == length)) [
              | inr last ↦ ((d.block_buf, at) ∷ [], rw (more, turned, last) refl)
              | inl matches ↦
                  let (go_on, small) = positive n (good_d.bytes (at + 6)) in
                  let (good_next, come) =
                    move_on-IsCursor d length good_d (ground (arith, same))
                      (ground (arith, small)) in
                  let (es, walked) =
                    walk-ends size_of positive fuel (move_on d length) good_next
                      (ground (arith, same, go_on, come)) in
                  ((d.block_buf, at) ∷ es, rw (more, turned, matches, walked) refl)
            ]
      ]
