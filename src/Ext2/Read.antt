-- ===== src/Ext2/Read.antt =====
-- read_inode_filedata of src/fs/ext2.c against the bytes of the file.
use sector_os_re.Base.{
  Option, ap, ◌-◌, inr, inl, Bool-cases, fun_ext, ◌∙◌, ◌≤◌, arith, some, none, ◌%◌, ◌+◌, ◌/◌, ltb,
  ◌≡◌, ◌*◌, if◌then◌else◌, ◌<◌, Memory, ℕ,
}
use native.Mathlib.Nat.{mod-eq_of_lt, div-eq_of_lt, mul-add-div_right, mul-add-mod_self_right}
use sector_os_re.Ext2.{blit, Ext2Fs}
use sector_os_re.Bytes.Fields.{blit}
use sector_os_re.Ext2.Blocks.{get_dblock_num}

abbrev byte_in : Ext2Fs → Option ℕ → ℕ → ℕ
byte_in fs none at = 0
byte_in fs (some block) at = fs.disk block at

-- Byte `x` of the file: where its blocks stand on the disk is all that matters.
unfoldable pub file_byte : Ext2Fs → Memory → ℕ → ℕ
file_byte fs inode x = byte_in fs (get_dblock_num fs inode (x / fs.block_size)) (x % fs.block_size)

-- The buffer, once `c` bytes of the file from `offset` on are in it.
unfoldable pub filled : Ext2Fs → Memory → ℕ → Memory → ℕ → Memory
filled fs inode offset buf c a = if ltb a c then file_byte fs inode (offset + a) else buf a

-- A number in a row of `n`.
pub div_in_row : (i n r : ℕ) → r < n → (i * n + r) / n ≡ i
div_in_row i n r lt = mul-add-div_right (omega arith) i r ∙ omega (arith, div-eq_of_lt lt)

pub mod_in_row : (i n r : ℕ) → r < n → (i * n + r) % n ≡ r
mod_in_row i n r lt = mul-add-mod_self_right i n r ∙ mod-eq_of_lt lt

pub file_byte-at :
    (fs : Ext2Fs) (inode : Memory) (i block r : ℕ)
    → get_dblock_num fs inode i ≡ some block
    → r < fs.block_size
    → file_byte fs inode (i * fs.block_size + r) ≡ fs.disk block r
unfolding file_byte
file_byte-at fs inode i block r mapped lt =
    ap (λ q. byte_in fs (get_dblock_num fs inode q) ((i * fs.block_size + r) % fs.block_size))
      (div_in_row i fs.block_size r lt)
    ∙ (ap (λ m. byte_in fs (get_dblock_num fs inode i) m) (mod_in_row i fs.block_size r lt)
        ∙ ap (λ b. byte_in fs b r) mapped)

module _ (fs : Ext2Fs) (inode buf : Memory) (offset : ℕ) where
  pub filled-blit :
      (i c left count block : ℕ)
      → get_dblock_num fs inode i ≡ some block
      → offset + c ≡ i * fs.block_size + left
      → left + count ≤ fs.block_size
      → blit (filled fs inode offset buf c) c (fs.disk block) left count
        ≡ filled fs inode offset buf (c + count)
  unfolding blit filled
  filled-blit i c left count block mapped at fits = fun_ext λ a. elim (Bool-cases (ltb a c)) [
    | inl before ↦ ground arith
    | inr behind ↦ elim (Bool-cases (ltb a (c + count))) [
      | inl within ↦
          let r = left + (a - c) in
          let place : offset + a ≡ i * fs.block_size + r = ground arith in
          let byte = file_byte-at fs inode i block r mapped (ground arith) in
          rw (place, byte) (ground arith)
      | inr out ↦ ground arith
    ]
  ]

  pub filled-zero : filled fs inode offset buf 0 ≡ buf
  unfolding filled
  filled-zero = fun_ext λ a. ground arith
