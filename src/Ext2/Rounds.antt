-- ===== src/Ext2/Rounds.antt =====
-- The rounds of read_inode_filedata of src/fs/ext2.c: which bytes each of them copies.
use sector_os_re.Base.{
  leb, ap, sym, ◌/◌, inr, inl, ◌==◌, min, Bool-cases, max, ◌⊎◌, ◌-◌, ◌+◌, ◌*◌, ◌≡◌, suc, arith, ◌≤◌,
  ◌^◌, ◌<◌, Memory, ℕ,
}
use sector_os_re.Ext2.{Ext2Fs}
use sector_os_re.Ext2.File.{count_of, left_of, span_of, end_of}
use native.Mathlib.Nat.{div-add-mod', mod-lt, mul-le-mul_right, suc-mul}

-- Where round `i` begins to copy, in a file that is read from `offset` to `end_offset`.
abbrev pub position : ℕ → ℕ → ℕ → ℕ → ℕ
position size offset end_offset i = max offset (min (i * size) end_offset)

pub row_or_behind : {a b : ℕ} (n : ℕ) → a ≤ b → (b ≡ a) ⊎ (a * n + n ≤ b * n)
row_or_behind {a} {b} n le = elim (Bool-cases (b == a)) [
  | inl same ↦ inl (ground arith)
  | inr other ↦
      let row : suc a * n ≤ b * n = mul-le-mul_right n (ground arith) in
      inr (omega (arith, row, suc-mul a n))
]

pub div_mono : {a b : ℕ} (n : ℕ) → 0 < n → a ≤ b → a / n ≤ b / n
div_mono {a} {b} n pos le = elim (Bool-cases (leb (a / n) (b / n))) [
  | inl fine ↦ ground arith
  | inr over ↦
      let row : suc (b / n) * n ≤ a / n * n = mul-le-mul_right n (ground arith) in
      let next = suc-mul (b / n) n in
      let whole_a = div-add-mod' a n in
      let whole_b = div-add-mod' b n in
      let rest = mod-lt b pos in absurd (omega (arith, row, next, whole_a, whole_b, rest))
]

module _ (fs : Ext2Fs) (inode : Memory) (offset size : ℕ) (room : 0 < fs.block_size)
    (short : fs.block_size < 2 ^ 32) (inside : offset ≤ end_of inode offset size) where
  pub end_of-lt : end_of inode offset size < 2 ^ 32
  end_of-lt = ground arith

  -- A round copies what block `i` has of the range.
  pub count_of-position :
      (i : ℕ)
      → let s = span_of fs inode offset size in
        let from = position fs.block_size offset (end_of inode offset size) i in
        let to = position fs.block_size offset (end_of inode offset size) (suc i) in
        s.start_block ≤ i
        → i ≤ s.end_block
        → (from ≡ i * fs.block_size + left_of s i)
          × (from + count_of s (fs.block_size - 1) i ≡ to)
          × (left_of s i + count_of s (fs.block_size - 1) i ≤ fs.block_size)
  count_of-position i lo hi =
      let e = end_of inode offset size in
      let bs = fs.block_size in
      let first = div-add-mod' offset bs in
      let last = div-add-mod' e bs in
      let first_lt = mod-lt offset room in
      let last_lt = mod-lt e room in
      let next : suc i * bs ≡ i * bs + bs = suc-mul i bs in
      let small = end_of-lt in
      let start : (i ≡ offset / bs) ⊎ (offset / bs * bs + bs ≤ i * bs) = row_or_behind bs lo in
      let end : (i ≡ e / bs) ⊎ (i * bs + bs ≤ e / bs * bs) = elim (row_or_behind bs hi) [
        | inl same ↦ inl (sym same)
        | inr more ↦ inr more
      ] in
      elim start [
        | inl at ↦ elim end [
          | inl last_row ↦
              let x = ap (λ r. r * bs) at in
              let z = ap (λ r. r * bs) last_row in
              (ground (arith, x, z), ground (arith, x, z), ground (arith, x, z))
          | inr before ↦
              let x = ap (λ r. r * bs) at in
              (ground (arith, x), ground (arith, x), ground (arith, x))
        ]
        | inr behind ↦ elim end [
          | inl last_row ↦
              let z = ap (λ r. r * bs) last_row in
              (ground (arith, z), ground (arith, z), ground (arith, z))
          | inr before ↦ (ground arith, ground arith, ground arith)
        ]
      ]
