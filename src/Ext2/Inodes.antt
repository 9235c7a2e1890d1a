-- ===== src/Ext2/Inodes.antt =====
-- read_inode_metadata and write_inode_metadata of src/fs/ext2.c on the inodes of the first group.
use sector_os_re.Base.{
  ltb, fun_ext, false, leb, inl, inr, Bool-cases, refl, mul32, sub32, ◌∙◌, ap, ◌==◌, if◌then◌else◌,
  arith, suc, ◌⊎◌, ◌≤◌, ◌%◌, ◌-◌, ◌+◌, ◌^◌, ◌/◌, ◌*◌, ◌≡◌, ◌<◌, Memory, ℕ,
}
use native.Mathlib.Nat.{
  div-eq_of_lt, div-eq_of_eq-mul_left, mul-le-mul_left, mul-le-mul_right, div-add-mod', mod-lt,
  mul-div-mul_right, suc-mul,
}
use sector_os_re.Ext2.{
  write_disk_block, read_disk_block, blit, write_inode_metadata, read_inode_metadata, inode_table,
  inode_place, Ext2Fs,
}
use sector_os_re.Bytes.Fields.{blit}
use sector_os_re.Ext2.Rounds.{row_or_behind}
use sector_os_re.Ext2.Found.{written_ne}
use sector_os_re.Ext2.WriteLoop.{block-written}

module _ (fs : Ext2Fs) (per : ℕ) (room : 0 < fs.inode_size) (some_fit : 0 < per)
    (whole : fs.block_size ≡ per * fs.inode_size) where
  per_block : fs.block_size / fs.inode_size ≡ per
  per_block = div-eq_of_eq-mul_left room whole

  inode_place-first :
      (group n : ℕ)
      → 0 < n
      → n * fs.inode_size < 2 ^ 32
      → inode_place fs group n
        ≡ (inode_table fs group + (n - 1) / per, (n - 1) % per * fs.inode_size)
  unfolding inode_place
  inode_place-first group n pos small =
      let isz = fs.inode_size in
      let atleast : n * 1 ≤ n * isz = mul-le-mul_left n room in
      let e0 : n ≡ suc (n - 1) = omega arith in
      let step : n * isz ≡ (n - 1) * isz + isz = ap (λ k. k * isz) e0 ∙ suc-mul (n - 1) isz in
      let e1 : sub32 n 1 ≡ n - 1 = omega (arith, atleast) in
      let e2 : mul32 (n - 1) isz ≡ (n - 1) * isz = omega (arith, step) in
      let e3 : (n - 1) * isz / fs.block_size ≡ (n - 1) / per =
        ap (λ b. (n - 1) * isz / b) whole ∙ mul-div-mul_right (n - 1) per room in
      let parts = div-add-mod' (n - 1) per in
      let e4 : sub32 (n - 1) (mul32 ((n - 1) / per) per) ≡ (n - 1) % per =
        omega (arith, parts, atleast) in
      rw (e1, e2, e3, per_block, e4) refl

  -- The inodes of a block do not overlap.
  slot_apart :
      (a b : ℕ)
      → a / per ≡ b / per
      → (a ≡ b)
        ⊎ ((a % per * fs.inode_size + fs.inode_size ≤ b % per * fs.inode_size)
            ⊎ (b % per * fs.inode_size + fs.inode_size ≤ a % per * fs.inode_size))
  slot_apart a b same =
      let parts_a = div-add-mod' a per in
      let parts_b = div-add-mod' b per in
      let rows : a / per * per ≡ b / per * per = ap (λ q. q * per) same in
      elim (Bool-cases (leb (a % per) (b % per))) [
        | inl below ↦
            let le : a % per ≤ b % per = ground arith in
            elim (row_or_behind fs.inode_size le) [
              | inl equal ↦ inl (omega (arith, parts_a, parts_b, rows, equal))
              | inr more ↦ inr (inl more)
            ]
        | inr above ↦
            let le : b % per ≤ a % per = ground arith in
            elim (row_or_behind fs.inode_size le) [
              | inl equal ↦ absurd (ground (arith, equal))
              | inr more ↦ inr (inr more)
            ]
      ]

  slot_fits : (a : ℕ) → a % per * fs.inode_size + fs.inode_size ≤ fs.block_size
  slot_fits a =
      let isz = fs.inode_size in
      let row : suc (a % per) * isz ≤ per * isz = mul-le-mul_right isz (mod-lt a some_fit) in
      omega (arith, row, suc-mul (a % per) isz, whole)

  first_group : (n : ℕ) → n < fs.inodes_per_group → n / fs.inodes_per_group ≡ 0
  first_group n lt = div-eq_of_lt lt

  number_small :
      (n : ℕ)
      → n < fs.inodes_per_group
      → fs.inodes_per_group * fs.inode_size < 2 ^ 32
      → n * fs.inode_size < 2 ^ 32
  number_small n lt small =
      let less : n * fs.inode_size ≤ fs.inodes_per_group * fs.inode_size =
        mul-le-mul_right fs.inode_size (omega arith) in
      omega (arith, less)

  module _ (small : fs.inodes_per_group * fs.inode_size < 2 ^ 32) where
    read_inode_metadata-first :
        (old : Memory) (n : ℕ)
        → 0 < n
        → n < fs.inodes_per_group
        → read_inode_metadata fs old n
          ≡ blit old 0
              (fs.disk (inode_table fs 0 + (n - 1) / per))
              ((n - 1) % per * fs.inode_size)
              fs.inode_size
    unfolding read_inode_metadata read_disk_block
    read_inode_metadata-first old n pos lt =
        let index : n - 0 * fs.inodes_per_group ≡ n = omega arith in
        rw (first_group n lt, index, inode_place-first 0 n pos (number_small n lt small)) refl

    write_inode_metadata-first :
        (inode : Memory) (n : ℕ)
        → 0 < n
        → n < fs.inodes_per_group
        → write_inode_metadata fs inode n
          ≡ write_disk_block fs (inode_table fs 0 + (n - 1) / per) (
              blit
                (fs.disk (inode_table fs 0 + (n - 1) / per))
                ((n - 1) % per * fs.inode_size)
                inode
                0
                fs.inode_size)
    unfolding write_inode_metadata read_disk_block
    write_inode_metadata-first inode n pos lt =
        rw (first_group n lt, inode_place-first 0 n pos (number_small n lt small)) refl

  -- The bytes of inode `m`, once inode `n` is written.
  slot-written :
      (inode : Memory) (n m a : ℕ)
      → a < fs.inode_size
      → let base = inode_table fs 0 in
        let at = n % per * fs.inode_size in
        let fs1 =
          write_disk_block fs
            (base + n / per)
            (blit (fs.disk (base + n / per)) at inode 0 fs.inode_size) in
        fs1.disk (base + m / per) (m % per * fs.inode_size + a)
        ≡ (if m == n then inode a else fs.disk (base + m / per) (m % per * fs.inode_size + a))
  slot-written inode n m a lt =
      let base = inode_table fs 0 in
      let isz = fs.inode_size in
      let at = n % per * isz in
      let buf = blit (fs.disk (base + n / per)) at inode 0 isz in
      let fits = slot_fits m in
      let fits_n = slot_fits n in
      elim (Bool-cases (m / per == n / per)) [
        | inr block_ne ↦
            let ne : (m == n) ≡ false = elim (Bool-cases (m == n)) [
              | inl equal ↦
                  let row : m / per ≡ n / per = ap (λ k. k / per) (ground arith) in
                  absurd (ground (arith, row))
              | inr other ↦ other
            ] in
            rw ne (
              ap (λ d. d (m % per * isz + a))
                (written_ne fs (base + n / per) buf (base + m / per) (ground arith)))
        | inl block_eq ↦
            let row : m / per ≡ n / per = ground arith in
            elim (slot_apart m n row) [
              | inl same ↦
                  let byte =
                    block-written fs (base + n / per) at isz inode (at + a) (omega arith) in
                  let index : at + a - at ≡ a = omega arith in
                  let e : inode (at + a - at) ≡ inode a = ap inode index in
                  rw same (byte ∙ ground (arith, e))
              | inr apart ↦
                  let byte =
                    block-written fs (base + n / per) at isz inode (m % per * isz + a)
                      (omega arith) in
                  let ne : (m == n) ≡ false = elim (Bool-cases (m == n)) [
                    | inl equal ↦
                        let place : m % per * isz ≡ at = ap (λ k. k % per * isz) (ground arith) in
                        absurd (ground (arith, place))
                    | inr other ↦ other
                  ] in
                  rw (row, ne) (byte ∙ ground arith)
            ]
      ]

blit-cong :
    (old src src' : Memory) (s s' n : ℕ)
    → ((a : ℕ) → a < n → src (s + a) ≡ src' (s' + a))
    → blit old 0 src s n ≡ blit old 0 src' s' n
unfolding blit
blit-cong old src src' s s' n same = fun_ext λ a. elim (Bool-cases (ltb a n)) [
  | inl within ↦ let e = same a (ground arith) in ground (arith, e)
  | inr out ↦ ground arith
]

-- In the first group, an inode that is written is read back, and the others keep their bytes, as
-- long as `inode_size` divides the block, and the number is not 0 and is small enough for the
-- 32-bit product in the search for its block.
pub read-write_inode_metadata :
    (fs : Ext2Fs) (per : ℕ) (inode old : Memory) (n m : ℕ)
    → 0 < fs.inode_size
    → 0 < per
    → fs.block_size ≡ per * fs.inode_size
    → 0 < n
    → n < fs.inodes_per_group
    → 0 < m
    → m < fs.inodes_per_group
    → fs.inodes_per_group * fs.inode_size < 2 ^ 32
    → read_inode_metadata (write_inode_metadata fs inode n) old m
      ≡ (if m == n then blit old 0 inode 0 fs.inode_size else read_inode_metadata fs old m)
unfolding write_disk_block
read-write_inode_metadata fs per inode old n m room some_fit whole pos_n lt_n pos_m lt_m small =
    let isz = fs.inode_size in
    let block = inode_table fs 0 + (n - 1) / per in
    let fs1 = write_disk_block fs block (blit (fs.disk block) ((n - 1) % per * isz) inode 0 isz) in
    let wrote = write_inode_metadata-first fs per room some_fit whole small inode n pos_n lt_n in
    let after = read_inode_metadata-first fs1 per room some_fit whole small old m pos_m lt_m in
    let before = read_inode_metadata-first fs per room some_fit whole small old m pos_m lt_m in
    let slot = slot-written fs per room some_fit whole inode (n - 1) (m - 1) in
    let index : (m - 1 == n - 1) ≡ (m == n) = ground arith in
    let at = (m - 1) % per * isz in
    let src = fs1.disk (inode_table fs 0 + (m - 1) / per) in
    rw (wrote, after, before)
      (elim (Bool-cases (m == n)) [
        | inl same ↦ rw same (
            blit-cong old src inode at 0 isz
              (λ a lt. (rw (index, same) at (slot a lt)) ∙ ap inode (omega arith)))
        | inr other ↦ rw other (
            blit-cong old src (fs.disk (inode_table fs 0 + (m - 1) / per)) at at isz
              (λ a lt. rw (index, other) at (slot a lt)))
      ])
