-- ===== src/Pmm/Search.antt =====
-- `first_free_block` of src/mem/pmm.c: which block the search finds.
use sector_os_re.Base.{
  ℕ, zero, suc, ◌+◌, ◌≤◌, ◌<◌, ◌≡◌, refl, ◌≢◌, ◌⊎◌, inl, inr, Memory, u32_max, arith, ◌==◌,
  Bool-cases,
}
use sector_os_re.Pmm.{Pmm, is_set, first_free_from, first_free_block}

-- Block `r` is free, and every one from `i` up to it is taken.
abbrev pub IsFirstFree : Memory → ℕ → ℕ → Type 0
IsFirstFree m i r = (is_set m r ≡ 0) × ((j : ℕ) → i ≤ j → j < r → is_set m j ≢ 0)

-- The search ends below the bound at the first free block, or at -1 with every block taken.
abbrev pub Found : Memory → ℕ → ℕ → ℕ → Type 0
Found m i end r =
    ((i ≤ r) × (r < end) × IsFirstFree m i r)
    ⊎ ((r ≡ u32_max) × ((j : ℕ) → i ≤ j → j < end → is_set m j ≢ 0))

taken_from :
    (m : Memory) (i end : ℕ)
    → is_set m i ≢ 0
    → ((j : ℕ) → i + 1 ≤ j → j < end → is_set m j ≢ 0)
    → (j : ℕ) → i ≤ j
    → j < end
    → is_set m j ≢ 0
taken_from m i end taken rest j lo hi = elim (Bool-cases (j == i)) [
  | inl here ↦ let e : j ≡ i = ground arith in rw e taken
  | inr there ↦ rest j (ground arith) hi
]

Found-step : (m : Memory) (i end r : ℕ) → is_set m i ≢ 0 → Found m (i + 1) end r → Found m i end r
Found-step m i end r taken (inl (low, high, first)) =
    inl (omega arith, high, (first.0, taken_from m i r taken first.1))
Found-step m i end r taken (inr (none_left, all)) = inr (none_left, taken_from m i end taken all)

pub first_free_from-Found :
    (m : Memory) (left i end : ℕ) → i + left ≡ end → Found m i end (first_free_from m left i)
unfolding first_free_from
first_free_from-Found m zero i end e = inr (refl, λ j lo hi. absurd (omega arith))
first_free_from-Found m (suc left) i end e = elim (Bool-cases (is_set m i == 0)) [
  | inl free ↦
      rw free (inl (omega arith, omega arith, (ground arith, λ j lo hi. absurd (omega arith))))
  | inr taken ↦
      rw taken (
        Found-step m i end _ (ground arith)
          (first_free_from-Found m left (i + 1) end (omega arith)))
]

-- first_free_block answers the lowest free block below total_blocks, or -1 when all are taken.
pub first_free_block-Found : (p : Pmm) → Found p.bitmap 0 p.total_blocks (first_free_block p)
unfolding first_free_block
first_free_block-Found p =
    first_free_from-Found p.bitmap p.total_blocks 0 p.total_blocks (omega arith)
