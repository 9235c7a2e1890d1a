-- ===== src/Kheap/BestFit.antt =====
-- `bestFit` of src/mem/kheap.c: the walk through the list of free blocks.
use sector_os_re.Kheap.FreeList.{first, Linked, IsFreeList}
use sector_os_re.Kheap.{size_of, does_it_fit, Heap, best_fit_loop, best_fit}
use sector_os_re.Base.{
  refl, zero, Bool-cases, false, inr, inl, suc, ltb, arith, ◌||◌, ◌≤◌, [], ◌==◌, some, ◌<◌, ◌&&◌,
  ◌⊎◌, true, ◌∷◌, ◌≡◌, ◌≢◌, length, List, ℕ, Memory,
}

abbrev pub In : ℕ → List ℕ → Type 0
In b [] = ⊥
In b (x ∷ xs) = (b ≡ x) ⊎ In b xs

-- What the walk over `bs` makes of the best block so far, where 0 is none.
record IsBest (m : Memory) (size best : ℕ) (bs : List ℕ) (r : ℕ) : Type 0 where
  from : (r ≡ best) ⊎ (In r bs × (does_it_fit m r size ≡ true))
  keeps : best ≢ 0 → (r ≢ 0) × (size_of m r ≤ size_of m best)
  beats : (b : ℕ) → In b bs → does_it_fit m b size ≡ true → (r ≢ 0) × (size_of m r ≤ size_of m b)

module _ (m : Memory) (size : ℕ) where
  take_new :
      (b best r : ℕ) (bs : List ℕ)
      → b ≢ 0
      → does_it_fit m b size ≡ true
      → (best == 0 || ltb (size_of m b) (size_of m best)) ≡ true
      → IsBest m size b bs r
      → IsBest m size best (b ∷ bs) r
  take_new b best r bs ne fits better i = record {
    from = elim i.from [
      | inl e ↦ inr (inl e, rw e fits)
      | inr (there, fits') ↦ inr (inr there, fits')
    ];
    keeps = λ some_best. let k = i.keeps ne in (k.0, ground arith);
    beats = λ c c_in c_fits. elim c_in [
      | inl e ↦ rw e (i.keeps ne)
      | inr there ↦ i.beats c there c_fits
    ];
  }

  keep_old :
      (b best r : ℕ) (bs : List ℕ)
      → (does_it_fit m b size && (best == 0 || ltb (size_of m b) (size_of m best))) ≡ false
      → IsBest m size best bs r
      → IsBest m size best (b ∷ bs) r
  keep_old b best r bs worse i = record {
    from = elim i.from [ inl e ↦ inl e | inr (there, fits') ↦ inr (inr there, fits') ];
    keeps = i.keeps;
    beats = λ c c_in c_fits. elim c_in [
      | inl e ↦
          let fits : does_it_fit m b size ≡ true = rw (← e) c_fits in
          let ne : best ≢ 0 = ground arith in
          let k = i.keeps ne in
          let le : size_of m best ≤ size_of m b = ground arith in rw e (k.0, ground arith)
      | inr there ↦ i.beats c there c_fits
    ];
  }

  best_fit_loop-IsBest :
      (bs : List ℕ) (rounds p best : ℕ)
      → Linked m p bs
      → length bs < rounds
      → (r : ℕ) × (best_fit_loop rounds m size (first bs) best ≡ some r) × IsBest m size best bs r
  unfolding best_fit_loop
  best_fit_loop-IsBest bs zero p best l fuel = absurd (omega arith)
  best_fit_loop-IsBest [] (suc rounds) p best l fuel = (
    best,
    refl,
    record { from = inl refl; keeps = λ ne. (ne, omega arith); beats = λ b there. absurd there },
  )
  best_fit_loop-IsBest (b ∷ bs) (suc rounds) p best (ne, back, on, l) fuel =
      let some_block : (b == 0) ≡ false = ground arith in
      let better = best == 0 || ltb (size_of m b) (size_of m best) in
      elim (Bool-cases (does_it_fit m b size && better)) [
        | inl yes_new ↦
            let (r, ends, i) = best_fit_loop-IsBest bs rounds b b l (omega arith) in
            (
              r,
              rw (some_block, yes_new, on) ends,
              take_new b best r bs ne (ground arith) (ground arith) i,
            )
        | inr no_new ↦
            let (r, ends, i) = best_fit_loop-IsBest bs rounds b best l (omega arith) in
            (r, rw (some_block, no_new, on) ends, keep_old b best r bs no_new i)
      ]

-- bestFit ends within as many rounds as there are free blocks, and one more. It answers a block of
-- the list that fits, with no other one that fits being smaller; or NULL, and then no block of the
-- list fits.
pub best_fit-IsBest :
    (h : Heap) (bs : List ℕ) (rounds size : ℕ)
    → IsFreeList h bs
    → length bs < rounds
    → (r : ℕ) × (best_fit rounds h size ≡ some r)
      × (((r ≡ 0) × ((b : ℕ) → In b bs → does_it_fit h.mem b size ≢ true))
          ⊎ (In r bs
              × (does_it_fit h.mem r size ≡ true)
              × ((b : ℕ)
                  → In b bs
                  → does_it_fit h.mem b size ≡ true
                  → size_of h.mem r ≤ size_of h.mem b)))
unfolding best_fit
best_fit-IsBest h bs rounds size f fuel =
    let (r, ends, i) = best_fit_loop-IsBest h.mem size bs rounds 0 0 f.linked fuel in
    (
      r,
      rw f.start ends,
      elim i.from [
        | inl e ↦ inl (e, λ b there fits. (i.beats b there fits).0 e)
        | inr (there, fits) ↦ inr (there, fits, λ b b_in b_fits. (i.beats b b_in b_fits).1)
      ],
    )
