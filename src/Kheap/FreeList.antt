-- ===== src/Kheap/FreeList.antt =====
-- The list of free blocks in src/mem/kheap.c, and `addToList`, which puts a block in front of it.
use sector_os_re.Base.{
  refl, ◌∙◌, update_ne, update_self, false, ◌⊎◌, [], ◌≤◌, arith, ◌==◌, ◌∷◌, ◌≢◌, ◌+◌, ◌≡◌, Memory,
  List, ℕ,
}
use sector_os_re.Kheap.{next_of, prev_of, set_next, set_prev, Heap, add_to_list}

abbrev pub first : List ℕ → ℕ
first [] = 0
first (b ∷ bs) = b

abbrev pub last : ℕ → List ℕ → ℕ
last a [] = a
last a (b ∷ bs) = last b bs

-- The words of two headers do not overlap.
abbrev pub Apart : ℕ → ℕ → Type 0
Apart a b = (a + 12 ≤ b) ⊎ (b + 12 ≤ a)

abbrev pub ApartAll : ℕ → List ℕ → Type 0
ApartAll a [] = Unit
ApartAll a (b ∷ bs) = Apart a b × ApartAll a bs

abbrev pub AllApart : List ℕ → Type 0
AllApart [] = Unit
AllApart (b ∷ bs) = ApartAll b bs × AllApart bs

-- The blocks `bs` are linked both ways, behind a block `prev`.
abbrev pub Linked : Memory → ℕ → List ℕ → Type 0
Linked m prev [] = Unit
Linked m prev (b ∷ bs) = (b ≢ 0) × (prev_of m b ≡ prev) × (next_of m b ≡ first bs) × Linked m b bs

pub record IsFreeList (h : Heap) (bs : List ℕ) : Type 0 where
  pub start : h.free_list ≡ first bs
  pub linked : Linked h.mem 0 bs
  pub apart : AllApart bs

module _ (a v : ℕ) where
  pub frame_next :
      (bs : List ℕ) (m : Memory) (p : ℕ)
      → ApartAll a bs
      → Linked m p bs
      → Linked (set_next m a v) p bs
  frame_next [] m p out l = tt
  frame_next (b ∷ bs) m p (here, out) (ne, back, on, l) = (
    ne,
    update_ne m a v (b + 4) (omega arith) ∙ back,
    update_ne m a v b (omega arith) ∙ on,
    frame_next bs m b out l,
  )

  pub frame_prev :
      (bs : List ℕ) (m : Memory) (p : ℕ)
      → ApartAll a bs
      → Linked m p bs
      → Linked (set_prev m a v) p bs
  frame_prev [] m p out l = tt
  frame_prev (b ∷ bs) m p (here, out) (ne, back, on, l) = (
    ne,
    update_ne m (a + 4) v (b + 4) (omega arith) ∙ back,
    update_ne m (a + 4) v b (omega arith) ∙ on,
    frame_prev bs m b out l,
  )

-- A list whose first block gets a new predecessor.
pub relink_first :
    (m : Memory) (p q b : ℕ) (bs : List ℕ)
    → ApartAll b bs
    → Linked m p (b ∷ bs)
    → Linked (set_prev m b q) q (b ∷ bs)
relink_first m p q b bs out (ne, back, on, l) = (
  ne,
  update_self m (b + 4) q,
  update_ne m (b + 4) q b (omega arith) ∙ on,
  frame_prev b q bs m b out l,
)

-- A block put in front of a list whose first block leads back to it.
front :
    (m : Memory) (p block : ℕ) (bs : List ℕ)
    → block ≢ 0
    → ApartAll block bs
    → next_of m block ≡ first bs
    → Linked m block bs
    → Linked (set_prev m block p) p (block ∷ bs)
front m p block bs ne out on l = (
  ne,
  update_self m (block + 4) p,
  update_ne m (block + 4) p block (omega arith) ∙ on,
  frame_prev block p bs m block out l,
)

-- addToList puts a block that is not in the list in front of it.
pub add_to_list-IsFreeList :
    (h : Heap) (block : ℕ) (bs : List ℕ)
    → IsFreeList h bs
    → block ≢ 0
    → ApartAll block bs
    → IsFreeList (add_to_list h block) (block ∷ bs)
unfolding add_to_list
add_to_list-IsFreeList h block [] f ne out =
    let some_block : (block == 0) ≡ false = ground arith in
    rw (some_block, f.start)
      (record {
        start = refl;
        linked = front (set_next h.mem block 0) 0 block [] ne tt (update_self h.mem block 0) tt;
        apart = (tt, tt);
      })
add_to_list-IsFreeList h block (b ∷ bs) f ne out =
    let some_block : (block == 0) ≡ false = ground arith in
    let some_first : (b == 0) ≡ false = let nz = f.linked.0 in ground arith in
    let m1 = set_next h.mem block b in
    let behind =
      relink_first m1 0 block b bs f.apart.0 (frame_next block b (b ∷ bs) h.mem 0 out f.linked) in
    let on : set_prev m1 b block block ≡ b =
      update_ne m1 (b + 4) block block (omega (arith, out.0)) ∙ update_self h.mem block b in
    rw (some_block, f.start, some_first)
      (record {
        start = refl;
        linked = front (set_prev m1 b block) 0 block (b ∷ bs) ne out on behind;
        apart = (out, f.apart);
      })
