-- ===== src/Kheap/Unlink.antt =====
-- `removeFromList` of src/mem/kheap.c takes one block out of the list of free blocks.
use mathlib.Core.Path.{sym, subst}
use sector_os_re.Kheap.FreeList.{
  first, last, Apart, ApartAll, AllApart, Linked, IsFreeList, frame_next, relink_first,
}
use sector_os_re.Base.{
  sym, false, update_self, refl, inr, ◌∙◌, arith, inl, update_ne, ◌==◌, ◌+◌, ◌⊎◌, [], ◌++◌, ◌≢◌,
  ◌≡◌, ◌∷◌, if◌then◌else◌, List, ℕ, Memory,
}
use sector_os_re.Kheap.{set_prev, set_next, next_of, prev_of, Heap, remove_from_list}

-- What removeFromList does to the block `l` in front of the one removed and to `n` behind it.
unlink : Memory → ℕ → ℕ → Memory
unlink m l n = if n == 0 then set_next m l n else set_prev (set_next m l n) n l

unlink_keeps : (m : Memory) (l n c : ℕ) → c ≢ l → (n ≡ 0) ⊎ (c ≢ n + 4) → unlink m l n c ≡ m c
unfolding unlink
unlink_keeps m l n c h k = ground arith

ApartAll-last : (a x : ℕ) (xs ys : List ℕ) → ApartAll a (x ∷ (xs ++ ys)) → Apart a (last x xs)
ApartAll-last a x [] ys h = h.0
ApartAll-last a x (y ∷ xs) ys h = ApartAll-last a y xs ys h.1

ApartAll-behind : (a block : ℕ) (xs ys : List ℕ) → ApartAll a (xs ++ block ∷ ys) → ApartAll a ys
ApartAll-behind a block [] ys h = h.1
ApartAll-behind a block (x ∷ xs) ys h = ApartAll-behind a block xs ys h.1

ApartAll-without :
    (a block : ℕ) (xs ys : List ℕ) → ApartAll a (xs ++ block ∷ ys) → ApartAll a (xs ++ ys)
ApartAll-without a block [] ys h = h.1
ApartAll-without a block (x ∷ xs) ys h = (h.0, ApartAll-without a block xs ys h.1)

AllApart-without : (block : ℕ) (xs ys : List ℕ) → AllApart (xs ++ block ∷ ys) → AllApart (xs ++ ys)
AllApart-without block [] ys h = h.1
AllApart-without block (x ∷ xs) ys h =
    (ApartAll-without x block xs ys h.0, AllApart-without block xs ys h.1)

not_first :
    (a : ℕ) (ys : List ℕ)
    → ApartAll a ys
    → (first ys ≡ 0) ⊎ (a ≢ first ys + 4) × (a + 4 ≢ first ys + 4)
not_first a [] h = inl refl
not_first a (y ∷ ys) h = inr (omega (arith, h.0), omega (arith, h.0))

unlink_second :
    (m : Memory) (p a block : ℕ) (ys : List ℕ)
    → Linked m p (a ∷ block ∷ ys)
    → AllApart (a ∷ block ∷ ys)
    → Linked (unlink m a (first ys)) p (a ∷ ys)
unfolding unlink
unlink_second m p a block [] (ne, back, on, rest) out =
    (ne, update_ne m a 0 (a + 4) (omega arith) ∙ back, update_self m a 0, tt)
unlink_second m p a block (y ∷ ys) (ne, back, on, (neb, backb, onb, rest)) out =
    let nonzero : (y == 0) ≡ false = let nz = rest.0 in ground arith in
    let m1 = set_next m a y in
    let away = out.0.1 in
    let e : unlink m a y ≡ set_prev m1 y a = rw nonzero in
    subst (λ k. Linked k p (a ∷ y ∷ ys)) (sym e)
      (
        ne,
        update_ne m1 (y + 4) a (a + 4) (omega (arith, away.0))
            ∙ (update_ne m a y (a + 4) (omega arith) ∙ back),
        update_ne m1 (y + 4) a a (omega (arith, away.0)) ∙ update_self m a y,
        relink_first m1 block a y ys out.1.1.0 (frame_next a y (y ∷ ys) m block away rest),
      )

unlink-Linked :
    (xs : List ℕ) (m : Memory) (p a block : ℕ) (ys : List ℕ)
    → Linked m p (a ∷ (xs ++ block ∷ ys))
    → AllApart (a ∷ (xs ++ block ∷ ys))
    → Linked (unlink m (last a xs) (first ys)) p (a ∷ (xs ++ ys))
unlink-Linked [] m p a block ys l out = unlink_second m p a block ys l out
unlink-Linked (x ∷ xs) m p a block ys (ne, back, on, rest) (away, out) =
    let from_last = ApartAll-last a x xs (block ∷ ys) away in
    let from_first = not_first a ys (ApartAll-behind a block (x ∷ xs) ys away) in
    (
      ne,
      unlink_keeps m (last x xs) (first ys) (a + 4) (omega arith) (omega arith) ∙ back,
      unlink_keeps m (last x xs) (first ys) a (omega arith) (omega arith) ∙ on,
      unlink-Linked xs m a x block ys rest out,
    )

-- The block in front of and behind one of a list.
Linked-prev :
    (xs : List ℕ) (m : Memory) (p a block : ℕ) (ys : List ℕ)
    → Linked m p (a ∷ (xs ++ block ∷ ys))
    → (block ≢ 0) × (prev_of m block ≡ last a xs) × (next_of m block ≡ first ys) × (last a xs ≢ 0)
Linked-prev [] m p a block ys (ne, back, on, (neb, backb, onb, rest)) = (neb, backb, onb, ne)
Linked-prev (x ∷ xs) m p a block ys (ne, back, on, rest) = Linked-prev xs m a x block ys rest

Apart-last :
    (xs : List ℕ) (a block : ℕ) (ys : List ℕ)
    → AllApart (a ∷ (xs ++ block ∷ ys))
    → Apart (last a xs) block
Apart-last [] a block ys out = out.0.0
Apart-last (x ∷ xs) a block ys out = Apart-last xs x block ys out.1

-- removeFromList on a block between `l` and `n`.
remove_from_list-unlink :
    (h : Heap) (block l n : ℕ)
    → block ≢ 0
    → l ≢ 0
    → Apart l block
    → prev_of h.mem block ≡ l
    → next_of h.mem block ≡ n
    → remove_from_list h block ≡ record h { mem = unlink h.mem l n }
unfolding remove_from_list unlink
remove_from_list-unlink h block l n ne ne' out back on =
    let some_block : (block == 0) ≡ false = ground arith in
    let some_prev : (l == 0) ≡ false = ground arith in
    let other : (block == l) ≡ false = ground arith in
    let other_prev : (block + 4 == l) ≡ false = ground arith in
    rw (some_block, back, on, some_prev, other, other_prev)

-- removeFromList takes a block out of the list of free blocks, wherever it stands there, and leaves
-- the others linked in their order.
pub remove_from_list-IsFreeList :
    (h : Heap) (xs : List ℕ) (block : ℕ) (ys : List ℕ)
    → IsFreeList h (xs ++ block ∷ ys)
    → IsFreeList (remove_from_list h block) (xs ++ ys)
unfolding remove_from_list
remove_from_list-IsFreeList h [] block [] f =
    let (ne, back, on, l) = f.linked in
    let some_block : (block == 0) ≡ false = ground arith in
    rw (some_block, back, on) (record { start = refl; linked = tt; apart = tt })
remove_from_list-IsFreeList h [] block (y ∷ ys) f =
    let (ne, back, on, l) = f.linked in
    let some_block : (block == 0) ≡ false = ground arith in
    let some_next : (y == 0) ≡ false = let nz = l.0 in ground arith in
    rw (some_block, back, on, some_next)
      (record {
        start = refl;
        linked = relink_first h.mem block 0 y ys f.apart.1.0 l;
        apart = f.apart.1;
      })
remove_from_list-IsFreeList h (a ∷ xs) block ys f =
    let (ne, back, on, ne') = Linked-prev xs h.mem 0 a block ys f.linked in
    let out = Apart-last xs a block ys f.apart in
    rw (remove_from_list-unlink h block (last a xs) (first ys) ne ne' out back on) (record {
      start = f.start;
      linked = unlink-Linked xs h.mem 0 a block ys f.linked f.apart;
      apart = AllApart-without block (a ∷ xs) ys f.apart;
    })
