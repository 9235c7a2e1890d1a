-- ===== src/LinkedList/Remove.antt =====
-- Taking nodes off either end of a list of src/common/structures/list.c.
use sector_os_re.LinkedList.{
  List, ℕ, ListNode, LinkedList, set_next, set_prev, drop_tail, list_remove_front, list_remove_back,
  list_pop,
}
use sector_os_re.LinkedList.Sequence.{
  last, Linked, IsList, Linked-off, Absent-last, Absent-front, last-append,
}
use sector_os_re.Base.{
  suc, refl, length-append, ap, sub32, ◌∙◌, ◌^◌, false, arith, ◌<◌, ◌≢◌, ◌==◌, ◌≡◌, ◌+◌, length,
  ◌++◌, [], ◌∷◌, List, ℕ,
}

-- list_remove_front answers the first value and takes its node off, where more nodes are left.
pub list_remove_front-IsList :
    (l : LinkedList) (a v b w : ℕ) (bs : List (ℕ × ℕ))
    → IsList l ((a, v) ∷ (b, w) ∷ bs)
    → length bs + 2 < 2 ^ 32
    → let (val, l') = list_remove_front l in (val ≡ v) × IsList l' ((b, w) ∷ bs)
unfolding list_remove_front
list_remove_front-IsList l a v b w bs s small =
    let (na, here, outa, (nb, hereb, outb, rest)) = s.linked in
    let some_head : (a == 0) ≡ false = ground arith in
    let some_next : (b == 0) ≡ false = ground arith in
    let fewer : sub32 l.size 1 ≡ suc (length bs) = let e = s.counted in omega arith in
    rw (s.start, here, some_head, some_next)
      (
        refl,
        record {
          start = refl;
          end = s.end;
          counted = fewer;
          linked = (
            nb,
            ground arith,
            outb,
            Linked-off bs l.nodes (set_prev l.nodes b 0) b b b (λ c c1 c2. ground arith) outb outb
                rest,
          );
        },
      )

-- The last node of a list, and the list without it.
Linked-front :
    (bs : List (ℕ × ℕ)) (nodes : ℕ → ListNode) (p a u t v : ℕ)
    → Linked nodes p ((a, u) ∷ (bs ++ (t, v) ∷ []))
    → (nodes t ≡ record { val = v; next = 0; prev = last a bs })
      × (last a bs ≢ 0)
      × Linked (set_next nodes (last a bs) 0) p ((a, u) ∷ bs)
Linked-front [] nodes p a u t v (na, here, out, (nt, heret, outt, rest)) =
    (heret, na, (na, ground arith, tt, tt))
Linked-front ((b, w) ∷ bs) nodes p a u t v (na, here, out, rest) =
    let (heret, nl, l) = Linked-front bs nodes a b w t v rest in
    let front = (Absent-front a t v ((b, w) ∷ bs) out).0 in
    let other = Absent-last a b w bs front in (heret, nl, (na, ground arith, front, l))

drop_tail-IsList :
    (l : LinkedList) (a u t v : ℕ) (bs : List (ℕ × ℕ))
    → IsList l ((a, u) ∷ (bs ++ (t, v) ∷ []))
    → length bs + 2 < 2 ^ 32
    → IsList (drop_tail l) ((a, u) ∷ bs)
unfolding drop_tail
drop_tail-IsList l a u t v bs s small =
    let (heret, nl, rest) = Linked-front bs l.nodes 0 a u t v s.linked in
    let some_before : (last a bs == 0) ≡ false = ground arith in
    let fewer : sub32 l.size 1 ≡ suc (length bs) =
      let e = s.counted in omega (arith, length-append bs ((t, v) ∷ [])) in
    rw (s.end, last-append a t v bs, heret, some_before)
      (record { start = s.start; end = refl; counted = fewer; linked = rest })

-- With more than one node in the list, list_pop answers the last node, list_remove_back its value,
-- and both take that node off.
pub list_pop-IsList :
    (l : LinkedList) (a u t v : ℕ) (bs : List (ℕ × ℕ))
    → IsList l ((a, u) ∷ (bs ++ (t, v) ∷ []))
    → length bs + 2 < 2 ^ 32
    → let (node, l') = list_pop l in
      let (val, l'') = list_remove_back l in
      (node ≡ t) × (val ≡ v) × (l' ≡ l'') × IsList l' ((a, u) ∷ bs)
unfolding list_pop list_remove_back
list_pop-IsList l a u t v bs s small =
    let some_head : (l.head == 0) ≡ false =
      let na = s.linked.0 in let e = s.start in ground arith in
    let at : l.tail ≡ t = s.end ∙ last-append a t v bs in
    let heret = (Linked-front bs l.nodes 0 a u t v s.linked).0 in
    rw some_head (
      at,
      ap (λ n. (l.nodes n).val) at ∙ ap (λ n. n.val) heret,
      refl,
      drop_tail-IsList l a u t v bs s small,
    )

-- list_pop and list_remove_back on a list of one node leave `head` at that node, with the size 0
-- and no tail: the list still leads to it.
pub list_pop_single :
    (l : LinkedList) (a u : ℕ)
    → IsList l ((a, u) ∷ [])
    → let (node, l') = list_pop l in
      (node ≡ a) × (l'.size ≡ 0) × (l'.tail ≡ 0) × (l'.head ≡ a) × ((l'.nodes a).val ≡ u)
unfolding list_pop drop_tail
list_pop_single l a u s =
    let (na, here, out, rest) = s.linked in
    let some_head : (a == 0) ≡ false = ground arith in
    rw (s.start, s.end, some_head, here, s.counted) (refl, refl, refl, refl, ground arith)
