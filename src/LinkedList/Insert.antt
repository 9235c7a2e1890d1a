-- ===== src/LinkedList/Insert.antt =====
-- Adding to either end of a list of src/common/structures/list.c.
use sector_os_re.LinkedList.{
  ℕ, List, ListNode, LinkedList, zero_node, set_next, set_prev, set_val, list_insert_front,
  list_insert_back,
}
use sector_os_re.LinkedList.Sequence.{
  last, Absent, Linked, IsList, Linked-off, Absent-last, Absent-append, last-append, last-ne,
}
use sector_os_re.Base.{
  suc, refl, length-append, update, arith, false, ◌==◌, sym, add32, ◌^◌, ap, ◌∙◌, ◌<◌, [], ◌+◌,
  ◌++◌, length, ◌≡◌, ◌≢◌, ◌∷◌, List, ℕ,
}

-- list_insert_front puts a new node in front of a list that is not empty.
pub list_insert_front-IsList :
    (l : LinkedList) (fresh val b v : ℕ) (bs : List (ℕ × ℕ))
    → IsList l ((b, v) ∷ bs)
    → fresh ≢ 0
    → Absent fresh ((b, v) ∷ bs)
    → length bs + 2 < 2 ^ 32
    → IsList (list_insert_front l fresh val) ((fresh, val) ∷ (b, v) ∷ bs)
unfolding list_insert_front
list_insert_front-IsList l fresh val b v bs s ne (neb, out) small =
    let (nb, here, outb, rest) = s.linked in
    let some_head : (l.head == 0) ≡ false = let e = s.start in ground arith in
    let more : add32 l.size 1 ≡ suc (suc (length bs)) = let e = s.counted in omega arith in
    let n0 = update l.nodes fresh zero_node in
    let n1 = set_prev n0 b fresh in
    let n2 = set_next n1 fresh b in
    let nodes' = set_val n2 fresh val in
    rw (some_head, s.start)
      (record {
        start = refl;
        end = s.end;
        counted = more;
        linked = (
          ne,
          ground arith,
          (neb, out),
          (
            nb,
            ground arith,
            outb,
            Linked-off bs l.nodes nodes' b fresh b (λ c c1 c2. ground arith) out outb rest,
          ),
        );
      })

-- What list_insert_back does to the nodes, where `t` is the last one.
record Extended (nodes : ℕ → ListNode) (t fresh val : ℕ) (nodes' : ℕ → ListNode) : Type 0 where
  at_end : nodes' t ≡ record (nodes t) { next = fresh }
  at_new : nodes' fresh ≡ record { val = val; next = 0; prev = t }
  elsewhere : (c : ℕ) → c ≢ t → c ≢ fresh → nodes' c ≡ nodes c

Linked-Extended :
    (bs : List (ℕ × ℕ)) (nodes : ℕ → ListNode) (p a v fresh val : ℕ) (nodes' : ℕ → ListNode)
    → fresh ≢ 0
    → Absent fresh ((a, v) ∷ bs)
    → Extended nodes (last a bs) fresh val nodes'
    → Linked nodes p ((a, v) ∷ bs)
    → Linked nodes' p ((a, v) ∷ (bs ++ (fresh, val) ∷ []))
Linked-Extended [] nodes p a v fresh val nodes' ne (nea, out) x (na, here, outa, rest) = (
  na,
  x.at_end ∙ ap {B = ListNode} (λ n. record n { next = fresh }) here,
  ((λ e. nea (sym e)), tt),
  (ne, x.at_new, tt, tt),
)
Linked-Extended ((b, w) ∷ bs) nodes p a v fresh val nodes' ne (nea, out) x (na, here, outa, rest) =
    (
      na,
      x.elsewhere a (Absent-last a b w bs outa) (λ e. nea (sym e)) ∙ here,
      Absent-append a fresh val ((b, w) ∷ bs) outa (λ e. nea (sym e)),
      Linked-Extended bs nodes a b w fresh val nodes' ne out x rest,
    )

-- list_insert_back puts a new node behind a list.
pub list_insert_back-IsList :
    (l : LinkedList) (fresh val : ℕ) (bs : List (ℕ × ℕ))
    → IsList l bs
    → fresh ≢ 0
    → Absent fresh bs
    → length bs + 1 < 2 ^ 32
    → IsList (list_insert_back l fresh val) (bs ++ (fresh, val) ∷ [])
unfolding list_insert_back
list_insert_back-IsList l fresh val [] s ne out small =
    let more : add32 l.size 1 ≡ 1 = let e = s.counted in omega arith in
    rw (s.start, s.end)
      (record { start = refl; end = refl; counted = more; linked = (ne, ground arith, tt, tt) })
list_insert_back-IsList l fresh val ((a, v) ∷ bs) s ne out small =
    let t = last a bs in
    let na = s.linked.0 in
    let nt = last-ne l.nodes 0 a v bs s.linked in
    let new : fresh ≢ t = Absent-last fresh a v bs out in
    let some_head : (a == 0) ≡ false = ground arith in
    let some_tail : (t == 0) ≡ false = ground arith in
    let more : add32 l.size 1 ≡ suc (length (bs ++ (fresh, val) ∷ [])) =
      let e = s.counted in omega (arith, length-append bs ((fresh, val) ∷ [])) in
    let n0 = update l.nodes fresh zero_node in
    let n1 = set_prev n0 fresh t in
    let nodes' = set_val (set_next n1 t fresh) fresh val in
    rw (s.start, s.end, some_head, some_tail)
      (record {
        start = refl;
        end = sym (last-append a fresh val bs);
        counted = more;
        linked =
            Linked-Extended bs l.nodes 0 a v fresh val nodes' ne out
              (record {
                at_end = ground arith;
                at_new = ground arith;
                elsewhere = λ c c1 c2. ground arith;
              })
              s.linked;
      })
