-- ===== src/LinkedList/Find.antt =====
-- The walks through a list of src/common/structures/list.c.
use sector_os_re.LinkedList.{
  List, ℕ, Option, ListNode, LinkedList, node_from, list_get_node_by_index, destroy_from,
  list_destroy, list_pop, list_push, list_insert_back,
}
use sector_os_re.LinkedList.Sequence.{first, Absent, Linked, IsList}
use sector_os_re.LinkedList.Insert.{list_insert_back-IsList}
use sector_os_re.LinkedList.Remove.{list_pop-IsList}
use sector_os_re.Base.{
  inr, get_elem?-past, zero, ap, refl, inl, false, leb, ◌==◌, suc, Bool-cases, arith, ◌++◌, ◌^◌,
  get_elem?, ◌≡◌, ◌+◌, none, ◌<◌, [], ◌≢◌, some, length, ◌∷◌, ℕ, List, Option,
}

-- The address of a node, or NULL where there is none.
abbrev pub address : Option (ℕ × ℕ) → ℕ
address none = 0
address (some (a, v)) = a

node_from-get_elem? :
    (bs : List (ℕ × ℕ)) (rounds : ℕ) (nodes : ℕ → ListNode) (p i j : ℕ)
    → Linked nodes p bs
    → length bs < rounds
    → node_from rounds nodes (i + j) (first bs) i ≡ some (address (get_elem? bs j))
unfolding node_from
node_from-get_elem? bs zero nodes p i j l fuel = absurd (omega arith)
node_from-get_elem? [] (suc rounds) nodes p i j l fuel = refl
node_from-get_elem? ((b, v) ∷ bs) (suc rounds) nodes p i zero (ne, here, out, l) fuel = ground arith
node_from-get_elem? ((b, v) ∷ bs) (suc rounds) nodes p i (suc j) (ne, here, out, l) fuel =
    let some_node : (b == 0) ≡ false = ground arith in
    let other : (i == i + suc j) ≡ false = ground arith in
    let on : (nodes b).next ≡ first bs = ap {B = ℕ} (λ n. n.next) here in
    let shift : i + 1 + j ≡ i + suc j = omega arith in
    let rest = node_from-get_elem? bs rounds nodes b (i + 1) j l (omega arith) in
    rw (some_node, other, on) (rw shift at rest)

-- list_get_node_by_index ends within one round more than the list has nodes, and answers the node
-- at the index, or NULL past the end.
pub list_get_node_by_index-get_elem? :
    (l : LinkedList) (bs : List (ℕ × ℕ)) (rounds index : ℕ)
    → IsList l bs
    → length bs < rounds
    → list_get_node_by_index rounds l index ≡ some (address (get_elem? bs index))
unfolding list_get_node_by_index
list_get_node_by_index-get_elem? l bs rounds index s fuel = elim (Bool-cases (leb l.size index)) [
  | inl past ↦ let e = s.counted in rw (past, get_elem?-past bs index (ground arith)) refl
  | inr there ↦
      let start : 0 + index ≡ index = omega arith in
      rw (there, s.start)
        (rw start at (node_from-get_elem? bs rounds l.nodes 0 0 index s.linked fuel))
]

-- The addresses behind the first one, and NULL.
abbrev pub behind : List (ℕ × ℕ) → List ℕ
behind [] = []
behind ((b, v) ∷ bs) = first bs ∷ behind bs

destroy_from-behind :
    (bs : List (ℕ × ℕ)) (rounds : ℕ) (nodes : ℕ → ListNode) (p : ℕ)
    → Linked nodes p bs
    → length bs < rounds
    → destroy_from rounds nodes (first bs) ≡ some (behind bs)
unfolding destroy_from
destroy_from-behind bs zero nodes p l fuel = absurd (omega arith)
destroy_from-behind [] (suc rounds) nodes p l fuel = refl
destroy_from-behind ((b, v) ∷ bs) (suc rounds) nodes p (ne, here, out, l) fuel =
    let some_node : (b == 0) ≡ false = ground arith in
    let on : (nodes b).next ≡ first bs = ap {B = ℕ} (λ n. n.next) here in
    rw (some_node, on, destroy_from-behind bs rounds nodes b l (omega arith)) refl

-- list_destroy ends, but of the nodes it frees those behind the first one, then NULL, and last the
-- list: the first node stays allocated.
pub list_destroy-behind :
    (l : LinkedList) (bs : List (ℕ × ℕ)) (rounds list : ℕ)
    → IsList l bs
    → length bs < rounds
    → list ≢ 0
    → list_destroy rounds l list ≡ some (behind bs ++ list ∷ [])
unfolding list_destroy
list_destroy-behind l bs rounds list s fuel ne =
    let some_list : (list == 0) ≡ false = ground arith in
    rw (some_list, s.start, destroy_from-behind bs rounds l.nodes 0 s.linked fuel) refl

-- On a list that is not empty, list_pop after list_push answers the new node, and the list stands
-- for the same sequence as before.
pub list_pop-list_push :
    (l : LinkedList) (fresh val a u : ℕ) (bs : List (ℕ × ℕ))
    → IsList l ((a, u) ∷ bs)
    → fresh ≢ 0
    → Absent fresh ((a, u) ∷ bs)
    → length bs + 2 < 2 ^ 32
    → let (node, l') = list_pop (list_push l fresh val) in (node ≡ fresh) × IsList l' ((a, u) ∷ bs)
unfolding list_push
list_pop-list_push l fresh val a u bs s ne out small =
    let pushed = list_insert_back-IsList l fresh val ((a, u) ∷ bs) s ne out (omega arith) in
    let (node, value, same, popped) =
      list_pop-IsList (list_insert_back l fresh val) a u fresh val bs pushed small in
    (node, popped)
