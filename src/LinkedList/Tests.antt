-- ===== src/LinkedList/Tests.antt =====
-- The theorems about src/common/structures/list.c on lists of a few nodes.
use sector_os_re.LinkedList.{
  list_remove_node, contain_from, node_from, ListNode, list_enqueue, list_create, list_insert_front,
  list_peek_back, list_pop, list_size, list_dequeue, list_remove_by_index, LinkedList,
  list_peek_front, list_get_node_by_index, list_contain,
}
use sector_os_re.Base.{arith, some, [], refl, ◌∷◌, update, ◌≡◌, ℕ}
use sector_os_re.LinkedList.Sequence.{Absent, IsList}

-- Three nodes at 100, 200 and 300.
abbrev three_nodes : ℕ → ListNode
three_nodes =
    update
      (update
        (update (λ _. record { val = 0; next = 0; prev = 0 }) 100
          (record { val = 7; next = 200; prev = 0 }))
        200 (record { val = 8; next = 300; prev = 100 }))
      300 (record { val = 9; next = 0; prev = 200 })

abbrev three : LinkedList
three = record { nodes = three_nodes; head = 100; tail = 300; size = 3 }

three-IsList : IsList three ((100, 7) ∷ (200, 8) ∷ (300, 9) ∷ [])
three-IsList = record {
  start = refl;
  end = refl;
  counted = refl;
  linked = (
    omega arith,
    refl,
    (omega arith, (omega arith, tt)),
    (omega arith, refl, (omega arith, tt), (omega arith, refl, tt, tt)),
  );
}

absent : Absent 400 ((100, 7) ∷ (200, 8) ∷ (300, 9) ∷ [])
absent = (omega arith, (omega arith, (omega arith, tt)))

abbrev one : LinkedList
one = record {
  nodes = update three_nodes 100 (record { val = 7; next = 0; prev = 0 });
  head = 100;
  tail = 100;
  size = 1;
}

one-IsList : IsList one ((100, 7) ∷ [])
one-IsList = record {
  start = refl;
  end = refl;
  counted = refl;
  linked = (omega arith, refl, tt, tt);
}

created : list_size (some (list_create three_nodes)) ≡ 0
unfolding list_size list_create
created = refl

found : list_contain 4 three 9 ≡ some 2
unfolding list_contain contain_from
found = refl

ends : (list_peek_front three ≡ 7) × (list_peek_back three ≡ 9)
unfolding list_peek_front list_peek_back
ends = (refl, refl)

-- A queue of the two ends answers the value that came first.
queue : (list_dequeue (list_enqueue three 400 5)).0 ≡ 300
unfolding list_dequeue list_enqueue list_insert_front list_pop
queue = refl

middle_gone : list_remove_by_index 4 three 1 ≡ some (list_remove_node three 200).1
unfolding list_remove_by_index list_get_node_by_index node_from
middle_gone = refl

middle_linked : ((list_remove_node three 200).1.nodes 100).next ≡ 300
unfolding list_remove_node
middle_linked = refl
