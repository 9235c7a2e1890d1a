-- ===== src/LinkedList.antt =====
-- src/common/structures/list.c: doubly linked lists of nodes that the heap supplies. A node is kept
-- by its address; the address 0 is `NULL`, and what the code reads or writes through a NULL pointer
-- is the node 0. `fresh` is the address that `kcalloc` answers; `kfree` leaves the node as it is.
pub mod Sequence
pub mod Insert
pub mod Remove
pub mod Find
mod Tests
use mathlib.Core.Option
use sector_os_re.Base.{
  ◌∷◌, ◌++◌, u32_max, zero, ◌+◌, suc, sub32, add32, [], update, some, leb, List, ◌==◌, none, Option,
  if◌then◌else◌, ℕ,
}

-- `listnode_t`
pub record ListNode : Type 0 where
  pub val : ℕ
  pub next : ℕ
  pub prev : ℕ

-- `list_t`, with the nodes of the heap
pub record LinkedList : Type 0 where
  pub nodes : ℕ → ListNode
  pub head : ℕ
  pub tail : ℕ
  pub size : ℕ

-- what `kcalloc` leaves
abbrev pub zero_node : ListNode
zero_node = record { val = 0; next = 0; prev = 0 }

abbrev pub set_next : (ℕ → ListNode) → ℕ → ℕ → ℕ → ListNode
set_next nodes node v = update nodes node (record (nodes node) { next = v })

abbrev pub set_prev : (ℕ → ListNode) → ℕ → ℕ → ℕ → ListNode
set_prev nodes node v = update nodes node (record (nodes node) { prev = v })

abbrev pub set_val : (ℕ → ListNode) → ℕ → ℕ → ℕ → ListNode
set_val nodes node v = update nodes node (record (nodes node) { val = v })

pub list_create : (ℕ → ListNode) → LinkedList
list_create nodes = record { nodes = nodes; head = 0; tail = 0; size = 0 }

-- `none` for NULL
pub list_size : Option LinkedList → ℕ
list_size none = 0
list_size (some list) = list.size

-- The head is written to before it is compared with NULL.
pub list_insert_front : LinkedList → ℕ → ℕ → LinkedList
list_insert_front list fresh val =
    let n0 = update list.nodes fresh zero_node in
    let n1 = set_prev n0 list.head fresh in
    let n2 = set_next n1 fresh list.head in
    record {
      nodes = set_val n2 fresh val;
      head = fresh;
      tail = if list.head == 0 then fresh else list.tail;
      size = add32 list.size 1;
    }

pub list_insert_back : LinkedList → ℕ → ℕ → LinkedList
list_insert_back list fresh val =
    let n0 = update list.nodes fresh zero_node in
    let n1 = set_prev n0 fresh list.tail in
    let n2 = if list.tail == 0 then n1 else set_next n1 list.tail fresh in
    record {
      nodes = set_val n2 fresh val;
      head = if list.head == 0 then fresh else list.head;
      tail = fresh;
      size = add32 list.size 1;
    }

-- The value 0 is NULL.
pub list_remove_front : LinkedList → ℕ × LinkedList
list_remove_front list =
    let node = list.nodes list.head in
    let nodes' = if node.next == 0 then list.nodes else set_prev list.nodes node.next 0 in
    if list.head == 0
    then (0, list)
    else (node.val, record list { nodes = nodes'; head = node.next; size = sub32 list.size 1 })

-- The part that list_remove_back and list_pop have alike: the last node goes, and `head` stays.
pub drop_tail : LinkedList → LinkedList
drop_tail list =
    let before = (list.nodes list.tail).prev in
    let nodes' = if before == 0 then list.nodes else set_next list.nodes before 0 in
    record list { nodes = nodes'; tail = before; size = sub32 list.size 1 }

pub list_remove_back : LinkedList → ℕ × LinkedList
list_remove_back list =
    if list.head == 0 then (0, list) else ((list.nodes list.tail).val, drop_tail list)

-- The answer is the node.
pub list_pop : LinkedList → ℕ × LinkedList
list_pop list = if list.head == 0 then (0, list) else (list.tail, drop_tail list)

pub list_push : LinkedList → ℕ → ℕ → LinkedList
list_push list fresh val = list_insert_back list fresh val

pub list_enqueue : LinkedList → ℕ → ℕ → LinkedList
list_enqueue list fresh val = list_insert_front list fresh val

pub list_dequeue : LinkedList → ℕ × LinkedList
list_dequeue list = list_pop list

pub list_peek_front : LinkedList → ℕ
list_peek_front list = if list.head == 0 then 0 else (list.nodes list.head).val

pub list_peek_back : LinkedList → ℕ
list_peek_back list = if list.tail == 0 then 0 else (list.nodes list.tail).val

-- `foreach`, on fuel; `none` is a walk that has not come to the end. The index is an `int`: -1 is
-- `2 ^ 32 - 1`.
pub contain_from : ℕ → (ℕ → ListNode) → ℕ → ℕ → ℕ → Option ℕ
contain_from zero nodes val node index = none
contain_from (suc rounds) nodes val node index =
    let rest = contain_from rounds nodes val (nodes node).next (index + 1) in
    if node == 0 then some u32_max else if (nodes node).val == val then some index else rest

pub list_contain : ℕ → LinkedList → ℕ → Option ℕ
list_contain rounds list val = contain_from rounds list.nodes val list.head 0

pub node_from : ℕ → (ℕ → ListNode) → ℕ → ℕ → ℕ → Option ℕ
node_from zero nodes index node i = none
node_from (suc rounds) nodes index node i =
    let rest = node_from rounds nodes index (nodes node).next (i + 1) in
    if node == 0 then some 0 else if i == index then some node else rest

-- `index` is from 0 on.
pub list_get_node_by_index : ℕ → LinkedList → ℕ → Option ℕ
list_get_node_by_index rounds list index =
    if leb list.size index then some 0 else node_from rounds list.nodes index list.head 0

pub list_remove_node : LinkedList → ℕ → ℕ × LinkedList
list_remove_node list node =
    let n = list.nodes node in
    let n1 = set_prev list.nodes n.next n.prev in
    let n2 = set_next n1 (n1 node).prev (n1 node).next in
    if list.head == node
    then list_remove_front list
    else if list.tail == node
    then list_remove_back list
    else (n.val, record list { nodes = n2; size = sub32 list.size 1 })

-- What the function answers is not set.
pub list_remove_by_index : ℕ → LinkedList → ℕ → Option LinkedList
list_remove_by_index rounds list index =
    Option.map (λ node. (list_remove_node list node).1) (list_get_node_by_index rounds list index)

-- The addresses that `kfree` is given: the loop frees the node that it goes on to.
pub destroy_from : ℕ → (ℕ → ListNode) → ℕ → Option (List ℕ)
destroy_from zero nodes node = none
destroy_from (suc rounds) nodes node =
    let rest = destroy_from rounds nodes (nodes node).next in
    if node == 0 then some [] else Option.map (λ freed. (nodes node).next ∷ freed) rest

-- `list` is the address of the list.
pub list_destroy : ℕ → LinkedList → ℕ → Option (List ℕ)
list_destroy rounds l list =
    if list == 0
    then some []
    else Option.map (λ freed. freed ++ list ∷ []) (destroy_from rounds l.nodes l.head)
