-- ===== src/ZhList/Elements.antt =====
-- components/zhlist/zhlist_exp.c: the list of elements.
pub mod Laws
pub mod FreeAll
pub mod Kept
use esp32base.Base.{
  ℕ, zero, suc, ◌+◌, ◌-◌, Option, none, some, List, [], ◌∷◌, ◌++◌, ◌==◌, ltb, if◌then◌else◌,
}
use esp32base.ZhList.{Heap, ZhList, put, add, delete}

-- what an operation returns (0 is NULL), the list after it, and what it frees, in order
abbrev pub Done : Type 0
Done = ℕ × ((ZhList × Heap) × List ℕ)

-- the loops of `zhListNodeFind` and `zhListNodeFindWithObject`, with fuel; the result is a node or NULL
unfoldable pub node_find_from : ℕ → Heap → ℕ → ℕ → Option ℕ
node_find_from zero h node at_node = none
node_find_from (suc fuel) h node at_node =
    let rest = node_find_from fuel h node (h.next at_node) in
    if at_node == 0 then some 0 else if at_node == node then some at_node else rest

unfoldable pub object_find_from : ℕ → Heap → ℕ → ℕ → Option ℕ
object_find_from zero h element at_node = none
object_find_from (suc fuel) h element at_node =
    let rest = object_find_from fuel h element (h.next at_node) in
    if at_node == 0 then some 0 else if h.element at_node == element then some at_node else rest

-- `zhListNodeFind`
unfoldable pub node_find : ℕ → ℕ → ZhList × Heap → Option ℕ
node_find fuel node (l, h) = node_find_from fuel h node l.head

-- `zhListNodeFindWithObject`
unfoldable pub node_find_with_object : ℕ → ℕ → ZhList × Heap → Option ℕ
node_find_with_object fuel element (l, h) = object_find_from fuel h element l.head

-- `for(i=0;i<index;i++) eleNode=zhListNext(eleNode);`
unfoldable pub step : ℕ → Heap → ℕ → ℕ
step zero h node = node
step (suc index) h node = step index h (h.next node)

-- `zhListNodeFindWithIndex`
unfoldable pub node_find_with_index : ℕ → ZhList × Heap → ℕ
node_find_with_index index (l, h) = if ltb index l.count then step index h l.head else 0

-- `zhListNodeAdd`, given what `calloc` returns
unfoldable pub node_add : (calloc element size ele_type : ℕ) → ZhList × Heap → ℕ × (ZhList × Heap)
node_add node element size ele_type (l, h) = if node == 0 then (0, (l, h)) else (
  node,
  add node (
    l,
    record h {
      next = put h.next node 0;
      prev = put h.prev node 0;
      element = put h.element node element;
      element_size = put h.element_size node size;
      ele_type = put h.ele_type node ele_type;
    },
  ),
)

-- `zhListNodePopFirst`
unfoldable pub node_pop_first : ZhList × Heap → Done
node_pop_first (l, h) =
    if l.head == 0 then (0, ((l, h), [])) else (h.next l.head, (delete l.head (l, h), l.head ∷ []))

-- `zhListNodePopBack`
unfoldable pub node_pop_back : ZhList × Heap → Done
node_pop_back (l, h) =
    if l.tail == 0 then (0, ((l, h), [])) else (h.prev l.tail, (delete l.tail (l, h), l.tail ∷ []))

-- `zhListNodeDelete`
unfoldable pub node_delete : ℕ → ZhList × Heap → Done
node_delete node (l, h) =
    if node == 0 then (0, ((l, h), [])) else (h.next node, (delete node (l, h), node ∷ []))

-- `zhListNodeFree`, and the same lines in the loops: the memory after it, and what it frees
unfoldable pub node_free : ℕ → Heap → Heap × List ℕ
node_free node h = if h.element node == 0 then (h, []) else (
  record h {
    element = put h.element node 0;
    element_size = put h.element_size node 0;
    ele_type = put h.ele_type node 0;
  },
  h.element node ∷ [],
)

-- `zhListNodeFreeAndDelete`
unfoldable pub node_free_and_delete : ℕ → ZhList × Heap → Done
node_free_and_delete node (l, h) =
    let (l1, h1) = delete node (l, h) in
    let (h2, freed) = node_free node h1 in
    if node == 0 then (0, ((l, h), [])) else (h.next node, ((l1, h2), freed ++ node ∷ []))

abbrev pub after_free {ℓ} : {S : Type ℓ} → List ℕ → Option (S × List ℕ) → Option (S × List ℕ)
after_free freed none = none
after_free freed (some (s, rest)) = some (s, freed ++ rest)

-- the loop of `zhListNodeFreeAndDeleteAll` with fuel
unfoldable pub free_and_delete_from : ℕ → ℕ → ZhList × Heap → Option ((ZhList × Heap) × List ℕ)
free_and_delete_from zero node s = none
free_and_delete_from (suc fuel) node (l, h) =
    let (h1, element_freed) = node_free node h in
    let (next, (s1, node_freed)) = node_delete node (l, h1) in
    let rest = after_free (element_freed ++ node_freed) (free_and_delete_from fuel next s1) in
    if node == 0 then some ((l, h), []) else rest

-- `zhListNodeFreeAndDeleteAll`
unfoldable pub node_free_and_delete_all : ℕ → ZhList × Heap → Option ((ZhList × Heap) × List ℕ)
node_free_and_delete_all fuel (l, h) = free_and_delete_from fuel l.head (l, h)

-- the loop of `zhListNodeDeleteAll` with fuel
unfoldable pub delete_from : ℕ → ℕ → ZhList × Heap → Option ((ZhList × Heap) × List ℕ)
delete_from zero node s = none
delete_from (suc fuel) node s =
    let (next, (s1, freed)) = node_delete node s in
    let rest = after_free freed (delete_from fuel next s1) in
    if node == 0 then some (s, []) else rest

-- `zhListNodeDeleteAll`
unfoldable pub node_delete_all : ℕ → ZhList × Heap → Option ((ZhList × Heap) × List ℕ)
node_delete_all fuel (l, h) = delete_from fuel l.head (l, h)

-- the loop of `zhListNodeFreeAll` with fuel, which leaves the nodes in the list
unfoldable pub free_all_from : ℕ → ℕ → Heap → Option (Heap × List ℕ)
free_all_from zero ele_node h = none
free_all_from (suc fuel) ele_node h =
    let (h1, element_freed) = node_free ele_node h in
    let rest = after_free element_freed (free_all_from fuel (h1.next ele_node) h1) in
    if ele_node == 0 then some (h, []) else rest

-- `zhListNodeFreeAll`
unfoldable pub node_free_all : ℕ → ZhList × Heap → Option (Heap × List ℕ)
node_free_all fuel (l, h) = free_all_from fuel l.head h
