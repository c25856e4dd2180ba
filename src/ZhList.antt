-- ===== src/ZhList.antt =====
-- components/zhlist/zhlist.c: the doubly linked list of the tools, over a heap. The list of elements
-- that zhlist_exp.c builds on it is `ZhList.Elements`.
pub mod Seg
pub mod Refine
pub mod Walk
pub mod Elements
use esp32base.Base.{
  ℕ, zero, suc, ◌+◌, ◌-◌, Option, none, some, List, [], ◌∷◌, ◌++◌, ◌==◌, if◌then◌else◌,
}

-- The fields of the nodes in memory, by address; 0 is NULL. The last three are those that
-- `TzhListElementNode` adds.
pub record Heap : Type 0 where
  pub next : ℕ → ℕ
  pub prev : ℕ → ℕ
  pub element : ℕ → ℕ
  pub element_size : ℕ → ℕ
  pub ele_type : ℕ → ℕ

-- `TzhList`, whose node's fields are named HEAD and TAIL
pub record ZhList : Type 0 where
  pub head : ℕ
  pub tail : ℕ
  pub count : ℕ

-- an assignment to one node's field
abbrev pub put : (ℕ → ℕ) → ℕ → ℕ → ℕ → ℕ
put f a v b = if b == a then v else f b

-- `zhListInit`
abbrev pub list_init : ZhList
list_init = record { head = 0; tail = 0; count = 0 }

-- `if(prev == NULL) pList->HEAD = node; else prev->next = node;`, in both the insertion and the deletion
unfoldable pub link_forward : ℕ → ℕ → ZhList × Heap → ZhList × Heap
link_forward prev node (l, h) =
    if prev == 0
    then (record l { head = node }, h)
    else (l, record h { next = put h.next prev node })

-- `if(next == NULL) pList->TAIL = node; else next->prev = node;`, in both
unfoldable pub link_back : ℕ → ℕ → ZhList × Heap → ZhList × Heap
link_back next node (l, h) =
    if next == 0
    then (record l { tail = node }, h)
    else (l, record h { prev = put h.prev next node })

-- the end of `zhListInsert`: the pointers of the new node, and the count
unfoldable pub set_node : ℕ → ℕ → ℕ → ZhList × Heap → ZhList × Heap
set_node node next prev (l, h) = (
  record l { count = l.count + 1 },
  record h { next = put h.next node next; prev = put h.prev node prev },
)

-- `zhListInsert`
unfoldable pub insert : ℕ → ℕ → ZhList × Heap → ZhList × Heap
insert prev node (l, h) =
    let next = if prev == 0 then l.head else h.next prev in
    set_node node next prev (link_back next node (link_forward prev node (l, h)))

-- `zhListAdd`
unfoldable pub add : ℕ → ZhList × Heap → ZhList × Heap
add node (l, h) = insert l.tail node (l, h)

abbrev pub one_less : ZhList × Heap → ZhList × Heap
one_less (l, h) = (record l { count = l.count - 1 }, h)

-- the second half of `zhListDelete`
unfoldable pub unlink_back : ℕ → ZhList × Heap → ZhList × Heap
unlink_back node (l, h) = one_less (link_back (h.next node) (h.prev node) (l, h))

-- `zhListDelete`
unfoldable pub delete : ℕ → ZhList × Heap → ZhList × Heap
delete node (l, h) = unlink_back node (link_forward (h.prev node) (h.next node) (l, h))

-- The loop of `zhListFind` with fuel: `some none` is -1, and `none` is a loop that goes on.
unfoldable pub find_from : ℕ → Heap → ℕ → ℕ → ℕ → Option (Option ℕ)
find_from zero h node at_node index = none
find_from (suc fuel) h node at_node index =
    let rest = find_from fuel h node (h.next at_node) (index + 1) in
    if at_node == 0 then some none else if at_node == node then some (some index) else rest

-- `zhListFind`
unfoldable pub find : ℕ → ℕ → ZhList × Heap → Option (Option ℕ)
find fuel node (l, h) = find_from fuel h node l.head 1

abbrev pub then_free : ℕ → Option (List ℕ) → Option (List ℕ)
then_free p none = none
then_free p (some freed) = some (p ∷ freed)

-- the loop of `zhListFree` with fuel: the addresses it frees, in order
unfoldable pub free_from : ℕ → Heap → ℕ → Option (List ℕ)
free_from zero h p = none
free_from (suc fuel) h p =
    let rest = then_free p (free_from fuel h (h.next p)) in if p == 0 then some [] else rest

-- `zhListFree`: the list after it, and what is freed
unfoldable pub free : ℕ → ZhList × Heap → Option (ZhList × List ℕ)
free fuel (l, h) =
    if l.count == 0
    then some (l, [])
    else elim (free_from fuel h l.head) [ none ↦ none | some freed ↦ some (list_init, freed) ]
