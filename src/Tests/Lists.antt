-- ===== src/Tests/Lists.antt =====
-- The linked list at concrete inputs.
use esp32base.Base.{ℕ, ◌≡◌, refl, some, [], ◌∷◌, arith}
use esp32base.ZhList.{Heap, ZhList, put, insert, delete}
use esp32base.ZhList.Seg.{Seg}
use esp32base.ZhList.Refine.{IsList, insert-IsList, delete-IsList}
use esp32base.ZhList.Elements.{node_free_and_delete_all}
use esp32base.ZhList.Elements.FreeAll.{node_free_and_delete_all_lem}

abbrev zeros : ℕ → ℕ
zeros a = 0

-- two nodes at 10 and 20, linked; the first has an element at 99
abbrev memory : Heap
memory = record {
  next = put zeros 10 20;
  prev = put zeros 20 10;
  element = put zeros 10 99;
  element_size = zeros;
  ele_type = zeros;
}

abbrev two : ZhList
two = record { head = 10; tail = 20; count = 2 }

two-IsList : IsList (10 ∷ 20 ∷ []) (two, memory)
two-IsList = (
  unfold Seg in (omega arith, refl, refl, (omega arith, refl, refl, tt)),
  refl,
  refl,
  refl,
  ((refl, tt), (tt, tt)),
)

insert-IsList_example : IsList (10 ∷ 15 ∷ 20 ∷ []) (insert 10 15 (two, memory))
insert-IsList_example =
    insert-IsList (10 ∷ []) 15 (20 ∷ []) two memory (omega arith) (refl, (refl, tt)) two-IsList

delete-IsList_example : IsList (20 ∷ []) (delete 10 (two, memory))
delete-IsList_example = delete-IsList [] 10 (20 ∷ []) two memory two-IsList

node_free_and_delete_all_lem_example :
    (s' : ZhList × Heap) × (node_free_and_delete_all 3 (two, memory) ≡ some (s', 99 ∷ 10 ∷ 20 ∷ []))
    × IsList [] s'
node_free_and_delete_all_lem_example =
    node_free_and_delete_all_lem (10 ∷ 20 ∷ []) two memory two-IsList
