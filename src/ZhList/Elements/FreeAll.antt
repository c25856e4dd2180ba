-- ===== src/ZhList/Elements/FreeAll.antt =====
-- `zhListNodeFreeAndDeleteAll` of components/zhlist/zhlist_exp.c on a list of nodes.
use esp32base.Base.{
  ℕ, zero, suc, ◌<◌, ◌≡◌, refl, ap, ◌∙◌, false, some, List, [], ◌∷◌, ◌++◌, append_assoc, ◌==◌,
  arith, if◌then◌else◌, length, Bool-cases, inl, inr,
}
use esp32base.ZhList.{Heap, ZhList, put, delete}
use esp32base.ZhList.Seg.{first_or, Fresh, Seg-head}
use esp32base.ZhList.Refine.{IsList, delete-IsList}
use esp32base.ZhList.Elements.{
  node_delete, node_free, free_and_delete_from, node_free_and_delete_all,
}
use esp32base.ZhList.Elements.Laws.{Seg-elements, delete-element}

abbrev pub owned_by : ℕ → List ℕ
owned_by element = if element == 0 then [] else element ∷ []

-- What a list owns, in the order of the nodes: of each node its element, if it has one, and the node.
abbrev pub owned : (ℕ → ℕ) → List ℕ → List ℕ
owned f [] = []
owned f (x ∷ xs) = owned_by (f x) ++ x ∷ owned f xs

owned-put : (f : ℕ → ℕ) (a v : ℕ) (xs : List ℕ) → Fresh a xs → owned (put f a v) xs ≡ owned f xs
owned-put f a v [] fresh = refl
owned-put f a v (x ∷ xs) (e, fresh) =
    rw e (ap (λ t. owned_by (f x) ++ x ∷ t) (owned-put f a v xs fresh))

node_free-IsList :
    (a : ℕ) (xs ys : List ℕ) (l : ZhList) (h : Heap)
    → Fresh a ys
    → IsList xs (l, h)
    → IsList xs (l, (node_free a h).0)
      × ((node_free a h).1 ≡ owned_by (h.element a))
      × (owned (node_free a h).0.element ys ≡ owned h.element ys)
unfolding node_free
node_free-IsList a xs ys l h fresh (s, hd, tl, cnt, d) = elim (Bool-cases (h.element a == 0)) [
  | inl e ↦ rw e ((s, hd, tl, cnt, d), refl, refl)
  | inr e ↦ rw e (
    (
      Seg-elements h (put h.element a 0) (put h.element_size a 0) (put h.ele_type a 0) 0 xs 0 s,
      hd,
      tl,
      cnt,
      d,
    ),
    refl,
    owned-put h.element a 0 ys fresh,
  )
]

node_delete-node :
    (x q : ℕ) (l : ZhList) (h : Heap)
    → 0 < x
    → h.next x ≡ q
    → node_delete x (l, h) ≡ (q, (delete x (l, h), x ∷ []))
unfolding node_delete
node_delete-node x q l h pos e = let node : (x == 0) ≡ false = ground arith in rw (node, e) refl

round :
    (fuel x q : ℕ) (l : ZhList) (h : Heap) (s' : ZhList × Heap) (freed rest : List ℕ)
    → 0 < x
    → (node_free x h).1 ≡ freed
    → (node_free x h).0.next x ≡ q
    → free_and_delete_from fuel q (delete x (l, (node_free x h).0)) ≡ some (s', rest)
    → free_and_delete_from (suc fuel) x (l, h) ≡ some (s', freed ++ x ∷ rest)
unfolding free_and_delete_from
round fuel x q l h s' freed rest pos e nx r =
    let node : (x == 0) ≡ false = ground arith in
    rw (node, node_delete-node x q l (node_free x h).0 pos nx, e, r)
      (ap (λ t. some (s', t)) (append_assoc freed (x ∷ []) rest))

all-from :
    (fuel : ℕ) (xs : List ℕ) (l : ZhList) (h : Heap)
    → length xs < fuel
    → IsList xs (l, h)
    → (s' : ZhList × Heap) × (free_and_delete_from fuel (first_or xs 0) (l, h)
        ≡ some (s', owned h.element xs))
      × IsList [] s'
all-from zero xs l h k list = absurd (omega arith)
all-from (suc fuel) [] l h k list = ((l, h), unfold free_and_delete_from in refl, list)
all-from (suc fuel) (x ∷ xs) l h k list =
    let (_, _, _, _, (fresh, _)) = list in
    let h1 = (node_free x h).0 in
    let (list1, freed, owned1) = node_free-IsList x (x ∷ xs) xs l h fresh list in
    let (s, _, _, _, _) = list1 in
    let (pos, _, forth, _) = Seg-head h1 0 x xs 0 s in
    let s1 = delete x (l, h1) in
    let (s', r, empty) =
      all-from fuel xs s1.0 s1.1 (omega arith) (delete-IsList [] x xs l h1 list1) in
    let kept : owned s1.1.element xs ≡ owned h.element xs =
      ap (λ f. owned f xs) (delete-element x l h1) ∙ owned1 in
    (
      s',
      round fuel x (first_or xs 0) l h s' (owned_by (h.element x)) (owned h.element xs) pos freed
          forth (r ∙ ap (λ t. some (s', t)) kept),
      empty,
    )

-- Each element is freed where there is one, and each node once, in the order of the list, with fuel
-- for one round more than the list is long; the list is empty then.
pub node_free_and_delete_all_lem :
    (xs : List ℕ) (l : ZhList) (h : Heap)
    → IsList xs (l, h)
    → (s' : ZhList × Heap) × (node_free_and_delete_all (suc l.count) (l, h)
        ≡ some (s', owned h.element xs))
      × IsList [] s'
unfolding node_free_and_delete_all
node_free_and_delete_all_lem xs l h list =
    let (s, hd, tl, cnt, d) = list in
    let (s', r, empty) = all-from (suc l.count) xs l h (omega arith) list in
    (s', ap (λ p. free_and_delete_from (suc l.count) p (l, h)) hd ∙ r, empty)
