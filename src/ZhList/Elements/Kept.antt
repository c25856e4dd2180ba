-- ===== src/ZhList/Elements/Kept.antt =====
-- `zhListNodeFreeAll` of components/zhlist/zhlist_exp.c on a list of nodes.
use esp32base.Base.{
  ℕ, zero, suc, ◌<◌, ◌≡◌, refl, ap, ◌∙◌, false, some, List, [], ◌∷◌, ◌++◌, ◌==◌, arith, length,
  Bool-cases, inl, inr,
}
use esp32base.ZhList.{Heap, ZhList, put}
use esp32base.ZhList.Seg.{first_or, Seg, Fresh, Distinct, Seg-head}
use esp32base.ZhList.Refine.{IsList}
use esp32base.ZhList.Elements.{node_free, free_all_from, node_free_all}
use esp32base.ZhList.Elements.Laws.{Seg-elements}
use esp32base.ZhList.Elements.FreeAll.{owned_by}

-- the elements of a list, in the order of the nodes, of those that have one
abbrev pub elements_of : (ℕ → ℕ) → List ℕ → List ℕ
elements_of f [] = []
elements_of f (x ∷ xs) = owned_by (f x) ++ elements_of f xs

elements_of-put :
    (f : ℕ → ℕ) (a v : ℕ) (xs : List ℕ) → Fresh a xs → elements_of (put f a v) xs ≡ elements_of f xs
elements_of-put f a v [] fresh = refl
elements_of-put f a v (x ∷ xs) (e, fresh) =
    rw e (ap (λ t. owned_by (f x) ++ t) (elements_of-put f a v xs fresh))

-- every segment of one heap is a segment of another
abbrev Keeps : Heap → Heap → Type 0
Keeps h h' = (p : ℕ) (ys : List ℕ) (q : ℕ) → Seg h p ys q → Seg h' p ys q

node_free-Keeps :
    (a : ℕ) (ys : List ℕ) (h : Heap)
    → Fresh a ys
    → Keeps h (node_free a h).0
      × ((node_free a h).1 ≡ owned_by (h.element a))
      × (elements_of (node_free a h).0.element ys ≡ elements_of h.element ys)
unfolding node_free
node_free-Keeps a ys h fresh = elim (Bool-cases (h.element a == 0)) [
  | inl e ↦ rw e ((λ p zs q s. s), refl, refl)
  | inr e ↦ rw e (
    (λ p zs q s.
        Seg-elements h (put h.element a 0) (put h.element_size a 0) (put h.ele_type a 0) p zs q s),
    refl,
    elements_of-put h.element a 0 ys fresh,
  )
]

all-from :
    (fuel : ℕ) (p : ℕ) (xs : List ℕ) (h : Heap)
    → length xs < fuel
    → Distinct xs
    → Seg h p xs 0
    → (h' : Heap) × (free_all_from fuel (first_or xs 0) h ≡ some (h', elements_of h.element xs))
      × Keeps h h'
unfolding free_all_from
all-from zero p xs h k d s = absurd (omega arith)
all-from (suc fuel) p [] h k d s = (h, refl, λ p ys q t. t)
all-from (suc fuel) p (x ∷ xs) h k (fresh, d) s =
    let h1 = (node_free x h).0 in
    let (keeps, freed, kept) = node_free-Keeps x xs h fresh in
    let (pos, back, forth, rest) = Seg-head h1 p x xs 0 (keeps p (x ∷ xs) 0 s) in
    let (h', r, keeps') = all-from fuel x xs h1 (omega arith) d rest in
    let node : (x == 0) ≡ false = ground arith in
    (h', rw (node, forth, r, freed, kept) refl, λ p' ys q t. keeps' p' ys q (keeps p' ys q t))

-- `zhListNodeFreeAll` frees the element of each node that has one, in the order of the list, with fuel
-- for one round more than the list is long, and the list holds the same nodes after it.
pub node_free_all_lem :
    (xs : List ℕ) (l : ZhList) (h : Heap)
    → IsList xs (l, h)
    → (h' : Heap) × (node_free_all (suc l.count) (l, h) ≡ some (h', elements_of h.element xs))
      × IsList xs (l, h')
unfolding node_free_all
node_free_all_lem xs l h (s, hd, tl, cnt, d) =
    let (h', r, keeps) = all-from (suc l.count) 0 xs h (omega arith) d s in
    (h', ap (λ p. free_all_from (suc l.count) p h) hd ∙ r, (keeps 0 xs 0 s, hd, tl, cnt, d))
