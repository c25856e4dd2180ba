-- ===== src/ZhList/Elements/Laws.antt =====
-- The list of elements as a queue, a stack and a sequence, and what freeing it frees.
use esp32base.Base.{
  ℕ, zero, suc, ◌≤◌, ◌<◌, ◌≡◌, refl, ap, ◌∙◌, true, false, List, [], ◌∷◌, ◌++◌, append-nil, ◌==◌,
  ltb, arith, length, get_or, Bool-cases, inl, inr, subst,
}
use esp32base.ZhList.{
  Heap, ZhList, put, add, delete, insert, link_forward, link_back, set_node, unlink_back,
}
use esp32base.ZhList.Seg.{
  first_or, last_or, Seg, Fresh, Seg-head, Seg-split, Seg-put_next, Seg-put_prev, last_or-append,
}
use esp32base.ZhList.Refine.{IsList, add-IsList, delete-IsList}
use esp32base.ZhList.Elements.{node_find_with_index, step, node_add, node_pop_first, node_pop_back}

-- the elements of some nodes
abbrev pub elements : (ℕ → ℕ) → List ℕ → List ℕ
elements f [] = []
elements f (x ∷ xs) = f x ∷ elements f xs

elements-put :
    (f : ℕ → ℕ) (a v : ℕ) (xs : List ℕ) → Fresh a xs → elements (put f a v) xs ≡ elements f xs
elements-put f a v [] fresh = refl
elements-put f a v (x ∷ xs) (e, fresh) = rw e (ap (λ t. f x ∷ t) (elements-put f a v xs fresh))

elements-append :
    (f : ℕ → ℕ) (xs ys : List ℕ) → elements f (xs ++ ys) ≡ elements f xs ++ elements f ys
elements-append f [] ys = refl
elements-append f (x ∷ xs) ys = ap (λ t. f x ∷ t) (elements-append f xs ys)

-- the list's operations leave the elements
link_forward-element :
    (a v : ℕ) (l : ZhList) (h : Heap) → (link_forward a v (l, h)).1.element ≡ h.element
unfolding link_forward
link_forward-element a v l h = elim (Bool-cases (a == 0)) [ inl e ↦ rw e refl | inr e ↦ rw e refl ]

link_back-element : (a v : ℕ) (l : ZhList) (h : Heap) → (link_back a v (l, h)).1.element ≡ h.element
unfolding link_back
link_back-element a v l h = elim (Bool-cases (a == 0)) [ inl e ↦ rw e refl | inr e ↦ rw e refl ]

add-element : (n : ℕ) (l : ZhList) (h : Heap) → (add n (l, h)).1.element ≡ h.element
unfolding add insert set_node
add-element n l h =
    let s1 = link_forward l.tail n (l, h) in
    link_back-element _ n s1.0 s1.1 ∙ link_forward-element l.tail n l h

pub delete-element : (n : ℕ) (l : ZhList) (h : Heap) → (delete n (l, h)).1.element ≡ h.element
unfolding delete unlink_back
delete-element n l h =
    let s1 = link_forward (h.prev n) (h.next n) (l, h) in
    link_back-element (s1.1.next n) (s1.1.prev n) s1.0 s1.1
    ∙ link_forward-element (h.prev n) (h.next n) l h

pub Seg-elements :
    (h : Heap) (e s t : ℕ → ℕ) (p : ℕ) (us : List ℕ) (q : ℕ)
    → Seg h p us q
    → Seg (record h { element = e; element_size = s; ele_type = t }) p us q
unfolding Seg
Seg-elements h e s t p [] q g = tt
Seg-elements h e s t p (x ∷ us) q (pos, back, forth, g) =
    (pos, back, forth, Seg-elements h e s t x us q g)

-- Where `calloc` gives a new address, the node is appended with its element, and the other elements
-- stay; where it gives NULL, that is returned and nothing changes.
pub node_add-IsList :
    (xs : List ℕ) (n element size ele_type : ℕ) (l : ZhList) (h : Heap)
    → 0 < n
    → Fresh n xs
    → IsList xs (l, h)
    → (s' : ZhList × Heap) × (node_add n element size ele_type (l, h) ≡ (n, s'))
      × IsList (xs ++ n ∷ []) s'
      × (elements s'.1.element (xs ++ n ∷ []) ≡ elements h.element xs ++ element ∷ [])
      × (node_add 0 element size ele_type (l, h) ≡ (0, (l, h)))
unfolding node_add
node_add-IsList xs n element size ele_type l h pos fresh (s, hd, tl, cnt, d) =
    let node : (n == 0) ≡ false = ground arith in
    let same : (n == n) ≡ true = ground arith in
    let h0 = record h { next = put h.next n 0 } in
    let h1 = record h0 { prev = put h.prev n 0 } in
    let h2 = record h1 {
      element = put h.element n element;
      element_size = put h.element_size n size;
      ele_type = put h.ele_type n ele_type;
    } in
    let s2 =
      Seg-elements h1 h2.element h2.element_size h2.ele_type 0 xs 0
        (Seg-put_prev h0 n 0 0 xs 0 fresh (Seg-put_next h n 0 0 xs 0 fresh s)) in
    let kept = elements-put h.element n element xs fresh in
    let last : put h.element n element n ≡ element = rw same refl in
    (
      add n (l, h2),
      rw node refl,
      add-IsList xs n l h2 pos fresh (s2, hd, tl, cnt, d),
      ap (λ f. elements f (xs ++ n ∷ [])) (add-element n l h2)
          ∙ elements-append h2.element xs (n ∷ [])
          ∙ ap (λ t. t ++ put h.element n element n ∷ []) kept
          ∙ ap (λ t. elements h.element xs ++ t ∷ []) last,
      refl,
    )

-- The first node is taken off and freed, and the one behind it, or NULL, is returned.
pub node_pop_first-IsList :
    (x : ℕ) (xs : List ℕ) (l : ZhList) (h : Heap)
    → IsList (x ∷ xs) (l, h)
    → (s' : ZhList × Heap) × (node_pop_first (l, h) ≡ (first_or xs 0, (s', x ∷ [])))
      × IsList xs s'
      × (s'.1.element ≡ h.element)
unfolding node_pop_first
node_pop_first-IsList x xs l h list =
    let (s, hd, tl, cnt, d) = list in
    let (pos, back, forth, rest) = Seg-head h 0 x xs 0 s in
    let node : (x == 0) ≡ false = ground arith in
    (
      delete x (l, h),
      rw (hd, node, forth) refl,
      delete-IsList [] x xs l h list,
      delete-element x l h,
    )

-- The last node is taken off and freed, and the one before it, or NULL, is returned.
pub node_pop_back-IsList :
    (xs : List ℕ) (x : ℕ) (l : ZhList) (h : Heap)
    → IsList (xs ++ x ∷ []) (l, h)
    → (s' : ZhList × Heap) × (node_pop_back (l, h) ≡ (last_or 0 xs, (s', x ∷ [])))
      × IsList xs s'
      × (s'.1.element ≡ h.element)
unfolding node_pop_back
node_pop_back-IsList xs x l h list =
    let (s, hd, tl, cnt, d) = list in
    let (left, right) = Seg-split h 0 xs (x ∷ []) 0 s in
    let (pos, back, forth, rest) = Seg-head h (last_or 0 xs) x [] 0 right in
    let node : (x == 0) ≡ false = ground arith in
    let tl0 : l.tail ≡ x = tl ∙ last_or-append 0 xs (x ∷ []) in
    (
      delete x (l, h),
      rw (tl0, node, back) refl,
      subst (λ t. IsList t (delete x (l, h))) (append-nil xs) (delete-IsList xs x [] l h list),
      delete-element x l h,
    )

step-Seg :
    (h : Heap) (p : ℕ) (xs : List ℕ) (index : ℕ)
    → index < length xs
    → Seg h p xs 0
    → step index h (first_or xs 0) ≡ get_or xs index 0
unfolding step
step-Seg h p [] index k s = absurd (omega arith)
step-Seg h p (x ∷ xs) zero k s = refl
step-Seg h p (x ∷ xs) (suc index) k s =
    let (pos, back, forth, rest) = Seg-head h p x xs 0 s in
    ap (step index h) forth ∙ step-Seg h x xs index (omega arith) rest

get_or-out : (xs : List ℕ) (index : ℕ) → length xs ≤ index → 0 ≡ get_or xs index 0
get_or-out [] index k = refl
get_or-out (x ∷ xs) zero k = absurd (omega arith)
get_or-out (x ∷ xs) (suc index) k = get_or-out xs index (omega arith)

-- The node with an index, counted from 0, or NULL where the list is not that long.
pub node_find_with_index-IsList :
    (xs : List ℕ) (index : ℕ) (l : ZhList) (h : Heap)
    → IsList xs (l, h)
    → node_find_with_index index (l, h) ≡ get_or xs index 0
unfolding node_find_with_index
node_find_with_index-IsList xs index l h (s, hd, tl, cnt, d) =
    elim (Bool-cases (ltb index l.count)) [
      | inl inside ↦
          let k : index < length xs = ground arith in rw (inside, hd) (step-Seg h 0 xs index k s)
      | inr out ↦ let k : length xs ≤ index = ground arith in rw out (get_or-out xs index k)
    ]
