-- ===== src/ZhList/Refine.antt =====
-- The list in memory stands for a list of addresses, and `zhListInsert`, `zhListAdd` and
-- `zhListDelete` are the insertion and the removal of that list.
use esp32base.Base.{
  ℕ, suc, ◌+◌, ◌-◌, ◌<◌, ◌≡◌, refl, sym, ◌∙◌, Bool-cases, inl, inr, false, List, [], ◌∷◌, ◌++◌,
  append-nil, ◌==◌, arith, if◌then◌else◌, length, length-append, subst,
}
use esp32base.ZhList.{
  Heap, ZhList, link_forward, link_back, set_node, insert, add, unlink_back, delete,
}
use esp32base.ZhList.Seg.{
  first_or, last_or, Seg, Fresh, Distinct, first_or-append, last_or-append, Seg-split, Seg-join,
  Seg-put_next, Seg-put_prev, Seg-relink_last, Seg-relink_first, last_or-positive, Seg-Fresh_zero,
  Fresh-append, Distinct-append, Distinct-insert, Distinct-delete, Seg-head, Seg-last_next,
  last-Fresh, first-Fresh, Seg-place,
}

-- The list holds the nodes at these addresses: they are linked both ways, the head and the tail are
-- the first and the last of them, and the count is their number.
abbrev pub IsList : List ℕ → ZhList × Heap → Type 0
IsList xs (l, h) =
    Seg h 0 xs 0
    × (l.head ≡ first_or xs 0)
    × (l.tail ≡ last_or 0 xs)
    × (l.count ≡ length xs)
    × Distinct xs

-- what `link_forward` does to the segment before, and to one behind
forward-before :
    (us : List ℕ) (v q : ℕ) (l : ZhList) (h : Heap)
    → Distinct us
    → Seg h 0 us q
    → l.head ≡ first_or us q
    → Seg (link_forward (last_or 0 us) v (l, h)).1 0 us v
      × ((link_forward (last_or 0 us) v (l, h)).0.head ≡ first_or us v)
unfolding link_forward
forward-before [] v q l h d s e = (unfold Seg in tt, refl)
forward-before (x ∷ us) v q l h d s e =
    let some_node : (last_or x us == 0) ≡ false = ground (arith, last_or-positive h 0 x us q s) in
    rw some_node (Seg-relink_last h v 0 x us q d s, e)

forward-behind :
    (a v p : ℕ) (ws : List ℕ) (q : ℕ) (l : ZhList) (h : Heap)
    → Fresh a ws
    → Seg h p ws q
    → Seg (link_forward a v (l, h)).1 p ws q
unfolding link_forward
forward-behind a v p ws q l h f s = elim (Bool-cases (a == 0)) [
  | inl null ↦ rw null s
  | inr node ↦ rw node (Seg-put_next h a v p ws q f s)
]

forward-kept :
    (a v : ℕ) (l : ZhList) (h : Heap)
    → ((link_forward a v (l, h)).0.tail ≡ l.tail)
      × ((link_forward a v (l, h)).0.count ≡ l.count)
      × ((b : ℕ) → (link_forward a v (l, h)).1.prev b ≡ h.prev b)
      × ((b : ℕ) → (b == a) ≡ false → (link_forward a v (l, h)).1.next b ≡ h.next b)
unfolding link_forward
forward-kept a v l h = elim (Bool-cases (a == 0)) [
  | inl null ↦ rw null (refl, refl, λ b. refl, λ b e. refl)
  | inr node ↦ rw node (refl, refl, λ b. refl, λ b e. rw e refl)
]

-- the same for `link_back`
back-behind :
    (ws : List ℕ) (v p : ℕ) (l : ZhList) (h : Heap)
    → Distinct ws
    → Seg h p ws 0
    → l.tail ≡ last_or p ws
    → Seg (link_back (first_or ws 0) v (l, h)).1 v ws 0
      × ((link_back (first_or ws 0) v (l, h)).0.tail ≡ last_or v ws)
unfolding link_back
back-behind [] v p l h d s e = (unfold Seg in tt, refl)
back-behind (x ∷ ws) v p l h (f, d) s e =
    let some_node : (x == 0) ≡ false = (Seg-Fresh_zero h p (x ∷ ws) 0 s).0 in
    rw some_node (Seg-relink_first h v p x ws 0 f s, e)

back-before :
    (a v p : ℕ) (us : List ℕ) (q : ℕ) (l : ZhList) (h : Heap)
    → Fresh a us
    → Seg h p us q
    → Seg (link_back a v (l, h)).1 p us q
unfolding link_back
back-before a v p us q l h f s = elim (Bool-cases (a == 0)) [
  | inl null ↦ rw null s
  | inr node ↦ rw node (Seg-put_prev h a v p us q f s)
]

back-kept :
    (a v : ℕ) (l : ZhList) (h : Heap)
    → ((link_back a v (l, h)).0.head ≡ l.head) × ((link_back a v (l, h)).0.count ≡ l.count)
unfolding link_back
back-kept a v l h = elim (Bool-cases (a == 0)) [
  | inl null ↦ rw null (refl, refl)
  | inr node ↦ rw node (refl, refl)
]

-- `zhListInsert` reads the node that comes next
next_of-last :
    (us : List ℕ) (q : ℕ) (l : ZhList) (h : Heap)
    → Seg h 0 us q
    → l.head ≡ first_or us q
    → (if last_or 0 us == 0 then l.head else h.next (last_or 0 us)) ≡ q
next_of-last [] q l h s e = e
next_of-last (x ∷ us) q l h s e =
    let some_node : (last_or x us == 0) ≡ false = ground (arith, last_or-positive h 0 x us q s) in
    rw some_node (Seg-last_next h 0 x us q s)

set_node-IsList :
    (us : List ℕ) (n : ℕ) (ws : List ℕ) (l : ZhList) (h : Heap)
    → 0 < n
    → Fresh n us × Fresh n ws
    → Seg h 0 us n
    → Seg h n ws 0
    → l.head ≡ first_or us n
    → l.tail ≡ last_or n ws
    → l.count ≡ length us + length ws
    → Distinct (us ++ n ∷ ws)
    → IsList (us ++ n ∷ ws) (set_node n (first_or ws 0) (last_or 0 us) (l, h))
unfolding set_node
set_node-IsList us n ws l h pos (fu, fw) left right hd tl cnt d =
    let size = length-append us (n ∷ ws) in
    (
      Seg-place h us n ws pos fu fw left right,
      hd ∙ sym (first_or-append us (n ∷ ws) 0),
      tl ∙ sym (last_or-append 0 us (n ∷ ws)),
      omega arith,
      d,
    )

-- Inserting a new node behind the last of the first nodes, or at the front where there are none,
-- inserts its address there, and keeps the list well formed.
pub insert-IsList :
    (us : List ℕ) (n : ℕ) (ws : List ℕ) (l : ZhList) (h : Heap)
    → 0 < n
    → Fresh n (us ++ ws)
    → IsList (us ++ ws) (l, h)
    → IsList (us ++ n ∷ ws) (insert (last_or 0 us) n (l, h))
unfolding insert
insert-IsList us n ws l h pos fresh (s, hd, tl, cnt, d) =
    let (left, right) = Seg-split h 0 us ws 0 s in
    let (dl, dr) = Distinct-append us ws d in
    let a = last_or 0 us in
    let b = first_or ws 0 in
    let s1 = link_forward a n (l, h) in
    let hd0 : l.head ≡ first_or us b = hd ∙ first_or-append us ws 0 in
    let tl0 : l.tail ≡ last_or a ws = tl ∙ last_or-append 0 us ws in
    let (left1, hd1) = forward-before us n b l h dl left hd0 in
    let right1 = forward-behind a n a ws 0 l h (last-Fresh h a us ws 0 d right) right in
    let (tl1, cnt1, _, _) = forward-kept a n l h in
    let (right2, tl2) = back-behind ws n a s1.0 s1.1 dr right1 (tl1 ∙ tl0) in
    let left2 = back-before b n 0 us n s1.0 s1.1 (first-Fresh h 0 us ws b d left) left1 in
    let (hd2, cnt2) = back-kept b n s1.0 s1.1 in
    let s2 = link_back b n s1 in
    let size = length-append us ws in
    subst (λ next. IsList (us ++ n ∷ ws) (set_node n next a (link_back next n s1)))
      (sym (next_of-last us b l h left hd0))
      (set_node-IsList us n ws s2.0 s2.1 pos (Fresh-append n us ws fresh) left2 right2 (hd2 ∙ hd1)
        tl2 (cnt2 ∙ cnt1 ∙ cnt ∙ size) (Distinct-insert us n ws fresh d))

-- `zhListAdd` appends.
pub add-IsList :
    (xs : List ℕ) (n : ℕ) (l : ZhList) (h : Heap)
    → 0 < n
    → Fresh n xs
    → IsList xs (l, h)
    → IsList (xs ++ n ∷ []) (add n (l, h))
unfolding add
add-IsList xs n l h pos fresh list =
    let (s, hd, tl, cnt, d) = list in
    let all : xs ++ [] ≡ xs = append-nil xs in
    subst (λ a. IsList (xs ++ n ∷ []) (insert a n (l, h))) (sym tl)
      (insert-IsList xs n [] l h pos (subst (Fresh n) (sym all) fresh)
        (subst (λ t. IsList t (l, h)) (sym all) list))

-- the second half of the deletion, on what the first leaves
unlink_back-IsList :
    (us : List ℕ) (n : ℕ) (ws : List ℕ) (l : ZhList) (h : Heap)
    → h.next n ≡ first_or ws 0
    → h.prev n ≡ last_or 0 us
    → Seg h 0 us (first_or ws 0)
    → Seg h n ws 0
    → l.head ≡ first_or us (first_or ws 0)
    → l.tail ≡ last_or n ws
    → l.count ≡ suc (length us + length ws)
    → Fresh (first_or ws 0) us
    → Distinct (us ++ ws)
    → IsList (us ++ ws) (unlink_back n (l, h))
unfolding unlink_back
unlink_back-IsList us n ws l h nx pv left right hd tl cnt fresh d =
    let a = last_or 0 us in
    let b = first_or ws 0 in
    let (dl, dr) = Distinct-append us ws d in
    let (right2, tl2) = back-behind ws a n l h dr right tl in
    let left2 = back-before b a 0 us b l h fresh left in
    let (hd2, cnt2) = back-kept b a l h in
    let s2 = link_back b a (l, h) in
    let size = length-append us ws in
    let done : IsList (us ++ ws) (record s2.0 { count = s2.0.count - 1 }, s2.1) = (
      Seg-join s2.1 0 us ws 0 left2 right2,
      hd2 ∙ hd ∙ sym (first_or-append us ws 0),
      tl2 ∙ sym (last_or-append 0 us ws),
      omega (arith, cnt2, cnt, size),
      d,
    ) in
    rw (nx, pv) done

-- Deleting a node deletes its address, and keeps the list well formed.
pub delete-IsList :
    (us : List ℕ) (n : ℕ) (ws : List ℕ) (l : ZhList) (h : Heap)
    → IsList (us ++ n ∷ ws) (l, h)
    → IsList (us ++ ws) (delete n (l, h))
unfolding delete
delete-IsList us n ws l h (s, hd, tl, cnt, d) =
    let (left, right) = Seg-split h 0 us (n ∷ ws) 0 s in
    let a = last_or 0 us in
    let b = first_or ws 0 in
    let (pos, pv, nx, right0) = Seg-head h a n ws 0 right in
    let (dl, (_, dr)) = Distinct-append us (n ∷ ws) d in
    let s1 = link_forward a b (l, h) in
    let (apart, fresh) = last-Fresh h a us (n ∷ ws) 0 d right in
    let hd0 : l.head ≡ first_or us n = hd ∙ first_or-append us (n ∷ ws) 0 in
    let tl0 : l.tail ≡ last_or n ws = tl ∙ last_or-append 0 us (n ∷ ws) in
    let (left1, hd1) = forward-before us b n l h dl left hd0 in
    let right1 = forward-behind a b n ws 0 l h fresh right0 in
    let (tl1, cnt1, prev_kept, next_kept) = forward-kept a b l h in
    let d' = Distinct-delete us n ws d in
    let size = length-append us (n ∷ ws) in
    rw (pv, nx)
      (unlink_back-IsList us n ws s1.0 s1.1 (next_kept n apart ∙ nx) (prev_kept n ∙ pv) left1 right1
        hd1 (tl1 ∙ tl0) (omega (arith, cnt1, cnt, size)) (first-Fresh s1.1 0 us ws b d' left1) d')
