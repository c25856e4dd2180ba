-- ===== src/ZhList/Walk.antt =====
-- The walks of `zhListFind` and `zhListFree` over the list.
use esp32base.Base.{
  ℕ, zero, suc, ◌+◌, ◌<◌, ◌≡◌, refl, ap, ◌∙◌, true, false, none, some, List, [], ◌∷◌, ◌++◌, ◌==◌,
  arith, length, length-append,
}
use esp32base.ZhList.{Heap, ZhList, list_init, find_from, find, then_free, free_from, free}
use esp32base.ZhList.Seg.{first_or, Seg, Fresh, Seg-head, Distinct-middle}
use esp32base.ZhList.Refine.{IsList}

find_from-found :
    (fuel : ℕ) (h : Heap) (p : ℕ) (us : List ℕ) (n : ℕ) (ws : List ℕ) (i : ℕ)
    → length us < fuel
    → Fresh n us
    → Seg h p (us ++ n ∷ ws) 0
    → find_from fuel h n (first_or (us ++ n ∷ ws) 0) i ≡ some (some (i + length us))
unfolding find_from
find_from-found zero h p us n ws i k f s = absurd (omega arith)
find_from-found (suc fuel) h p [] n ws i k f s =
    let (pos, back, forth, rest) = Seg-head h p n ws 0 s in
    let node : (n == 0) ≡ false = ground arith in
    let here : (n == n) ≡ true = ground arith in
    let e : i ≡ i + 0 = omega arith in rw (node, here) (ap (λ t. some (some t)) e)
find_from-found (suc fuel) h p (x ∷ us) n ws i k (f, fs) s =
    let (pos, back, forth, rest) = Seg-head h p x (us ++ n ∷ ws) 0 s in
    let node : (x == 0) ≡ false = ground arith in
    let e : i + 1 + length us ≡ i + suc (length us) = omega arith in
    rw (node, f, forth)
      (find_from-found fuel h x us n ws (i + 1) (omega arith) fs rest ∙ ap (λ t. some (some t)) e)

find_from-missing :
    (fuel : ℕ) (h : Heap) (p : ℕ) (xs : List ℕ) (n i : ℕ)
    → length xs < fuel
    → Fresh n xs
    → Seg h p xs 0
    → find_from fuel h n (first_or xs 0) i ≡ some none
unfolding find_from
find_from-missing zero h p xs n i k f s = absurd (omega arith)
find_from-missing (suc fuel) h p [] n i k f s = refl
find_from-missing (suc fuel) h p (x ∷ xs) n i k (f, fs) s =
    let (pos, back, forth, rest) = Seg-head h p x xs 0 s in
    let node : (x == 0) ≡ false = ground arith in
    rw (node, f, forth) (find_from-missing fuel h x xs n (i + 1) (omega arith) fs rest)

-- A node of the list is found at its place, counted from 1, with fuel for one round more than the
-- list is long.
pub find-found :
    (us : List ℕ) (n : ℕ) (ws : List ℕ) (l : ZhList) (h : Heap)
    → IsList (us ++ n ∷ ws) (l, h)
    → find (suc l.count) n (l, h) ≡ some (some (1 + length us))
unfolding find
find-found us n ws l h (s, hd, tl, cnt, d) =
    let size = length-append us (n ∷ ws) in
    rw hd (find_from-found (suc l.count) h 0 us n ws 1 (omega arith) (Distinct-middle us n ws d) s)

-- Any other node is reported as not found.
pub find-missing :
    (xs : List ℕ) (n : ℕ) (l : ZhList) (h : Heap)
    → Fresh n xs
    → IsList xs (l, h)
    → find (suc l.count) n (l, h) ≡ some none
unfolding find
find-missing xs n l h f (s, hd, tl, cnt, d) =
    rw hd (find_from-missing (suc l.count) h 0 xs n 1 (omega arith) f s)

free_from-all :
    (fuel : ℕ) (h : Heap) (p : ℕ) (xs : List ℕ)
    → length xs < fuel
    → Seg h p xs 0
    → free_from fuel h (first_or xs 0) ≡ some xs
unfolding free_from
free_from-all zero h p xs k s = absurd (omega arith)
free_from-all (suc fuel) h p [] k s = refl
free_from-all (suc fuel) h p (x ∷ xs) k s =
    let (pos, back, forth, rest) = Seg-head h p x xs 0 s in
    let node : (x == 0) ≡ false = ground arith in
    rw (node, forth) (ap (λ t. then_free x t) (free_from-all fuel h x xs (omega arith) rest))

free_as :
    (fuel : ℕ) (l : ZhList) (h : Heap) (freed : List ℕ)
    → (l.count == 0) ≡ false
    → free_from fuel h l.head ≡ some freed
    → free fuel (l, h) ≡ some (list_init, freed)
unfolding free
free_as fuel l h freed some_nodes e = rw (some_nodes, e)

free-none :
    (fuel : ℕ) (l : ZhList) (h : Heap) → (l.count == 0) ≡ true → free fuel (l, h) ≡ some (l, [])
unfolding free
free-none fuel l h e = rw e

-- Every node is freed once, in the order of the list, and the list is empty then.
pub free_lem :
    (xs : List ℕ) (l : ZhList) (h : Heap)
    → IsList xs (l, h)
    → (l' : ZhList) × (free (suc l.count) (l, h) ≡ some (l', xs)) × IsList [] (l', h)
free_lem [] l h list =
    let (s, hd, tl, cnt, d) = list in (l, free-none (suc l.count) l h (ground arith), list)
free_lem (x ∷ xs) l h (s, hd, tl, cnt, d) = (
  list_init,
  free_as (suc l.count) l h (x ∷ xs) (ground arith) (
      ap (free_from (suc l.count) h) hd ∙ free_from-all (suc l.count) h 0 (x ∷ xs) (omega arith) s),
  (unfold Seg in tt, refl, refl, refl, tt),
)
