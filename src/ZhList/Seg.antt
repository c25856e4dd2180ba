-- ===== src/ZhList/Seg.antt =====
-- Linked segments of the heap, and how an assignment changes them.
use esp32base.Base.{ℕ, ◌<◌, ◌≡◌, refl, sym, ◌∙◌, true, false, List, [], ◌∷◌, ◌++◌, ◌==◌, arith, All}
use esp32base.ZhList.{Heap, put}

abbrev pub first_or : List ℕ → ℕ → ℕ
first_or [] q = q
first_or (x ∷ xs) q = x

abbrev pub last_or : ℕ → List ℕ → ℕ
last_or p [] = p
last_or p (x ∷ xs) = last_or x xs

-- The nodes of a list of addresses are linked both ways, between `p` before them and `q` behind them.
unfoldable pub Seg : Heap → ℕ → List ℕ → ℕ → Type 0
Seg h p [] q = Unit
Seg h p (x ∷ xs) q = (0 < x) × (h.prev x ≡ p) × (h.next x ≡ first_or xs q) × Seg h x xs q

abbrev pub Fresh : ℕ → List ℕ → Type 0
Fresh a = All (λ x. (x == a) ≡ false)

abbrev pub Distinct : List ℕ → Type 0
Distinct [] = Unit
Distinct (x ∷ xs) = Fresh x xs × Distinct xs

pub first_or-append : (us ws : List ℕ) (q : ℕ) → first_or (us ++ ws) q ≡ first_or us (first_or ws q)
first_or-append [] ws q = refl
first_or-append (x ∷ us) ws q = refl

pub last_or-append : (p : ℕ) (us ws : List ℕ) → last_or p (us ++ ws) ≡ last_or (last_or p us) ws
last_or-append p [] ws = refl
last_or-append p (x ∷ us) ws = last_or-append x us ws

pub Seg-split :
    (h : Heap) (p : ℕ) (us ws : List ℕ) (q : ℕ)
    → Seg h p (us ++ ws) q
    → Seg h p us (first_or ws q) × Seg h (last_or p us) ws q
unfolding Seg
Seg-split h p [] ws q s = (tt, s)
Seg-split h p (x ∷ us) ws q (pos, back, forth, s) =
    let (left, right) = Seg-split h x us ws q s in
    ((pos, back, forth ∙ first_or-append us ws q, left), right)

pub Seg-join :
    (h : Heap) (p : ℕ) (us ws : List ℕ) (q : ℕ)
    → Seg h p us (first_or ws q)
    → Seg h (last_or p us) ws q
    → Seg h p (us ++ ws) q
unfolding Seg
Seg-join h p [] ws q left right = right
Seg-join h p (x ∷ us) ws q (pos, back, forth, left) right =
    (pos, back, forth ∙ sym (first_or-append us ws q), Seg-join h x us ws q left right)

-- An assignment to a node outside a segment leaves it.
pub Seg-put_next :
    (h : Heap) (a v p : ℕ) (us : List ℕ) (q : ℕ)
    → Fresh a us
    → Seg h p us q
    → Seg (record h { next = put h.next a v }) p us q
unfolding Seg
Seg-put_next h a v p [] q f s = tt
Seg-put_next h a v p (x ∷ us) q (f, fs) (pos, back, forth, s) =
    (pos, back, rw f forth, Seg-put_next h a v x us q fs s)

pub Seg-put_prev :
    (h : Heap) (a v p : ℕ) (us : List ℕ) (q : ℕ)
    → Fresh a us
    → Seg h p us q
    → Seg (record h { prev = put h.prev a v }) p us q
unfolding Seg
Seg-put_prev h a v p [] q f s = tt
Seg-put_prev h a v p (x ∷ us) q (f, fs) (pos, back, forth, s) =
    (pos, rw f back, forth, Seg-put_prev h a v x us q fs s)

pub last_or-Fresh :
    (a x : ℕ) (us : List ℕ) → (x == a) ≡ false → Fresh a us → (last_or x us == a) ≡ false
last_or-Fresh a x [] e f = e
last_or-Fresh a x (y ∷ us) e (f, fs) = last_or-Fresh a y us f fs

-- The last node of a segment is linked to another node.
pub Seg-relink_last :
    (h : Heap) (v p x : ℕ) (us : List ℕ) (q : ℕ)
    → Distinct (x ∷ us)
    → Seg h p (x ∷ us) q
    → Seg (record h { next = put h.next (last_or x us) v }) p (x ∷ us) v
unfolding Seg
Seg-relink_last h v p x [] q d (pos, back, forth, s) =
    let same : (x == x) ≡ true = ground arith in (pos, back, rw same refl, tt)
Seg-relink_last h v p x (y ∷ us) q ((f, fs), d) (pos, back, forth, s) =
    let other : (x == last_or y us) ≡ false = ground (arith, last_or-Fresh x y us f fs) in
    (pos, back, rw other forth, Seg-relink_last h v x y us q d s)

-- The first node of a segment is linked back to another node.
pub Seg-relink_first :
    (h : Heap) (v p x : ℕ) (us : List ℕ) (q : ℕ)
    → Fresh x us
    → Seg h p (x ∷ us) q
    → Seg (record h { prev = put h.prev x v }) v (x ∷ us) q
unfolding Seg
Seg-relink_first h v p x us q f (pos, back, forth, s) =
    let same : (x == x) ≡ true = ground arith in
    (pos, rw same refl, forth, Seg-put_prev h x v x us q f s)

pub last_or-positive :
    (h : Heap) (p x : ℕ) (us : List ℕ) (q : ℕ) → Seg h p (x ∷ us) q → 0 < last_or x us
unfolding Seg
last_or-positive h p x [] q (pos, back, forth, s) = pos
last_or-positive h p x (y ∷ us) q (pos, back, forth, s) = last_or-positive h x y us q s

pub Seg-Fresh_zero : (h : Heap) (p : ℕ) (us : List ℕ) (q : ℕ) → Seg h p us q → Fresh 0 us
unfolding Seg
Seg-Fresh_zero h p [] q s = tt
Seg-Fresh_zero h p (x ∷ us) q (pos, back, forth, s) = (ground arith, Seg-Fresh_zero h x us q s)

pub Fresh-append : (a : ℕ) (us ws : List ℕ) → Fresh a (us ++ ws) → Fresh a us × Fresh a ws
Fresh-append a [] ws f = (tt, f)
Fresh-append a (x ∷ us) ws (f, fs) =
    let (left, right) = Fresh-append a us ws fs in ((f, left), right)

pub Distinct-append : (us ws : List ℕ) → Distinct (us ++ ws) → Distinct us × Distinct ws
Distinct-append [] ws d = (tt, d)
Distinct-append (x ∷ us) ws (f, d) =
    let (left, right) = Distinct-append us ws d in
    let (before, behind) = Fresh-append x us ws f in ((before, left), right)

pub Distinct-last : (x : ℕ) (us ws : List ℕ) → Distinct (x ∷ (us ++ ws)) → Fresh (last_or x us) ws
Distinct-last x [] ws (f, d) = f
Distinct-last x (y ∷ us) ws (f, d) = Distinct-last y us ws d

pub Distinct-middle : (us : List ℕ) (y : ℕ) (ws : List ℕ) → Distinct (us ++ y ∷ ws) → Fresh y us
Distinct-middle [] y ws d = tt
Distinct-middle (x ∷ us) y ws (f, d) =
    let (before, (here, behind)) = Fresh-append x us (y ∷ ws) f in
    (ground (arith, here), Distinct-middle us y ws d)

-- a fresh address in the middle keeps the addresses distinct, and dropping one does
pub Distinct-insert :
    (us : List ℕ) (n : ℕ) (ws : List ℕ)
    → Fresh n (us ++ ws)
    → Distinct (us ++ ws)
    → Distinct (us ++ n ∷ ws)
Distinct-insert [] n ws f d = (f, d)
Distinct-insert (x ∷ us) n ws (f, fs) (g, d) =
    (Fresh-insert x us n ws (ground (arith, f)) g, Distinct-insert us n ws fs d)
  where
    Fresh-insert :
        (a : ℕ) (us : List ℕ) (n : ℕ) (ws : List ℕ)
        → (n == a) ≡ false
        → Fresh a (us ++ ws)
        → Fresh a (us ++ n ∷ ws)
    Fresh-insert a [] n ws e f = (e, f)
    Fresh-insert a (x ∷ us) n ws e (f, fs) = (f, Fresh-insert a us n ws e fs)

pub Distinct-delete :
    (us : List ℕ) (n : ℕ) (ws : List ℕ) → Distinct (us ++ n ∷ ws) → Distinct (us ++ ws)
Distinct-delete [] n ws (f, d) = d
Distinct-delete (x ∷ us) n ws (g, d) = (Fresh-delete x us n ws g, Distinct-delete us n ws d)
  where
    Fresh-delete :
        (a : ℕ) (us : List ℕ) (n : ℕ) (ws : List ℕ) → Fresh a (us ++ n ∷ ws) → Fresh a (us ++ ws)
    Fresh-delete a [] n ws (e, f) = f
    Fresh-delete a (x ∷ us) n ws (f, fs) = (f, Fresh-delete a us n ws fs)

pub Seg-head :
    (h : Heap) (p x : ℕ) (us : List ℕ) (q : ℕ)
    → Seg h p (x ∷ us) q
    → (0 < x) × (h.prev x ≡ p) × (h.next x ≡ first_or us q) × Seg h x us q
unfolding Seg
Seg-head h p x us q s = s

pub Seg-last_next :
    (h : Heap) (p x : ℕ) (us : List ℕ) (q : ℕ) → Seg h p (x ∷ us) q → h.next (last_or x us) ≡ q
unfolding Seg
Seg-last_next h p x [] q (pos, back, forth, s) = forth
Seg-last_next h p x (y ∷ us) q (pos, back, forth, s) = Seg-last_next h x y us q s

-- the two ends next to a gap in the list are no nodes of the other side
pub last-Fresh :
    (h : Heap) (p : ℕ) (us ws : List ℕ) (q : ℕ)
    → Distinct (us ++ ws)
    → Seg h p ws q
    → Fresh (last_or 0 us) ws
last-Fresh h p [] ws q d s = Seg-Fresh_zero h p ws q s
last-Fresh h p (x ∷ us) ws q d s = Distinct-last x us ws d

pub first-Fresh :
    (h : Heap) (p : ℕ) (us ws : List ℕ) (q : ℕ)
    → Distinct (us ++ ws)
    → Seg h p us q
    → Fresh (first_or ws 0) us
first-Fresh h p us [] q d s = Seg-Fresh_zero h p us q s
first-Fresh h p us (y ∷ ws) q d s = Distinct-middle us y ws d

-- A node whose pointers are set between two segments that point at it joins them.
pub Seg-place :
    (h : Heap) (us : List ℕ) (n : ℕ) (ws : List ℕ)
    → 0 < n
    → Fresh n us
    → Fresh n ws
    → Seg h 0 us n
    → Seg h n ws 0
    → Seg
        (record h { next = put h.next n (first_or ws 0); prev = put h.prev n (last_or 0 us) })
        0
        (us ++ n ∷ ws)
        0
Seg-place h us n ws pos fu fw left right =
    let b = first_or ws 0 in
    let h' = record h { next = put h.next n b } in
    let same : (n == n) ≡ true = ground arith in
    Seg-join _ 0 us (n ∷ ws) 0
      (Seg-put_prev h' n (last_or 0 us) 0 us n fu (Seg-put_next h n b 0 us n fu left))
      (unfold Seg in
        (
          pos,
          rw same refl,
          rw same refl,
          Seg-put_prev h' n (last_or 0 us) n ws 0 fw (Seg-put_next h n b n ws 0 fw right),
        ))
