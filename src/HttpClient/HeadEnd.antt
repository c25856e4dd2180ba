-- ===== src/HttpClient/HeadEnd.antt =====
-- The search for the end of a response's header, on a stream of which only a first part is there.
use esp32base.Base.{
  ℕ, suc, ◌+◌, ◌≤◌, ◌<◌, ◌≡◌, refl, true, false, none, some, List, [], ◌∷◌, ◌++◌, ◌==◌, length,
  arith, Bool-cases, inl, inr, starts_with,
}
use esp32base.HttpClient.{head_end}

starts_with-append : (p s rest : List ℕ) → starts_with p s ≡ true → starts_with p (s ++ rest) ≡ true
unfolding starts_with
starts_with-append [] s rest h = refl
starts_with-append (p ∷ ps) [] rest h = absurd (cc h)
starts_with-append (p ∷ ps) (c ∷ s) rest h = ground (arith, starts_with-append ps s rest)

-- A mark that is there only with the rest begins less than its length before the rest.
starts_with-late :
    (p s rest : List ℕ)
    → starts_with p s ≡ false
    → starts_with p (s ++ rest) ≡ true
    → length s < length p
unfolding starts_with
starts_with-late [] s rest h k = absurd (cc h)
starts_with-late (p ∷ ps) [] rest h k = omega arith
starts_with-late (p ∷ ps) (c ∷ s) rest h k = elim (Bool-cases (p == c)) [
  | inl same ↦
      let ih = starts_with-late ps s rest (rw same at h) (rw same at k) in omega (arith, ih)
  | inr other ↦ absurd (cc (rw other at k))
]

-- The part of a mark that is there without the rest contains no other mark.
crlf-late :
    (s rest : List ℕ) (n : ℕ)
    → starts_with (13 ∷ 10 ∷ 13 ∷ 10 ∷ []) s ≡ false
    → starts_with (13 ∷ 10 ∷ 13 ∷ 10 ∷ []) (s ++ rest) ≡ true
    → head_end s n ≡ none
unfolding starts_with head_end
crlf-late [] rest n h k = refl
crlf-late (a ∷ []) rest n h k = ground arith
crlf-late (a ∷ b ∷ []) rest n h k = ground arith
crlf-late (a ∷ b ∷ c ∷ []) rest n h k = ground arith
crlf-late (a ∷ b ∷ c ∷ d ∷ s) rest n h k = absurd (cc (h, k))

lf-late :
    (s rest : List ℕ) (n : ℕ)
    → starts_with (10 ∷ 10 ∷ []) s ≡ false
    → starts_with (10 ∷ 10 ∷ []) (s ++ rest) ≡ true
    → head_end s n ≡ none
unfolding starts_with head_end
lf-late [] rest n h k = refl
lf-late (a ∷ []) rest n h k = ground arith
lf-late (a ∷ b ∷ s) rest n h k = absurd (cc (h, k))

-- the two marks do not begin alike
no_crlf-lf :
    (s rest : List ℕ)
    → starts_with (10 ∷ 10 ∷ []) s ≡ true
    → starts_with (13 ∷ 10 ∷ 13 ∷ 10 ∷ []) (s ++ rest) ≡ false
unfolding starts_with
no_crlf-lf [] rest h = absurd (cc h)
no_crlf-lf (c ∷ s) rest h = ground arith

some_inj : (k l : ℕ) → some k ≡ some l → k ≡ l
some_inj k l e = cc e

abbrev crlf2 : List ℕ
crlf2 = 13 ∷ 10 ∷ 13 ∷ 10 ∷ []

abbrev lf2 : List ℕ
lf2 = 10 ∷ 10 ∷ []

-- What is found in a part of the stream is found at the same place in the whole.
pub head_end-append :
    (s rest : List ℕ) (n k : ℕ) → head_end s n ≡ some k → head_end (s ++ rest) n ≡ some k
unfolding head_end
head_end-append [] rest n k h = absurd (cc h)
head_end-append (c ∷ s) rest n k h = elim (Bool-cases (c == 0)) [
  | inl nul ↦ absurd (cc (rw nul at h))
  | inr char ↦ elim (Bool-cases (starts_with crlf2 s)) [
    | inl here ↦ rw (char, starts_with-append crlf2 s rest here) (rw (char, here) at h)
    | inr far ↦ elim (Bool-cases (starts_with lf2 s)) [
      | inl here ↦
          rw (char, no_crlf-lf s rest here, starts_with-append lf2 s rest here)
            (rw (char, far, here) at h)
      | inr also ↦
          let found = rw (char, far, also) at h in
          elim (Bool-cases (starts_with crlf2 (s ++ rest))) [
            | inl late ↦ absurd (cc (crlf-late s rest (suc n) far late, found))
            | inr still ↦ elim (Bool-cases (starts_with lf2 (s ++ rest))) [
              | inl late ↦ absurd (cc (lf-late s rest (suc n) also late, found))
              | inr none_yet ↦ rw (char, still, none_yet) (head_end-append s rest (suc n) k found)
            ]
          ]
    ]
  ]
]

head_end_above : (s : List ℕ) (n k : ℕ) → head_end s n ≡ some k → n < k
unfolding head_end
head_end_above [] n k h = absurd (cc h)
head_end_above (c ∷ s) n k h = elim (Bool-cases (c == 0)) [
  | inl nul ↦ absurd (cc (rw nul at h))
  | inr char ↦ elim (Bool-cases (starts_with crlf2 s)) [
    | inl here ↦ omega (arith, some_inj (n + 5) k (rw (char, here) at h))
    | inr far ↦ elim (Bool-cases (starts_with lf2 s)) [
      | inl here ↦ omega (arith, some_inj (n + 3) k (rw (char, far, here) at h))
      | inr also ↦ omega (arith, head_end_above s (suc n) k (rw (char, far, also) at h))
    ]
  ]
]

-- A part of the stream in which nothing is found ends before the place found in the whole.
pub head_end-late :
    (s rest : List ℕ) (n k : ℕ)
    → head_end s n ≡ none
    → head_end (s ++ rest) n ≡ some k
    → length s + n < k
unfolding head_end
head_end-late [] rest n k h found = omega (arith, head_end_above rest n k found)
head_end-late (c ∷ s) rest n k h found = elim (Bool-cases (c == 0)) [
  | inl nul ↦ absurd (cc (rw nul at found))
  | inr char ↦ elim (Bool-cases (starts_with crlf2 s)) [
    | inl here ↦ absurd (cc (rw (char, here) at h))
    | inr far ↦ elim (Bool-cases (starts_with lf2 s)) [
      | inl here ↦ absurd (cc (rw (char, far, here) at h))
      | inr also ↦ elim (Bool-cases (starts_with crlf2 (s ++ rest))) [
        | inl late ↦ omega (
          arith,
          starts_with-late crlf2 s rest far late,
          some_inj (n + 5) k (rw (char, late) at found),
        )
        | inr still ↦ elim (Bool-cases (starts_with lf2 (s ++ rest))) [
          | inl late ↦ omega (
            arith,
            starts_with-late lf2 s rest also late,
            some_inj (n + 3) k (rw (char, still, late) at found),
          )
          | inr none_yet ↦ omega (
            arith,
            head_end-late s rest (suc n) k (rw (char, far, also) at h)
                (rw (char, still, none_yet) at found),
          )
        ]
      ]
    ]
  ]
]

starts_with-fits : (p s : List ℕ) → starts_with p s ≡ true → length p ≤ length s
unfolding starts_with
starts_with-fits [] s h = omega arith
starts_with-fits (p ∷ ps) [] h = absurd (cc h)
starts_with-fits (p ∷ ps) (c ∷ s) h = ground (arith, starts_with-fits ps s)

-- The place found is inside of what was searched.
pub head_end_within : (s : List ℕ) (n k : ℕ) → head_end s n ≡ some k → k ≤ length s + n
unfolding head_end
head_end_within [] n k h = absurd (cc h)
head_end_within (c ∷ s) n k h = elim (Bool-cases (c == 0)) [
  | inl nul ↦ absurd (cc (rw nul at h))
  | inr char ↦ elim (Bool-cases (starts_with crlf2 s)) [
    | inl here ↦
        omega (arith, starts_with-fits crlf2 s here, some_inj (n + 5) k (rw (char, here) at h))
    | inr far ↦ elim (Bool-cases (starts_with lf2 s)) [
      | inl here ↦
          omega (arith, starts_with-fits lf2 s here, some_inj (n + 3) k (rw (char, far, here) at h))
      | inr also ↦ omega (arith, head_end_within s (suc n) k (rw (char, far, also) at h))
    ]
  ]
]
