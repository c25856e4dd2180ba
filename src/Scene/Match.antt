-- ===== src/Scene/Match.antt =====
-- What `scmpBuf` finds, and what it misses.
use esp32base.Base.{
  ℕ, zero, suc, ◌+◌, ◌<◌, ◌≡◌, ◌≢◌, refl, ap, ap₂, Bool-cases, inl, inr, true, false, List, [], ◌∷◌,
  ◌==◌, ltb, arith, if◌then◌else◌, length, take, drop,
}
use esp32base.Scene.{matched, scmp_from, scmp}

matched-all :
    (scmp_buf mem : List ℕ)
    → matched scmp_buf mem ≡ length scmp_buf
    → take (length scmp_buf) mem ≡ scmp_buf
unfolding matched
matched-all [] mem e = refl
matched-all (s ∷ scmp_buf) [] e = absurd (omega arith)
matched-all (s ∷ scmp_buf) (c ∷ mem) e = elim (Bool-cases (c == s)) [
  | inl same ↦
      let here : c ≡ s = ground arith in
      let e' : suc (matched scmp_buf mem) ≡ suc (length scmp_buf) = rw same at e in
      ap₂ ◌∷◌ here (matched-all scmp_buf mem (omega (arith, e')))
  | inr other ↦ absurd (omega (arith, rw other at e))
]

scmp_from_sound :
    (fuel : ℕ) (mem : List ℕ) (srclen : ℕ) (scmp_buf : List ℕ) (i : ℕ)
    → scmp_from fuel mem srclen scmp_buf i ≡ true
    → (j : ℕ) × (j < srclen) × (take (length scmp_buf) (drop j mem) ≡ scmp_buf)
unfolding scmp_from
scmp_from_sound zero mem srclen scmp_buf i e = absurd (cc e)
scmp_from_sound (suc fuel) mem srclen scmp_buf i e =
    let n = matched scmp_buf (drop i mem) in
    elim (Bool-cases (ltb i srclen)) [
      | inl inside ↦ elim (Bool-cases (n == length scmp_buf)) [
        | inl all ↦ (i, ground arith, matched-all scmp_buf (drop i mem) (ground arith))
        | inr part ↦ scmp_from_sound fuel mem srclen scmp_buf (i + n + 1) (rw (inside, part) at e)
      ]
      | inr out ↦ absurd (cc (rw out at e))
    ]

-- More fuel than there are places changes nothing.
pub scmp_from-enough :
    (fuel : ℕ) (mem : List ℕ) (srclen : ℕ) (scmp_buf : List ℕ) (i : ℕ)
    → srclen < fuel + i
    → scmp_from (suc fuel) mem srclen scmp_buf i ≡ scmp_from fuel mem srclen scmp_buf i
unfolding scmp_from
scmp_from-enough zero mem srclen scmp_buf i h =
    let out : ltb i srclen ≡ false = ground arith in rw out
scmp_from-enough (suc fuel) mem srclen scmp_buf i h =
    let n = matched scmp_buf (drop i mem) in
    ap (λ rest. if ltb i srclen then (if n == length scmp_buf then true else rest) else false)
      (scmp_from-enough fuel mem srclen scmp_buf (i + n + 1) (omega arith))

-- Where the pattern is reported as found, it stands in memory at a place that begins inside the buffer.
pub scmp_sound :
    (mem : List ℕ) (srclen : ℕ) (scmp_buf : List ℕ)
    → scmp mem srclen scmp_buf ≡ true
    → (j : ℕ) × (j < srclen) × (take (length scmp_buf) (drop j mem) ≡ scmp_buf)
unfolding scmp
scmp_sound mem srclen scmp_buf e = elim (Bool-cases (length scmp_buf == 0)) [
  | inl none ↦ absurd (cc (rw none at e))
  | inr some ↦ scmp_from_sound (suc srclen) mem srclen scmp_buf 0 (rw some at e)
]

-- Of a byte twice and another byte, the pattern of the one byte and the other is not found, though it
-- is there from the second byte on.
pub scmp_missed :
    (x y : ℕ)
    → x ≢ y
    → (scmp (x ∷ x ∷ y ∷ []) 3 (x ∷ y ∷ []) ≡ false)
      × (take 2 (drop 1 (x ∷ x ∷ y ∷ [])) ≡ x ∷ y ∷ [])
unfolding scmp scmp_from matched
scmp_missed x y h =
    let same : (x == x) ≡ true = ground arith in
    let other : (x == y) ≡ false = ground arith in
    let other' : (y == x) ≡ false = ground arith in (rw (same, other, other'), refl)
