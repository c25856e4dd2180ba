-- ===== src/Text/Trim.antt =====
-- `zhWebSockTrim` removes exactly the blanks at both ends.
use esp32base.Base.{
  ℕ, zero, suc, ◌-◌, ◌≡◌, refl, sym, ap, ◌∙◌, Bool-cases, inl, inr, true, false, ◌⊎◌, List, [], ◌∷◌,
  ◌++◌, append_assoc, append-nil, arith, length, length-take, get_or, take, All, All-append, subst,
}
use esp32base.Text.{is_blank, ltrim, rtrim_loop, rtrim, trim}

abbrev pub IsBlank : ℕ → Type 0
IsBlank c = is_blank c ≡ true

-- no blank at the front, none at the end
abbrev pub IsLeftTrimmed : List ℕ → Type 0
IsLeftTrimmed [] = Unit
IsLeftTrimmed (c ∷ s) = is_blank c ≡ false

abbrev pub IsRightTrimmed : List ℕ → Type 0
IsRightTrimmed s = (s ≡ []) ⊎ (is_blank (get_or s (length s - 1) 0) ≡ false)

ltrim_lem :
    (s : List ℕ) → (pre : List ℕ) × (s ≡ pre ++ ltrim s) × All IsBlank pre × IsLeftTrimmed (ltrim s)
unfolding ltrim
ltrim_lem [] = ([], refl, tt, tt)
ltrim_lem (c ∷ s) = elim (Bool-cases (is_blank c)) [
  | inl blank ↦
      let (pre, e, blanks, front) = ltrim_lem s in
      rw blank (c ∷ pre, ap (λ t. c ∷ t) e, (blank, blanks), front)
  | inr other ↦ rw other ([], refl, tt, other)
]

take_last : (n : ℕ) (s : List ℕ) → length s ≡ suc n → s ≡ take n s ++ get_or s n 0 ∷ []
take_last n [] h = absurd (omega arith)
take_last zero (c ∷ []) h = refl
take_last zero (c ∷ d ∷ s) h = absurd (omega arith)
take_last (suc n) (c ∷ s) h = ap (λ t. c ∷ t) (take_last n s (omega arith))

rtrim_loop_lem :
    (n : ℕ) (s : List ℕ)
    → length s ≡ n
    → (post : List ℕ) × (s ≡ rtrim_loop n s ++ post)
      × All IsBlank post
      × IsRightTrimmed (rtrim_loop n s)
unfolding rtrim_loop
rtrim_loop_lem zero [] h = ([], refl, tt, inl refl)
rtrim_loop_lem zero (c ∷ s) h = absurd (omega arith)
rtrim_loop_lem (suc n) s h = elim (Bool-cases (is_blank (get_or s n 0))) [
  | inl blank ↦
      let (post, e, blanks, end) = rtrim_loop_lem n (take n s) (length-take n s (omega arith)) in
      rw blank (
        post ++ get_or s n 0 ∷ [],
        take_last n s h
            ∙ ap (λ t. t ++ get_or s n 0 ∷ []) e
            ∙ append_assoc (rtrim_loop n (take n s)) post _,
        All-append IsBlank post (get_or s n 0 ∷ []) blanks (blank, tt),
        end,
      )
  | inr other ↦
      let last : length s - 1 ≡ n = omega arith in
      rw other ([], sym (append-nil s), tt, inr (ap (λ k. is_blank (get_or s k 0)) last ∙ other))
]

prefix-IsLeftTrimmed : (s post : List ℕ) → IsLeftTrimmed (s ++ post) → IsLeftTrimmed s
prefix-IsLeftTrimmed [] post h = tt
prefix-IsLeftTrimmed (c ∷ s) post h = h

-- Trimming a string removes blanks at its two ends and nothing else, and leaves no blank at either end.
pub trim_lem :
    (s : List ℕ)
    → (pre : List ℕ) × (post : List ℕ) × (s ≡ pre ++ (trim s ++ post))
      × All IsBlank pre
      × All IsBlank post
      × IsLeftTrimmed (trim s)
      × IsRightTrimmed (trim s)
unfolding trim rtrim
trim_lem s =
    let (pre, e, blanks, front) = ltrim_lem s in
    let (post, e', blanks', end) = rtrim_loop_lem (length (ltrim s)) (ltrim s) refl in
    (
      pre,
      post,
      e ∙ ap (λ t. pre ++ t) e',
      blanks,
      blanks',
      prefix-IsLeftTrimmed _ post (subst IsLeftTrimmed e' front),
      end,
    )
