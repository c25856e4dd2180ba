-- ===== src/UrlParser/Replace.antt =====
-- The replacement in a text: where it happens, and that nothing else changes.
use esp32base.Base.{
  ℕ, suc, ◌+◌, ◌≡◌, refl, ap, ◌∙◌, true, false, Option, none, some, List, [], ◌∷◌, ◌++◌, arith,
  if◌then◌else◌, length, drop, drop-append_length, starts_with, AllNonzero, append_assoc, until_nul,
  c_str, until_nul-append,
}
use esp32base.UrlParser.{later, find_str, replaced, replace_str, replace_in}

-- `src` begins nowhere in `before`, with `behind` after it
abbrev pub NotIn : List ℕ → List ℕ → List ℕ → Type 0
NotIn src [] behind = Unit
NotIn src (c ∷ before) behind =
    (starts_with src (c ∷ (before ++ behind)) ≡ false) × NotIn src before behind

pub starts_with-append : (src behind : List ℕ) → starts_with src (src ++ behind) ≡ true
unfolding starts_with
starts_with-append [] behind = refl
starts_with-append (c ∷ src) behind = ground (arith, starts_with-append src behind)

replaced-later :
    (c : ℕ) (input src dst : List ℕ) (found : Option ℕ)
    → (replaced (c ∷ input) src dst (later found)).1 ≡ c ∷ (replaced input src dst found).1
unfolding replaced
replaced-later c input src dst none = refl
replaced-later c input src dst (some n) =
    let e : suc n + length src ≡ suc (n + length src) = omega arith in rw e refl

-- A first character at which `src` does not begin stays, and the rest is replaced alone.
pub replace_str-step :
    (c : ℕ) (input src dst : List ℕ)
    → starts_with src (c ∷ input) ≡ false
    → (replace_str (c ∷ input) src dst).1 ≡ c ∷ (replace_str input src dst).1
unfolding replace_str find_str
replace_str-step c input src dst h = rw h (replaced-later c input src dst (find_str src input))

find_here : (src behind : List ℕ) → find_str src (src ++ behind) ≡ some 0
unfolding find_str starts_with
find_here [] [] = refl
find_here [] (c ∷ behind) = refl
find_here (c ∷ src) behind =
    let front : starts_with (c ∷ src) (c ∷ (src ++ behind)) ≡ true =
      starts_with-append (c ∷ src) behind in
    ap (λ t. if t then some 0 else later (find_str (c ∷ src) (src ++ behind))) front

-- An occurrence at the front is replaced.
pub replace_str-here :
    (src behind dst : List ℕ) → (replace_str (src ++ behind) src dst).1 ≡ dst ++ behind
unfolding replace_str replaced
replace_str-here src behind dst =
    let e : 0 + length src ≡ length src = omega arith in
    rw (find_here src behind, replaced, e, drop-append_length src behind) refl

-- Text in which `src` begins nowhere stays, and what is behind it is replaced alone.
pub replace_str-past :
    (before input src dst : List ℕ)
    → NotIn src before input
    → (replace_str (before ++ input) src dst).1 ≡ before ++ (replace_str input src dst).1
replace_str-past [] input src dst h = refl
replace_str-past (c ∷ before) input src dst (h, hs) =
    replace_str-step c (before ++ input) src dst h
    ∙ ap (λ t. c ∷ t) (replace_str-past before input src dst hs)

-- Of the text in memory the first occurrence of `src` is replaced by `dst`, and the NUL stands behind
-- the result.
pub replace_in-text :
    (text out src dst behind : List ℕ)
    → AllNonzero text
    → (replace_str text src dst).1 ≡ out
    → (behind' : List ℕ) × (replace_in (c_str text ++ behind) src dst ≡ c_str out ++ behind')
unfolding replace_in
replace_in-text text out src dst behind h e =
    let start : until_nul (c_str text ++ behind) ≡ text =
      ap until_nul (append_assoc text (0 ∷ []) behind) ∙ until_nul-append text behind h in
    (drop (length out + 1) (c_str text ++ behind), rw (start, e) refl)
