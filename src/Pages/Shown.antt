-- ===== src/Pages/Shown.antt =====
-- A page in memory with the values of its marks put in, one after the other.
use esp32base.Base.{
  ℕ, ◌≡◌, refl, ap, sym, ◌∙◌, false, List, [], ◌∷◌, ◌++◌, ◌==◌, arith, if◌then◌else◌, Bool-cases,
  inl, inr, All, All-append, AllNonzero, subst, ◌||◌, bytes_eq, c_str,
}
use esp32base.SpiData.Laws.{IsText}
use esp32base.UrlParser.{replace_in}
use esp32base.UrlParser.Replace.{replace_in-text}
use esp32base.Pages.Template.{
  Part, plain, mark, braced, render, IsName, IsPart, fill, bytes_eq-eq, replace_str-render,
  fill-IsPart,
}

-- names with their values
abbrev pub Binding : Type 0
Binding = List ℕ × List ℕ

-- the value of a name, or the mark as it stands
unfoldable pub value_of : List Binding → List ℕ → List ℕ
value_of [] name = braced name
value_of ((n, v) ∷ bs) name = let rest = value_of bs name in if bytes_eq n name then v else rest

-- the page as it should be: each mark with a value is that value, and all else stays
unfoldable pub shown : List Binding → List Part → List ℕ
shown bs [] = []
shown bs (plain t ∷ ps) = t ++ shown bs ps
shown bs (mark name ∷ ps) = value_of bs name ++ shown bs ps

-- no mark of a name among the parts
abbrev pub Unmarked : List ℕ → List Part → Type 0
Unmarked name [] = Unit
Unmarked name (plain t ∷ ps) = Unmarked name ps
Unmarked name (mark m ∷ ps) = (bytes_eq name m ≡ false) × Unmarked name ps

-- no two marks have the same name
abbrev pub MarksDiffer : List Part → Type 0
MarksDiffer [] = Unit
MarksDiffer (plain t ∷ ps) = MarksDiffer ps
MarksDiffer (mark m ∷ ps) = Unmarked m ps × MarksDiffer ps

abbrev pub IsBinding : Binding → Type 0
IsBinding (n, v) = IsName n × IsPart (plain v)

unfoldable pub replace_all : List Binding → List ℕ → List ℕ
replace_all [] mem = mem
replace_all ((n, v) ∷ bs) mem = replace_all bs (replace_in mem (braced n) v)

shown-Unmarked :
    (n v : List ℕ) (bs : List Binding) (ps : List Part)
    → Unmarked n ps
    → shown ((n, v) ∷ bs) ps ≡ shown bs ps
unfolding shown value_of
shown-Unmarked n v bs [] h = refl
shown-Unmarked n v bs (plain t ∷ ps) h = ap (λ r. t ++ r) (shown-Unmarked n v bs ps h)
shown-Unmarked n v bs (mark m ∷ ps) h =
    rw h.0 (ap (λ r. value_of bs m ++ r) (shown-Unmarked n v bs ps h.1))

shown-fill :
    (n v : List ℕ) (bs : List Binding) (ps : List Part)
    → MarksDiffer ps
    → shown ((n, v) ∷ bs) ps ≡ shown bs (fill n v ps)
unfolding shown value_of fill
shown-fill n v bs [] h = refl
shown-fill n v bs (plain t ∷ ps) h = ap (λ r. t ++ r) (shown-fill n v bs ps h)
shown-fill n v bs (mark m ∷ ps) h = elim (Bool-cases (bytes_eq n m)) [
  | inl same ↦
      let none_left = subst (λ a. Unmarked a ps) (sym (bytes_eq-eq n m same)) h.0 in
      rw same (ap (λ r. v ++ r) (shown-Unmarked n v bs ps none_left))
  | inr other ↦ rw other (ap (λ r. value_of bs m ++ r) (shown-fill n v bs ps h.1))
]

fill-Unmarked : (m n v : List ℕ) (ps : List Part) → Unmarked m ps → Unmarked m (fill n v ps)
unfolding fill
fill-Unmarked m n v [] h = tt
fill-Unmarked m n v (plain t ∷ ps) h = fill-Unmarked m n v ps h
fill-Unmarked m n v (mark k ∷ ps) h = elim (Bool-cases (bytes_eq n k)) [
  | inl same ↦ rw same h.1
  | inr other ↦ rw other (h.0, fill-Unmarked m n v ps h.1)
]

fill-MarksDiffer : (n v : List ℕ) (ps : List Part) → MarksDiffer ps → MarksDiffer (fill n v ps)
unfolding fill
fill-MarksDiffer n v [] h = tt
fill-MarksDiffer n v (plain t ∷ ps) h = fill-MarksDiffer n v ps h
fill-MarksDiffer n v (mark k ∷ ps) h = elim (Bool-cases (bytes_eq n k)) [
  | inl same ↦ rw same h.1
  | inr other ↦ rw other (fill-Unmarked k n v ps h.0, fill-MarksDiffer n v ps h.1)
]

IsText-AllNonzero : (t : List ℕ) → IsText t → AllNonzero t
IsText-AllNonzero [] h = tt
IsText-AllNonzero (c ∷ t) h = (ground (arith, h.0), IsText-AllNonzero t h.1)

render-IsText : (ps : List Part) → All IsPart ps → IsText (render ps)
unfolding render
render-IsText [] h = tt
render-IsText (plain t ∷ ps) h =
    All-append (λ c. (c == 0 || c == 0xff) ≡ false) t (render ps) h.0.1 (render-IsText ps h.1)
render-IsText (mark m ∷ ps) h =
    let byte = λ (c : ℕ). (c == 0 || c == 0xff) ≡ false in
    (
      refl,
      All-append byte (m ++ b'}' ∷ []) (render ps) (All-append byte m (b'}' ∷ []) h.0.1 (refl, tt))
          (render-IsText ps h.1),
    )

shown-none : (ps : List Part) → shown [] ps ≡ render ps
unfolding shown value_of render
shown-none [] = refl
shown-none (plain t ∷ ps) = ap (λ r. t ++ r) (shown-none ps)
shown-none (mark m ∷ ps) = ap (λ r. braced m ++ r) (shown-none ps)

-- the result of all the replacements is a text without 0x00 and 0xFF, with its NUL behind it
pub replace_all-shown :
    (bs : List Binding) (ps : List Part) (behind : List ℕ)
    → All IsBinding bs
    → All IsPart ps
    → MarksDiffer ps
    → (behind' : List ℕ) × (replace_all bs (c_str (render ps) ++ behind)
        ≡ c_str (shown bs ps) ++ behind')
      × IsText (shown bs ps)
unfolding replace_all
replace_all-shown [] ps behind b h d =
    let same = sym (shown-none ps) in
    (behind, ap (λ t. c_str t ++ behind) same, subst (λ t. IsText t) same (render-IsText ps h))
replace_all-shown ((n, v) ∷ bs) ps behind b h d =
    let (behind1, now) =
      replace_in-text (render ps) (render (fill n v ps)) (braced n) v behind
        (IsText-AllNonzero (render ps) (render-IsText ps h)) (replace_str-render n v ps b.0.0 h) in
    let (behind2, later, clean) =
      replace_all-shown bs (fill n v ps) behind1 b.1 (fill-IsPart n v ps b.0.1 h)
        (fill-MarksDiffer n v ps d) in
    let same = sym (shown-fill n v bs ps d) in
    (
      behind2,
      ap (replace_all bs) now ∙ later ∙ ap (λ t. c_str t ++ behind2) same,
      subst (λ t. IsText t) same clean,
    )
