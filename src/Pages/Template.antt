-- ===== src/Pages/Template.antt =====
-- A page with marks, as webpage/info.htm is one: text, and names in braces.
use esp32base.Base.{
  ℕ, ◌≡◌, refl, ap, sym, ◌∙◌, Bool, true, false, ◌&&◌, List, [], ◌∷◌, ◌++◌, ◌==◌, leb, arith,
  if◌then◌else◌, starts_with, Bool-cases, inl, inr, All, append_assoc, bytes_eq,
}
use esp32base.SpiData.Laws.{IsText}
use esp32base.UrlParser.{replace_str, find_str}
use esp32base.UrlParser.Replace.{NotIn, replace_str-here, replace_str-past}

pub data Part : Type 0 where
  plain : List ℕ → Part
  mark : List ℕ → Part

-- a name in braces
abbrev pub braced : List ℕ → List ℕ
braced name = b'{' ∷ (name ++ b'}' ∷ [])

unfoldable pub render : List Part → List ℕ
render [] = []
render (plain t ∷ ps) = t ++ render ps
render (mark name ∷ ps) = braced name ++ render ps

abbrev pub is_lower : ℕ → Bool
is_lower c = leb b'a' c && leb c b'z'

-- text in which a brace is opened only before a character that is no small letter
abbrev pub IsPlain : List ℕ → Type 0
IsPlain [] = Unit
IsPlain (c ∷ []) = (c == b'{') ≡ false
IsPlain (c ∷ d ∷ t) = ((c == b'{' && is_lower d) ≡ false) × IsPlain (d ∷ t)

-- names begin with a small letter, and hold no braces
abbrev pub NoBrace : List ℕ → Type 0
NoBrace = All (λ c. ((c == b'{') ≡ false) × ((c == b'}') ≡ false))

abbrev pub IsName : List ℕ → Type 0
IsName [] = ⊥
IsName (c ∷ name) = (is_lower c ≡ true) × NoBrace (c ∷ name)

-- what a part may hold
abbrev pub IsPart : Part → Type 0
IsPart (plain t) = IsPlain t × IsText t
IsPart (mark name) = IsName name × IsText name

-- the first mark of a name becomes a value
unfoldable pub fill : List ℕ → List ℕ → List Part → List Part
fill name value [] = []
fill name value (plain t ∷ ps) = plain t ∷ fill name value ps
fill name value (mark m ∷ ps) =
    let rest = fill name value ps in if bytes_eq name m then plain value ∷ ps else mark m ∷ rest

-- a name and the brace behind it, before a name and the brace behind that
names :
    (n m behind : List ℕ)
    → NoBrace n
    → NoBrace m
    → starts_with (n ++ b'}' ∷ []) (m ++ b'}' ∷ behind) ≡ bytes_eq n m
unfolding starts_with bytes_eq
names [] [] behind h k = refl
names [] (y ∷ m) behind h k = ground arith
names (x ∷ n) [] behind h k = ground arith
names (x ∷ n) (y ∷ m) behind h k = ground (arith, names n m behind h.1 k.1)

unopened :
    (c : ℕ) (name s : List ℕ) → (c == b'{') ≡ false → starts_with (braced name) (c ∷ s) ≡ false
unfolding starts_with
unopened c name s h = ground arith

plain_brace :
    (c d : ℕ) (name s : List ℕ)
    → IsName name
    → (c == b'{' && is_lower d) ≡ false
    → starts_with (braced name) (c ∷ d ∷ s) ≡ false
unfolding starts_with
plain_brace c d [] s n h = absurd n
plain_brace c d (x ∷ name) s n h = ground arith

NotIn-plain : (name t behind : List ℕ) → IsName name → IsPlain t → NotIn (braced name) t behind
NotIn-plain name [] behind n h = tt
NotIn-plain name (c ∷ []) behind n h = (unopened c name behind h, tt)
NotIn-plain name (c ∷ d ∷ t) behind n h =
    (plain_brace c d name (t ++ behind) n h.0, NotIn-plain name (d ∷ t) behind n h.1)

NotIn-closed : (name m behind : List ℕ) → NoBrace m → NotIn (braced name) (m ++ b'}' ∷ []) behind
NotIn-closed name [] behind h = (unopened b'}' name behind refl, tt)
NotIn-closed name (c ∷ m) behind h =
    (unopened c name ((m ++ b'}' ∷ []) ++ behind) h.0.0, NotIn-closed name m behind h.1)

IsName-NoBrace : (name : List ℕ) → IsName name → NoBrace name
IsName-NoBrace [] h = absurd h
IsName-NoBrace (c ∷ name) h = h.1

-- Two marks with the same front are the same mark.
mark-starts :
    (n m behind : List ℕ)
    → IsName n
    → IsName m
    → starts_with (braced n) (braced m ++ behind) ≡ bytes_eq n m
unfolding starts_with
mark-starts n m behind h k =
    ap (starts_with (n ++ b'}' ∷ [])) (append_assoc m (b'}' ∷ []) behind)
    ∙ names n m behind (IsName-NoBrace n h) (IsName-NoBrace m k)

pub bytes_eq-eq : (a b : List ℕ) → bytes_eq a b ≡ true → a ≡ b
unfolding bytes_eq
bytes_eq-eq [] [] h = refl
bytes_eq-eq [] (y ∷ b) h = cc
bytes_eq-eq (x ∷ a) [] h = cc
bytes_eq-eq (x ∷ a) (y ∷ b) h = ground (arith, bytes_eq-eq a b)

-- Of the parts of a page, the replacement of a name in braces fills the first mark of that name.
pub replace_str-render :
    (name value : List ℕ) (ps : List Part)
    → IsName name
    → All IsPart ps
    → (replace_str (render ps) (braced name) value).1 ≡ render (fill name value ps)
unfolding render fill
replace_str-render name value [] n h = unfold replace_str find_str starts_with in refl
replace_str-render name value (plain t ∷ ps) n h =
    replace_str-past t (render ps) (braced name) value (NotIn-plain name t (render ps) n h.0.0)
    ∙ ap (λ r. t ++ r) (replace_str-render name value ps n h.1)
replace_str-render name value (mark m ∷ ps) n h = elim (Bool-cases (bytes_eq name m)) [
  | inl same ↦ rw same (
      ap (λ a. (replace_str (braced a ++ render ps) (braced name) value).1)
        (sym (bytes_eq-eq name m same))
      ∙ replace_str-here (braced name) (render ps) value)
  | inr other ↦
      let front = mark-starts name m (render ps) n h.0.0 ∙ other in
      let rest = NotIn-closed name m (render ps) (IsName-NoBrace m h.0.0) in
      rw other (
        replace_str-past (braced m) (render ps) (braced name) value (front, rest)
        ∙ ap (λ r. braced m ++ r) (replace_str-render name value ps n h.1))
]

pub fill-IsPart :
    (name value : List ℕ) (ps : List Part)
    → IsPart (plain value)
    → All IsPart ps
    → All IsPart (fill name value ps)
unfolding fill
fill-IsPart name value [] v h = tt
fill-IsPart name value (plain t ∷ ps) v h = (h.0, fill-IsPart name value ps v h.1)
fill-IsPart name value (mark m ∷ ps) v h = elim (Bool-cases (bytes_eq name m)) [
  | inl same ↦ rw same (v, h.1)
  | inr other ↦ rw other (h.0, fill-IsPart name value ps v h.1)
]
