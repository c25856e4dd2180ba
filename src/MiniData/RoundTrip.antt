-- ===== src/MiniData/RoundTrip.antt =====
-- `miniDataGet` recovers what `miniDataCreate` framed.
use esp32base.Base.{
  ℕ, zero, suc, ◌+◌, ◌≤◌, ◌<◌, ◌≡◌, refl, ap, ap₂, sym, ◌∙◌, true, false, List, [], ◌∷◌, ◌++◌,
  arith, ◌==◌, ltb, if◌then◌else◌, length, length-append, get_or, take, drop, append_assoc,
  take-append_length, get_or-append_length, Bool-cases, inl, inr,
}
use esp32base.MiniData.{
  MiniData, Got, find_byte, length_field, create, get_parameter, get_frame, get,
}

take_all : (xs : List ℕ) → take (length xs) xs ≡ xs
take_all [] = refl
take_all (x ∷ xs) = ap (λ t. x ∷ t) (take_all xs)

-- the frame of a parameter, in its two forms
pub create_short :
    (p : List ℕ)
    → 0 < length p
    → length p < 255
    → create (length p) p ≡ 0xaf ∷ length p ∷ (p ++ 0xfa ∷ [])
unfolding create length_field
create_short p h k = ground (arith, take_all p)

pub create_long :
    (p : List ℕ) → length p ≡ 255 → create (length p) p ≡ 0xaf ∷ 0xff ∷ 0xff ∷ 0 ∷ (p ++ 0xfa ∷ [])
unfolding create length_field
create_long p e = ground (arith, take_all p)

-- index of the parameter in its frame
abbrev pub parameter_at : List ℕ → ℕ
parameter_at p = if ltb (length p) 0xff then 2 else 4

pub length-create :
    (p : List ℕ)
    → 0 < length p
    → length p < 256
    → length (create (length p) p) ≡ length p + parameter_at p + 1
length-create p h k = elim (Bool-cases (ltb (length p) 0xff)) [
  | inl s ↦ rw (create_short p h (ground arith), s) (omega (arith, length-append p (0xfa ∷ [])))
  | inr l ↦ rw (create_long p (ground arith), l) (omega (arith, length-append p (0xfa ∷ [])))
]

-- the record that a successful call leaves
abbrev pub framed : List ℕ → MiniData
framed p = record {
  head = 0xaf;
  parameter_len = length p;
  parameter = parameter_at p;
  end = 0xfa;
  frame_head = 0;
  frame_len = length p + parameter_at p + 1;
}

end-mark : (p rest : List ℕ) → get_or ((p ++ 0xfa ∷ []) ++ rest) (length p) 0 ≡ 0xfa
end-mark p rest = rw (append_assoc p (0xfa ∷ []) rest) (get_or-append_length p (0xfa ∷ rest) 0)

get_or-skip_two : (a b : ℕ) (xs : List ℕ) (n : ℕ) → get_or (a ∷ b ∷ xs) (2 + n) 0 ≡ get_or xs n 0
get_or-skip_two a b xs n = let e : 2 + n ≡ suc (suc n) = omega arith in rw e

get_or-skip_four :
    (a b c d : ℕ) (xs : List ℕ) (n : ℕ) → get_or (a ∷ b ∷ c ∷ d ∷ xs) (4 + n) 0 ≡ get_or xs n 0
get_or-skip_four a b c d xs n = let e : 4 + n ≡ suc (suc (suc (suc n))) = omega arith in rw e

-- what a call that found a frame returns
abbrev found : MiniData → ℕ → ℕ → ℕ → Got
found c at plen size = (
  size,
  true,
  record c { head = 0xaf; parameter_len = plen; parameter = at; end = 0xfa; frame_len = size },
)

get_parameter-fits :
    (cache : List ℕ) (len n base : ℕ) (c : MiniData)
    → 0 < c.parameter_len
    → c.parameter_len + base ≤ len
    → get_or cache (n + c.parameter_len) 0 ≡ 0xfa
    → get_parameter cache len n base c ≡ (
      n + c.parameter_len + 1,
      true,
      record c { parameter = n; end = 0xfa; frame_len = n + c.parameter_len + 1 },
    )
unfolding get_parameter
get_parameter-fits cache len n base c h k e = ground arith

find_byte-front : (b : ℕ) (xs : List ℕ) (n : ℕ) → find_byte b (b ∷ xs) n ≡ 0
unfolding find_byte
find_byte-front b xs zero = refl
find_byte-front b xs (suc n) = ground arith

get-front :
    (xs : List ℕ) (len : ℕ) (c : MiniData)
    → 3 ≤ len
    → get (0xaf ∷ xs) len c ≡ get_frame (0xaf ∷ xs) len (record c { frame_head = 0 })
unfolding get
get-front xs len c h = ground (arith, find_byte-front 0xaf xs len)

get_frame-short :
    (p rest : List ℕ) (len : ℕ) (c : MiniData)
    → 0 < length p
    → length p < 255
    → length p + 3 ≤ len
    → get_frame (0xaf ∷ length p ∷ ((p ++ 0xfa ∷ []) ++ rest)) len c
      ≡ found c 2 (length p) (length p + 2 + 1)
unfolding get_frame
get_frame-short p rest len c h k fits =
    let short : (length p == 255) ≡ false = ground arith in
    rw short (
      get_parameter-fits (0xaf ∷ length p ∷ ((p ++ 0xfa ∷ []) ++ rest)) len 2 3
        (record c { head = 0xaf; parameter_len = length p }) h fits
        (get_or-skip_two 0xaf (length p) _ (length p) ∙ end-mark p rest)
      ∙ ap (found c 2 (length p)) (omega arith))

get_frame-long :
    (p rest : List ℕ) (len : ℕ) (c : MiniData)
    → length p ≡ 255
    → 260 ≤ len
    → get_frame (0xaf ∷ 0xff ∷ 0xff ∷ 0 ∷ ((p ++ 0xfa ∷ []) ++ rest)) len c
      ≡ found c 4 (length p) (length p + 4 + 1)
unfolding get_frame
get_frame-long p rest len c k fits =
    get_parameter-fits (0xaf ∷ 0xff ∷ 0xff ∷ 0 ∷ ((p ++ 0xfa ∷ []) ++ rest)) len 4 5
      (record c { head = 0xaf; parameter_len = 255 }) (omega arith) fits
      (ap (λ n. get_or ((p ++ 0xfa ∷ []) ++ rest) n 0) (sym k) ∙ end-mark p rest)
    ∙ ap₂ (found c 4) (sym k) (omega arith)

-- A parameter of 1 to 255 bytes, framed by `miniDataCreate`, with anything behind the frame: given at
-- least the frame's bytes, `miniDataGet` succeeds, returns the frame's length, and its record gives
-- the parameter's length and place; the bytes there are the parameter.
pub get-create :
    (p rest : List ℕ) (cache_len : ℕ) (pcmd : MiniData)
    → 0 < length p
    → length p < 256
    → length (create (length p) p) ≤ cache_len
    → (get (create (length p) p ++ rest) cache_len pcmd
        ≡ (length (create (length p) p), true, framed p))
      × (take (length p) (drop (parameter_at p) (create (length p) p ++ rest)) ≡ p)
get-create p rest cache_len pcmd h k fits =
    let size = length-create p h k in
    let room : length p + parameter_at p + 1 ≤ cache_len = omega arith in
    let back : take (length p) ((p ++ 0xfa ∷ []) ++ rest) ≡ p =
      ap (take (length p)) (append_assoc p (0xfa ∷ []) rest) ∙ take-append_length p _ in
    elim (Bool-cases (ltb (length p) 0xff)) [
      | inl s ↦
          rw (size, create_short p h (ground arith), s)
            (
              get-front _ cache_len pcmd (ground arith)
                  ∙ get_frame-short p rest cache_len _ h (ground arith) (ground arith),
              back,
            )
      | inr l ↦
          rw (size, create_long p (ground arith), l)
            (
              get-front _ cache_len pcmd (ground arith)
                  ∙ get_frame-long p rest cache_len _ (ground arith) (ground arith),
              back,
            )
    ]
