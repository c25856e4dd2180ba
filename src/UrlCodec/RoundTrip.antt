-- ===== src/UrlCodec/RoundTrip.antt =====
-- The URL codec: round trip, alphabet, sizes.
use esp32base.Base.{
  ℕ, ◌<◌, ◌≤◌, ◌≡◌, refl, ap, ap₂, ◌∙◌, ◌⊎◌, ◌*◌, ◌+◌, ◌/◌, ◌%◌, Bool-cases, inl, inr, true, false,
  ◌&&◌, if◌then◌else◌, List, [], ◌∷◌, arith, ◌==◌, length, All, AllBytes,
}
use esp32base.UrlCodec.{is_xdigit, digit_value, hex_char, is_escaped, url_decode, url_encode}
use esp32base.UrlCodec.Digits.{hex_char_lem}

url_decode-plus : (rest : List ℕ) → url_decode (b'+' ∷ rest) ≡ b' ' ∷ url_decode rest
unfolding url_decode
url_decode-plus [] = refl
url_decode-plus (d ∷ []) = refl
url_decode-plus (d ∷ e ∷ rest) = refl

url_decode-plain :
    (c : ℕ) (rest : List ℕ)
    → (c == b'+') ≡ false
    → (c == b'%') ≡ false
    → url_decode (c ∷ rest) ≡ c ∷ url_decode rest
unfolding url_decode
url_decode-plain c [] p q = rw p
url_decode-plain c (d ∷ []) p q = rw p
url_decode-plain c (d ∷ e ∷ rest) p q = rw (p, q)

url_decode-escape :
    (d e : ℕ) (rest : List ℕ)
    → is_xdigit d ≡ true
    → is_xdigit e ≡ true
    → url_decode (b'%' ∷ d ∷ e ∷ rest)
      ≡ (digit_value d * 16 + digit_value e) % 256 ∷ url_decode rest
unfolding url_decode
url_decode-escape d e rest p q = rw (p, q)

not_plus : (c : ℕ) → is_escaped c ≡ false → ((c == b'+') ≡ false) × ((c == b'%') ≡ false)
not_plus c h = ground arith

-- Decoding the encoding of any bytes gives them back.
pub url_decode-url_encode : (s : List ℕ) → AllBytes s → url_decode (url_encode s) ≡ s
unfolding url_encode
url_decode-url_encode [] h = unfold url_decode in refl
url_decode-url_encode (c ∷ s) h = elim (Bool-cases (c == b' ')) [
  | inl space ↦
      let is_space : b' ' ≡ c = ground arith in
      rw space (url_decode-plus (url_encode s) ∙ ap₂ ◌∷◌ is_space (url_decode-url_encode s h.1))
  | inr other ↦ elim (Bool-cases (is_escaped c)) [
    | inl escaped ↦
        let (hi, hi_value, _, _) = hex_char_lem (c / 16) (omega (arith, h.0)) in
        let (lo, lo_value, _, _) = hex_char_lem (c % 16) (omega arith) in
        rw (other, escaped)
          (url_decode-escape _ _ (url_encode s) hi lo
            ∙ ap₂ ◌∷◌ (rw (hi_value, lo_value) (omega (arith, h.0))) (url_decode-url_encode s h.1))
    | inr plain ↦
        let (p, q) = not_plus c plain in
        rw (other, plain)
          (url_decode-plain c (url_encode s) p q ∙ ap (λ t. c ∷ t) (url_decode-url_encode s h.1))
  ]
]

-- `unescape` of a web page on a string without "%u": an escape of two hex digits is its byte, and all
-- else, a plus sign too, stays.
unfoldable pub unescape : List ℕ → List ℕ
unescape [] = []
unescape (c ∷ []) = c ∷ []
unescape (c ∷ d ∷ []) = c ∷ unescape (d ∷ [])
unescape (c ∷ d ∷ e ∷ rest) =
    let skip = unescape (d ∷ e ∷ rest) in
    let taken = unescape rest in
    if c == b'%' && (is_xdigit d && is_xdigit e)
    then (digit_value d * 16 + digit_value e) ∷ taken
    else c ∷ skip

-- a text with plus signs for its blanks
abbrev pub plus_for_blank : List ℕ → List ℕ
plus_for_blank [] = []
plus_for_blank (c ∷ s) = (if c == b' ' then b'+' else c) ∷ plus_for_blank s

unescape-plain :
    (c : ℕ) (rest : List ℕ) → (c == b'%') ≡ false → unescape (c ∷ rest) ≡ c ∷ unescape rest
unfolding unescape
unescape-plain c [] q = refl
unescape-plain c (d ∷ []) q = refl
unescape-plain c (d ∷ e ∷ rest) q = rw q refl

unescape-escape :
    (d e : ℕ) (rest : List ℕ)
    → is_xdigit d ≡ true
    → is_xdigit e ≡ true
    → unescape (b'%' ∷ d ∷ e ∷ rest) ≡ (digit_value d * 16 + digit_value e) ∷ unescape rest
unfolding unescape
unescape-escape d e rest p q = rw (p, q) refl

-- A page that reads the encoding of any bytes with `unescape` has them with plus signs for the blanks.
pub unescape-url_encode : (s : List ℕ) → AllBytes s → unescape (url_encode s) ≡ plus_for_blank s
unfolding url_encode
unescape-url_encode [] h = unfold unescape in refl
unescape-url_encode (c ∷ s) h = elim (Bool-cases (c == b' ')) [
  | inl space ↦
      rw space
        (unescape-plain b'+' (url_encode s) refl ∙ ap (λ t. b'+' ∷ t) (unescape-url_encode s h.1))
  | inr other ↦ elim (Bool-cases (is_escaped c)) [
    | inl escaped ↦
        let (hi, hi_value, _, _) = hex_char_lem (c / 16) (omega (arith, h.0)) in
        let (lo, lo_value, _, _) = hex_char_lem (c % 16) (omega arith) in
        rw (other, escaped)
          (unescape-escape _ _ (url_encode s) hi lo
            ∙ ap₂ ◌∷◌ (rw (hi_value, lo_value) (omega arith)) (unescape-url_encode s h.1))
    | inr plain ↦
        let (p, q) = not_plus c plain in
        rw (other, plain)
          (unescape-plain c (url_encode s) q ∙ ap (λ t. c ∷ t) (unescape-url_encode s h.1))
  ]
]

-- a character that a URL may hold as it is, or one that the encoding uses
abbrev pub IsUrlChar : ℕ → Type 0
IsUrlChar c =
    ((b'0' ≤ c) × (c ≤ b'9'))
    ⊎ ((b'A' ≤ c) × (c ≤ b'Z'))
    ⊎ ((b'a' ≤ c) × (c ≤ b'z'))
    ⊎ (c ≡ b'-')
    ⊎ (c ≡ b'.')
    ⊎ (c ≡ b'_')
    ⊎ (c ≡ b'+')
    ⊎ (c ≡ b'%')

hex_char-IsUrlChar : (d : ℕ) → d < 16 → IsUrlChar (hex_char d)
unfolding hex_char
hex_char-IsUrlChar d h = ground arith

plain-IsUrlChar : (c : ℕ) → is_escaped c ≡ false → (c == b' ') ≡ false → IsUrlChar c
plain-IsUrlChar c h k = ground arith

-- The encoding of any bytes consists of letters, digits and - . _ + % alone, and takes at most three
-- characters for each byte, what `zhHttpUrlEncode` allocates.
pub url_encode_lem :
    (s : List ℕ)
    → AllBytes s
    → All IsUrlChar (url_encode s) × (length (url_encode s) ≤ 3 * length s)
unfolding url_encode
url_encode_lem [] h = (tt, omega arith)
url_encode_lem (c ∷ s) h =
    let (chars, len) = url_encode_lem s h.1 in
    elim (Bool-cases (c == b' ')) [
      | inl space ↦ rw space ((omega arith, chars), omega arith)
      | inr other ↦ elim (Bool-cases (is_escaped c)) [
        | inl escaped ↦
            let hi = hex_char-IsUrlChar (c / 16) (omega (arith, h.0)) in
            let lo = hex_char-IsUrlChar (c % 16) (omega arith) in
            rw (other, escaped) ((omega arith, (hi, (lo, chars))), omega arith)
        | inr plain ↦ rw (other, plain) ((plain-IsUrlChar c plain other, chars), omega arith)
      ]
    ]

-- Decoding never lengthens: the result fits where its text stood.
pub length-url_decode : (s : List ℕ) → length (url_decode s) ≤ length s
unfolding url_decode
length-url_decode [] = omega arith
length-url_decode (c ∷ []) = omega arith
length-url_decode (c ∷ d ∷ []) = omega arith
length-url_decode (c ∷ d ∷ e ∷ rest) =
    ground (arith, length-url_decode (d ∷ e ∷ rest), length-url_decode rest)
