-- ===== src/Query/Lookup.antt =====
-- A query string is read as the list of pairs that it writes down.
use esp32base.Base.{
  ℕ, ◌≤◌, ◌<◌, ◌≡◌, ◌≢◌, refl, ap, ◌∙◌, Bool, true, false, Option, none, some, List, [], ◌∷◌, ◌++◌,
  ◌==◌, ltb, if◌then◌else◌, length, bytes_eq, arith, All, Bool-cases, inl, inr, length-append,
}
use esp32base.Query.{
  words, read_part, read_parts, read_all, url_get_parameter, zh_http_get_parameter,
}

-- no mark, and something
abbrev pub IsWord : ℕ → List ℕ → Type 0
IsWord mark w = (0 < length w) × All (λ c. c ≢ mark) w

words-word : (mark : ℕ) (w : List ℕ) → IsWord mark w → words mark w ≡ w ∷ []
unfolding words
words-word mark [] h = absurd (omega (arith, h.0))
words-word mark (c ∷ []) h =
    let other : (c == mark) ≡ false = ground (arith, h.1.0) in rw other refl
words-word mark (c ∷ d ∷ w) h =
    let other : (c == mark) ≡ false = ground (arith, h.1.0) in
    let next : (d == mark) ≡ false = ground (arith, h.1.1.0) in
    rw (other, words-word mark (d ∷ w) (omega arith, h.1.1), next) refl

pub words-more :
    (mark : ℕ) (w s : List ℕ) → IsWord mark w → words mark (w ++ mark ∷ s) ≡ w ∷ words mark s
unfolding words
words-more mark [] s h = absurd (omega (arith, h.0))
words-more mark (c ∷ []) s h =
    let other : (c == mark) ≡ false = ground (arith, h.1.0) in
    let same : (mark == mark) ≡ true = ground arith in rw (other, same) refl
words-more mark (c ∷ d ∷ w) s h =
    let other : (c == mark) ≡ false = ground (arith, h.1.0) in
    let next : (d == mark) ≡ false = ground (arith, h.1.1.0) in
    rw (other, words-more mark (d ∷ w) s (omega arith, h.1.1), next) refl

abbrev pub Pair : Type 0
Pair = List ℕ × List ℕ

abbrev pub pair_text : Pair → List ℕ
pair_text (key, value) = key ++ b'=' ∷ value

-- the query string of these pairs
abbrev pub query : List Pair → List ℕ
query [] = []
query (p ∷ []) = pair_text p
query (p ∷ q ∷ ps) = pair_text p ++ b'&' ∷ query (q ∷ ps)

-- no mark of a query string, and something
abbrev pub IsField : List ℕ → Type 0
IsField w = IsWord b'=' w × All (λ c. c ≢ b'&') w

abbrev pub AreFields : List Pair → Type 0
AreFields = All (λ p. IsField p.0 × IsField p.1)

-- the value of the first pair whose key matches
unfoldable pub lookup : (List ℕ → Bool) → List Pair → Option (List ℕ)
lookup matches [] = none
lookup matches ((key, value) ∷ ps) =
    let later = lookup matches ps in if matches key then some value else later

abbrev texts : List Pair → List (List ℕ)
texts [] = []
texts (p ∷ ps) = pair_text p ∷ texts ps

All-middle :
    (P : ℕ → Type 0) (xs ys : List ℕ) (c : ℕ) → All P xs → P c → All P ys → All P (xs ++ c ∷ ys)
All-middle P [] ys c h m k = (m, k)
All-middle P (x ∷ xs) ys c h m k = (h.0, All-middle P xs ys c h.1 m k)

pair_text-IsWord : (p : Pair) → IsField p.0 → IsField p.1 → IsWord b'&' (pair_text p)
pair_text-IsWord (key, value) h k = (
  omega (arith, length-append key (b'=' ∷ value)),
  All-middle (λ c. c ≢ b'&') key value b'=' h.1 (omega arith) k.1,
)

words-query :
    (p : Pair) (ps : List Pair) → AreFields (p ∷ ps) → words b'&' (query (p ∷ ps)) ≡ texts (p ∷ ps)
words-query p [] h = words-word b'&' (pair_text p) (pair_text-IsWord p h.0.0 h.0.1)
words-query p (q ∷ ps) h =
    words-more b'&' (pair_text p) (query (q ∷ ps)) (pair_text-IsWord p h.0.0 h.0.1)
    ∙ ap (λ t. pair_text p ∷ t) (words-query q ps h.1)

words-pair :
    (key value : List ℕ)
    → IsField key
    → IsField value
    → words b'=' (pair_text (key, value)) ≡ key ∷ value ∷ []
words-pair key value h k =
    words-more b'=' key value h.0 ∙ ap (λ t. key ∷ t) (words-word b'=' value k.0)

read_parts-texts :
    (matches : List ℕ → List ℕ → Bool) (parameter : List ℕ) (ps : List Pair)
    → AreFields ps
    → read_parts matches parameter (texts ps) ≡ some (lookup (matches parameter) ps)
unfolding read_parts read_part lookup
read_parts-texts matches parameter [] h = refl
read_parts-texts matches parameter ((key, value) ∷ ps) h =
    ap (λ w. read_part matches parameter w (read_parts matches parameter (texts ps)))
      (words-pair key value h.0.0 h.0.1)
    ∙ elim (Bool-cases (matches parameter key)) [
      | inl found ↦ rw found refl
      | inr other ↦ rw other (read_parts-texts matches parameter ps h.1)
    ]

read_all-query :
    (matches : List ℕ → List ℕ → Bool) (parameter : List ℕ) (p : Pair) (ps : List Pair)
    → AreFields (p ∷ ps)
    → read_all matches parameter (words b'&' (query (p ∷ ps)))
      ≡ some (lookup (matches parameter) (p ∷ ps))
unfolding read_all
read_all-query matches parameter p ps h =
    ap (read_all matches parameter) (words-query p ps h)
    ∙ read_parts-texts matches parameter (p ∷ ps) h

query_nonempty : (p : Pair) (ps : List Pair) → 0 < length (query (p ∷ ps))
query_nonempty (key, value) [] = omega (arith, length-append key (b'=' ∷ value))
query_nonempty p (q ∷ ps) = omega (arith, length-append (pair_text p) (b'&' ∷ query (q ∷ ps)))

-- A query string of at most 2048 bytes that writes down pairs of keys and values, none empty and none
-- with a mark: the server's reader gives the value of the first pair with exactly that key, and
-- nothing where no pair has it.
pub url_get_parameter-query :
    (p : Pair) (ps : List Pair) (parameter : List ℕ)
    → AreFields (p ∷ ps)
    → length (query (p ∷ ps)) ≤ 2048
    → url_get_parameter (query (p ∷ ps)) parameter ≡ some (lookup (bytes_eq parameter) (p ∷ ps))
unfolding url_get_parameter
url_get_parameter-query p ps parameter h fits =
    let nonempty = query_nonempty p ps in
    let inside : ltb 2048 (length (query (p ∷ ps))) ≡ false = ground arith in
    let some_text : (length (query (p ∷ ps)) == 0) ≡ false = ground arith in
    rw (inside, some_text) (read_all-query bytes_eq parameter p ps h)

-- The client's reader, on such a string of any length, gives the value of the first pair whose key
-- `zhHttpStrstri` finds in the parameter asked for, and nothing where it finds none: a key that is a
-- part of that parameter counts as it.
pub zh_http_get_parameter-query :
    (strstri : List ℕ → List ℕ → Bool) (p : Pair) (ps : List Pair) (parameter : List ℕ)
    → AreFields (p ∷ ps)
    → zh_http_get_parameter strstri (query (p ∷ ps)) parameter
      ≡ some (lookup (strstri parameter) (p ∷ ps))
unfolding zh_http_get_parameter
zh_http_get_parameter-query strstri p ps parameter h =
    let nonempty = query_nonempty p ps in
    let some_text : (length (query (p ∷ ps)) == 0) ≡ false = ground arith in
    rw some_text (read_all-query strstri parameter p ps h)
