-- ===== src/Query.antt =====
-- The readers of a query string: urlGetParameter of components/http/http_serv.c and
-- zhHttpGetParameter of components/http/zhHttp.c. They differ in how they compare a key, and the copy
-- of strcasestr in the second, zhHttpStrstri, is a parameter.
pub mod Lookup
use esp32base.Base.{
  ℕ, Bool, true, false, not, Option, none, some, List, [], ◌∷◌, ◌==◌, ltb, if◌then◌else◌, length,
  bytes_eq,
}

-- a word goes on with this text
abbrev pub goes_on : ℕ → List ℕ → Bool
goes_on mark [] = false
goes_on mark (c ∷ s) = not (c == mark)

abbrev pub lengthen : ℕ → List (List ℕ) → List (List ℕ)
lengthen c [] = (c ∷ []) ∷ []
lengthen c (w ∷ ws) = (c ∷ w) ∷ ws

-- the successive results of `strtok_r` with one mark, up to NULL: the parts between marks that are not
-- empty
unfoldable pub words : ℕ → List ℕ → List (List ℕ)
words mark [] = []
words mark (c ∷ s) =
    let rest = words mark s in
    if c == mark then rest else if goes_on mark s then lengthen c rest else (c ∷ []) ∷ rest

-- the result of a reader: `none` where a NULL is followed, else the value, nothing for the result 0
abbrev pub Read : Type 0
Read = Option (Option (List ℕ))

-- `p2`, which may be NULL
abbrev pub second : List (List ℕ) → Option (List ℕ)
second [] = none
second (p2 ∷ rest) = some p2

module _ (matches : List ℕ → List ℕ → Bool) (parameter : List ℕ) where
  -- one part of the query: what is done with the words that "=" makes of it
  unfoldable pub read_part : List (List ℕ) → Read → Read
  read_part [] later = none
  read_part (p1 ∷ rest) later = if matches parameter p1 then some (second rest) else later

  -- the loop over the parts
  unfoldable pub read_parts : List (List ℕ) → Read
  read_parts [] = some none
  read_parts (pPara ∷ parts) = let later = read_parts parts in read_part (words b'=' pPara) later

  -- the first `strtok_r` gives NULL for a text of marks alone, and the loop follows it
  unfoldable pub read_all : List (List ℕ) → Read
  read_all [] = none
  read_all (pPara ∷ parts) = read_parts (pPara ∷ parts)

-- `urlGetParameter`, of a text of at most 2048 bytes
unfoldable pub url_get_parameter : List ℕ → List ℕ → Read
url_get_parameter str parameter =
    if ltb 2048 (length str)
    then some none
    else if length str == 0
    then some none
    else read_all bytes_eq parameter (words b'&' str)

-- `zhHttpGetParameter`; `zhHttpStrstri(parameter, p1)` says whether `p1` is found in `parameter`
unfoldable pub zh_http_get_parameter : (List ℕ → List ℕ → Bool) → List ℕ → List ℕ → Read
zh_http_get_parameter strstri str parameter =
    if length str == 0 then some none else read_all strstri parameter (words b'&' str)
