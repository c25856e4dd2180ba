-- ===== src/UrlParser.antt =====
-- components/http/url_parser.c: the replacement in a text, and the parts of a URL around
-- `http_parser_parse_url`, which is a parameter. Its trims are those of `Text`.
pub mod Replace
use esp32base.Base.{
  ℕ, suc, ◌+◌, ◌%◌, ◌^◌, Bool, true, false, Option, none, some, List, [], ◌∷◌, ◌++◌, ◌==◌,
  if◌then◌else◌, length, take, drop, starts_with, until_nul, c_str, decimal,
}

abbrev pub later : Option ℕ → Option ℕ
later none = none
later (some n) = some (suc n)

-- strstr(s, p): where it stands in `s`
unfoldable pub find_str : List ℕ → List ℕ → Option ℕ
find_str p [] = if starts_with p [] then some 0 else none
find_str p (c ∷ s) =
    let rest = later (find_str p s) in if starts_with p (c ∷ s) then some 0 else rest

-- the two branches on `p`: the result, and what is put into `pOutput`
unfoldable pub replaced : List ℕ → List ℕ → List ℕ → Option ℕ → Bool × List ℕ
replaced input src dst none = (false, input)
replaced input src dst (some n) = (true, take n input ++ (dst ++ drop (n + length src) input))

-- `replace_str` on C strings
unfoldable pub replace_str : List ℕ → List ℕ → List ℕ → Bool × List ℕ
unfolding replaced
replace_str input src dst = replaced input src dst (find_str src input)

-- `replace_str` with `pOutput` the same memory as `pInput`. What is longer than the memory is written
-- behind it.
unfoldable pub replace_in : List ℕ → List ℕ → List ℕ → List ℕ
replace_in mem src dst =
    let out = (replace_str (until_nul mem) src dst).1 in c_str out ++ drop (length out + 1) mem

-- a part of `http_parser_url`: `field_set` says whether it is there
pub record UrlField : Type 0 where
  pub is_set : Bool
  pub off : ℕ
  pub len : ℕ

-- `http_parser_url`
pub record ParserUrl : Type 0 where
  pub schema : UrlField
  pub host : UrlField
  pub path : UrlField
  pub query : UrlField
  pub is_port : Bool
  pub port : ℕ

abbrev pub field_of : List ℕ → UrlField → List ℕ
field_of uri f = take f.len (drop f.off uri)

-- `url_get_port`
unfoldable pub url_get_port : ParserUrl → ℕ
url_get_port url = if url.is_port then url.port else if url.schema.len == 5 then 443 else 80

-- `url_get_authority`
unfoldable pub url_get_authority : ParserUrl → List ℕ → List ℕ
url_get_authority url uri =
    field_of uri url.host ++ (if url.is_port then b':' ∷ decimal url.port else [])

-- `url_get_path`, for a path and a query that are shorter together than 65535
unfoldable pub url_get_path : ParserUrl → List ℕ → List ℕ
url_get_path url uri =
    (if url.path.is_set then field_of uri url.path else b'/' ∷ [])
    ++ (if url.query.is_set then b'?' ∷ field_of uri url.query else [])

-- `url_t`
pub record Url : Type 0 where
  pub scheme : List ℕ
  pub host : List ℕ
  pub port : ℕ
  pub authority : List ℕ
  pub path : List ℕ

-- `url_parse`, given what `http_parser_parse_url` gives; `none` is NULL
unfoldable pub url_parse : (List ℕ → Option ParserUrl) → List ℕ → Option Url
url_parse http_parser_parse_url uri = elim (http_parser_parse_url uri) [
  | none ↦ none
  | some url ↦ some (record {
    scheme = field_of uri url.schema;
    host = field_of uri url.host;
    port = url_get_port url;
    authority = url_get_authority url uri;
    path = url_get_path url uri;
  })
]
