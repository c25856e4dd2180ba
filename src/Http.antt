-- ===== src/Http.antt =====
-- components/http/http_serv.c: the HTTP server's request reader and its answers. `zhMatchString` and
-- `urlSplit` of this file are in `Text`.
pub mod Request
pub mod Pieces
use esp32base.Base.{
  ℕ, zero, suc, ◌+◌, ◌-◌, Bool, true, false, ◌&&◌, ◌||◌, Option, none, some, List, [], ◌∷◌, ◌++◌,
  ◌==◌, ltb, if◌then◌else◌, length, get_or, take, drop, starts_with, codes, until_nul,
}
use esp32base.Stream.{blit}
use esp32base.Text.{match_string}

-- the letter, in upper or lower case
abbrev pub is_letter : ℕ → ℕ → Bool
is_letter upper c = c == upper || c == upper + 32

-- the tests of `getbegnstr` at one place; the fourth letter of POST is tested as `*(p+3)=='T' || *(p+2)=='t'`
unfoldable pub is_get : List ℕ → Bool
is_get p =
    is_letter b'G' (get_or p 0 0)
    && (is_letter b'E' (get_or p 1 0) && (is_letter b'T' (get_or p 2 0) && get_or p 3 0 == b' '))

unfoldable pub is_post : List ℕ → Bool
is_post p =
    is_letter b'P' (get_or p 0 0)
    && (is_letter b'O' (get_or p 1 0)
        && (is_letter b'S' (get_or p 2 0)
            && ((get_or p 3 0 == b'T' || get_or p 2 0 == b't') && get_or p 4 0 == b' ')))

-- `getbegnstr`: the memory from the place found on; `none` is NULL
unfoldable pub getbegnstr : List ℕ → Option (List ℕ)
getbegnstr [] = none
getbegnstr (c ∷ buf) =
    let next = getbegnstr buf in
    if c == 0
    then none
    else if is_get (c ∷ buf)
    then some (c ∷ buf)
    else if is_post (c ∷ buf)
    then some (c ∷ buf)
    else next

abbrev pub rnrn : List ℕ
rnrn = 0x0D ∷ 0x0A ∷ 0x0D ∷ 0x0A ∷ []

-- `rnrnstr`
unfoldable pub rnrnstr : List ℕ → Option (List ℕ)
rnrnstr [] = none
rnrnstr (c ∷ buf) =
    let next = rnrnstr buf in
    if c == 0 then none else if starts_with rnrn (c ∷ buf) then some (c ∷ buf) else next

-- `TzhHttpServ`
pub record HttpServ : Type 0 where
  pub cache_buf : List ℕ
  pub cache_len : ℕ

abbrev pub cache_buf_size : ℕ
cache_buf_size = 3000

-- The branches of `httpServReslovURL` on the two searches: the result, and what is in `dstURL`, which
-- holds `dst` before. The two `memcmp` are in upper case alone.
unfoldable pub url_of : Option (List ℕ) → Option (List ℕ) → List ℕ → ℕ × List ℕ
url_of none pstr dst = (2, dst)
url_of (some pheadstr) none dst = (3, dst)
url_of (some pheadstr) (some pstr) dst =
    if starts_with (codes "GET") pheadstr
    then (0, match_string (until_nul pheadstr) (codes "GET ") 0x20)
    else if starts_with (codes "POST") pheadstr
    then (0, match_string (until_nul pheadstr) (codes "POST ") 0x20)
    else (0, dst)

-- the cache is kept on result 3 alone
abbrev pub keep_on : ℕ → ℕ → ℕ
keep_on result tmp = if result == 3 then tmp else 0

-- `httpServReslovURL`: the result, `dstURL`, and the server after it
unfoldable pub serv_reslov_url : HttpServ → List ℕ → List ℕ → ℕ × (List ℕ × HttpServ)
serv_reslov_url serv recvbuf dst =
    let tmp = serv.cache_len + length recvbuf in
    let cache = blit serv.cache_buf serv.cache_len recvbuf in
    let (result, url) = url_of (getbegnstr cache) (rnrnstr cache) dst in
    if ltb tmp cache_buf_size
    then (result, (url, record { cache_buf = cache; cache_len = keep_on result tmp }))
    else (1, (dst, record serv { cache_len = 0 }))
