-- ===== src/Text.antt =====
-- The string routines: the trims and the header search of components/websocket/websocket.c (the same
-- trims in components/http/url_parser.c, the same search in http_serv.c), the URL splitters of http_serv.c and components/http/zhHttp.c. A C
-- string is the list of its characters before the NUL.
pub mod Trim
pub mod Match
pub mod Url
use esp32base.Base.{
  ℕ, zero, suc, ◌+◌, ◌-◌, ◌*◌, ◌%◌, ◌^◌, Bool, true, false, not, ◌&&◌, ◌||◌, Option, none, some,
  List, [], ◌∷◌, ◌++◌, ◌==◌, ltb, leb, if◌then◌else◌, length, get_or, take, drop, starts_with,
  codes,
}

-- ' ', '\t', '\n'
abbrev pub is_blank : ℕ → Bool
is_blank c = c == 32 || (c == 9 || c == 10)

-- `zhWebSockLTrim`: the blanks at the front are counted, and the rest is moved over them
unfoldable pub ltrim : List ℕ → List ℕ
ltrim [] = []
ltrim (c ∷ s) = let rest = ltrim s in if is_blank c then rest else c ∷ s

-- the loop of `zhWebSockRTrim` from index `n - 1` down; the string then has `n` characters
unfoldable pub rtrim_loop : ℕ → List ℕ → List ℕ
rtrim_loop zero s = s
rtrim_loop (suc n) s =
    let rest = rtrim_loop n (take n s) in if is_blank (get_or s n 0) then rest else s

-- `zhWebSockRTrim`
unfoldable pub rtrim : List ℕ → List ℕ
rtrim s = rtrim_loop (length s) s

-- `zhWebSockTrim`
unfoldable pub trim : List ℕ → List ℕ
trim s = rtrim (ltrim s)

-- a character that ends a value; at `end` 0 only the line does
abbrev pub ends_value : ℕ → ℕ → Bool
ends_value end c = c == 13 || c == 10 || (not (end == 0) && c == end)

-- The loop of `zhWebSockMatchString` and `zhMatchString`: `p` counts the pattern's characters matched,
-- and one more when the value has ended. The result is what goes to `buf`.
unfoldable pub match_loop : List ℕ → ℕ → ℕ → List ℕ → List ℕ
match_loop pattern end p [] = []
match_loop pattern end p (c ∷ src) =
    let ended = match_loop pattern end (p + 1) src in
    let value = c ∷ match_loop pattern end p src in
    let restart = match_loop pattern end 0 src in
    let ignored = match_loop pattern end p src in
    if p == length pattern
    then (if ends_value end c then ended else value)
    else if ltb p (length pattern)
    then (if c == get_or pattern p 0 then ended else restart)
    else ignored

-- `zhMatchString`: the string that it leaves in `dstBuf`
unfoldable pub match_string : List ℕ → List ℕ → ℕ → List ℕ
match_string src pattern end = match_loop pattern end 0 src

-- `zhWebSockMatchString`: a copy, or NULL for an empty value
unfoldable pub match_string_new : List ℕ → List ℕ → ℕ → Option (List ℕ)
match_string_new src pattern end = elim (match_loop pattern end 0 src) [
  | [] ↦ none
  | c ∷ value ↦ some (c ∷ value)
]

-- `urlSplit`: up to the question mark, and what follows it. Without one the second loop starts behind
-- the NUL; the memory there is `behind`.
unfoldable pub split_file : List ℕ → List ℕ
split_file [] = []
split_file (c ∷ url) = let rest = split_file url in if c == b'?' then [] else c ∷ rest

unfoldable pub split_parm : List ℕ → List ℕ → List ℕ
split_parm behind [] = behind
split_parm behind (c ∷ url) = let rest = split_parm behind url in if c == b'?' then url else rest

unfoldable pub url_split : List ℕ → List ℕ → List ℕ × List ℕ
url_split behind url = (split_file url, split_parm behind url)

-- the characters before one that the test stops at, and the string from it on
unfoldable pub span : (ℕ → Bool) → List ℕ → List ℕ × List ℕ
span stop [] = ([], [])
span stop (c ∷ s) = let (a, b) = span stop s in if stop c then ([], c ∷ s) else (c ∷ a, b)

-- the number in the digits at the front of a string, behind those of `acc`
unfoldable pub atoi_from : ℕ → List ℕ → ℕ
atoi_from acc [] = acc
atoi_from acc (c ∷ s) =
    let next = atoi_from (acc * 10 + (c - 48)) s in if leb 48 c && leb c 57 then next else acc

-- `isspace` of the C locale
abbrev pub is_space : ℕ → Bool
is_space c = c == 32 || (leb 9 c && leb c 13)

-- the number behind an optional sign, in 32 bits: a negative one is 2^32 less than its bits say.
-- `none` where it is not an `int`, for which C leaves `atoi` undefined.
unfoldable pub signed_from : List ℕ → Option ℕ
signed_from [] = some 0
signed_from (c ∷ s) =
    let minus = atoi_from 0 s in
    let plain = atoi_from 0 (if c == b'+' then s else c ∷ s) in
    if c == b'-'
    then (if leb minus (2 ^ 31) then some ((2 ^ 32 - minus) % 2 ^ 32) else none)
    else if ltb plain (2 ^ 31)
    then some plain
    else none

-- `atoi`, on a string
unfoldable pub atoi : List ℕ → Option ℕ
atoi [] = some 0
atoi (c ∷ s) = let rest = atoi s in if is_space c then rest else signed_from (c ∷ s)

-- what `zhHttpUrlSplit` stores
pub record HttpUrl : Type 0 where
  pub host : List ℕ
  pub port : ℕ
  pub file : List ℕ
  pub parm : List ℕ

abbrev pub stops_host : ℕ → Bool
stops_host c = c == b':' || c == b'/' || c == b'\\' || c == b'?'

abbrev pub stops_port : ℕ → Bool
stops_port c = c == b'?' || c == b'/' || c == b'\\'

abbrev pub stops_file : ℕ → Bool
stops_file c = c == b'?'

-- the loop over the parameters drops the question mark that it begins with
abbrev pub parm_of : List ℕ → List ℕ
parm_of [] = []
parm_of (c ∷ s) = if c == b'?' then s else c ∷ s

-- from the port on, behind "http://host"
unfoldable pub http_tail : List ℕ → List ℕ → HttpUrl
http_tail host [] = record { host = host; port = 80; file = []; parm = [] }
http_tail host (c ∷ s) =
    if c == b':'
    then (let (port, s1) = span stops_port s in
        let (file, s2) = span stops_file s1 in
        record { host = host; port = atoi_from 0 port; file = file; parm = parm_of s2 })
    else (let (file, s2) = span stops_file (c ∷ s) in
        record { host = host; port = 80; file = file; parm = parm_of s2 })

-- `zhHttpUrlSplit`; `none` is the result `false`
unfoldable pub http_url_split : List ℕ → Option HttpUrl
http_url_split url =
    if starts_with (codes "http:") url
      && (starts_with (codes "//") (drop 5 url) || starts_with (b'\\' ∷ b'\\' ∷ []) (drop 5 url))
    then (let (host, s) = span stops_host (drop 7 url) in some (http_tail host s))
    else none
