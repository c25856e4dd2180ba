-- ===== src/HttpClient.antt =====
-- components/http/zhHttp.c: the HTTP client, zhHttpGet, zhHttpPost and zhHttpSize with the threads
-- that they start, _zhHttpThread_Data and _zhHttpThread_Head. The sockets of zhsock.c are what they
-- return; the callback's calls are a list. Strings come without their NUL.
pub mod HeadEnd
pub mod Download
pub mod Served
pub mod Thread
pub mod Callbacks
pub mod Size
use esp32base.Base.{
  until_nul, ℕ, zero, suc, ◌+◌, ◌-◌, ◌^◌, ◌≤◌, ◌≡◌, Bool, true, false, ◌&&◌, ◌||◌, not, Option,
  none, some, List, [], ◌∷◌, ◌++◌, ◌==◌, ltb, leb, if◌then◌else◌, length, get_or, take, drop, codes,
  decimal, starts_with,
}
use esp32base.Text.{HttpUrl, atoi}

-- `TzhHttpThread`, of which the timeout is never read
pub record HttpThread : Type 0 where
  pub method : ℕ
  pub url : HttpUrl
  pub body : List ℕ
  pub begin_byte : ℕ

-- "\r\n"
abbrev pub crlf : List ℕ
crlf = 13 ∷ 10 ∷ []

abbrev pub line : List ℕ → List ℕ
line text = text ++ crlf

-- "<method> <file>?<parameter> HTTP/1.1"
abbrev pub request_line : List ℕ → HttpUrl → List ℕ
request_line method url =
    method ++ (url.file ++ (codes "?" ++ (url.parm ++ line (codes " HTTP/1.1"))))

abbrev pub host_line : HttpUrl → List ℕ
host_line url = codes "Host: " ++ (url.host ++ (codes ":" ++ line (decimal url.port)))

abbrev pub referer_line : HttpUrl → List ℕ
referer_line url = codes "Referer: http://" ++ (url.host ++ (url.file ++ line (codes " ")))

abbrev pub head_line : HttpUrl → List ℕ
head_line url = codes "HEAD " ++ (url.file ++ line (codes " HTTP/1.1"))

abbrev pub range_line : ℕ → List ℕ
range_line begin_byte = codes "Range: bytes=" ++ (decimal begin_byte ++ line (codes "-"))

-- the text that `case 1` of `_zhHttpThread_Data` sends
unfoldable pub get_request : HttpThread → List ℕ
get_request p =
    request_line (codes "GET ") p.url
    ++ (line (codes "Accept: */*")
        ++ (line (codes "User-Agent: zhHttp/1.0")
            ++ (range_line p.begin_byte
                ++ (line (codes "Accept-Encoding: gzip, deflate")
                    ++ (host_line p.url ++ (line (codes "Connection: Keep-Alive") ++ crlf))))))

-- the text that `case 2` sends before the body
unfoldable pub post_request : HttpThread → List ℕ
post_request p =
    request_line (codes "POST ") p.url
    ++ (line (codes "Accept: */*")
        ++ (line (codes "Content-Type: application/x-www-form-urlencoded")
            ++ (line (codes "User-Agent: zhHttp/1.0")
                ++ (range_line p.begin_byte
                    ++ (line (codes "Accept-Encoding: gzip, deflate")
                        ++ (referer_line p.url
                            ++ (host_line p.url
                                ++ ((codes "Content-Length: " ++ line (decimal (length p.body)))
                                    ++ (line (codes "Connection: Keep-Alive")
                                        ++ (line (codes "Cache-Control: no-cache") ++ crlf))))))))))

-- the text that `_zhHttpThread_Head` sends
unfoldable pub head_request : HttpThread → List ℕ
head_request p =
    head_line p.url
    ++ (line (codes "Accept: */*")
        ++ (line (codes "User-Agent: zhHttp/1.0")
            ++ (line (codes "Accept-Encoding: gzip, deflate")
                ++ (host_line p.url ++ (line (codes "Connection: Keep-Alive") ++ crlf)))))

-- The loop that sends the body in pieces, with fuel: each `zhSockSend` of 1024 bytes takes as many as
-- its result says, -1 being `none`. The last call begins at the front of the body again. What was
-- sent, and whether the loop came to its end.
unfoldable pub post_pieces : ℕ → List (Option ℕ) → List ℕ → ℕ → ℕ → List ℕ × Bool
post_pieces zero results body send_pos send_len = ([], false)
post_pieces (suc fuel) [] body send_pos send_len =
    if leb send_len 1024 then (take send_len body, true) else ([], false)
post_pieces (suc fuel) (none ∷ results) body send_pos send_len =
    if leb send_len 1024 then (take send_len body, true) else ([], false)
post_pieces (suc fuel) (some ret ∷ results) body send_pos send_len =
    let (rest, done) = post_pieces fuel results body (send_pos + ret) (send_len - ret) in
    if leb send_len 1024
    then (take send_len body, true)
    else (take ret (drop send_pos body) ++ rest, done)

-- The search for the blank line behind a header: `pSearch` moves on before each test, and stops at a
-- NUL. The result is `search_len` where it is found.
unfoldable pub head_end : List ℕ → ℕ → Option ℕ
head_end [] n = none
head_end (c ∷ s) n =
    let rest = head_end s (suc n) in
    if c == 0
    then none
    else if starts_with (13 ∷ 10 ∷ 13 ∷ 10 ∷ []) s
    then some (n + 5)
    else if starts_with (10 ∷ 10 ∷ []) s
    then some (n + 3)
    else rest

-- strstr(buf, name): the text from there on
unfoldable pub strstr : List ℕ → List ℕ → Option (List ℕ)
strstr name [] = if starts_with name [] then some [] else none
strstr name (c ∷ buf) =
    let rest = strstr name buf in if starts_with name (c ∷ buf) then some (c ∷ buf) else rest

-- the end of a line, or of the text
abbrev pub at_line_end : List ℕ → Bool
at_line_end [] = true
at_line_end (c ∷ s) = c == 10 || (c == 0 || (c == 13 && get_or s 0 0 == 10))

unfoldable pub to_colon : List ℕ → List ℕ
to_colon [] = []
to_colon (c ∷ s) = let rest = to_colon s in if c == 58 || at_line_end (c ∷ s) then c ∷ s else rest

unfoldable pub skip_blanks : List ℕ → List ℕ
skip_blanks [] = []
skip_blanks (c ∷ s) = let rest = skip_blanks s in if c == 32 then rest else c ∷ s

unfoldable pub to_line_end : List ℕ → List ℕ
to_line_end [] = []
to_line_end (c ∷ s) = let rest = to_line_end s in if at_line_end (c ∷ s) then [] else c ∷ rest

abbrev pub drop_colon : List ℕ → List ℕ
drop_colon [] = []
drop_colon (c ∷ s) = if c == 58 then s else c ∷ s

-- `zhHttpGetProtocolValue`: what is put into `value`, or nothing
unfoldable pub http_get_protocol_value : List ℕ → List ℕ → Option (List ℕ)
http_get_protocol_value buf name = elim (strstr name buf) [
  | none ↦ none
  | some found ↦ some (to_line_end (skip_blanks (drop_colon (to_colon found))))
]

-- `doc_total_len`, in 32 bits, of a value or nothing; `none` where the value does not fit `value[32]`,
-- or is not an `int`
abbrev pub total_of : Option (List ℕ) → Option ℕ
total_of none = some 0
total_of (some value) = if ltb (length value) 32 then atoi value else none

unfoldable pub content_length : List ℕ → Option ℕ
content_length cache = total_of (http_get_protocol_value (until_nul cache) (codes "Content-Length"))

-- `EzhHttpOperat` with the data that the callback is given
pub data HttpOperat : Type 0 where
  connected finish recvice_fail connect_fail post_fail : HttpOperat
  get_data : List ℕ → HttpOperat
  get_size : ℕ → HttpOperat

-- what `zhSockRecv` returns: at least one byte, 0, or -1
pub data SockRecv : Type 0 where
  received : ℕ → List ℕ → SockRecv
  nothing failed : SockRecv

-- where `_zhHttpThread_Data` is once its request is out: in the header, in the data with
-- `doc_total_len` and `recv_total_len`, or at `_end`; `broken` is a fault, behind which nothing is said
pub data Stage : Type 0 where
  in_head : List ℕ → Stage
  in_data : ℕ → ℕ → Stage
  ended : Stage
  broken : Stage

-- the tests ask whether `doc_total_len` is positive: a length that is negative counts as 0
abbrev pub positive : ℕ → ℕ
positive total = if ltb total (2 ^ 31) then total else 0

-- from `_data_ok` on, given `doc_total_len` and `search_len`: what is behind the header goes to the
-- callback
unfoldable pub data_ok : List ℕ → Option ℕ → ℕ → Stage × List HttpOperat
data_ok cache none search_len = (broken, [])
data_ok cache (some total) search_len =
    let rest = drop search_len cache in
    (in_data (positive total) (length rest), if ltb 0 (length rest) then get_data rest ∷ [] else [])

-- the branch on the search
unfoldable pub head_searched : List ℕ → Option ℕ → Stage × List HttpOperat
head_searched cache none = (in_head cache, [])
head_searched cache (some search_len) = data_ok cache (content_length cache) search_len

-- a piece received in the header
unfoldable pub head_received : List ℕ → List ℕ → Stage × List HttpOperat
head_received cache bytes =
    if leb 2050 (length cache + length bytes)
    then (ended, recvice_fail ∷ [])
    else head_searched (cache ++ bytes) (head_end (cache ++ bytes) 0)

-- the test at the end of the data loop
unfoldable pub data_done : ℕ → ℕ → Stage × List HttpOperat
data_done total len =
    if ltb 0 total && leb total len then (ended, finish ∷ []) else (in_data total len, [])

-- One call of `zhSockRecv` in `_zhHttpThread_Data`, with what it leads to.
unfoldable pub data_step : Stage → SockRecv → Stage × List HttpOperat
data_step (in_head cache) (received b bs) = head_received cache (b ∷ bs)
data_step (in_head cache) nothing = (in_head cache, [])
data_step (in_head cache) failed = (ended, finish ∷ [])
data_step (in_data total len) (received b bs) =
    let (stage, out) = data_done total (len + length (b ∷ bs)) in (stage, get_data (b ∷ bs) ∷ out)
data_step (in_data total len) nothing = data_done total len
data_step (in_data total len) failed = (ended, finish ∷ [])
data_step ended r = (ended, [])
data_step broken r = (broken, [])

-- the receiving part of `_zhHttpThread_Data` over what the socket gives
unfoldable pub data_steps : Stage → List SockRecv → Stage × List HttpOperat
data_steps stage [] = (stage, [])
data_steps stage (r ∷ rs) =
    let (stage1, out) = data_step stage r in
    let (stage2, more) = data_steps stage1 rs in (stage2, out ++ more)

-- from `_data_ok` of `_zhHttpThread_Head` on
abbrev pub size_told : Option ℕ → Stage × List HttpOperat
size_told none = (broken, [])
size_told (some total) = (ended, get_size total ∷ finish ∷ [])

-- One call of `zhSockRecv` in `_zhHttpThread_Head`, whose cache has 1040 bytes.
unfoldable pub size_searched : List ℕ → Option ℕ → Stage × List HttpOperat
size_searched cache none = (in_head cache, [])
size_searched cache (some search_len) = size_told (content_length cache)

unfoldable pub size_step : List ℕ → SockRecv → Stage × List HttpOperat
size_step cache nothing = (ended, finish ∷ [])
size_step cache failed = (ended, finish ∷ [])
size_step cache (received b bs) =
    if leb 1040 (length cache + length (b ∷ bs))
    then (ended, recvice_fail ∷ [])
    else size_searched (cache ++ b ∷ bs) (head_end (cache ++ b ∷ bs) 0)
