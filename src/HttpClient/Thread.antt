-- ===== src/HttpClient/Thread.antt =====
-- The whole run of the HTTP client's threads, from zhHttpGet, zhHttpPost and zhHttpSize of
-- components/http/zhHttp.c on, with zhSockConnect of components/http/zhsock.c.
use esp32base.Base.{
  ℕ, suc, Bool, true, false, Option, none, some, List, [], ◌∷◌, ◌++◌, ◌==◌, if◌then◌else◌, length,
  get_or, map, ltb, ◌&&◌, codes,
}
use esp32base.Text.{HttpUrl, http_url_split}
use esp32base.HxTcp.{Attempt}
use esp32base.HttpClient.{
  HttpThread, request_line, host_line, referer_line, head_line, get_request, post_request,
  head_request, post_pieces, HttpOperat, connected, connect_fail, post_fail, SockRecv, Stage,
  in_head, in_data, ended, broken, data_steps, size_step,
}

-- `zhSockConnect`, given how `gethostbyname` and then `socket` and `connect` turn out: true for ESP_OK,
-- and `none` where the host is not found, and a NULL is followed
unfoldable pub zh_sock_connect : List ℕ → ℕ → Option Attempt → Option Bool
zh_sock_connect server_host server_port attempt =
    if get_or server_host 0 0 == 0
    then some false
    else if server_port == 0
    then some false
    else elim attempt [
      | none ↦ none
      | some how ↦ elim how [
        | Attempt.no_socket ↦ some false
        | Attempt.refused ↦ some false
        | Attempt.connected ↦ some true
      ]
    ]

-- the fields that `zhHttpUrlSplit` fills, zero where it returns false
abbrev pub url_or_empty : Option HttpUrl → HttpUrl × Bool
url_or_empty none = (record { host = []; port = 0; file = []; parm = [] }, false)
url_or_empty (some url) = (url, true)

abbrev pub thread_of : ℕ → List ℕ → ℕ → HttpUrl × Bool → HttpThread × Bool
thread_of method body begin_byte (url, ret) =
    (record { method = method; url = url; body = body; begin_byte = begin_byte }, ret)

-- `zhHttpGet`, `zhHttpPost` and `zhHttpSize`: what the thread is started with, and the result
unfoldable pub zh_http_get : List ℕ → ℕ → HttpThread × Bool
zh_http_get url begin_byte = thread_of 1 [] begin_byte (url_or_empty (http_url_split url))

unfoldable pub zh_http_post : List ℕ → List ℕ → ℕ → HttpThread × Bool
zh_http_post url body begin_byte = thread_of 2 body begin_byte (url_or_empty (http_url_split url))

unfoldable pub zh_http_size : List ℕ → HttpThread × Bool
zh_http_size url = thread_of 4 [] 0 (url_or_empty (http_url_split url))

-- what a thread does
pub data ClientAction : Type 0 where
  sends : List ℕ → ClientAction
  calls : HttpOperat → ClientAction
  closes : ClientAction

-- the end of a run: `zhSockClose`, once the thread is at `_end`
abbrev pub at_end : Stage → List ClientAction
at_end (in_head cache) = []
at_end (in_data total len) = []
at_end ended = closes ∷ []
at_end broken = []

-- The switch on the method, with whether it goes on to receive. A call of `zhSockSend` for which
-- there is no result has failed.
unfoldable pub send_by_method : HttpThread → List (Option ℕ) → List ClientAction × Bool
send_by_method p results =
    if p.method == 1
    then (sends (get_request p) ∷ [], true)
    else if p.method == 2
    then (let (bytes, done) = post_pieces (suc (length results)) results p.body 0 (length p.body) in
        (sends (post_request p ++ bytes) ∷ (if done then [] else calls post_fail ∷ []), done))
    else ([], true)

abbrev pub then_receive :
    List ClientAction × Bool → Stage × List HttpOperat → Stage × List ClientAction
then_receive (sent, false) (stage, out) = (ended, sent ++ closes ∷ [])
then_receive (sent, true) (stage, out) = (stage, sent ++ (map calls out ++ at_end stage))

-- a line in `tmp[256]`, with its NUL
abbrev pub in_tmp : List ℕ → Bool
in_tmp text = ltb (length text) 256

-- whether the lines of the request fit into `tmp`, by the method
unfoldable pub lines_fit : HttpThread → Bool
lines_fit p =
    if p.method == 1
    then in_tmp (request_line (codes "GET ") p.url) && in_tmp (host_line p.url)
    else if p.method == 2
    then in_tmp (request_line (codes "POST ") p.url)
      && (in_tmp (referer_line p.url) && in_tmp (host_line p.url))
    else if p.method == 4
    then in_tmp (head_line p.url) && in_tmp (host_line p.url)
    else true

-- what comes behind the connection, for a request whose lines fit; else a fault
abbrev pub sending : Bool → Stage × List ClientAction → Stage × List ClientAction
sending false run = (broken, [])
sending true run = run

-- the branches on the connection, given the run behind it
abbrev pub on_connection : Option Bool → Stage × List ClientAction → Stage × List ClientAction
on_connection none (stage, did) = (broken, [])
on_connection (some false) (stage, did) = (ended, calls connect_fail ∷ closes ∷ [])
on_connection (some true) (stage, did) = (stage, calls connected ∷ did)

-- `_zhHttpThread_Data`, given how the connection turns out, the results of `zhSockSend` for the body,
-- and what `zhSockRecv` returns: where the thread is then, and what it did
unfoldable pub http_thread_data :
    HttpThread → Option Attempt → List (Option ℕ) → List SockRecv → Stage × List ClientAction
http_thread_data p attempt results rs =
    on_connection (zh_sock_connect p.url.host p.url.port attempt)
      (sending (lines_fit p) (then_receive (send_by_method p results) (data_steps (in_head []) rs)))

-- the receiving part of `_zhHttpThread_Head`; it has no data, and ends with the header
unfoldable pub size_steps : Stage → List SockRecv → Stage × List HttpOperat
size_steps stage [] = (stage, [])
size_steps (in_head cache) (r ∷ rs) =
    let (stage1, out) = size_step cache r in
    let (stage2, more) = size_steps stage1 rs in (stage2, out ++ more)
size_steps (in_data total len) (r ∷ rs) = (in_data total len, [])
size_steps ended (r ∷ rs) = (ended, [])
size_steps broken (r ∷ rs) = (broken, [])

-- `_zhHttpThread_Head`
unfoldable pub http_thread_head :
    HttpThread → Option Attempt → List SockRecv → Stage × List ClientAction
http_thread_head p attempt rs = on_connection (zh_sock_connect p.url.host p.url.port attempt) (
    sending (lines_fit p) (
      then_receive ((if p.method == 4 then sends (head_request p) ∷ [] else []), true)
        (size_steps (in_head []) rs)))
