-- ===== src/WebServer.antt =====
-- components/http/webserver.c: the web server's tasks and its sending loop. What `write` returns is
-- given, in order; the two callbacks are given by what they do.
pub mod Send
pub mod Serve
pub mod Rounds
use esp32base.Base.{
  ℕ, zero, suc, ◌+◌, ◌-◌, Bool, true, false, Option, none, some, List, [], ◌∷◌, ◌++◌, ◌==◌, ltb,
  leb, if◌then◌else◌, length, take, drop, replicate,
}
use esp32base.Http.{HttpServ, cache_buf_size, serv_reslov_url}
use esp32base.Text.{url_split}

-- bb=bb>500?500:bb
abbrev pub limited : ℕ → ℕ
limited bb = if ltb 500 bb then 500 else bb

-- what a call of `write` returned: -1, or how many of the bytes it took
abbrev pub Returned : Type 0
Returned = Option ℕ

-- The loop of `webSendClient` at `bblen`, over what `write` returns: the bytes that each call is given,
-- and how far the loop came. With no returns left, the last call still waits.
unfoldable pub send_from : List Returned → List ℕ → ℕ → List (List ℕ) × ℕ
send_from [] data_out bblen = ([], bblen)
send_from (none ∷ returns) data_out bblen =
    let bb = length data_out - bblen in
    let part = take (limited bb) (drop bblen data_out) in
    if ltb (length data_out) bblen
    then ([], bblen)
    else if bb == 0
    then ([], bblen)
    else (part ∷ [], bblen)
send_from (some n ∷ returns) data_out bblen =
    let bb = length data_out - bblen in
    let part = take (limited bb) (drop bblen data_out) in
    let (parts, end) = send_from returns data_out (bblen + n) in
    if ltb (length data_out) bblen
    then ([], bblen)
    else if bb == 0
    then ([], bblen)
    else (part ∷ parts, end)

-- `webSendClient`
unfoldable pub web_send_client : List Returned → List ℕ → List (List ℕ) × ℕ
web_send_client returns data_out = send_from returns data_out 0

-- The globals `g_web_use_client_fd` and `g_httpServ`, and the buffer `url` of the receive task with what
-- lies behind the URL's NUL.
pub record WebServer : Type 0 where
  pub use_client_fd : ℕ
  pub serv : HttpServ
  pub url : List ℕ
  pub behind_url : List ℕ

-- the calls out: `close`, `g_pfwebcbcbcb` and `g_pfwebdone`
pub data WebEffect : Type 0 where
  close : ℕ → WebEffect
  callback : (page parameter : List ℕ) → WebEffect
  done_callback : (page : List ℕ) → WebEffect

-- one round of `app_webserver_task_accept` that accepts a client
unfoldable pub web_task_accept : ℕ → WebServer → WebServer × List WebEffect
web_task_accept fd w = (
  record w {
    use_client_fd = fd;
    serv = record { cache_buf = replicate cache_buf_size 0; cache_len = 0 };
  },
  if w.use_client_fd == 0 then [] else close w.use_client_fd ∷ [],
)

-- what follows `httpServReslovURL` in the receive task, for its result
unfoldable pub on_result : ℕ → WebServer → List WebEffect
on_result result w =
    let (page, parameter) = url_split w.behind_url w.url in
    if result == 0
    then callback page parameter ∷ close w.use_client_fd ∷ done_callback page ∷ []
    else if result == 1
    then close w.use_client_fd ∷ []
    else []

-- the receive task with the bytes that `recv` returned: no bytes are an end or an error
unfoldable pub web_task_answer : List ℕ → WebServer → WebServer × List WebEffect
web_task_answer [] w = (record w { use_client_fd = 0 }, [])
web_task_answer (c ∷ recv_buf) w =
    let (result, (url, serv)) = serv_reslov_url w.serv (c ∷ recv_buf) w.url in
    let w' = record w { serv = serv; url = url } in
    if w.use_client_fd == 0 then (w, []) else (w', on_result result w')

-- `char recv_buf[128]`
abbrev pub recv_size : ℕ
recv_size = 128

-- one round of `app_webserver_task_recv`, given the bytes that wait at the socket: `recv` takes no more
-- than `recv_buf` holds
unfoldable pub web_task_recv : List ℕ → WebServer → WebServer × List WebEffect
web_task_recv arrived w = web_task_answer (take recv_size arrived) w

-- its rounds
unfoldable pub web_task_rounds : List (List ℕ) → WebServer → WebServer × List WebEffect
web_task_rounds [] w = (w, [])
web_task_rounds (arrived ∷ rounds) w =
    let (w1, now) = web_task_recv arrived w in
    let (w2, later) = web_task_rounds rounds w1 in (w2, now ++ later)

-- `web_socket_server` (and the same code in websocket_serv.c and tcpserv.c), given the socket and whether
-- `bind` and `listen` succeed: the socket or -1, and what is closed
unfoldable pub web_socket_server : Option ℕ → Bool → Bool → Option ℕ × List ℕ
web_socket_server none bound listening = (none, [])
web_socket_server (some fd) bound listening =
    if bound then (if listening then (some fd, []) else (none, fd ∷ [])) else (none, [])

-- `webserver_init` on `g_httpServ`, which it allocates once
unfoldable pub webserver_init : Option HttpServ → HttpServ
webserver_init none = record { cache_buf = replicate cache_buf_size 0; cache_len = 0 }
webserver_init (some serv) = serv
