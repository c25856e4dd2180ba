-- ===== src/WebServer/Serve.antt =====
-- One request, from the bytes received to the callbacks.
use esp32base.Base.{
  ℕ, ◌<◌, ◌≡◌, refl, ap, ◌∙◌, false, List, [], ◌∷◌, ◌++◌, ◌==◌, arith, length, drop, All,
  AllNonzero, codes,
}
use esp32base.Text.{url_split, ends_value}
use esp32base.Text.Url.{IsNoQuestion, url_split-question}
use esp32base.Http.{HttpServ, cache_buf_size, serv_reslov_url}
use esp32base.Http.Request.{request, serv_reslov_url-get}
use esp32base.WebServer.{WebServer, close, callback, done_callback, on_result, web_task_answer}

on_result-page :
    (w : WebServer) (file parm : List ℕ)
    → All IsNoQuestion file
    → w.url ≡ file ++ b'?' ∷ parm
    → on_result 0 w ≡ callback file parm ∷ close w.use_client_fd ∷ done_callback file ∷ []
unfolding on_result
on_result-page w file parm h e =
    let split : url_split w.behind_url w.url ≡ (file, parm) =
      ap (url_split w.behind_url) e ∙ url_split-question w.behind_url file parm h in
    rw split

-- what a round does with the outcome of the request reader
received_as :
    (w : WebServer) (recv_buf url : List ℕ) (c : ℕ) (serv : HttpServ)
    → 0 < w.use_client_fd
    → serv_reslov_url w.serv (c ∷ recv_buf) w.url ≡ (0, (url, serv))
    → web_task_answer (c ∷ recv_buf) w
      ≡ (record w { serv = serv; url = url }, on_result 0 (record w { serv = serv; url = url }))
unfolding web_task_answer
received_as w recv_buf url c serv fd e =
    let connected : (w.use_client_fd == 0) ≡ false = ground arith in rw (connected, e)

-- A GET request for a file with parameters, that comes whole to a connected client's empty cache with a
-- NUL behind it, is handed to the callback as the file and the parameters; then the client is closed, and then the
-- callback for the end is called.
pub web_task_answer-get :
    (w : WebServer) (file parm headers behind : List ℕ)
    → 0 < w.use_client_fd
    → w.serv.cache_len ≡ 0
    → length (request (codes "GET ") (file ++ b'?' ∷ parm) headers) < cache_buf_size
    → drop (length (request (codes "GET ") (file ++ b'?' ∷ parm) headers)) w.serv.cache_buf
      ≡ 0 ∷ behind
    → AllNonzero (file ++ b'?' ∷ parm)
    → AllNonzero headers
    → All (λ c. ends_value 0x20 c ≡ false) (file ++ b'?' ∷ parm)
    → All IsNoQuestion file
    → (web_task_answer (request (codes "GET ") (file ++ b'?' ∷ parm) headers) w).1
      ≡ callback file parm ∷ close w.use_client_fd ∷ done_callback file ∷ []
web_task_answer-get w file parm headers behind fd empty small nul hu hh h q =
    let url = file ++ b'?' ∷ parm in
    let serv : HttpServ = record {
      cache_buf = request (codes "GET ") url headers ++ 0 ∷ behind;
      cache_len = 0;
    } in
    let resolved = serv_reslov_url-get w.serv url headers behind w.url empty small nul hu hh h in
    ap (λ t. t.1)
      (received_as w (drop 1 (request (codes "GET ") url headers)) url b'G' serv fd resolved)
    ∙ on_result-page (record w { serv = serv; url = url }) file parm q refl
