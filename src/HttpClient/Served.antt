-- ===== src/HttpClient/Served.antt =====
-- The client's GET request at the device's own web server.
use esp32base.Base.{
  ℕ, zero, suc, ◌+◌, ◌/◌, ◌%◌, ◌<◌, ◌≡◌, refl, ap, ◌∙◌, subst, Bool, true, false, List, [], ◌∷◌,
  ◌++◌, ◌==◌, ltb, append_assoc, if◌then◌else◌, length, drop, arith, Bool-cases, inl, inr, All,
  AllNonzero, AllNonzero-append, codes, decimal_from, decimal,
}
use esp32base.Text.{HttpUrl, ends_value}
use esp32base.Text.Url.{IsNoQuestion}
use esp32base.Http.{cache_buf_size}
use esp32base.Http.Request.{request}
use esp32base.WebServer.{WebServer, close, callback, done_callback, web_task_answer}
use esp32base.WebServer.Serve.{web_task_answer-get}
use esp32base.HttpClient.{HttpThread, crlf, line, host_line, range_line, get_request}

all_nonzero : List ℕ → Bool
all_nonzero [] = true
all_nonzero (c ∷ s) = let rest = all_nonzero s in if c == 0 then false else rest

nonzero_text : (s : List ℕ) → all_nonzero s ≡ true → AllNonzero s
unfolding all_nonzero
nonzero_text [] h = tt
nonzero_text (c ∷ s) h = elim (Bool-cases (c == 0)) [
  | inl nul ↦ absurd (cc (rw nul at h))
  | inr char ↦ (ground arith, nonzero_text s (rw char at h))
]

decimal_from-AllNonzero : (fuel n : ℕ) → AllNonzero (decimal_from fuel n)
unfolding decimal_from
decimal_from-AllNonzero zero n = tt
decimal_from-AllNonzero (suc fuel) n = elim (Bool-cases (ltb n 10)) [
  | inl one ↦ rw one (omega arith, tt)
  | inr more ↦ rw more (
      AllNonzero-append (decimal_from fuel (n / 10)) ((48 + n % 10) ∷ [])
        (decimal_from-AllNonzero fuel (n / 10)) (omega arith, tt))
]

-- the header lines of the request, without the end of the last
abbrev pub client_headers : HttpThread → List ℕ
client_headers p =
    line (codes "HTTP/1.1")
    ++ (line (codes "Accept: */*")
        ++ (line (codes "User-Agent: zhHttp/1.0")
            ++ (range_line p.begin_byte
                ++ (line (codes "Accept-Encoding: gzip, deflate")
                    ++ (host_line p.url ++ codes "Connection: Keep-Alive")))))

get_request-request :
    (p : HttpThread)
    → get_request p ≡ request (codes "GET ") (p.url.file ++ b'?' ∷ p.url.parm) (client_headers p)
unfolding get_request
get_request-request p = simp append_assoc

before : (s rest : List ℕ) → all_nonzero s ≡ true → AllNonzero rest → AllNonzero (s ++ rest)
before s rest e h = AllNonzero-append s rest (nonzero_text s e) h

number_line :
    (s end_ : List ℕ) (n : ℕ)
    → all_nonzero s ≡ true
    → all_nonzero end_ ≡ true
    → AllNonzero (s ++ (decimal n ++ end_))
number_line s end_ n e f =
    before s (decimal n ++ end_) e
      (AllNonzero-append (decimal n) end_ (decimal_from-AllNonzero (suc n) n) (nonzero_text end_ f))

host_line-AllNonzero : (url : HttpUrl) → AllNonzero url.host → AllNonzero (host_line url)
unfolding all_nonzero
host_line-AllNonzero url h =
    before (codes "Host: ") (url.host ++ (codes ":" ++ line (decimal url.port))) refl (
      AllNonzero-append url.host (codes ":" ++ line (decimal url.port)) h
        (number_line (codes ":") crlf url.port refl refl))

client_headers-AllNonzero : (p : HttpThread) → AllNonzero p.url.host → AllNonzero (client_headers p)
unfolding all_nonzero
client_headers-AllNonzero p h =
    let last = codes "Connection: Keep-Alive" in
    let r1 = host_line p.url ++ last in
    let r2 = line (codes "Accept-Encoding: gzip, deflate") ++ r1 in
    let r3 = range_line p.begin_byte ++ r2 in
    let r4 = line (codes "User-Agent: zhHttp/1.0") ++ r3 in
    let r5 = line (codes "Accept: */*") ++ r4 in
    let h1 : AllNonzero r1 =
      AllNonzero-append (host_line p.url) last (host_line-AllNonzero p.url h)
        (nonzero_text last refl) in
    let h2 : AllNonzero r2 = before (line (codes "Accept-Encoding: gzip, deflate")) r1 refl h1 in
    let range = number_line (codes "Range: bytes=") (line (codes "-")) p.begin_byte refl refl in
    let h3 : AllNonzero r3 = AllNonzero-append (range_line p.begin_byte) r2 range h2 in
    let h4 : AllNonzero r4 = before (line (codes "User-Agent: zhHttp/1.0")) r3 refl h3 in
    let h5 : AllNonzero r5 = before (line (codes "Accept: */*")) r4 refl h4 in
    before (line (codes "HTTP/1.1")) r5 refl h5

-- The device's web server understands the client: a GET request of zhHttpGet for a file with
-- parameters, received whole by a connected client's empty cache with a NUL behind it, is handed to
-- the page callback as that file and these parameters; then the client is closed, and then the
-- callback for the end is called.
pub web_task_answer-get_request :
    (p : HttpThread) (w : WebServer) (behind : List ℕ)
    → AllNonzero p.url.host
    → AllNonzero (p.url.file ++ b'?' ∷ p.url.parm)
    → All (λ c. ends_value 0x20 c ≡ false) (p.url.file ++ b'?' ∷ p.url.parm)
    → All IsNoQuestion p.url.file
    → 0 < w.use_client_fd
    → w.serv.cache_len ≡ 0
    → length (get_request p) < cache_buf_size
    → drop (length (get_request p)) w.serv.cache_buf ≡ 0 ∷ behind
    → (web_task_answer (get_request p) w).1
      ≡ callback p.url.file p.url.parm ∷ close w.use_client_fd ∷ done_callback p.url.file ∷ []
web_task_answer-get_request p w behind host url clean file fd empty fits nul =
    let e = get_request-request p in
    ap (λ r. (web_task_answer r w).1) e
    ∙ web_task_answer-get w p.url.file p.url.parm (client_headers p) behind fd empty
        (subst (λ r. length r < cache_buf_size) e fits)
        (subst (λ r. drop (length r) w.serv.cache_buf ≡ 0 ∷ behind) e nul) url
        (client_headers-AllNonzero p host) clean file
