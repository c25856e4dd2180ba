-- ===== src/ParserClient.antt =====
-- components/http/http.c: the HTTP client over `http_parser`, `http_client_get` and
-- `http_client_post`. What the network does is an argument, what the client does a list of actions;
-- `http_parser_parse_url` and `http_parser_execute` are parameters.
pub mod Resources
use esp32base.Base.{
  ℕ, zero, suc, ◌+◌, ◌-◌, Bool, true, false, Option, none, some, List, [], ◌∷◌, ◌++◌, ◌==◌, ltb,
  if◌then◌else◌, length, codes, decimal,
}
use esp32base.UrlParser.{ParserUrl, Url, url_parse}

-- what `read` returns: at least one byte, 0, or -1
pub data Read : Type 0 where
  bytes : ℕ → List ℕ → Read
  at_eof read_error : Read

-- what a client meets: how the name is resolved (0 with an address, or the code that is returned),
-- whether there is a socket, how each `connect` turns out, whether `asprintf` gets memory for the request,
-- and then `write` and the reads
pub record Network : Type 0 where
  pub lookup_error : ℕ
  pub has_socket : Bool
  pub connects : List Bool
  pub is_printed : Bool
  pub is_written : Bool
  pub reads : List Read

pub data SocketAction : Type 0 where
  connects_once : SocketAction
  writes : List ℕ → SocketAction
  closes frees_address : SocketAction

-- what `http_parser_execute` is given: the bytes, a length of 0, or -1 as a length
pub data ParserInput : Type 0 where
  some_bytes : List ℕ → ParserInput
  no_bytes minus_one : ParserInput

-- the result: a code, or the client is still waiting for the network
pub data Result : Type 0 where
  returns : ℕ → Result
  fails : Result
  waits : Result

-- the loop around `connect`: true when connected, `none` while it waits. The sixth failure is the
-- last.
unfoldable pub connect_loop : ℕ → List Bool → Option Bool × List SocketAction
connect_loop retries [] = (none, [])
connect_loop retries (true ∷ results) = (some true, connects_once ∷ [])
connect_loop retries (false ∷ results) =
    let (end_, more) = connect_loop (retries + 1) results in
    if ltb 5 (retries + 1) then (some false, connects_once ∷ []) else (end_, connects_once ∷ more)

-- the request of `http_client_get`
unfoldable pub get_text : Url → List ℕ
get_text url =
    codes "GET "
    ++ (url.path
        ++ (codes " HTTP/1.0\r\nHost: "
            ++ (url.host
                ++ (codes ":"
                    ++ (decimal url.port
                        ++ codes "\r\nUser-Agent: ESP32\r\nAccept: */*\r\n\r\n")))))

-- the request of `http_client_post`
unfoldable pub post_text : List ℕ → Url → List ℕ
post_text post_data url =
    codes "POST "
    ++ (url.path
        ++ (codes " HTTP/1.0\r\nHost: "
            ++ (url.host
                ++ (codes ":"
                    ++ (decimal url.port
                        ++ (codes "\r\nContent-Length: "
                            ++ (decimal (length post_data)
                                ++ (codes "\r\nUser-Agent: ESP32\r\nAccept: */*\r\n\r\n"
                                    ++ (post_data ++ codes "\r\n\r\n")))))))))

-- the branches on how the connection turned out, and on the URL
abbrev pub on_connect :
    {P : Type 0}
    → (Unit {0} → (Result × P) × List SocketAction)
    → P
    → Option Bool × List SocketAction
    → (Result × P) × List SocketAction
on_connect go_on parser (none, did) = ((waits, parser), did)
on_connect go_on parser (some false, did) = ((fails, parser), did ++ closes ∷ frees_address ∷ [])
on_connect go_on parser (some true, did) =
    let (result, more) = go_on tt in (result, did ++ frees_address ∷ more)

abbrev pub with_url :
    {P : Type 0}
    → (Url → (Result × P) × List SocketAction)
    → Option Url
    → Option ((Result × P) × List SocketAction)
with_url run none = none
with_url run (some url) = some (run url)

module _ {P : Type 0} (http_parser_execute : P → ParserInput → P × Bool) where
  -- The loop that reads: the parser after it, and whether it is over. The parser's result is whether
  -- `nparsed >= 0`; it is given 0 and -1 before the loop ends.
  unfoldable pub read_loop : P → List Read → P × Bool
  read_loop parser [] = (parser, false)
  read_loop parser (bytes b bs ∷ reads) =
      let (parser', go_on) = http_parser_execute parser (some_bytes (b ∷ bs)) in
      let rest = read_loop parser' reads in if go_on then rest else (parser', true)
  read_loop parser (at_eof ∷ reads) = ((http_parser_execute parser no_bytes).0, true)
  read_loop parser (read_error ∷ reads) = ((http_parser_execute parser minus_one).0, true)

  -- the part behind the connection: without a request the client returns and closes nothing; a failed
  -- `write` closes the socket, and the client reads on
  unfoldable pub exchange : List ℕ → P → Network → (Result × P) × List SocketAction
  exchange request parser net =
      let (parser', over) = read_loop parser net.reads in
      if net.is_printed
      then (
        (if over then returns 0 else waits, parser'),
        writes request ∷ (if net.is_written then [] else closes ∷ [])
            ++ (if over then closes ∷ [] else []),
      )
      else ((fails, parser), [])

  -- the code that the two functions share, with the request that they write; without a socket the
  -- address is freed, and the client goes on
  unfoldable pub http_client : (Url → List ℕ) → Url → P → Network → (Result × P) × List SocketAction
  http_client text url parser net =
      let (result, did) =
        on_connect (λ u. exchange (text url) parser net) parser (connect_loop 0 net.connects) in
      if net.lookup_error == 0
      then (result, (if net.has_socket then [] else frees_address ∷ []) ++ did)
      else ((returns net.lookup_error, parser), [])

  -- `http_client_get` and `http_client_post`; `none` is a NULL that is followed
  unfoldable pub http_client_get :
      (List ℕ → Option ParserUrl) → List ℕ → P → Network → Option ((Result × P) × List SocketAction)
  http_client_get parse_url uri parser net =
      with_url (λ url. http_client get_text url parser net) (url_parse parse_url uri)

  unfoldable pub http_client_post :
      (List ℕ → Option ParserUrl)
      → List ℕ
      → List ℕ
      → P
      → Network
      → Option ((Result × P) × List SocketAction)
  http_client_post parse_url uri post_data parser net =
      with_url (λ url. http_client (post_text post_data) url parser net) (url_parse parse_url uri)
