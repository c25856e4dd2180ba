-- ===== src/Tests/Pages.antt =====
-- The web pages, the query strings and the TCP server at concrete inputs.
use esp32base.Base.{
  ℕ, ◌≡◌, refl, some, none, List, [], ◌∷◌, ◌++◌, arith, codes, replicate, bytes_eq, decimal_from,
  until_nul, take, drop, length, ◌+◌, starts_with,
}
use esp32base.Config.{Flash}
use esp32base.Text.{span}
use esp32base.Command.{do_command, first_word, skip_space, word_of, run_word, help}
use esp32base.UrlCodec.{url_encode}
use esp32base.WebServer.{WebServer, web_task_rounds}
use esp32base.WebServer.Rounds.{IsWaiting}
use esp32base.Http.{is_get, cache_buf_size, serv_reslov_url, url_of, getbegnstr, rnrnstr}
use esp32base.HttpClient.Thread.{lines_fit}
use esp32base.HttpClient.{get_request, content_length}
use esp32base.Pages.{respone_ok, sends, closes, commands, web_effects}
use esp32base.Pages.Command.{asking, web_effects-get_request}
use esp32base.Pages.Answer.{content_length-respone_ok}
use esp32base.Query.{url_get_parameter}
use esp32base.Query.Lookup.{Pair, query, lookup, url_get_parameter-query}
use esp32base.TcpServ.{TcpServ, TcpEvent, accepts, gets, gets_end, gets_error, tcpserv_steps}
use esp32base.TcpServ.Sockets.{closed, client, accepted_fds, tcpserv_steps_lem}

-- a flash that cannot be read, which the command does not need
abbrev no_flash : Flash ℕ
no_flash = record { read_cfg = λ s. none; write_cfg = λ cfg s. (1, s) }

abbrev server : WebServer
server = record {
  use_client_fd = 5;
  serv = record { cache_buf = replicate cache_buf_size 0; cache_len = 0 };
  url = [];
  behind_url = [];
}

abbrev cmd : List ℕ
cmd = codes "help"

-- the request for it, as two rounds of the receive task read it
abbrev front : List ℕ
front = take 128 (get_request (asking (codes "h") 80 0 cmd))

abbrev last : List ℕ
last = drop 128 (get_request (asking (codes "h") 80 0 cmd))

abbrev behind : List ℕ
behind = drop (length (get_request (asking (codes "h") 80 0 cmd)) + 1) (replicate cache_buf_size 0)

web_effects-get_request_example :
    web_effects no_flash (λ s sector. none) none 0 (web_task_rounds (front ∷ last ∷ []) server).1
    ≡ some ((some cmd, 0), sends (respone_ok 4 ∷ cmd ∷ []) ∷ closes 5 ∷ commands (help ∷ []) ∷ [])
unfolding get_request decimal_from url_encode is_get starts_with
web_effects-get_request_example =
    web_effects-get_request no_flash (λ s sector. none) (codes "h") 80 0 cmd server behind
      (front ∷ []) last none 0 0 (help ∷ []) (omega arith, tt)
      (omega arith, (omega arith, (omega arith, (omega arith, tt))))
      (omega arith, (omega arith, (omega arith, (omega arith, tt)))) (unfold lines_fit in refl)
      (omega arith) refl refl refl ((omega arith, omega arith), tt) (omega arith, omega arith)
      (unfold IsWaiting serv_reslov_url url_of getbegnstr rnrnstr in (refl, tt)) (omega arith) refl
      (unfold do_command first_word skip_space span word_of run_word until_nul bytes_eq in refl)

content_length-respone_ok_example : content_length (respone_ok 12 ++ codes "page") ≡ some 0
content_length-respone_ok_example = content_length-respone_ok 12 (codes "page")

abbrev more_pairs : List Pair
more_pairs = (codes "bc", codes "2") ∷ []

url_get_parameter-query_example :
    url_get_parameter (query ((codes "b", codes "1") ∷ more_pairs)) (codes "bc")
    ≡ some (lookup (bytes_eq (codes "bc")) ((codes "b", codes "1") ∷ more_pairs))
url_get_parameter-query_example =
    url_get_parameter-query (codes "b", codes "1") more_pairs (codes "bc")
      (
        (
          ((omega arith, (omega arith, tt)), (omega arith, tt)),
          ((omega arith, (omega arith, tt)), (omega arith, tt)),
        ),
        (
          (
            ((omega arith, (omega arith, (omega arith, tt))), (omega arith, (omega arith, tt))),
            ((omega arith, (omega arith, tt)), (omega arith, tt)),
          ),
          tt,
        ),
      )
      (omega arith)

abbrev idle : TcpServ
idle = record { port = 0; client_fd = 0 }

abbrev tcp_events : List TcpEvent
tcp_events = accepts 4 ∷ gets 1 [] ∷ accepts 5 ∷ gets_end ∷ gets_error ∷ accepts 6 ∷ []

tcpserv_steps_lem_example :
    closed (tcpserv_steps idle tcp_events).1 ++ client (tcpserv_steps idle tcp_events).0
    ≡ client idle ++ accepted_fds tcp_events
tcpserv_steps_lem_example = tcpserv_steps_lem idle tcp_events
