-- ===== src/Pages/Command.antt =====
-- A command sent by the HTTP client, from its request to what the device does.
use esp32base.Base.{
  ℕ, ◌<◌, ◌≡◌, refl, ap, ◌∙◌, true, false, Option, some, concat, List, [], ◌∷◌, ◌++◌, ◌==◌, length,
  drop, arith, All, AllBytes, AllNonzero, bytes_eq, codes, c_str, until_nul,
}
use esp32base.Config.{Flash}
use esp32base.Command.{Action, do_command}
use esp32base.Text.{ends_value}
use esp32base.UrlCodec.{url_decode, url_encode}
use esp32base.UrlCodec.RoundTrip.{url_decode-url_encode, url_encode_lem, IsUrlChar}
use esp32base.Http.{cache_buf_size}
use esp32base.WebServer.{
  WebEffect, WebServer, close, callback, done_callback, web_task_answer, web_task_rounds,
}
use esp32base.WebServer.Rounds.{IsPiece, IsWaiting, web_task_rounds-pieces}
use esp32base.HttpClient.{HttpThread, get_request}
use esp32base.HttpClient.Thread.{lines_fit}
use esp32base.HttpClient.Served.{web_task_answer-get_request}
use esp32base.Pages.{
  respone_ok, with_header, pf_web_serv_callback, WebAction, sends, closes, commands,
  pf_web_serv_done, web_effect, web_effects,
}

until_nul_all : (s : List ℕ) → AllNonzero s → until_nul s ≡ s
unfolding until_nul
until_nul_all [] h = refl
until_nul_all (c ∷ s) h =
    let char : (c == 0) ≡ false = ground (arith, h.0) in rw (char, until_nul_all s h.1) refl

nonzero_url : (s : List ℕ) → All IsUrlChar s → AllNonzero s
nonzero_url [] h = tt
nonzero_url (c ∷ s) h = (ground (arith, h.0), nonzero_url s h.1)

unended_url : (s : List ℕ) → All IsUrlChar s → All (λ c. ends_value 0x20 c ≡ false) s
unended_url [] h = tt
unended_url (c ∷ s) h = (ground (arith, h.0), unended_url s h.1)

abbrev command_page : List ℕ
command_page = codes "/command"

-- the request of `zhHttpGet` for the page that runs a command
abbrev pub asking : List ℕ → ℕ → ℕ → List ℕ → HttpThread
asking host port begin_byte cmd = record {
  method = 1;
  url = record { host = host; port = port; file = command_page; parm = url_encode cmd };
  body = [];
  begin_byte = begin_byte;
}

module _ {S : Type 0} (flash : Flash S) (page_data : S → ℕ → Option (List ℕ)) where
  callback-command :
      (g : Option (List ℕ)) (s : S) (cmd : List ℕ)
      → AllBytes cmd
      → AllNonzero cmd
      → web_effect flash page_data g s (callback command_page (url_encode cmd))
        ≡ some ((some cmd, s), sends (with_header cmd) ∷ [])
  unfolding web_effect pf_web_serv_callback bytes_eq
  callback-command g s cmd bytes nonzero =
      let text : until_nul (url_decode (url_encode cmd)) ≡ cmd =
        ap until_nul (url_decode-url_encode cmd bytes) ∙ until_nul_all cmd nonzero in
      ap (λ t. some ((some t, s), sends (with_header t) ∷ [])) text

  effects-then :
      {g1 g2 : Option (List ℕ)} {s1 s2 : S} {did more : List WebAction}
      → (g : Option (List ℕ)) (s : S) (e : WebEffect) (es : List WebEffect)
      → web_effect flash page_data g s e ≡ some ((g1, s1), did)
      → web_effects flash page_data g1 s1 es ≡ some ((g2, s2), more)
      → web_effects flash page_data g s (e ∷ es) ≡ some ((g2, s2), did ++ more)
  unfolding web_effects
  effects-then g s e es now later = rw (now, later) refl

  effects-command :
      (g : Option (List ℕ)) (s s' : S) (cmd : List ℕ) (fd : ℕ) (did : List Action)
      → AllBytes cmd
      → AllNonzero cmd
      → do_command flash (c_str cmd) s ≡ some (s', did)
      → web_effects flash page_data g s
          (callback command_page (url_encode cmd) ∷ close fd ∷ done_callback command_page ∷ [])
        ≡ some ((some cmd, s'), sends (with_header cmd) ∷ closes fd ∷ commands did ∷ [])
  unfolding web_effects web_effect pf_web_serv_done
  effects-command g s s' cmd fd did bytes nonzero done =
      let end : web_effects flash page_data (some cmd) s (done_callback command_page ∷ [])
          ≡ some ((some cmd, s'), commands did ∷ []) =
        effects-then {did = commands did ∷ []} (some cmd) s (done_callback command_page) []
          (rw done refl) refl in
      effects-then g s (callback command_page (url_encode cmd))
        (close fd ∷ done_callback command_page ∷ []) (callback-command g s cmd bytes nonzero)
        (effects-then (some cmd) s (close fd) (done_callback command_page ∷ []) refl end)

  -- A command goes from the HTTP client to the device's console: where `do_command` runs on a text of
  -- bytes without NUL and does not fault, the client's GET request for "/command" with that text
  -- URL-encoded, whose lines fit the client's buffer, that fits into the empty cache of a connected client with a
  -- NUL behind it, and that comes cut into pieces of 1 to 128 bytes, one for each round of the receive
  -- task, where the server waits for more after each but the last, is answered with the text and its
  -- header, the client is closed, and then `do_command` has run on exactly that text.
  pub web_effects-get_request :
      (host : List ℕ) (port begin_byte : ℕ) (cmd : List ℕ) (w : WebServer) (behind : List ℕ)
      (pieces : List (List ℕ)) (last : List ℕ) (g : Option (List ℕ)) (s s' : S) (did : List Action)
      → AllNonzero host
      → AllBytes cmd
      → AllNonzero cmd
      → lines_fit (asking host port begin_byte cmd) ≡ true
      → 0 < w.use_client_fd
      → w.serv.cache_len ≡ 0
      → length w.serv.cache_buf ≡ cache_buf_size
      → concat pieces ++ last ≡ get_request (asking host port begin_byte cmd)
      → All IsPiece pieces
      → IsPiece last
      → IsWaiting w pieces
      → length (get_request (asking host port begin_byte cmd)) < cache_buf_size
      → drop (length (get_request (asking host port begin_byte cmd))) w.serv.cache_buf ≡ 0 ∷ behind
      → do_command flash (c_str cmd) s ≡ some (s', did)
      → web_effects flash page_data g s (web_task_rounds (pieces ++ last ∷ []) w).1
        ≡ some (
          (some cmd, s'),
          sends (respone_ok (length cmd) ∷ cmd ∷ []) ∷ closes w.use_client_fd ∷ commands did ∷ [],
        )
  unfolding with_header
  web_effects-get_request host port begin_byte cmd w behind pieces last g s s' did h bytes nonzero
        lines fd empty size cut small small' waits fits nul done =
      let (chars, _) = url_encode_lem cmd bytes in
      let taken =
        web_task_answer-get_request (asking host port begin_byte cmd) w behind h
          (text_before (nonzero_url (url_encode cmd) chars))
          (plain_before (unended_url (url_encode cmd) chars))
          (refl, (refl, (refl, (refl, (refl, (refl, (refl, (refl, tt)))))))) fd empty fits nul in
      let total : length (concat pieces ++ last) < cache_buf_size = omega (arith, ap length cut) in
      let rounds =
        web_task_rounds-pieces w pieces last small small' fd (omega arith) size (omega arith)
          waits in
      ap (web_effects flash page_data g s)
        (rounds ∙ (ap (λ t. (web_task_answer t w).1) cut ∙ taken))
      ∙ effects-command g s s' cmd w.use_client_fd did bytes nonzero done
    where
      text_before : AllNonzero (url_encode cmd) → AllNonzero (command_page ++ b'?' ∷ url_encode cmd)
      text_before k = (
        omega arith,
        (
          omega arith,
          (
            omega arith,
            (
              omega arith,
              (omega arith, (omega arith, (omega arith, (omega arith, (omega arith, k))))),
            ),
          ),
        ),
      )

      plain_before :
          All (λ c. ends_value 0x20 c ≡ false) (url_encode cmd)
          → All (λ c. ends_value 0x20 c ≡ false) (command_page ++ b'?' ∷ url_encode cmd)
      plain_before k = (refl, (refl, (refl, (refl, (refl, (refl, (refl, (refl, (refl, k)))))))))
