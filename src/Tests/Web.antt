-- ===== src/Tests/Web.antt =====
-- The WebSocket and the web server at concrete inputs.
use esp32base.Base.{
  ℕ, ◌<◌, ◌≡◌, refl, true, Option, none, some, List, [], ◌∷◌, ◌++◌, arith, codes, All, length, take,
  replicate, starts_with,
}
use esp32base.UrlCodec.{url_decode}
use esp32base.WebSocket.{method_2, pack_method_2, Received, recv_pack}
use esp32base.UrlCodec.RoundTrip.{unescape}
use esp32base.WebSocket.Rfc.{
  masked, client_frame, pack_method_2-client_frame, and_then, read_server_frame,
}
use esp32base.WebSocket.Scan.{recv_pack-overrun}
use esp32base.WebSocket.Handshake.{init, crlf, accept_2}
use esp32base.WebSocket.Handshake.Accept.{be_words, accept_2_lem}
use esp32base.WebSocket.Serv.{
  WsockClient, write, trans_websocket_recv, websock_recv_cb, websocket_send,
}
use esp32base.WebSocket.Serv.Deliver.{websock_recv_cb-client_frame, websocket_send-read}
use esp32base.Http.{is_get, getbegnstr, rnrnstr, url_of, HttpServ, serv_reslov_url}
use esp32base.Http.Pieces.{serv_reslov_url-pieces}
use esp32base.WebServer.{WebServer, web_send_client, send_from}
use esp32base.WebServer.Send.{taken, IsShort, web_send_client_lem}

pack_method_2-client_frame_example :
    pack_method_2 (client_frame 1 2 3 4 (codes "hi") ++ 7 ∷ []) 9
    ≡ some (length (client_frame 1 2 3 4 (codes "hi")), codes "hi")
pack_method_2-client_frame_example =
    pack_method_2-client_frame 1 2 3 4 (codes "hi") (7 ∷ []) 9
      (omega arith, (omega arith, (omega arith, (omega arith, tt))))
      (omega arith, (omega arith, tt)) (omega arith) (unfold masked in omega arith)

-- eight bytes held, of the nine that the byte in front and the frame are
recv_pack-overrun_example :
    (r : Received) × (recv_pack method_2 ((5 ∷ []) ++ (client_frame 1 2 3 4 (codes "hi") ++ [])) 8
      ≡ some r)
    × (8 < r.result)
recv_pack-overrun_example =
    recv_pack-overrun 1 2 3 4 (5 ∷ []) (codes "hi") [] 8 (refl, tt)
      (omega arith, (omega arith, (omega arith, (omega arith, tt))))
      (omega arith, (omega arith, tt)) (omega arith) (omega arith) (unfold masked in omega arith)
      (unfold masked in omega arith)

-- a digest of five words, whatever the text, and no Base64
abbrev digest : List ℕ → Option (List ℕ)
digest text = some (1 ∷ 2 ∷ 3 ∷ 4 ∷ 5 ∷ [])

abbrev plain : List ℕ → List ℕ
plain text = text

accept_2_lem_example :
    accept_2 digest plain (some (codes "key")) []
    ≡ some (
        codes "HTTP/1.1 101 Switching Protocols"
        ++ (crlf
            ++ (codes "Upgrade: WebSocket"
                ++ (crlf
                    ++ (codes "Connection: Upgrade"
                        ++ (crlf
                            ++ (codes "Sec-WebSocket-Accept: "
                                ++ (plain (be_words (1 ∷ 2 ∷ 3 ∷ 4 ∷ 5 ∷ []))
                                    ++ (crlf ++ crlf)))))))))
accept_2_lem_example = accept_2_lem digest plain (codes "key") [] 1 2 3 4 5 refl (omega arith)

-- a client that has shaken hands
abbrev client : WsockClient
client = record {
  pespconn = 5;
  hs = record init { method = method_2 };
  recv_cache = [];
  recv_len = 0;
  accept_buf = [];
  client_fd = 5;
  is_open = true;
}

websock_recv_cb-client_frame_example :
    (w' : WsockClient) × (websock_recv_cb digest plain plain 5
        (client_frame 1 2 3 4 (codes "hi") ++ 7 ∷ [])
        client
      ≡ some (w', trans_websocket_recv (url_decode (codes "hi")) ∷ []))
    × (w'.hs ≡ client.hs)
    × (w'.recv_len ≡ 1)
    × (take w'.recv_len w'.recv_cache ≡ 7 ∷ [])
websock_recv_cb-client_frame_example =
    websock_recv_cb-client_frame digest plain plain 5 1 2 3 4 (codes "hi") (7 ∷ []) client refl refl
      (omega arith, (omega arith, (omega arith, (omega arith, tt))))
      (omega arith, (omega arith, tt)) (omega arith) (unfold masked in omega arith)

websocket_send-read_example :
    (frame : List ℕ) × (websocket_send (codes "h i") client ≡ some (write 5 frame ∷ []))
    × (and_then (read_server_frame frame) (λ text. some (url_decode text)) ≡ some (codes "h i"))
    × (and_then (read_server_frame frame) (λ text. some (unescape text)) ≡ some (codes "h+i"))
websocket_send-read_example =
    websocket_send-read (codes "h i") client refl (omega arith) refl
      (omega arith, (omega arith, (omega arith, tt))) (omega arith)

-- an empty cache, with a NUL behind the request below
abbrev serv : HttpServ
serv = record { cache_buf = replicate 40 0; cache_len = 0 }

serv_reslov_url-pieces_example :
    serv_reslov_url (serv_reslov_url serv (codes "GET /") []).1.1 (codes "a ") []
    ≡ serv_reslov_url serv (codes "GET /a ") []
serv_reslov_url-pieces_example =
    serv_reslov_url-pieces serv (codes "GET /") (codes "a ") [] (omega arith) (omega arith)
      (unfold serv_reslov_url url_of getbegnstr is_get rnrnstr starts_with in refl)

abbrev server : WebServer
server = record { use_client_fd = 5; serv = serv; url = []; behind_url = [] }

-- the first call takes two bytes, the second fails
web_send_client_lem_example :
    All IsShort (web_send_client (some 2 ∷ none ∷ []) (codes "page")).0
    × (taken (some 2 ∷ none ∷ []) (web_send_client (some 2 ∷ none ∷ []) (codes "page")).0
        ≡ take (web_send_client (some 2 ∷ none ∷ []) (codes "page")).1 (codes "page"))
web_send_client_lem_example =
    web_send_client_lem (some 2 ∷ none ∷ []) (codes "page")
      (unfold web_send_client send_from in (omega arith, (tt, tt)))
