-- ===== src/WebSocket/Serv/Deliver.antt =====
-- What the WebSocket server delivers and sends.
use esp32base.Base.{
  ℕ, ◌+◌, ◌-◌, ◌≤◌, ◌<◌, ◌≡◌, refl, sym, ap, ◌∙◌, true, false, Option, none, some, List, [], ◌∷◌,
  ◌++◌, append_assoc, arith, length, length-append, length-take, ltb, leb, take, drop,
  take-append_length, drop-append_length, AllBytes,
}
use esp32base.Stream.{shift}
use esp32base.UrlCodec.{url_decode, url_encode}
use esp32base.UrlCodec.RoundTrip.{
  unescape, plus_for_blank, unescape-url_encode, unescape, plus_for_blank, unescape-url_encode,
  url_decode-url_encode, url_encode_lem,
}
use esp32base.WebSocket.{Method, method_2, Received, received, recv_pack, send_data}
use esp32base.WebSocket.Rfc.{client_frame, and_then, read_server_frame, read_server_frame-send_data}
use esp32base.WebSocket.Scan.{recv_pack-client_frame}
use esp32base.WebSocket.Handshake.{WebSocket, already, Shaken, handshake}
use esp32base.WebSocket.Serv.{
  WsockClient, write, trans_websocket_recv, cache_size, buffered, deliver, on_handshake,
  websock_recv_cb, websocket_send,
}

-- where nothing is held yet, the bytes received stand at the front of the cache
buffered-empty :
    (w : WsockClient) (data_in : List ℕ)
    → w.recv_len ≡ 0
    → buffered w data_in ≡ data_in ++ drop (length data_in) w.recv_cache
unfolding buffered
buffered-empty w data_in e = let n : 0 + length data_in ≡ length data_in = omega arith in rw (e, n)

deliver-whole :
    (cache : List ℕ) (len : ℕ) (p : Received) (w : WsockClient)
    → length p.packet < 1000
    → 0 < p.result
    → p.result ≤ len
    → deliver cache len (some p) w []
      ≡ some (
        record w { recv_len = len - p.result; recv_cache = shift cache p.result (len - p.result) },
        trans_websocket_recv (url_decode p.packet) ∷ [],
      )
unfolding deliver
deliver-whole cache len p w small some_bytes fits =
    let fits_str : leb 1000 (length p.packet) ≡ false = ground arith in
    let fits_len : ltb len p.result ≡ false = ground arith in
    let taken : ltb 0 p.result ≡ true = ground arith in rw (fits_str, fits_len, taken)

shaken_already :
    (sha1 : List ℕ → Option (List ℕ)) (base64 md5 : List ℕ → List ℕ) (m : Method) (recvbuf : List ℕ)
    (len : ℕ) (hs : WebSocket) (accept_buf : List ℕ)
    → m ≡ method_2
    → handshake sha1 base64 md5 m recvbuf len hs accept_buf
      ≡ some (already, record { result = 1; hs = hs; recvbuf = recvbuf; accept = accept_buf })
unfolding handshake
shaken_already sha1 base64 md5 m recvbuf len hs accept_buf e = rw e

module _ (sha1 : List ℕ → Option (List ℕ)) (base64 md5 : List ℕ → List ℕ) (sock_fd : ℕ)
    (w : WsockClient) where
  recv_still_open :
      (data_in : List ℕ)
      → w.recv_len + length data_in ≤ cache_size
      → websock_recv_cb sha1 base64 md5 sock_fd data_in w
        ≡ on_handshake sha1 base64 md5 sock_fd (w.recv_len + length data_in) w [] (
            handshake sha1 base64 md5 w.hs.method
              (buffered w data_in)
              (w.recv_len + length data_in)
              w.hs
              w.accept_buf)
  unfolding websock_recv_cb
  recv_still_open data_in fits =
      let open_still : ltb cache_size (w.recv_len + length data_in) ≡ false = ground arith in
      rw open_still

  on_handshake-already :
      (len : ℕ) (r : Shaken)
      → on_handshake sha1 base64 md5 sock_fd len w [] (some (already, r))
        ≡ deliver r.recvbuf len (recv_pack r.hs.method r.recvbuf len) w []
  unfolding on_handshake
  on_handshake-already len r = refl

  -- a client that has shaken hands sees its bytes go to the scan
  scanned :
      (data_in : List ℕ) (p : Received)
      → w.hs.method ≡ method_2
      → w.recv_len + length data_in ≤ cache_size
      → recv_pack method_2 (buffered w data_in) (w.recv_len + length data_in) ≡ some p
      → websock_recv_cb sha1 base64 md5 sock_fd data_in w
        ≡ deliver (buffered w data_in) (w.recv_len + length data_in) (some p) w []
  scanned data_in p m fits e =
      let len = w.recv_len + length data_in in
      let shaken =
        shaken_already sha1 base64 md5 w.hs.method (buffered w data_in) len w.hs w.accept_buf m in
      recv_still_open data_in fits
      ∙ ap (λ r. on_handshake sha1 base64 md5 sock_fd len w [] r) shaken
      ∙ on_handshake-already len
          (record { result = 1; hs = w.hs; recvbuf = buffered w data_in; accept = w.accept_buf })
      ∙ ap (λ r. deliver (buffered w data_in) len r w [])
          (ap (λ t. recv_pack t (buffered w data_in) len) m ∙ e)

take-shift :
    (frame rest behind : List ℕ) (len : ℕ)
    → len ≡ length frame + length rest
    → take (length rest) (shift (frame ++ (rest ++ behind)) (length frame) (len - length frame))
      ≡ rest
take-shift frame rest behind len e =
    let left : len - length frame ≡ length rest = omega arith in
    rw (left, drop-append_length frame (rest ++ behind), take-append_length rest behind)
      (take-append_length rest (drop (length rest) (frame ++ (rest ++ behind))))

-- Where a client has shaken hands by RFC 6455 and nothing is held, a masked frame with a text of up to
-- 999 bytes, and bytes behind it that fit into the cache, are received. The decoded text is delivered,
-- once, and the bytes behind the frame are what is held then, at the front of the cache.
pub websock_recv_cb-client_frame :
    (sha1 : List ℕ → Option (List ℕ)) (base64 md5 : List ℕ → List ℕ) (sock_fd a b c d : ℕ)
    (text rest : List ℕ) (w : WsockClient)
    → w.hs.method ≡ method_2
    → w.recv_len ≡ 0
    → AllBytes (a ∷ b ∷ c ∷ d ∷ [])
    → AllBytes text
    → length text < 1000
    → length (client_frame a b c d text ++ rest) ≤ cache_size
    → (w' : WsockClient) × (websock_recv_cb sha1 base64 md5 sock_fd
          (client_frame a b c d text ++ rest)
          w
        ≡ some (w', trans_websocket_recv (url_decode text) ∷ []))
      × (w'.hs ≡ w.hs)
      × (w'.recv_len ≡ length rest)
      × (take w'.recv_len w'.recv_cache ≡ rest)
websock_recv_cb-client_frame sha1 base64 md5 sock_fd a b c d text rest w m none_held masks bytes
      small fits =
    let frame = client_frame a b c d text in
    let behind = drop (length (frame ++ rest)) w.recv_cache in
    let len = w.recv_len + length (frame ++ rest) in
    let size = length-append frame rest in
    let held : buffered w (frame ++ rest) ≡ frame ++ (rest ++ behind) =
      buffered-empty w (frame ++ rest) none_held ∙ append_assoc frame rest behind in
    let p = received 0 (length frame, text) in
    let found : recv_pack method_2 (frame ++ (rest ++ behind)) len ≡ some p =
      recv_pack-client_frame a b c d [] text (rest ++ behind) len tt masks bytes (omega arith)
        (omega arith) (omega arith) in
    let whole =
      deliver-whole (buffered w (frame ++ rest)) len p w small (omega arith) (omega arith) in
    let left : len - (0 + length frame) ≡ length rest = omega arith in
    let zero_pos : 0 + length frame ≡ length frame = omega arith in
    (
      _,
      scanned sha1 base64 md5 sock_fd w (frame ++ rest) p m (omega arith)
            (ap (λ t. recv_pack method_2 t len) held ∙ found)
          ∙ whole,
      refl,
      left,
      ap
            (λ t.
              take t
                (shift (buffered w (frame ++ rest)) (0 + length frame) (len - (0 + length frame))))
            left
          ∙ ap (λ t. take (length rest) (shift (buffered w (frame ++ rest)) t (len - t))) zero_pos
          ∙ ap (λ t. take (length rest) (shift t (length frame) (len - length frame))) held
          ∙ take-shift frame rest behind len (omega arith),
    )

read_back :
    (sent : Option (List ℕ)) (text : List ℕ)
    → and_then sent read_server_frame ≡ some text
    → (frame : List ℕ) × (sent ≡ some frame)
read_back none text h = absurd (cc h)
read_back (some frame) text h = (frame, refl)

-- What is sent to a client that has shaken hands by RFC 6455 is one frame, for up to 21845 bytes. A
-- reader that decodes its text as the device does has the bytes given; a page that uses `unescape`, as
-- webpage/websocket.htm does, has them with plus signs for the blanks.
pub websocket_send-read :
    (buf : List ℕ) (w : WsockClient)
    → w.is_open ≡ true
    → 0 < w.client_fd
    → w.hs.method ≡ method_2
    → AllBytes buf
    → length buf ≤ 21845
    → (frame : List ℕ) × (websocket_send buf w ≡ some (write w.client_fd frame ∷ []))
      × (and_then (read_server_frame frame) (λ text. some (url_decode text)) ≡ some buf)
      × (and_then (read_server_frame frame) (λ text. some (unescape text))
          ≡ some (plus_for_blank buf))
unfolding websocket_send
websocket_send-read buf w o fd m bytes small =
    let (chars, short) = url_encode_lem buf bytes in
    let connected : ltb 0 w.client_fd ≡ true = ground arith in
    let read = read_server_frame-send_data (url_encode buf) (omega arith) in
    let sent = read_back (send_data method_2 (url_encode buf)) (url_encode buf) read in
    (
      sent.0,
      rw (o, connected, m, sent.1),
      ap (λ t. and_then t (λ text. some (url_decode text)))
            (sym (ap (λ t. and_then t read_server_frame) sent.1) ∙ read)
          ∙ ap some (url_decode-url_encode buf bytes),
      ap (λ t. and_then t (λ text. some (unescape text)))
            (sym (ap (λ t. and_then t read_server_frame) sent.1) ∙ read)
          ∙ ap some (unescape-url_encode buf bytes),
    )

-- Past the size of the cache the client is closed, but the data is copied all the same: the array is
-- written past its end.
pub buffered-overflow :
    (pusrdata : List ℕ) (w : WsockClient)
    → length w.recv_cache ≡ cache_size
    → w.recv_len ≤ cache_size
    → cache_size < w.recv_len + length pusrdata
    → cache_size < length (buffered w pusrdata)
unfolding buffered
buffered-overflow pusrdata w size inside late =
    let kept = length-take w.recv_len w.recv_cache (omega arith) in
    let whole =
      length-append (take w.recv_len w.recv_cache)
        (pusrdata ++ drop (w.recv_len + length pusrdata) w.recv_cache) in
    let tail = length-append pusrdata (drop (w.recv_len + length pusrdata) w.recv_cache) in
    omega arith
