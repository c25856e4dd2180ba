-- ===== src/WebSocket/Serv.antt =====
-- components/websocket/websocket_serv.c: the server of one WebSocket client. SHA-1, MD5 and Base64
-- are the parameters of its handshake.
pub mod Deliver
use esp32base.Base.{
  ℕ, zero, suc, ◌+◌, ◌-◌, Bool, true, false, ◌&&◌, Option, none, some, List, [], ◌∷◌, ◌++◌, ◌==◌,
  ltb, leb, if◌then◌else◌, length, take, drop, until_nul,
}
use esp32base.Stream.{blit, shift}
use esp32base.UrlCodec.{url_decode, url_encode}
use esp32base.WebSocket.{Received, recv_pack, send_data}
use esp32base.WebSocket.Handshake.{
  WebSocket, init, Outcome, accepted, already, failed, Shaken, handshake,
}

-- `TzhWSockClient`, and the module's globals `wssocket_acceptBuf`, `g_wsk_client_fd` and
-- `isOpenWebsocketFunc`
pub record WsockClient : Type 0 where
  pub pespconn : ℕ
  pub hs : WebSocket
  pub recv_cache : List ℕ
  pub recv_len : ℕ
  pub accept_buf : List ℕ
  pub client_fd : ℕ
  pub is_open : Bool

-- the calls out: `close`, `write`, and `g_trans_websocket_recv`
pub data Effect : Type 0 where
  close : ℕ → Effect
  write : ℕ → List ℕ → Effect
  trans_websocket_recv : List ℕ → Effect

abbrev pub cache_size : ℕ
cache_size = 2000

-- the cache once the data is copied behind what it holds
unfoldable pub buffered : WsockClient → List ℕ → List ℕ
buffered w pusrdata = blit w.recv_cache w.recv_len pusrdata

-- What follows `zhWebSockRecvPack` in `websock_recv_cb`, over the bytes held. `none` is a fault: a packet
-- that does not fit into `str` with its NUL, or a `memcpy` of a negative length. What an old frame without
-- its end mark writes to `str` before it is given up is not counted.
unfoldable pub deliver :
    List ℕ → ℕ → Option Received → WsockClient → List Effect → Option (WsockClient × List Effect)
deliver cache len none w out = none
deliver cache len (some r) w out =
    if leb 1000 (length r.packet)
    then none
    else if ltb len r.result
    then none
    else some (
      record w { recv_len = len - r.result; recv_cache = shift cache r.result (len - r.result) },
      out ++ (if ltb 0 r.result then trans_websocket_recv (url_decode r.packet) ∷ [] else []),
    )

module _ (sha1 : List ℕ → Option (List ℕ)) (base64 md5 : List ℕ → List ℕ) where
  -- the branches on `wssocket_ret`
  unfoldable pub on_handshake :
      ℕ
      → ℕ
      → WsockClient
      → List Effect
      → Option (Outcome × Shaken)
      → Option (WsockClient × List Effect)
  on_handshake sock_fd len w out none = none
  on_handshake sock_fd len w out (some (accepted, r)) = some (
    record w { hs = r.hs; recv_cache = r.recvbuf; recv_len = 0; accept_buf = r.accept },
    out ++ write sock_fd (until_nul r.accept) ∷ [],
  )
  on_handshake sock_fd len w out (some (already, r)) =
      deliver r.recvbuf len (recv_pack r.hs.method r.recvbuf len) w out
  on_handshake sock_fd len w out (some (failed, r)) =
      some
        (record w { hs = r.hs; recv_cache = r.recvbuf; recv_len = len; accept_buf = r.accept }, out)

  -- `websock_recv_cb`: past the array's size the client is closed, and the data copied all the same
  unfoldable pub websock_recv_cb : ℕ → List ℕ → WsockClient → Option (WsockClient × List Effect)
  websock_recv_cb sock_fd pusrdata w =
      let len = w.recv_len + length pusrdata in
      let out = if ltb cache_size len then close w.pespconn ∷ [] else [] in
      on_handshake sock_fd len w out
        (handshake sha1 base64 md5 w.hs.method (buffered w pusrdata) len w.hs w.accept_buf)

  -- One round of `app_websocket_task_recv`, given what `recv` returns: no bytes are an end or an error.
  -- `zhWebSockFree` leaves the record as it is, with its strings freed.
  unfoldable pub task_recv : List ℕ → WsockClient → Option (WsockClient × List Effect)
  task_recv [] w =
      if w.client_fd == 0
      then some (w, [])
      else some (record w { pespconn = 0; recv_len = 0; client_fd = 0 }, close w.pespconn ∷ [])
  task_recv (c ∷ data_in) w =
      if w.client_fd == 0 then some (w, []) else websock_recv_cb w.client_fd (c ∷ data_in) w

-- one round of `app_websocket_task_accept` that accepts a client
unfoldable pub task_accept : ℕ → WsockClient → WsockClient × List Effect
task_accept fd w = (
  record w { client_fd = fd; pespconn = fd; hs = init; recv_len = 0 },
  if w.pespconn == 0 then [] else close w.pespconn ∷ [],
)

-- `websocket_send`; `none` is a `write` of a length that was never set
unfoldable pub websocket_send : List ℕ → WsockClient → Option (List Effect)
websocket_send buf w =
    if w.is_open && ltb 0 w.client_fd
    then elim (send_data w.hs.method (url_encode buf)) [
      | none ↦ none
      | some frame ↦ some (write w.client_fd frame ∷ [])
    ]
    else some []

-- `websocket_init` on the flag; a port below 0 is 0 here
unfoldable pub websocket_init : ℕ → WsockClient → WsockClient
websocket_init port w = if ltb 0 port then record w { is_open = true } else w
