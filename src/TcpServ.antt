-- ===== src/TcpServ.antt =====
-- components/tcpserv/tcpserv.c: the two tasks of the TCP server, over one client's socket, as steps on
-- what `accept` and `recv` return. components/tcpserv2/tcpserv2.c is the same code under other names.
pub mod Sockets
use esp32base.Base.{ℕ, Option, none, some, List, [], ◌∷◌, ◌++◌, ◌==◌, ltb, if◌then◌else◌}

-- `g_tcps_port` and `g_tcps_clientFD`; 0 is no client
pub record TcpServ : Type 0 where
  pub port : ℕ
  pub client_fd : ℕ

-- what `accept` returns, 0 standing for any failure, and what `recv` returns: bytes, 0 or -1
pub data TcpEvent : Type 0 where
  accepts : ℕ → TcpEvent
  gets : ℕ → List ℕ → TcpEvent
  gets_end gets_error : TcpEvent

-- the calls out: `close`, `g_trans_tcps_recv`, `write` and `esp_restart`
pub data TcpEffect : Type 0 where
  closes : ℕ → TcpEffect
  reads : List ℕ → TcpEffect
  writes : ℕ → List ℕ → TcpEffect
  restarts : TcpEffect

-- `tcpserv_init`
unfoldable pub tcpserv_init : ℕ → TcpServ → TcpServ
tcpserv_init port t = if ltb 0 port then record t { port = port } else t

-- one round of `app_tcpserv_task_accept`
unfoldable pub tcpserv_accept : ℕ → TcpServ → TcpServ × List TcpEffect
tcpserv_accept fd t =
    if ltb 0 fd
    then (record t { client_fd = fd }, if ltb 0 t.client_fd then closes t.client_fd ∷ [] else [])
    else (t, restarts ∷ [])

-- one round of `app_tcpserv_task_recv` with a client; the result 0 has no branch
unfoldable pub tcpserv_recv : TcpEvent → TcpServ → TcpServ × List TcpEffect
tcpserv_recv (accepts fd) t = (t, [])
tcpserv_recv (gets b bs) t = (t, reads (b ∷ bs) ∷ [])
tcpserv_recv gets_end t = (t, [])
tcpserv_recv gets_error t = (record t { client_fd = 0 }, closes t.client_fd ∷ [])

-- a round of either task; without a client, nothing is received
unfoldable pub tcpserv_step : TcpServ → TcpEvent → TcpServ × List TcpEffect
tcpserv_step t (accepts fd) = tcpserv_accept fd t
tcpserv_step t (gets b bs) = if ltb 0 t.client_fd then tcpserv_recv (gets b bs) t else (t, [])
tcpserv_step t gets_end = if ltb 0 t.client_fd then tcpserv_recv gets_end t else (t, [])
tcpserv_step t gets_error = if ltb 0 t.client_fd then tcpserv_recv gets_error t else (t, [])

-- the rounds of both tasks, in any order
unfoldable pub tcpserv_steps : TcpServ → List TcpEvent → TcpServ × List TcpEffect
tcpserv_steps t [] = (t, [])
tcpserv_steps t (e ∷ es) =
    let (t1, did) = tcpserv_step t e in let (t2, more) = tcpserv_steps t1 es in (t2, did ++ more)

-- `tcpserv_send`
unfoldable pub tcpserv_send : TcpServ → List ℕ → List TcpEffect
tcpserv_send t buf = if ltb 0 t.client_fd then writes t.client_fd buf ∷ [] else []
