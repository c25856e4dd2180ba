-- ===== src/HxTcp.antt =====
-- components/hxkong_yun/hxkong_tcp.c: the cloud client's transport. `hxtcp_conn` is a thread of two
-- connections, one after the other, for ever: the dispatch server tells it the relay's address, the
-- relay lets it log in and then sends the bytes that go to `g_dtrs_sys_recv`. What the network does
-- is the thread's sequence of events, and what the thread does to others its list of actions.
pub mod Dispatch
pub mod Session
pub mod Delivery
use esp32base.Base.{
  ℕ, ◌+◌, ◌*◌, ◌≡◌, Bool, true, false, Option, none, some, List, [], ◌∷◌, ◌++◌, ◌==◌, leb,
  if◌then◌else◌, ltb, until_nul, length, get_or, take, replicate, c_str, codes, decimal, ◌>>=◌,
}
use esp32base.Stream.{blit}

-- `ThxtLinkInfo`: the host as a C string without its NUL
pub record ThxtLinkInfo : Type 0 where
  pub host : List ℕ
  pub port : ℕ

-- `yun_init` of hxkong_yun.c on the link, with a host that fits the array and a port that is not negative
unfoldable pub yun_init : List ℕ → ℕ → ThxtLinkInfo
yun_init host port = record { host = until_nul host; port = port }

-- `yun_app_start` of hxkong_yun.c: whether it starts the thread `hxtcp_conn`
unfoldable pub yun_app_start : ThxtLinkInfo → Bool
yun_app_start link = ltb 0 link.port

-- how name resolution, `socket` and `connect` turn out
pub data Attempt : Type 0 where
  no_socket : Attempt
  refused : Attempt
  connected : Attempt

-- `create_tcp_client`: true for ESP_OK. `gethostbyname` is taken to find the host.
unfoldable pub create_tcp_client : List ℕ → ℕ → Attempt → Bool
create_tcp_client server_host server_port attempt =
    if get_or server_host 0 0 == 0
    then false
    else if server_port == 0
    then false
    else elim attempt [ no_socket ↦ false | refused ↦ false | connected ↦ true ]

-- what `recv` returns: at least one byte, 0, or -1
pub data Recv : Type 0 where
  received : ℕ → List ℕ → Recv
  closed : Recv
  failed : Recv

-- where the thread stands: before a connection, or in one, with what it keeps there
pub data Phase : Type 0 where
  before_dispatch : Phase
  in_dispatch : List ℕ → ℕ → Phase
  before_relay : Phase
  in_relay : Bool → Phase

-- the variables of `hxtcp_conn` that outlive a connection, and the phase
pub record HxTcp : Type 0 where
  pub trans_serv_ip : List ℕ
  pub trans_serv_port : ℕ
  pub phase : Phase

-- `hxtcp_conn` when it starts
abbrev pub started : HxTcp
started = record { trans_serv_ip = []; trans_serv_port = 0; phase = before_dispatch }

-- `rvcahce[32]`, of which nothing is read before it is written
abbrev pub fresh_cache : List ℕ
fresh_cache = replicate 32 0

-- sprintf(transServIP, "%d.%d.%d.%d", …)
unfoldable pub dotted : List ℕ → List ℕ
dotted c =
    decimal (get_or c 0 0)
    ++ (46
        ∷ (decimal (get_or c 1 0)
            ++ (46 ∷ (decimal (get_or c 2 0) ++ (46 ∷ decimal (get_or c 3 0))))))

-- what the thread does to others: `hxtcp_send`, and the call of `g_dtrs_sys_recv`
pub data Action : Type 0 where
  sends : List ℕ → Action
  hands_on : List ℕ → Action

-- the dispatch server's `recv`; `char` is unsigned on the device. `none` is a copy past `rvcahce`.
unfoldable pub on_dispatch : HxTcp → List ℕ → ℕ → Recv → Option HxTcp
on_dispatch t rvcahce rvlen closed = some (record t { phase = before_relay })
on_dispatch t rvcahce rvlen failed = some (record t { phase = before_relay })
on_dispatch t rvcahce rvlen (received b bs) =
    let cache = blit rvcahce rvlen (b ∷ bs) in
    let len = rvlen + length (b ∷ bs) in
    if ltb 32 len
    then none
    else if leb 6 len
    then some (record {
      trans_serv_ip = dotted cache;
      trans_serv_port = get_or cache 4 0 + 256 * get_or cache 5 0;
      phase = before_relay;
    })
    else some (record t { phase = in_dispatch cache len })

abbrev pub dispatched : Option HxTcp → Option (HxTcp × List Action)
dispatched none = none
dispatched (some t) = some (t, [])

abbrev pub iot_dev : List ℕ
iot_dev = c_str (codes "iot-dev")

-- the relay's `recv` of `len > 0`: the new `isloginDTRS`
unfoldable pub on_relay : Bool → ℕ → List ℕ → Bool × List Action
on_relay true b bs = (true, hands_on (b ∷ bs) ∷ [])
on_relay false b bs =
    if b == 0
    then (false, sends iot_dev ∷ [])
    else if b == 1
    then (true, hands_on bs ∷ [])
    else (false, [])

pub data Event : Type 0 where
  attempt : Attempt → Event
  recv : Recv → Event

abbrev after : HxTcp → Phase → Option (HxTcp × List Action)
after t p = some (record t { phase = p }, [])

-- the loop of `hxtcp_conn`: the event that each phase waits for; `none` for any other, and for a fault
unfoldable pub on_phase : ThxtLinkInfo → HxTcp → Phase → Event → Option (HxTcp × List Action)
on_phase link t before_dispatch (attempt a) =
    after t
      (if create_tcp_client link.host link.port a then in_dispatch fresh_cache 0 else before_relay)
on_phase link t before_dispatch (recv r) = none
on_phase link t (in_dispatch rvcahce rvlen) (recv r) = dispatched (on_dispatch t rvcahce rvlen r)
on_phase link t (in_dispatch rvcahce rvlen) (attempt a) = none
on_phase link t before_relay (attempt a) = after t (
    if create_tcp_client t.trans_serv_ip t.trans_serv_port a
    then in_relay false
    else before_dispatch)
on_phase link t before_relay (recv r) = none
on_phase link t (in_relay login) (recv (received b bs)) =
    let (login', did) = on_relay login b bs in some (record t { phase = in_relay login' }, did)
on_phase link t (in_relay login) (recv closed) = after t before_dispatch
on_phase link t (in_relay login) (recv failed) = after t before_dispatch
on_phase link t (in_relay login) (attempt a) = none

abbrev pub on_event : ThxtLinkInfo → HxTcp → Event → Option (HxTcp × List Action)
on_event link t e = on_phase link t t.phase e

-- `hxtcp_conn` over a sequence of events, with all that it did
unfoldable pub hxtcp_conn : ThxtLinkInfo → HxTcp → List Event → Option (HxTcp × List Action)
hxtcp_conn link t [] = some (t, [])
hxtcp_conn link t (e ∷ es) = do
  (t1, did) ← on_event link t e
  (t2, more) ← hxtcp_conn link t1 es
  some (t2, did ++ more)
