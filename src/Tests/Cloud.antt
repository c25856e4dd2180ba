-- ===== src/Tests/Cloud.antt =====
-- The cloud client and its transport at concrete inputs.
use esp32base.Base.{
  false, decimal_from, ℕ, ◌≡◌, ◌⊎◌, refl, true, some, List, [], ◌∷◌, ◌++◌, arith, codes, replicate,
  Piece,
}
use esp32base.MiniData.{MiniData, create, length_field}
use esp32base.Stream.{Stream}
use esp32base.Yun.Pieces.{feed, feed-frames}
use esp32base.HxTcp.{
  on_dispatch, on_relay, dotted, hands_on, fresh_cache, in_dispatch, ThxtLinkInfo, HxTcp, connected,
  create_tcp_client, received, before_dispatch, in_relay, started, Action, Event, attempt, recv,
  on_phase, hxtcp_conn,
}
use esp32base.HxTcp.Dispatch.{told, arrivals}
use esp32base.HxTcp.Session.{
  connection, handed_on, LogsIn, Some, LoggedOut, here, next, started-Reaches,
}
use esp32base.HxTcp.Delivery.{hxtcp_conn-delivers, greetings}

abbrev no_cmd : MiniData
no_cmd = record {
  head = 0;
  parameter_len = 0;
  parameter = 0;
  end = 0;
  frame_head = 0;
  frame_len = 0;
}

abbrev cloud : Stream
cloud = record { cache = replicate 40 7; len = 0; cmd = no_cmd }

abbrev payloads : List (List ℕ)
payloads = codes "hi" ∷ []

-- the frame of the payload, cut in two
abbrev cut_1 : List ℕ
cut_1 = 0xaf ∷ 3 ∷ []

abbrev cut_2 : List ℕ
cut_2 = 1 ∷ 104 ∷ 105 ∷ 0xfa ∷ []

feed-frames_example :
    (s : Stream) × (feed cloud (cut_1 ∷ cut_2 ∷ []) ≡ some (s, payloads)) × (s.len ≡ 0)
feed-frames_example =
    feed-frames payloads (cut_1 ∷ cut_2 ∷ []) cloud refl (omega arith, tt)
      (omega arith, (omega arith, tt)) (unfold create length_field in refl)

abbrev link : ThxtLinkInfo
link = record { host = codes "a"; port = 10000 }

abbrev front : List Piece
front = (10, 0 ∷ 0 ∷ []) ∷ []

abbrev relay_address : List ℕ
relay_address = 10 ∷ 0 ∷ 0 ∷ 1 ∷ 0x57 ∷ 4 ∷ []

abbrev last_bytes : List ℕ
last_bytes = 0x57 ∷ 4 ∷ []

abbrev rest_pieces : List Piece
rest_pieces = (1, 104 ∷ 105 ∷ 0xfa ∷ []) ∷ []

abbrev round : List Event
round =
    attempt connected
    ∷ (arrivals front
        ++ (recv (received 1 last_bytes)
            ∷ attempt connected
            ∷ (greetings ([] ∷ []) ++ (recv (received 1 cut_1) ∷ arrivals rest_pieces))))

hxtcp_conn-delivers_example :
    (did : List Action) × (s : Stream) × (hxtcp_conn link
        (record started { phase = before_dispatch })
        round
      ≡ some (record (told relay_address) { phase = in_relay true }, did))
    × (feed cloud (handed_on did) ≡ some (s, payloads))
    × (s.len ≡ 0)
hxtcp_conn-delivers_example =
    hxtcp_conn-delivers link started front 1 last_bytes ([] ∷ []) cut_1 rest_pieces payloads cloud
      (omega arith) (omega arith) (omega arith) (omega arith) (omega arith) (omega arith) refl
      (omega arith, tt) (omega arith, (omega arith, tt)) (unfold create length_field in refl)

abbrev dispatching : HxTcp
dispatching = record started { phase = in_dispatch fresh_cache 0 }

abbrev relay_bytes : List ℕ
relay_bytes = 10 ∷ 0 ∷ 0 ∷ 1 ∷ 80 ∷ 0 ∷ []

abbrev at_relay : HxTcp
at_relay = record (told relay_bytes) { phase = in_relay false }

abbrev way : List Event
way = attempt connected ∷ recv (received 10 (0 ∷ 0 ∷ 1 ∷ 80 ∷ 0 ∷ [])) ∷ attempt connected ∷ []

abbrev login : Event
login = recv (received 1 (65 ∷ []))

started-Reaches_example :
    ((handed_on (hands_on (65 ∷ []) ∷ []) ≡ []) ⊎ Some LogsIn (connection (way ++ login ∷ [])))
    × (LoggedOut (in_relay true) ⊎ Some LogsIn (connection (way ++ login ∷ [])))
started-Reaches_example =
    started-Reaches link {u = record (told relay_bytes) { phase = in_relay true }} login
      (next {t = told relay_bytes} {u = at_relay} {now = []} (attempt connected)
        (next {t = dispatching} {u = told relay_bytes} {now = []}
          (recv (received 10 (0 ∷ 0 ∷ 1 ∷ 80 ∷ 0 ∷ [])))
          (next {u = dispatching} {now = []} (attempt connected) here
            (unfold on_phase create_tcp_client in refl))
          (unfold on_phase on_dispatch in unfold dotted decimal_from in refl))
        (unfold on_phase create_tcp_client dotted decimal_from in refl))
      (unfold on_phase on_relay in refl)
