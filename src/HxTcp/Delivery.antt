-- ===== src/HxTcp/Delivery.antt =====
-- The way of the bytes from the network to the user, over both connections.
use esp32base.Base.{
  Piece, bytes_of, ℕ, zero, suc, ◌+◌, ◌*◌, ◌/◌, ◌%◌, ◌≤◌, ◌<◌, ◌≡◌, ◌≢◌, refl, ap, ◌∙◌, true, false,
  some, List, [], ◌∷◌, ◌++◌, append_assoc, arith, ltb, length, get_or, concat, All, Bool-cases, inl,
  inr, decimal_from,
}
use esp32base.Stream.{Stream}
use esp32base.Yun.Receive.{frames}
use esp32base.Yun.Pieces.{feed, feed-frames}
use esp32base.HxTcp.{
  ThxtLinkInfo, connected, create_tcp_client, received, HxTcp, before_dispatch, in_dispatch,
  in_relay, fresh_cache, dotted, Action, sends, hands_on, iot_dev, on_relay, Event, attempt, recv,
  on_phase, hxtcp_conn,
}
use esp32base.HxTcp.Dispatch.{arrivals, told, conn-event, conn-dispatching}
use esp32base.HxTcp.Session.{handed_on}

abbrev pub pieces_of : List Piece → List (List ℕ)
pieces_of [] = []
pieces_of ((b, bs) ∷ ps) = (b ∷ bs) ∷ pieces_of ps

delivered : List Piece → List Action
delivered [] = []
delivered ((b, bs) ∷ ps) = hands_on (b ∷ bs) ∷ delivered ps

handed_on-delivered : (ps : List Piece) → handed_on (delivered ps) ≡ pieces_of ps
unfolding handed_on delivered
handed_on-delivered [] = refl
handed_on-delivered ((b, bs) ∷ ps) = ap (λ t. (b ∷ bs) ∷ t) (handed_on-delivered ps)

decimal_from-first :
    (fuel n : ℕ) (rest : List ℕ) → get_or (decimal_from (suc fuel) n ++ rest) 0 0 ≢ 0
unfolding decimal_from
decimal_from-first zero n rest = ground arith
decimal_from-first (suc fuel) n rest = elim (Bool-cases (ltb n 10)) [
  | inl one ↦ rw one (omega arith)
  | inr more ↦
      let last = 48 + n % 10 in
      rw (more, append_assoc (decimal_from (suc fuel) (n / 10)) (last ∷ []) rest)
        (decimal_from-first fuel (n / 10) (last ∷ rest))
]

conn-logged_in :
    (link : ThxtLinkInfo) (t : HxTcp) (ps : List Piece)
    → hxtcp_conn link (record t { phase = in_relay true }) (arrivals ps)
      ≡ some (record t { phase = in_relay true }, delivered ps)
unfolding hxtcp_conn on_phase delivered on_relay
conn-logged_in link t [] = refl
conn-logged_in link t ((b, bs) ∷ ps) =
    conn-event link (record t { phase = in_relay true }) (recv (received b bs)) (arrivals ps) refl
      (conn-logged_in link t ps)

connects :
    (host : List ℕ) (port : ℕ)
    → get_or host 0 0 ≢ 0
    → port ≢ 0
    → create_tcp_client host port connected ≡ true
unfolding create_tcp_client
connects host port h k = ground arith

greeted : List (List ℕ) → List Action
greeted [] = []
greeted (g ∷ gs) = sends iot_dev ∷ greeted gs

-- the relay's greetings, pieces that begin with 0
abbrev pub greetings : List (List ℕ) → List Event
greetings [] = []
greetings (g ∷ gs) = recv (received 0 g) ∷ greetings gs

handed_on-greeted :
    (gs : List (List ℕ)) (rest : List Action) → handed_on (greeted gs ++ rest) ≡ handed_on rest
unfolding handed_on greeted
handed_on-greeted [] rest = refl
handed_on-greeted (g ∷ gs) rest = handed_on-greeted gs rest

conn-greeted :
    {u : HxTcp} {out : List Action}
    → (link : ThxtLinkInfo) (t : HxTcp) (gs : List (List ℕ)) (es : List Event)
    → hxtcp_conn link (record t { phase = in_relay false }) es ≡ some (u, out)
    → hxtcp_conn link (record t { phase = in_relay false }) (greetings gs ++ es)
      ≡ some (u, greeted gs ++ out)
unfolding on_phase on_relay greeted
conn-greeted link t [] es h = h
conn-greeted link t (g ∷ gs) es h =
    conn-event link (record t { phase = in_relay false }) (recv (received 0 g)) (greetings gs ++ es)
      refl (conn-greeted link t gs es h)

concat-pieces_of : (ps : List Piece) → concat (pieces_of ps) ≡ bytes_of ps
concat-pieces_of [] = refl
concat-pieces_of ((b, bs) ∷ ps) = ap (λ t. (b ∷ bs) ++ t) (concat-pieces_of ps)

conn-login :
    (link : ThxtLinkInfo) (t : HxTcp) (gs : List (List ℕ)) (login : List ℕ) (data_ : List Piece)
    → hxtcp_conn link
        (record t { phase = in_relay false })
        (greetings gs ++ (recv (received 1 login) ∷ arrivals data_))
      ≡ some (record t { phase = in_relay true }, greeted gs ++ (hands_on login ∷ delivered data_))
unfolding on_phase on_relay
conn-login link t gs login data_ =
    conn-greeted link t gs (recv (received 1 login) ∷ arrivals data_) (
      conn-event link (record t { phase = in_relay false }) (recv (received 1 login))
        (arrivals data_) refl (conn-logged_in link t data_))

conn-attempt_relay :
    {u : HxTcp} {out : List Action}
    → (link : ThxtLinkInfo) (all : List ℕ) (es : List Event)
    → get_or all 4 0 + 256 * get_or all 5 0 ≢ 0
    → hxtcp_conn link (record (told all) { phase = in_relay false }) es ≡ some (u, out)
    → hxtcp_conn link (told all) (attempt connected ∷ es) ≡ some (u, out)
unfolding on_phase dotted
conn-attempt_relay link all es h later =
    let ok = connects (dotted all) _ (decimal_from-first _ (get_or all 0 0) _) h in
    conn-event {did = []} link (told all) (attempt connected) es (rw ok refl) later

conn-attempt_dispatch :
    {u : HxTcp} {out : List Action}
    → (link : ThxtLinkInfo) (t : HxTcp) (es : List Event) → get_or link.host 0 0 ≢ 0
    → link.port ≢ 0
    → hxtcp_conn link (record t { phase = in_dispatch fresh_cache 0 }) es ≡ some (u, out)
    → hxtcp_conn link (record t { phase = before_dispatch }) (attempt connected ∷ es)
      ≡ some (u, out)
unfolding on_phase
conn-attempt_dispatch link t es h k later =
    let ok = connects link.host link.port h k in
    conn-event {did = []} link (record t { phase = before_dispatch }) (attempt connected) es
      (rw ok refl) later

-- From the pause before a round, with a dispatch server configured: when it answers with 6 to 32
-- bytes, of which the sixth comes in the last piece and the port is not 0, when both connections
-- succeed, and when the relay greets any number of times, accepts the login, and then sends frames of
-- payloads of at most 254 bytes, cut anywhere into pieces of at most 1140 bytes, the thread ends
-- logged in, and what it hands on, given to the callback with an empty cache, gives the user exactly
-- these payloads, in order, and leaves the cache empty.
pub hxtcp_conn-delivers :
    (link : ThxtLinkInfo) (t : HxTcp) (front : List Piece) (b : ℕ) (bs : List ℕ)
    (gs : List (List ℕ)) (login : List ℕ) (rest : List Piece) (ps : List (List ℕ)) (s : Stream)
    → get_or link.host 0 0 ≢ 0
    → link.port ≢ 0
    → length (bytes_of front) < 6
    → 6 ≤ length (bytes_of front ++ b ∷ bs)
    → length (bytes_of front ++ b ∷ bs) ≤ 32
    → get_or (bytes_of front ++ b ∷ bs) 4 0 + 256 * get_or (bytes_of front ++ b ∷ bs) 5 0 ≢ 0
    → s.len ≡ 0
    → All (λ p. length p < 255) ps
    → All (λ x. length x ≤ 1140) (login ∷ pieces_of rest)
    → login ++ bytes_of rest ≡ frames ps
    → (did : List Action) × (s' : Stream) × (hxtcp_conn link
          (record t { phase = before_dispatch })
          (attempt connected
            ∷ (arrivals front
                ++ (recv (received b bs)
                    ∷ attempt connected
                    ∷ (greetings gs ++ (recv (received 1 login) ∷ arrivals rest)))))
        ≡ some (record (told (bytes_of front ++ b ∷ bs)) { phase = in_relay true }, did))
      × (feed s (handed_on did) ≡ some (s', ps))
      × (s'.len ≡ 0)
unfolding handed_on
hxtcp_conn-delivers link t front b bs gs login rest ps s host port few enough fits relay empty short
      small e =
    let all = bytes_of front ++ b ∷ bs in
    let run = conn-login link (told all) gs login rest in
    let (s', fed, held) =
      feed-frames ps (login ∷ pieces_of rest) s empty short small
        (ap (λ u. login ++ u) (concat-pieces_of rest) ∙ e) in
    let gave : handed_on (greeted gs ++ (hands_on login ∷ delivered rest))
        ≡ login ∷ pieces_of rest =
      handed_on-greeted gs (hands_on login ∷ delivered rest)
      ∙ ap (λ u. login ∷ u) (handed_on-delivered rest) in
    (
      greeted gs ++ (hands_on login ∷ delivered rest),
      s',
      conn-attempt_dispatch link t _ host port (
          conn-dispatching link t front b bs [] fresh_cache _ few enough fits
            (conn-attempt_relay link all _ relay run)),
      rw gave fed,
      held,
    )
