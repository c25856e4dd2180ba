-- ===== src/HxTcp/Session.antt =====
-- The login at the relay, and that nothing is handed on before it.
use esp32base.Base.{
  none, ◌⊎◌, subst, ℕ, ◌≡◌, refl, ap, false, Option, some, List, [], ◌∷◌, ◌++◌, arith, inl, inr,
}
use esp32base.HxTcp.{
  started, ThxtLinkInfo, create_tcp_client, received, closed, failed, HxTcp, Phase, before_dispatch,
  in_dispatch, before_relay, in_relay, on_dispatch, Action, sends, hands_on, on_relay, Event,
  attempt, recv, on_phase, Attempt, Recv,
}

-- what went to `g_dtrs_sys_recv`
unfoldable pub handed_on : List Action → List (List ℕ)
handed_on [] = []
handed_on (sends x ∷ rest) = handed_on rest
handed_on (hands_on x ∷ rest) = x ∷ handed_on rest

pub handed_on-append : (xs ys : List Action) → handed_on (xs ++ ys) ≡ handed_on xs ++ handed_on ys
unfolding handed_on
handed_on-append [] ys = refl
handed_on-append (sends x ∷ xs) ys = handed_on-append xs ys
handed_on-append (hands_on x ∷ xs) ys = ap (λ t. x ∷ t) (handed_on-append xs ys)

-- the relay's first byte in a piece says that the login succeeded
abbrev pub LogsIn : Event → Type 0
LogsIn (attempt a) = ⊥
LogsIn (recv closed) = ⊥
LogsIn (recv failed) = ⊥
LogsIn (recv (received b bs)) = b ≡ 1

abbrev pub Some : (Event → Type 0) → List Event → Type 0
Some P [] = ⊥
Some P (e ∷ es) = P e ⊎ Some P es

-- not in a connection to the relay in which the login succeeded
abbrev pub LoggedOut : Phase → Type 0
LoggedOut before_dispatch = Unit
LoggedOut (in_dispatch c n) = Unit
LoggedOut before_relay = Unit
LoggedOut (in_relay login) = login ≡ false

-- The thread gets from one state to another in these events, and does this on the way.
pub data Reaches (link : ThxtLinkInfo) (s : HxTcp) : HxTcp → List Action → List Event → Type 0 where
  here : Reaches link s s [] []
  next :
      {t u : HxTcp} {done now : List Action} {past : List Event}
      → (e : Event) → Reaches link s t done past
      → on_phase link t t.phase e ≡ some (u, now)
      → Reaches link s u (done ++ now) (past ++ e ∷ [])

Some-append : (P : Event → Type 0) (xs ys : List Event) → Some P xs → Some P (xs ++ ys)
Some-append P [] ys h = absurd h
Some-append P (x ∷ xs) ys (inl p) = inl p
Some-append P (x ∷ xs) ys (inr h) = inr (Some-append P xs ys h)

Some-last : (P : Event → Type 0) (xs : List Event) (e : Event) → P e → Some P (xs ++ e ∷ [])
Some-last P [] e p = inl p
Some-last P (x ∷ xs) e p = inr (Some-last P xs e p)

abbrev Quiet : HxTcp → List Action → Type 0
Quiet u now = (handed_on now ≡ []) × LoggedOut u.phase

abbrev QuietAfter : Option (HxTcp × List Action) → Type 0
QuietAfter none = Unit
QuietAfter (some (u, now)) = Quiet u now

event-quiet :
    (link : ThxtLinkInfo) (t : HxTcp) (p : Phase) (e : Event)
    → LoggedOut p
    → LogsIn e ⊎ QuietAfter (on_phase link t p e)
unfolding on_phase handed_on create_tcp_client on_dispatch on_relay
event-quiet link t before_dispatch (attempt a) q = ground arith
event-quiet link t before_dispatch (recv r) q = inr tt
event-quiet link t (in_dispatch c n) (attempt a) q = inr tt
event-quiet link t (in_dispatch c n) (recv closed) q = inr (refl, tt)
event-quiet link t (in_dispatch c n) (recv failed) q = inr (refl, tt)
event-quiet link t (in_dispatch c n) (recv (received b bs)) q = ground arith
event-quiet link t before_relay (attempt a) q = ground arith
event-quiet link t before_relay (recv r) q = inr tt
event-quiet link t (in_relay login) (attempt a) q = inr tt
event-quiet link t (in_relay login) (recv closed) q = inr (refl, tt)
event-quiet link t (in_relay login) (recv failed) q = inr (refl, tt)
event-quiet link t (in_relay login) (recv (received b bs)) q = rw q (ground arith)

-- the events of the connection that these events end in: those behind the last attempt
unfoldable pub connection_from : List Event → List Event → List Event
connection_from now [] = now
connection_from now (attempt a ∷ es) = connection_from [] es
connection_from now (recv r ∷ es) = connection_from (now ++ recv r ∷ []) es

abbrev pub connection : List Event → List Event
connection events = connection_from [] events

connection-recv :
    (now es : List Event) (r : Recv)
    → connection_from now (es ++ recv r ∷ []) ≡ connection_from now es ++ recv r ∷ []
unfolding connection_from
connection-recv now [] r = refl
connection-recv now (attempt a ∷ es) r = connection-recv [] es r
connection-recv now (recv q ∷ es) r = connection-recv (now ++ recv q ∷ []) es r

attempt-quiet :
    (link : ThxtLinkInfo) (t : HxTcp) (p : Phase) (a : Attempt)
    → QuietAfter (on_phase link t p (attempt a))
unfolding on_phase handed_on create_tcp_client
attempt-quiet link t before_dispatch a = ground arith
attempt-quiet link t (in_dispatch c n) a = tt
attempt-quiet link t before_relay a = ground arith
attempt-quiet link t (in_relay login) a = tt

-- logged out, or logged in within the connection
abbrev LoginKnown : HxTcp → List Event → Type 0
LoginKnown t past = LoggedOut t.phase ⊎ Some LogsIn (connection past)

event-known :
    (link : ThxtLinkInfo) (t u : HxTcp) (now : List Action) (e : Event) (past : List Event)
    → LoginKnown t past
    → on_phase link t t.phase e ≡ some (u, now)
    → LoginKnown u (past ++ e ∷ [])
      × ((handed_on now ≡ []) ⊎ Some LogsIn (connection (past ++ e ∷ [])))
event-known link t u now (attempt a) past known h =
    let (quiet, out) = subst QuietAfter h (attempt-quiet link t t.phase a) in (inl out, inl quiet)
event-known link t u now (recv r) past known h =
    let here = connection-recv [] past r in
    elim known [
      | inr before ↦
          let still = Some-append LogsIn (connection past) (recv r ∷ []) before in
          rw here (inr still, inr still)
      | inl out ↦ elim (event-quiet link t t.phase (recv r) out) [
        | inl login ↦
            let now_in = Some-last LogsIn (connection past) (recv r) login in
            rw here (inr now_in, inr now_in)
        | inr silent ↦
            let (quiet, still_out) = subst QuietAfter h silent in (inl still_out, inl quiet)
      ]
    ]

reached-known :
    (link : ThxtLinkInfo) {t : HxTcp} {did : List Action} {past : List Event}
    → Reaches link started t did past
    → LoginKnown t past
reached-known link here = inl tt
reached-known link (next {t = t} {u = u} {now = now} {past = past} e r h) =
    (event-known link t u now e past (reached-known link r) h).0

-- Whatever the network does, short of a host that is not found and of more than 32 bytes from the
-- dispatch server, which are faults: when the thread, on any way from its start, hands something on at
-- an event, then a piece that begins with 1 is among those received in the connection of that event, up
-- to it. Neither what the dispatch server sent nor an earlier login counts. And a thread that
-- counts as logged in has received such a piece in its connection too.
pub started-Reaches :
    (link : ThxtLinkInfo) {t u : HxTcp} {did now : List Action} {past : List Event} (e : Event)
    → Reaches link started t did past
    → on_phase link t t.phase e ≡ some (u, now)
    → ((handed_on now ≡ []) ⊎ Some LogsIn (connection (past ++ e ∷ [])))
      × (LoggedOut u.phase ⊎ Some LogsIn (connection (past ++ e ∷ [])))
started-Reaches link {t = t} {u = u} {now = now} {past = past} e r h =
    let (known, quiet) = event-known link t u now e past (reached-known link r) h in (quiet, known)
