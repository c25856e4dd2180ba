-- ===== src/ParserClient/Resources.antt =====
-- The sockets and addresses of the client over `http_parser`: what is given back, and how often.
use esp32base.Base.{
  ℕ, suc, ◌+◌, ◌-◌, ◌≤◌, ◌<◌, ◌≡◌, refl, ap, Bool, true, false, Option, none, some, List, [], ◌∷◌,
  ◌++◌, ◌==◌, ◌⊎◌, ltb, if◌then◌else◌, arith, Bool-cases, inl, inr,
}
use esp32base.UrlParser.{Url}
use esp32base.ParserClient.{
  Network, SocketAction, connects_once, writes, closes, frees_address, ParserInput, Result, returns,
  fails, waits, connect_loop, read_loop, exchange, on_connect, http_client,
}

-- how many of the actions pass a test
unfoldable pub count : (SocketAction → Bool) → List SocketAction → ℕ
count test [] = 0
count test (a ∷ did) = let rest = count test did in if test a then suc rest else rest

abbrev pub is_connect : SocketAction → Bool
is_connect connects_once = true
is_connect (writes text) = false
is_connect closes = false
is_connect frees_address = false

abbrev pub is_close : SocketAction → Bool
is_close connects_once = false
is_close (writes text) = false
is_close closes = true
is_close frees_address = false

abbrev pub is_free : SocketAction → Bool
is_free connects_once = false
is_free (writes text) = false
is_free closes = false
is_free frees_address = true

count-append :
    (test : SocketAction → Bool) (did more : List SocketAction)
    → count test (did ++ more) ≡ count test did + count test more
unfolding count
count-append test [] more = omega arith
count-append test (a ∷ did) more = ground (arith, count-append test did more)

-- how often a part of a run connects, closes and frees
abbrev pub Counts : List SocketAction → ℕ → ℕ → ℕ → Type 0
Counts did c n m = (count is_connect did ≡ c) × (count is_close did ≡ n) × (count is_free did ≡ m)

Counts-append :
    (did more : List SocketAction) (c n m c' n' m' : ℕ)
    → Counts did c n m
    → Counts more c' n' m'
    → Counts (did ++ more) (c + c') (n + n') (m + m')
Counts-append did more c n m c' n' m' (x, y, z) (x', y', z') = (
  omega (arith, count-append is_connect did more, x, x'),
  omega (arith, count-append is_close did more, y, y'),
  omega (arith, count-append is_free did more, z, z'),
)

-- The loop connects at most as often as it has retries left, and gives nothing back.
connect_loop-Counts :
    (results : List Bool) (retries : ℕ)
    → retries ≤ 5
    → (c : ℕ) × Counts (connect_loop retries results).1 c 0 0 × (c + retries ≤ 6)
unfolding connect_loop count
connect_loop-Counts [] retries h = (0, (refl, refl, refl), omega arith)
connect_loop-Counts (true ∷ results) retries h = (1, (refl, refl, refl), omega arith)
connect_loop-Counts (false ∷ results) retries h = elim (Bool-cases (ltb 5 (retries + 1))) [
  | inl last ↦ rw last (1, (refl, refl, refl), ground arith)
  | inr again ↦
      let (c, (x, y, z), most) = connect_loop-Counts results (retries + 1) (ground arith) in
      rw again (suc c, (ap suc x, y, z), omega arith)
]

-- what is given back in a run that has returned 0: the socket once, and once more where the write failed
abbrev pub closes_due : Result → Network → ℕ
closes_due fails net = 0
closes_due (returns n) net = if net.is_written then 1 else 2
closes_due waits net = 0

-- the address once, and once more where there was no socket
abbrev pub frees_due : Network → ℕ
frees_due net = if net.has_socket then 1 else 2

abbrev pub GivesBack : Result → Network → List SocketAction → Type 0
GivesBack waits net did = Unit
GivesBack fails net did =
    ((count is_close did ≡ 1) ⊎ ((net.is_printed ≡ false) × (count is_close did ≡ 0)))
    × (count is_free did ≡ frees_due net)
GivesBack (returns n) net did =
    (count is_close did ≡ closes_due (returns n) net) × (count is_free did ≡ frees_due net)

abbrev freed_first : Network → List SocketAction
freed_first net = if net.has_socket then [] else frees_address ∷ []

freed_first-Counts : (net : Network) → Counts (freed_first net) 0 0 (frees_due net - 1)
unfolding count
freed_first-Counts net = elim (Bool-cases net.has_socket) [
  | inl socket ↦ rw socket (refl, refl, refl)
  | inr without ↦ rw without (refl, refl, refl)
]

frees_due-positive : (net : Network) → 0 < frees_due net
frees_due-positive net = ground arith

module _ {P : Type 0} (http_parser_execute : P → ParserInput → P × Bool) where
  -- the exchange closes as often as it should, and connects and frees nothing
  exchange-Counts :
      (request : List ℕ) (parser : P) (net : Network)
      → let run = exchange http_parser_execute request parser net in
        (count is_connect run.1 ≡ 0)
        × (count is_free run.1 ≡ 0)
        × ((run.0.0 ≡ waits)
            ⊎ (((run.0.0 ≡ returns 0) × (count is_close run.1 ≡ closes_due (returns 0) net))
                ⊎ ((run.0.0 ≡ fails) × (net.is_printed ≡ false) × (count is_close run.1 ≡ 0))))
  unfolding exchange count
  exchange-Counts request parser net = elim (Bool-cases net.is_printed) [
    | inr unprinted ↦ rw unprinted (refl, refl, inr (inr (refl, refl, refl)))
    | inl printed ↦ elim (Bool-cases (read_loop http_parser_execute parser net.reads).1) [
      | inl over ↦ elim (Bool-cases net.is_written) [
        | inl written ↦ rw (printed, over, written) (refl, refl, inr (inl (refl, refl)))
        | inr lost ↦ rw (printed, over, lost) (refl, refl, inr (inl (refl, refl)))
      ]
      | inr more ↦ elim (Bool-cases net.is_written) [
        | inl written ↦ rw (printed, more, written) (refl, refl, inl refl)
        | inr lost ↦ rw (printed, more, lost) (refl, refl, inl refl)
      ]
    ]
  ]

  -- a run behind the connection, by how that turned out
  connected-GivesBack :
      (request : List ℕ) (parser : P) (net : Network) (o : Option Bool) (did : List SocketAction)
      (c : ℕ)
      → Counts did c 0 0
      → c ≤ 6
      → let run =
          on_connect (λ u. exchange http_parser_execute request parser net) parser (o, did) in
        (count is_connect (freed_first net ++ run.1) ≤ 6)
        × GivesBack run.0.0 net (freed_first net ++ run.1)
  connected-GivesBack request parser net none did c h most =
      let (x, y, z) =
        Counts-append (freed_first net) did 0 0 (frees_due net - 1) c 0 0 (freed_first-Counts net)
          h in
      (omega (arith, x), tt)
  connected-GivesBack request parser net (some false) did c h most =
      let end_ : Counts (closes ∷ frees_address ∷ []) 0 1 1 = unfold count in (refl, refl, refl) in
      let (x, y, z) =
        Counts-append (freed_first net) (did ++ closes ∷ frees_address ∷ []) 0 0 (frees_due net - 1)
          (c + 0) (0 + 1) (0 + 1) (freed_first-Counts net)
          (Counts-append did (closes ∷ frees_address ∷ []) c 0 0 0 1 1 h end_) in
      (omega (arith, x), (inl (omega (arith, y)), omega (arith, z, frees_due-positive net)))
  connected-GivesBack request parser net (some true) did c h most =
      let run = exchange http_parser_execute request parser net in
      let (no_connect, no_free, over) = exchange-Counts request parser net in
      let behind : Counts (frees_address ∷ run.1) 0 (count is_close run.1) 1 =
        unfold count in (no_connect, refl, ap suc no_free) in
      let (x, y, z) =
        Counts-append (freed_first net) (did ++ frees_address ∷ run.1) 0 0 (frees_due net - 1)
          (c + 0) (0 + count is_close run.1) (0 + 1) (freed_first-Counts net)
          (Counts-append did (frees_address ∷ run.1) c 0 0 0 (count is_close run.1) 1 h behind) in
      (
        omega (arith, x),
        elim over [
          | inl still ↦ rw still tt
          | inr (inr (ret, unprinted, none_closed)) ↦ rw ret (
            inr (unprinted, omega (arith, y, none_closed)),
            omega (arith, z, frees_due-positive net),
          )
          | inr (inl (ret, due)) ↦
              rw ret (omega (arith, y, due), omega (arith, z, frees_due-positive net))
        ],
      )

  -- Whatever the network does, once the name has an address a run of `http_client_get` or
  -- `http_client_post` tries to connect at most six times. Where it has returned -1 it has closed its
  -- socket once, or not at all where there was no memory for its request; where it has returned 0, once, and twice where its `write` failed. Having returned, it
  -- has freed the address once, and twice where there was no socket.
  pub http_client-GivesBack :
      (text : Url → List ℕ) (url : Url) (parser : P) (net : Network)
      → net.lookup_error ≡ 0
      → (count is_connect (http_client http_parser_execute text url parser net).1 ≤ 6)
        × GivesBack
            (http_client http_parser_execute text url parser net).0.0
            net
            (http_client http_parser_execute text url parser net).1
  unfolding http_client
  http_client-GivesBack text url parser net found =
      let (c, counts, most) = connect_loop-Counts net.connects 0 (omega arith) in
      let loop = connect_loop 0 net.connects in
      let address : (net.lookup_error == 0) ≡ true = ground arith in
      rw address (connected-GivesBack (text url) parser net loop.0 loop.1 c counts (omega arith))
