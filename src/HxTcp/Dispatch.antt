-- ===== src/HxTcp/Dispatch.antt =====
-- The address of the relay, from the pieces in which the dispatch server's answer arrives.
use esp32base.Base.{
  Piece, bytes_of, ℕ, ◌+◌, ◌*◌, ◌≤◌, ◌<◌, ◌≡◌, refl, ap, sym, true, false, ltb, some, List, [], ◌∷◌,
  ◌++◌, append_assoc, append-nil, arith, leb, length, length-append, get_or, drop, get_or-append_lt,
  take-append_length,
}
use esp32base.Stream.{blit}
use esp32base.HxTcp.{
  Action, ThxtLinkInfo, received, HxTcp, in_dispatch, before_relay, fresh_cache, dotted,
  on_dispatch, dispatched, Event, recv, on_phase, hxtcp_conn,
}

-- the events in which these pieces are received
abbrev pub arrivals : List Piece → List Event
arrivals [] = []
arrivals ((b, bs) ∷ ps) = recv (received b bs) ∷ arrivals ps

dotted-front : (xs ys : List ℕ) → 4 ≤ length xs → dotted (xs ++ ys) ≡ dotted xs
unfolding dotted
dotted-front xs ys h =
    rw
      (
        get_or-append_lt xs ys 0 0 (omega arith),
        get_or-append_lt xs ys 1 0 (omega arith),
        get_or-append_lt xs ys 2 0 (omega arith),
        get_or-append_lt xs ys 3 0 (omega arith),
      )
      refl

-- the thread when it has read these bytes as the relay's address
abbrev pub told : List ℕ → HxTcp
told all = record {
  trans_serv_ip = dotted all;
  trans_serv_port = get_or all 4 0 + 256 * get_or all 5 0;
  phase = before_relay;
}

blit-behind :
    (part junk src : List ℕ)
    → blit (part ++ junk) (length part) src
      ≡ (part ++ src) ++ drop (length part + length src) (part ++ junk)
blit-behind part junk src =
    rw (take-append_length part junk)
      (sym (append_assoc part src (drop (length part + length src) (part ++ junk))))

on_dispatch-last :
    (t : HxTcp) (part junk : List ℕ) (b : ℕ) (bs : List ℕ)
    → 6 ≤ length (part ++ b ∷ bs)
    → length (part ++ b ∷ bs) ≤ 32
    → on_dispatch t (part ++ junk) (length part) (received b bs) ≡ some (told (part ++ b ∷ bs))
unfolding on_dispatch
on_dispatch-last t part junk b bs h fits =
    let enough : leb 6 (length part + length (b ∷ bs)) ≡ true =
      ground (arith, length-append part (b ∷ bs)) in
    let inside : ltb 32 (length part + length (b ∷ bs)) ≡ false =
      ground (arith, length-append part (b ∷ bs)) in
    let all = part ++ b ∷ bs in
    let others = drop (length part + length (b ∷ bs)) (part ++ junk) in
    rw
      (
        inside,
        enough,
        blit-behind part junk (b ∷ bs),
        dotted-front all others (omega arith),
        get_or-append_lt all others 4 0 (omega arith),
        get_or-append_lt all others 5 0 (omega arith),
      )
      refl

on_dispatch-more :
    (t : HxTcp) (part junk : List ℕ) (b : ℕ) (bs : List ℕ)
    → length (part ++ b ∷ bs) < 6
    → on_dispatch t (part ++ junk) (length part) (received b bs)
      ≡ some (record t {
        phase =
            in_dispatch
              ((part ++ b ∷ bs) ++ drop (length (part ++ b ∷ bs)) (part ++ junk))
              (length (part ++ b ∷ bs));
      })
unfolding on_dispatch
on_dispatch-more t part junk b bs h =
    let few : leb 6 (length part + length (b ∷ bs)) ≡ false =
      ground (arith, length-append part (b ∷ bs)) in
    let inside : ltb 32 (length part + length (b ∷ bs)) ≡ false =
      ground (arith, length-append part (b ∷ bs)) in
    rw (inside, few, blit-behind part junk (b ∷ bs), length-append part (b ∷ bs)) refl

pub conn-event :
    {t1 t2 : HxTcp} {did more : List Action}
    → (link : ThxtLinkInfo) (t : HxTcp) (e : Event) (es : List Event)
    → on_phase link t t.phase e ≡ some (t1, did)
    → hxtcp_conn link t1 es ≡ some (t2, more)
    → hxtcp_conn link t (e ∷ es) ≡ some (t2, did ++ more)
unfolding hxtcp_conn
conn-event link t e es now then_ = rw (now, then_) refl

pub conn-dispatching :
    {u : HxTcp} {out : List Action}
    → (link : ThxtLinkInfo) (t : HxTcp) (front : List Piece) (b : ℕ) (bs part junk : List ℕ)
      (es : List Event)
    → length (part ++ bytes_of front) < 6
    → 6 ≤ length ((part ++ bytes_of front) ++ b ∷ bs)
    → length ((part ++ bytes_of front) ++ b ∷ bs) ≤ 32
    → hxtcp_conn link (told ((part ++ bytes_of front) ++ b ∷ bs)) es ≡ some (u, out)
    → hxtcp_conn link
        (record t { phase = in_dispatch (part ++ junk) (length part) })
        (arrivals front ++ (recv (received b bs) ∷ es))
      ≡ some (u, out)
unfolding on_phase
conn-dispatching link t [] b bs part junk es few enough fits later =
    let t0 = record t { phase = in_dispatch (part ++ junk) (length part) } in
    conn-event link t0 (recv (received b bs)) es
      (ap dispatched (
        on_dispatch-last t0 part junk b bs (rw⁻¹ (append-nil part) enough)
          (rw⁻¹ (append-nil part) fits)))
      (rw⁻¹ (append-nil part) later)
conn-dispatching link t ((a, xs) ∷ front) b bs part junk es few enough fits later =
    let t0 = record t { phase = in_dispatch (part ++ junk) (length part) } in
    let flat : (part ++ a ∷ xs) ++ bytes_of front ≡ part ++ bytes_of ((a, xs) ∷ front) =
      append_assoc part (a ∷ xs) (bytes_of front) in
    conn-event link t0 (recv (received a xs)) (arrivals front ++ (recv (received b bs) ∷ es))
      (ap dispatched (
        on_dispatch-more t0 part junk a xs
          (omega (arith, ap length flat, length-append (part ++ a ∷ xs) (bytes_of front)))))
      (conn-dispatching link t front b bs (part ++ a ∷ xs) _ es (rw flat few) (rw flat enough)
        (rw flat fits) (rw flat later))

-- The dispatch server's answer of 6 to 32 bytes, cut anywhere so that the sixth byte comes with the
-- last piece: the thread then goes on to the relay, whose address is the answer's first four bytes
-- with dots between them and whose port is the next two, low byte first.
pub hxtcp_conn-told :
    (link : ThxtLinkInfo) (t : HxTcp) (front : List Piece) (b : ℕ) (bs : List ℕ)
    → length (bytes_of front) < 6
    → 6 ≤ length (bytes_of front ++ b ∷ bs)
    → length (bytes_of front ++ b ∷ bs) ≤ 32
    → hxtcp_conn link
        (record t { phase = in_dispatch fresh_cache 0 })
        (arrivals front ++ (recv (received b bs) ∷ []))
      ≡ some (told (bytes_of front ++ b ∷ bs), [])
unfolding hxtcp_conn
hxtcp_conn-told link t front b bs few enough fits =
    conn-dispatching link t front b bs [] fresh_cache [] few enough fits refl
