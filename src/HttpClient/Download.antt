-- ===== src/HttpClient/Download.antt =====
-- What a download gives to the callback.
use esp32base.Base.{
  ℕ, zero, suc, ◌+◌, ◌-◌, ◌≤◌, ◌<◌, ◌≡◌, refl, ap, ap₂, sym, ◌∙◌, true, false, Option, none, some,
  List, [], ◌∷◌, ◌++◌, ◌&&◌, ltb, leb, append_assoc, append-nil, length, take, arith, Bool-cases,
  inl, inr, length-append, ◌⊎◌, All, Piece, bytes_of, split-longer, replicate, drop-append_length,
}
use esp32base.HttpClient.{
  head_end, content_length, HttpOperat, connected, finish, recvice_fail, connect_fail, post_fail,
  get_data, get_size, SockRecv, received, nothing, Stage, in_head, in_data, ended, positive,
  data_ok, head_searched, head_received, data_done, data_step, data_steps, post_pieces,
}
use esp32base.HttpClient.HeadEnd.{head_end-append, head_end-late, head_end_within}

-- all bytes that the callback is given, in order
unfoldable pub data_of : List HttpOperat → List ℕ
data_of [] = []
data_of (get_data x ∷ out) = x ++ data_of out
data_of (get_size n ∷ out) = data_of out
data_of (connected ∷ out) = data_of out
data_of (finish ∷ out) = data_of out
data_of (recvice_fail ∷ out) = data_of out
data_of (connect_fail ∷ out) = data_of out
data_of (post_fail ∷ out) = data_of out

data_of-append : (xs ys : List HttpOperat) → data_of (xs ++ ys) ≡ data_of xs ++ data_of ys
unfolding data_of
data_of-append [] ys = refl
data_of-append (get_data x ∷ xs) ys =
    ap (λ t. x ++ t) (data_of-append xs ys) ∙ sym (append_assoc x (data_of xs) (data_of ys))
data_of-append (get_size n ∷ xs) ys = data_of-append xs ys
data_of-append (connected ∷ xs) ys = data_of-append xs ys
data_of-append (finish ∷ xs) ys = data_of-append xs ys
data_of-append (recvice_fail ∷ xs) ys = data_of-append xs ys
data_of-append (connect_fail ∷ xs) ys = data_of-append xs ys
data_of-append (post_fail ∷ xs) ys = data_of-append xs ys

-- the socket hands over these pieces
abbrev pub arriving : List Piece → List SockRecv
arriving [] = []
arriving ((b, bs) ∷ ps) = received b bs ∷ arriving ps

-- the length that is read is not positive, or reaches to the end of the body
abbrev pub Covers : ℕ → ℕ → Type 0
Covers total n = (total ≡ 0) ⊎ (n ≤ total)

steps-ended : (rs : List SockRecv) → data_steps ended rs ≡ (ended, [])
unfolding data_steps data_step
steps-ended [] = refl
steps-ended (r ∷ rs) = rw (steps-ended rs) refl

no_bytes : (ps : List Piece) → length (bytes_of ps) ≡ 0 → bytes_of ps ≡ []
no_bytes [] e = refl
no_bytes ((b, bs) ∷ ps) e = absurd (omega arith)

done-early :
    (total len : ℕ) (ps : List Piece)
    → Covers total (len + length (bytes_of ps))
    → (ltb 0 total && leb total len) ≡ true
    → length (bytes_of ps) ≡ 0
done-early total len ps (inl none_given) e = ground arith
done-early total len ps (inr enough) e = ground arith

moved :
    (total len b : ℕ) (bs : List ℕ) (ps : List Piece)
    → Covers total (len + length (bytes_of ((b, bs) ∷ ps)))
    → Covers total (len + length (b ∷ bs) + length (bytes_of ps))
moved total len b bs ps (inl none_given) = inl none_given
moved total len b bs ps (inr enough) = inr (omega (arith, length-append bs (bytes_of ps)))

steps-data :
    (total len : ℕ) (ps : List Piece)
    → Covers total (len + length (bytes_of ps))
    → data_of (data_steps (in_data total len) (arriving ps)).1 ≡ bytes_of ps
unfolding data_steps data_step data_done data_of
steps-data total len [] h = refl
steps-data total len ((b, bs) ∷ ps) h =
    elim (Bool-cases (ltb 0 total && leb total (len + length (b ∷ bs)))) [
      | inl over ↦
          let bytes : length (bytes_of ps) ≡ 0 =
            done-early total (len + length (b ∷ bs)) ps (moved total len b bs ps h) over in
          rw (over, steps-ended (arriving ps)) (ap (λ t. b ∷ (bs ++ t)) (sym (no_bytes ps bytes)))
      | inr on ↦ rw on (
          ap (λ t. b ∷ (bs ++ t))
            (steps-data total (len + length (b ∷ bs)) ps (moved total len b bs ps h)))
    ]

record Response (head body : List ℕ) (total : ℕ) (cache : List ℕ) (ps : List Piece) : Type 0 where
  ends : head_end (head ++ body) 0 ≡ some (length head)
  gives : (w more : List ℕ) → w ++ more ≡ body → content_length (head ++ w) ≡ some total
  covers : Covers (positive total) (length body)
  stream : cache ++ bytes_of ps ≡ head ++ body

found-here :
    (head body cache : List ℕ) (total k : ℕ) (ps : List Piece)
    → Response head body total cache ps
    → head_end cache 0 ≡ some k
    → (w : List ℕ) × (k ≡ length head) × (cache ≡ head ++ w) × (w ++ bytes_of ps ≡ body)
found-here head body cache total k ps r found =
    let whole : head_end (cache ++ bytes_of ps) 0 ≡ some k =
      head_end-append cache (bytes_of ps) 0 k found in
    let same : k ≡ length head = cc (whole, ap (λ t. head_end t 0) r.stream, r.ends) in
    let (w, front, back) =
      split-longer head body cache (bytes_of ps) r.stream
        (omega (arith, head_end_within cache 0 k found)) in
    (w, same, front, back)

abbrev both : Stage × List HttpOperat → List Piece → List ℕ
both (stage, out) ps = data_of (out ++ (data_steps stage (arriving ps)).1)

data_ok-data :
    (w : List ℕ) (total : ℕ) (head : List ℕ) (ps : List Piece)
    → content_length (head ++ w) ≡ some total
    → Covers (positive total) (length w + length (bytes_of ps))
    → both (data_ok (head ++ w) (content_length (head ++ w)) (length head)) ps ≡ w ++ bytes_of ps
unfolding data_ok data_of
data_ok-data [] total head ps e h =
    rw e (rw (drop-append_length head []) (steps-data (positive total) 0 ps h))
data_ok-data (c ∷ w) total head ps e h =
    let some_data : ltb 0 (suc (length w)) ≡ true = ground arith in
    rw e (
      rw (drop-append_length head (c ∷ w), some_data)
        (ap (λ t. c ∷ (w ++ t)) (steps-data (positive total) (suc (length w)) ps h)))

ok-received :
    (head body cache w : List ℕ) (total k : ℕ) (ps : List Piece)
    → Response head body total cache ps
    → k ≡ length head
    → cache ≡ head ++ w
    → w ++ bytes_of ps ≡ body
    → both (data_ok cache (content_length cache) k) ps ≡ body
ok-received head body cache w total k ps r same front back =
    ap₂ (λ c n. both (data_ok c (content_length c) n) ps) front same
    ∙ (data_ok-data w total head ps (r.gives w (bytes_of ps) back) (covered r.covers) ∙ back)
  where
    covered :
        Covers (positive total) (length body)
        → Covers (positive total) (length w + length (bytes_of ps))
    covered (inl none_given) = inl none_given
    covered (inr enough) =
        inr (omega (arith, enough, ap length back, length-append w (bytes_of ps)))

more-received :
    (head body cache : List ℕ) (total b : ℕ) (bs : List ℕ) (ps : List Piece)
    → Response head body total cache ((b, bs) ∷ ps)
    → Response head body total (cache ++ b ∷ bs) ps
more-received head body cache total b bs ps r = record {
  ends = r.ends;
  gives = r.gives;
  covers = r.covers;
  stream = append_assoc cache (b ∷ bs) (bytes_of ps) ∙ r.stream;
}

-- what the search leads to, given how the header goes on
steps-searched :
    (head body cache : List ℕ) (total : ℕ) (found : Option ℕ) (ps : List Piece)
    → Response head body total cache ps
    → head_end cache 0 ≡ found
    → (head_end cache 0 ≡ none → both (in_head cache, []) ps ≡ body)
    → both (head_searched cache found) ps ≡ body
unfolding head_searched
steps-searched head body cache total none ps r e again = again e
steps-searched head body cache total (some k) ps r e again =
    let (w, same, front, back) = found-here head body cache total k ps r e in
    ok-received head body cache w total k ps r same front back

-- in the header: the cache holds the first part of the response, without the header's end
steps-head :
    (head body cache : List ℕ) (total : ℕ) (ps : List Piece)
    → Response head body total cache ps
    → head_end cache 0 ≡ none
    → All (λ p. length head + suc (length p.1) ≤ 2050) ps
    → both (in_head cache, []) ps ≡ body
unfolding data_steps data_step head_received
steps-head head body cache total [] r nothing_yet small =
    let found = ap (λ t. head_end t 0) (sym (append-nil cache) ∙ r.stream) ∙ r.ends in
    absurd (cc (found, nothing_yet))
steps-head head body cache total ((b, bs) ∷ ps) r nothing_yet small =
    let whole = ap (λ t. head_end t 0) r.stream ∙ r.ends in
    let before = head_end-late cache (bytes_of ((b, bs) ∷ ps)) 0 (length head) nothing_yet whole in
    let fits : leb 2050 (length cache + length (b ∷ bs)) ≡ false = ground (arith, small.0) in
    let r' = more-received head body cache total b bs ps r in
    rw fits (
      steps-searched head body (cache ++ b ∷ bs) total (head_end (cache ++ b ∷ bs) 0) ps r' refl
        (λ e. steps-head head body (cache ++ b ∷ bs) total ps r' e small.1))

-- A response whose header ends in a blank line, cut anywhere into pieces that fit the cache behind the
-- header, where header and body, or header and any front of the body, are read as giving the same
-- length, or none, which is 0, and that is not positive or reaches to the end of the body: the callback is
-- given exactly the bytes of the body, in order.
pub data_steps-delivers :
    (head body : List ℕ) (total : ℕ) (ps : List Piece)
    → head_end (head ++ body) 0 ≡ some (length head)
    → ((w more : List ℕ) → w ++ more ≡ body → content_length (head ++ w) ≡ some total)
    → Covers (positive total) (length body)
    → bytes_of ps ≡ head ++ body
    → All (λ p. length head + suc (length p.1) ≤ 2050) ps
    → data_of (data_steps (in_head []) (arriving ps)).1 ≡ body
unfolding head_end
data_steps-delivers head body total ps ends gives covers stream small =
    steps-head head body [] total ps
      (record { ends = ends; gives = gives; covers = covers; stream = stream }) refl small

-- A closed connection, of which `zhSockRecv` returns 0, is never noticed: however often it is asked, the
-- thread stays where it is, in the header as in the data short of the length given, and calls nothing.
pub data_steps-closed :
    (cache : List ℕ) (total len n : ℕ)
    → (ltb 0 total && leb total len) ≡ false
    → (data_steps (in_head cache) (replicate n nothing) ≡ (in_head cache, []))
      × (data_steps (in_data total len) (replicate n nothing) ≡ (in_data total len, []))
unfolding data_steps data_step data_done
data_steps-closed cache total len zero h = (refl, refl)
data_steps-closed cache total len (suc n) h =
    let (one, other) = data_steps-closed cache total len n h in (rw one refl, rw (h, other) refl)

post_pieces-last :
    (body : List ℕ) (results : List (Option ℕ)) (fuel send_pos send_len : ℕ)
    → leb send_len 1024 ≡ true
    → post_pieces (suc fuel) results body send_pos send_len ≡ (take send_len body, true)
unfolding post_pieces
post_pieces-last body [] fuel send_pos send_len e = rw e refl
post_pieces-last body (none ∷ results) fuel send_pos send_len e = rw e refl
post_pieces-last body (some ret ∷ results) fuel send_pos send_len e = rw e refl

-- A body of 1025 to 2048 bytes, of which the first call sends 1024, is sent as these and then its front
-- again, in the length of what is left.
pub post_pieces-repeats :
    (body : List ℕ) (results : List (Option ℕ)) (fuel : ℕ)
    → 1024 < length body
    → length body ≤ 2048
    → post_pieces (suc (suc fuel)) (some 1024 ∷ results) body 0 (length body)
      ≡ (take 1024 body ++ take (length body - 1024) body, true)
unfolding post_pieces
post_pieces-repeats body results fuel h k =
    let longer : leb (length body) 1024 ≡ false = ground arith in
    rw (longer, post_pieces-last body results fuel 1024 (length body - 1024) (ground arith)) refl
