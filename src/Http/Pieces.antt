-- ===== src/Http/Pieces.antt =====
-- A request that arrives in pieces.
use esp32base.Base.{
  ℕ, ◌+◌, ◌≤◌, ◌<◌, ◌≡◌, refl, sym, ap, ap₂, ◌∙◌, Bool-cases, inl, inr, true, Option, none, some,
  List, ◌++◌, ltb, starts_with, codes, arith, length, length-append,
}
use esp32base.Stream.{blit}
use esp32base.Stream.Blit.{blit-blit}
use esp32base.Stream.Total.{length-blit}
use esp32base.Http.{getbegnstr, rnrnstr, HttpServ, cache_buf_size, url_of, keep_on, serv_reslov_url}

-- what the server holds after a piece that is not yet a request
waiting :
    (serv : HttpServ) (piece dst : List ℕ)
    → serv.cache_len + length piece < cache_buf_size
    → (url_of
        (getbegnstr (blit serv.cache_buf serv.cache_len piece))
        (rnrnstr (blit serv.cache_buf serv.cache_len piece))
        dst).0
      ≡ 3
    → (serv_reslov_url serv piece dst).1.1 ≡ record {
      cache_buf = blit serv.cache_buf serv.cache_len piece;
      cache_len = serv.cache_len + length piece;
    }
unfolding serv_reslov_url
waiting serv piece dst small three =
    let fits : ltb (serv.cache_len + length piece) cache_buf_size ≡ true = ground arith in
    rw (fits, three) refl

small_enough :
    (serv : HttpServ) (piece dst : List ℕ)
    → (serv_reslov_url serv piece dst).0 ≡ 3
    → serv.cache_len + length piece < cache_buf_size
unfolding serv_reslov_url
small_enough serv piece dst three =
    elim (Bool-cases (ltb (serv.cache_len + length piece) cache_buf_size)) [
      | inl fits ↦ ground arith
      | inr late ↦ absurd (omega (arith, rw late at three))
    ]

three_of :
    (serv : HttpServ) (piece dst : List ℕ)
    → (serv_reslov_url serv piece dst).0 ≡ 3
    → (url_of
        (getbegnstr (blit serv.cache_buf serv.cache_len piece))
        (rnrnstr (blit serv.cache_buf serv.cache_len piece))
        dst).0
      ≡ 3
unfolding serv_reslov_url
three_of serv piece dst three =
    let fits : ltb (serv.cache_len + length piece) cache_buf_size ≡ true =
      ground (arith, small_enough serv piece dst three) in
    rw fits at three

-- what is answered where the bytes fit
abbrev outcome : List ℕ → ℕ → List ℕ → ℕ × (List ℕ × HttpServ)
outcome cache tmp dst =
    let (result, url) = url_of (getbegnstr cache) (rnrnstr cache) dst in
    (result, (url, record { cache_buf = cache; cache_len = keep_on result tmp }))

reslov_fits :
    (serv : HttpServ) (piece dst : List ℕ)
    → serv.cache_len + length piece < cache_buf_size
    → serv_reslov_url serv piece dst
      ≡ outcome (blit serv.cache_buf serv.cache_len piece) (serv.cache_len + length piece) dst
unfolding serv_reslov_url
reslov_fits serv piece dst small =
    let fits : ltb (serv.cache_len + length piece) cache_buf_size ≡ true = ground arith in
    rw fits refl

-- Where a piece is answered by 3, for a request that is not complete, the next piece has the same
-- outcome, with the same result, URL and server, as the two pieces in one.
pub serv_reslov_url-pieces :
    (serv : HttpServ) (a b dst : List ℕ)
    → serv.cache_len ≤ length serv.cache_buf
    → serv.cache_len + length (a ++ b) < cache_buf_size
    → (serv_reslov_url serv a dst).0 ≡ 3
    → serv_reslov_url (serv_reslov_url serv a dst).1.1 b dst ≡ serv_reslov_url serv (a ++ b) dst
serv_reslov_url-pieces serv a b dst h small three =
    let n = serv.cache_len in
    let size = length-append a b in
    let total : n + length a + length b ≡ n + length (a ++ b) = omega arith in
    let held = waiting serv a dst (omega arith) (three_of serv a dst three) in
    ap (λ s. serv_reslov_url s b dst) held
    ∙ reslov_fits (record { cache_buf = blit serv.cache_buf n a; cache_len = n + length a }) b dst
        (omega arith)
    ∙ ap₂ (λ c t. outcome c t dst) (blit-blit serv.cache_buf a b n h) total
    ∙ sym (reslov_fits serv (a ++ b) dst small)

-- result 3 leaves the URL
three_leaves :
    (begin end_ : Option (List ℕ)) (dst : List ℕ)
    → (url_of begin end_ dst).0 ≡ 3
    → (url_of begin end_ dst).1 ≡ dst
unfolding url_of
three_leaves none end_ dst three = refl
three_leaves (some head) none dst three = refl
three_leaves (some head) (some text) dst three =
    elim (Bool-cases (starts_with (codes "GET") head)) [
      | inl get ↦ absurd (omega (arith, rw get at three))
      | inr not_get ↦ elim (Bool-cases (starts_with (codes "POST") head)) [
        | inl post ↦ absurd (omega (arith, rw (not_get, post) at three))
        | inr neither ↦ absurd (omega (arith, rw (not_get, neither) at three))
      ]
    ]

-- A server that answers 3 has the URL as it was, and the piece in a cache of the same size.
pub serv_reslov_url-waits :
    (serv : HttpServ) (a dst : List ℕ)
    → serv.cache_len ≤ length serv.cache_buf
    → length serv.cache_buf ≡ cache_buf_size
    → (serv_reslov_url serv a dst).0 ≡ 3
    → ((serv_reslov_url serv a dst).1.0 ≡ dst)
      × (length (serv_reslov_url serv a dst).1.1.cache_buf ≡ cache_buf_size)
      × ((serv_reslov_url serv a dst).1.1.cache_len ≡ serv.cache_len + length a)
serv_reslov_url-waits serv a dst h size three =
    let small = small_enough serv a dst three in
    let held = waiting serv a dst small (three_of serv a dst three) in
    (
      ap (λ r. r.1.0) (reslov_fits serv a dst small)
          ∙ three_leaves _ _ dst (three_of serv a dst three),
      ap (λ s. length s.cache_buf) held
          ∙ (length-blit serv.cache_buf a serv.cache_len (omega arith) ∙ size),
      ap (λ s. s.cache_len) held,
    )
