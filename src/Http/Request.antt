-- ===== src/Http/Request.antt =====
-- A whole request is resolved to its URL.
use esp32base.Base.{
  ℕ, ◌+◌, ◌<◌, ◌≡◌, refl, sym, ap, ap₂, ◌∙◌, Bool-cases, inl, inr, true, false, some, List, [], ◌∷◌,
  ◌++◌, append_assoc, ◌==◌, ltb, arith, length, drop, All, starts_with, codes, until_nul,
  AllNonzero, AllNonzero-append, until_nul-append,
}
use esp32base.Text.{match_string, ends_value}
use esp32base.Text.Match.{match_string-value}
use esp32base.Http.{
  is_get, getbegnstr, rnrn, rnrnstr, HttpServ, cache_buf_size, url_of, serv_reslov_url,
}

-- the blank line is found behind any text without a NUL
rnrnstr-found :
    (text behind : List ℕ)
    → AllNonzero text
    → (p : List ℕ) × (rnrnstr (text ++ (rnrn ++ behind)) ≡ some p)
unfolding rnrnstr starts_with
rnrnstr-found [] behind h = (_, refl)
rnrnstr-found (c ∷ text) behind h =
    let (p, found) = rnrnstr-found text behind h.1 in
    let some_char : (c == 0) ≡ false = ground (arith, h.0) in
    elim (Bool-cases (starts_with rnrn (c ∷ (text ++ (rnrn ++ behind))))) [
      | inl here ↦ (c ∷ (text ++ (rnrn ++ behind)), rw (some_char, here) refl)
      | inr later ↦ (p, rw (some_char, later) found)
    ]

-- a request line and its headers, up to and with the blank line
abbrev pub request : List ℕ → List ℕ → List ℕ → List ℕ
request verb url headers = verb ++ (url ++ 0x20 ∷ (headers ++ rnrn))

text_of :
    (verb url headers behind : List ℕ)
    → request verb url headers ++ behind ≡ (verb ++ (url ++ 0x20 ∷ headers)) ++ (rnrn ++ behind)
text_of verb url headers behind =
    append_assoc verb (url ++ 0x20 ∷ (headers ++ rnrn)) behind
    ∙ ap (λ t. verb ++ t)
        (append_assoc url (0x20 ∷ (headers ++ rnrn)) behind
          ∙ ap (λ t. url ++ 0x20 ∷ t) (append_assoc headers rnrn behind)
          ∙ sym (append_assoc url (0x20 ∷ headers) (rnrn ++ behind)))
    ∙ sym (append_assoc verb (url ++ 0x20 ∷ headers) (rnrn ++ behind))

module _ (url headers behind : List ℕ) (hu : AllNonzero url) (hh : AllNonzero headers) where
  line-Nonzero : (verb : List ℕ) → AllNonzero verb → AllNonzero (verb ++ (url ++ 0x20 ∷ headers))
  line-Nonzero verb hv =
      AllNonzero-append verb (url ++ 0x20 ∷ headers) hv
        (AllNonzero-append url (0x20 ∷ headers) hu (omega arith, hh))

  string_of :
      (verb : List ℕ)
      → AllNonzero verb
      → until_nul (request verb url headers ++ 0 ∷ behind) ≡ request verb url headers
  string_of verb hv = until_nul-append (request verb url headers) behind (
      AllNonzero-append verb _ hv (
        AllNonzero-append url _ hu (
          omega arith,
          AllNonzero-append headers rnrn hh
              (omega arith, (omega arith, (omega arith, (omega arith, tt)))),
        )))

  blank_line :
      (verb : List ℕ)
      → AllNonzero verb
      → (p : List ℕ) × (rnrnstr (request verb url headers ++ 0 ∷ behind) ≡ some p)
  blank_line verb hv =
      let (p, e) =
        rnrnstr-found (verb ++ (url ++ 0x20 ∷ headers)) (0 ∷ behind) (line-Nonzero verb hv) in
      (p, ap rnrnstr (text_of verb url headers (0 ∷ behind)) ∙ e)

  url_of-get :
      (p dst : List ℕ)
      → All (λ c. ends_value 0x20 c ≡ false) url
      → url_of (some (request (codes "GET ") url headers ++ 0 ∷ behind)) (some p) dst ≡ (0, url)
  unfolding url_of starts_with
  url_of-get p dst h =
      ap (λ t. (0, match_string t (codes "GET ") 0x20))
        (string_of (codes "GET ") (omega arith, (omega arith, (omega arith, (omega arith, tt)))))
      ∙ ap (λ t. (0, t))
          (match_string-value (codes "GET ") [] url (headers ++ rnrn) 0x20 0x20 (omega arith) tt h
            refl)

  url_of-lower :
      (p dst : List ℕ)
      → url_of (some (request (codes "get ") url headers ++ 0 ∷ behind)) (some p) dst ≡ (0, dst)
  unfolding url_of starts_with
  url_of-lower p dst = refl

  begin_get :
      getbegnstr (request (codes "GET ") url headers ++ 0 ∷ behind)
      ≡ some (request (codes "GET ") url headers ++ 0 ∷ behind)
  unfolding getbegnstr is_get
  begin_get = refl

  begin_lower :
      getbegnstr (request (codes "get ") url headers ++ 0 ∷ behind)
      ≡ some (request (codes "get ") url headers ++ 0 ∷ behind)
  unfolding getbegnstr is_get
  begin_lower = refl

reslov_as :
    (serv : HttpServ) (recvbuf dst cache url : List ℕ)
    → length recvbuf < cache_buf_size
    → serv.cache_len ≡ 0
    → recvbuf ++ drop (length recvbuf) serv.cache_buf ≡ cache
    → url_of (getbegnstr cache) (rnrnstr cache) dst ≡ (0, url)
    → serv_reslov_url serv recvbuf dst ≡ (0, (url, record { cache_buf = cache; cache_len = 0 }))
unfolding serv_reslov_url
reslov_as serv recvbuf dst cache url small empty e found =
    let fits : ltb (0 + length recvbuf) cache_buf_size ≡ true = ground arith in
    let n : 0 + length recvbuf ≡ length recvbuf = omega arith in rw (empty, fits, n, e, found) refl

-- A GET request that comes whole, shorter than the cache, into an empty cache with a NUL behind it: the
-- result is 0, the URL is the text between "GET " and the next blank, and the cache is empty again.
pub serv_reslov_url-get :
    (serv : HttpServ) (url headers behind dst : List ℕ)
    → serv.cache_len ≡ 0
    → length (request (codes "GET ") url headers) < cache_buf_size
    → drop (length (request (codes "GET ") url headers)) serv.cache_buf ≡ 0 ∷ behind
    → AllNonzero url
    → AllNonzero headers
    → All (λ c. ends_value 0x20 c ≡ false) url
    → serv_reslov_url serv (request (codes "GET ") url headers) dst ≡ (
      0,
      (url, record { cache_buf = request (codes "GET ") url headers ++ 0 ∷ behind; cache_len = 0 }),
    )
serv_reslov_url-get serv url headers behind dst empty small nul hu hh h =
    let verb = codes "GET " in
    let (p, blank) =
      blank_line url headers behind hu hh verb
        (omega arith, (omega arith, (omega arith, (omega arith, tt)))) in
    reslov_as serv (request verb url headers) dst _ url small empty
      (ap (λ t. request verb url headers ++ t) nul)
      (ap₂ (λ a b. url_of a b dst) (begin_get url headers behind hu hh) blank
        ∙ url_of-get url headers behind hu hh p dst h)

-- The same request with a lower-case "get ": the result is 0 too, but the buffer for the URL is left as
-- it was.
pub serv_reslov_url-lower :
    (serv : HttpServ) (url headers behind dst : List ℕ)
    → serv.cache_len ≡ 0
    → length (request (codes "get ") url headers) < cache_buf_size
    → drop (length (request (codes "get ") url headers)) serv.cache_buf ≡ 0 ∷ behind
    → AllNonzero url
    → AllNonzero headers
    → serv_reslov_url serv (request (codes "get ") url headers) dst ≡ (
      0,
      (dst, record { cache_buf = request (codes "get ") url headers ++ 0 ∷ behind; cache_len = 0 }),
    )
serv_reslov_url-lower serv url headers behind dst empty small nul hu hh =
    let verb = codes "get " in
    let (p, blank) =
      blank_line url headers behind hu hh verb
        (omega arith, (omega arith, (omega arith, (omega arith, tt)))) in
    reslov_as serv (request verb url headers) dst _ dst small empty
      (ap (λ t. request verb url headers ++ t) nul)
      (ap₂ (λ a b. url_of a b dst) (begin_lower url headers behind hu hh) blank
        ∙ url_of-lower url headers behind hu hh p dst)
