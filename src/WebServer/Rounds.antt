-- ===== src/WebServer/Rounds.antt =====
-- A request that the receive task reads in rounds of at most 128 bytes.
use esp32base.Base.{
  ℕ, ◌+◌, ◌≤◌, ◌<◌, ◌≡◌, refl, sym, ap, ap₂, ◌∙◌, List, [], ◌∷◌, ◌++◌, ◌==◌, arith, length,
  length-append, take, All, false, concat, zero, suc, append_assoc, append-nil,
}
use esp32base.Http.{cache_buf_size, serv_reslov_url}
use esp32base.Http.Pieces.{serv_reslov_url-pieces, serv_reslov_url-waits}
use esp32base.WebServer.{
  WebServer, on_result, recv_size, web_task_answer, web_task_recv, web_task_rounds,
}

-- a piece that a round can return
abbrev pub IsPiece : List ℕ → Type 0
IsPiece piece = (0 < length piece) × (length piece ≤ recv_size)

-- the web server waits for more after each of the pieces
unfoldable pub IsWaiting : WebServer → List (List ℕ) → Type 0
IsWaiting w [] = Unit
IsWaiting w (piece ∷ pieces) =
    ((serv_reslov_url w.serv piece w.url).0 ≡ 3) × IsWaiting (web_task_answer piece w).0 pieces

take-short : (n : ℕ) (xs : List ℕ) → length xs ≤ n → take n xs ≡ xs
take-short zero [] h = refl
take-short zero (x ∷ xs) h = absurd (omega arith)
take-short (suc n) [] h = refl
take-short (suc n) (x ∷ xs) h = ap (λ t. x ∷ t) (take-short n xs (omega arith))

-- what the task holds and does after some bytes, for a connected client
after_bytes :
    (w : WebServer) (bytes : List ℕ)
    → 0 < w.use_client_fd
    → 0 < length bytes
    → web_task_answer bytes w ≡ (
      record w {
        serv = (serv_reslov_url w.serv bytes w.url).1.1;
        url = (serv_reslov_url w.serv bytes w.url).1.0;
      },
      on_result (serv_reslov_url w.serv bytes w.url).0 (record w {
        serv = (serv_reslov_url w.serv bytes w.url).1.1;
        url = (serv_reslov_url w.serv bytes w.url).1.0;
      }),
    )
unfolding web_task_answer
after_bytes w [] fd some_bytes = absurd (omega arith)
after_bytes w (c ∷ bytes) fd some_bytes =
    let connected : (w.use_client_fd == 0) ≡ false = ground arith in rw connected refl

-- the second of two pieces leads to what both in one lead to
joined :
    (w : WebServer) (a b : List ℕ)
    → 0 < w.use_client_fd
    → 0 < length a
    → 0 < length b
    → w.serv.cache_len ≤ length w.serv.cache_buf
    → length w.serv.cache_buf ≡ cache_buf_size
    → w.serv.cache_len + length (a ++ b) < cache_buf_size
    → (serv_reslov_url w.serv a w.url).0 ≡ 3
    → web_task_answer b (web_task_answer a w).0 ≡ web_task_answer (a ++ b) w
joined w a b fd some_a some_b h size small three =
    let (url, _, _) = serv_reslov_url-waits w.serv a w.url h size three in
    let first = ap (λ r. r.0) (after_bytes w a fd some_a) in
    let held = (serv_reslov_url w.serv a w.url).1.1 in
    let w1 : WebServer = record w { serv = held; url = w.url } in
    let to_w1 : (web_task_answer a w).0 ≡ w1 =
      first ∙ ap (λ u. record w { serv = held; url = u }) url in
    let pieces = serv_reslov_url-pieces w.serv a b w.url h small three in
    ap (web_task_answer b) to_w1
    ∙ (after_bytes w1 b fd some_b
        ∙ (ap
              (λ r. (
                record w { serv = r.1.1; url = r.1.0 },
                on_result r.0 (record w { serv = r.1.1; url = r.1.0 }),
              ))
              pieces
            ∙ sym (after_bytes w (a ++ b) fd (omega (arith, length-append a b)))))

-- a piece that is waited for has no effect
silent :
    (w : WebServer) (piece : List ℕ)
    → 0 < w.use_client_fd
    → 0 < length piece
    → (serv_reslov_url w.serv piece w.url).0 ≡ 3
    → (web_task_answer piece w).1 ≡ []
unfolding on_result
silent w piece fd some_bytes three =
    ap (λ r. r.1) (after_bytes w piece fd some_bytes)
    ∙ ap
        (λ n. on_result n (record w {
          serv = (serv_reslov_url w.serv piece w.url).1.1;
          url = (serv_reslov_url w.serv piece w.url).1.0;
        }))
        three

one_round :
    (w : WebServer) (piece : List ℕ)
    → IsPiece piece
    → web_task_recv piece w ≡ web_task_answer piece w
unfolding web_task_recv
one_round w piece h = ap (λ t. web_task_answer t w) (take-short recv_size piece h.1)

-- Pieces that the server waits after, and a last piece, have the effects of their bytes in one.
pub web_task_rounds-pieces :
    (w : WebServer) (pieces : List (List ℕ)) (last : List ℕ)
    → All IsPiece pieces
    → IsPiece last
    → 0 < w.use_client_fd
    → w.serv.cache_len ≤ length w.serv.cache_buf
    → length w.serv.cache_buf ≡ cache_buf_size
    → w.serv.cache_len + length (concat pieces ++ last) < cache_buf_size
    → IsWaiting w pieces
    → (web_task_rounds (pieces ++ last ∷ []) w).1 ≡ (web_task_answer (concat pieces ++ last) w).1
unfolding web_task_rounds IsWaiting
web_task_rounds-pieces w [] last small h fd held size fits waits =
    append-nil _ ∙ ap (λ r. r.1) (one_round w last h)
web_task_rounds-pieces w (piece ∷ pieces) last small h fd held size fits waits =
    let rest = concat pieces ++ last in
    let w1 = (web_task_answer piece w).0 in
    let first = ap (λ r. r.0) (after_bytes w piece fd small.0.0) in
    let (_, size1, len1) = serv_reslov_url-waits w.serv piece w.url held size waits.0 in
    let len : w1.serv.cache_len ≡ w.serv.cache_len + length piece =
      ap (λ v. v.serv.cache_len) first ∙ len1 in
    let size' : length w1.serv.cache_buf ≡ cache_buf_size =
      ap (λ v. length v.serv.cache_buf) first ∙ size1 in
    let fd' : w1.use_client_fd ≡ w.use_client_fd = ap (λ v. v.use_client_fd) first in
    let assoc = append_assoc piece (concat pieces) last in
    let total = length-append piece rest in
    let bytes : length ((piece ++ concat pieces) ++ last) ≡ length (piece ++ rest) =
      ap length assoc in
    let tail_len = length-append (concat pieces) last in
    let later =
      web_task_rounds-pieces w1 pieces last small.1 h (omega arith) (omega arith) size'
        (omega arith) waits.1 in
    ap₂ (λ r t. r ++ t)
      (ap (λ r. r.1) (one_round w piece small.0) ∙ silent w piece fd small.0.0 waits.0)
      (ap (λ r. (web_task_rounds (pieces ++ last ∷ []) r.0).1) (one_round w piece small.0) ∙ later)
    ∙ ap (λ r. r.1)
        (joined w piece rest fd small.0.0 (omega (arith, h.0)) held size (omega arith) waits.0)
    ∙ ap (λ t. (web_task_answer t w).1) (sym assoc)
