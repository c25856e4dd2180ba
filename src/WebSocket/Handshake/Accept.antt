-- ===== src/WebSocket/Handshake/Accept.antt =====
-- The answer to the handshake of RFC 6455.
use esp32base.Base.{
  length, ltb, length-append, ◌≤◌, true, ℕ, ◌/◌, ◌%◌, ◌^◌, ◌≡◌, refl, sym, ap, ◌∙◌, Option, some,
  List, [], ◌∷◌, ◌++◌, arith, AllBytes, take, codes, append_assoc,
}
use esp32base.UrlCodec.{sbuf_encode, change_char_to_array}
use esp32base.UrlCodec.HexTrip.{change_char_to_array-append}
use esp32base.WebSocket.Handshake.{word_hex, words_hex, be_bytes, crlf, guid, answer_2, accept_2}

word_hex-be_bytes : (w : ℕ) → word_hex w ≡ sbuf_encode (be_bytes w)
unfolding word_hex sbuf_encode
word_hex-be_bytes w =
    let d7 : w / 2 ^ 24 % 256 / 16 ≡ w / 2 ^ 28 % 16 = omega arith in
    let d6 : w / 2 ^ 24 % 256 % 16 ≡ w / 2 ^ 24 % 16 = omega arith in
    let d5 : w / 2 ^ 16 % 256 / 16 ≡ w / 2 ^ 20 % 16 = omega arith in
    let d4 : w / 2 ^ 16 % 256 % 16 ≡ w / 2 ^ 16 % 16 = omega arith in
    let d3 : w / 2 ^ 8 % 256 / 16 ≡ w / 2 ^ 12 % 16 = omega arith in
    let d2 : w / 2 ^ 8 % 256 % 16 ≡ w / 2 ^ 8 % 16 = omega arith in
    let d1 : w % 256 / 16 ≡ w / 2 ^ 4 % 16 = omega arith in
    let d0 : w % 256 % 16 ≡ w % 16 = omega arith in rw (d7, d6, d5, d4, d3, d2, d1, d0)

-- the bytes of some words, the high byte first
abbrev pub be_words : List ℕ → List ℕ
be_words [] = []
be_words (w ∷ ws) = be_bytes w ++ be_words ws

decoded :
    (ws mem : List ℕ)
    → change_char_to_array (words_hex ws ++ mem) ≡ be_words ws ++ change_char_to_array mem
unfolding words_hex
decoded [] mem = refl
decoded (w ∷ ws) mem =
    let bytes : AllBytes (be_bytes w) =
      (omega arith, (omega arith, (omega arith, (omega arith, tt)))) in
    ap change_char_to_array (append_assoc (word_hex w) (words_hex ws) mem)
    ∙ ap (λ t. change_char_to_array (t ++ (words_hex ws ++ mem))) (word_hex-be_bytes w)
    ∙ change_char_to_array-append (be_bytes w) (words_hex ws ++ mem) bytes
    ∙ ap (λ t. be_bytes w ++ t) (decoded ws mem)
    ∙ sym (append_assoc (be_bytes w) (be_words ws) (change_char_to_array mem))

filled :
    (base64 : List ℕ → List ℕ) (digest bytes accept_buf : List ℕ)
    → take 20 (change_char_to_array (words_hex digest ++ 0 ∷ [])) ≡ bytes
    → answer_2 base64 (some digest) accept_buf
      ≡ codes "HTTP/1.1 101 Switching Protocols"
        ++ (crlf
            ++ (codes "Upgrade: WebSocket"
                ++ (crlf
                    ++ (codes "Connection: Upgrade"
                        ++ (crlf
                            ++ (codes "Sec-WebSocket-Accept: "
                                ++ (base64 bytes ++ (crlf ++ crlf))))))))
unfolding answer_2
filled base64 digest bytes accept_buf e = rw e

-- For a key of at most 219 bytes, where SHA-1 gives five words, the answer is the one of RFC 6455: its accept line is the Base64 of
-- the twenty bytes of SHA-1, the high byte of each word first, of the key followed by the GUID. The
-- detour over a string of hex digits loses nothing.
pub accept_2_lem :
    (sha1 : List ℕ → Option (List ℕ)) (base64 : List ℕ → List ℕ) (key accept_buf : List ℕ)
    (v w x y z : ℕ)
    → sha1 (key ++ guid) ≡ some (v ∷ w ∷ x ∷ y ∷ z ∷ [])
    → length key ≤ 219
    → accept_2 sha1 base64 (some key) accept_buf
      ≡ some (
          codes "HTTP/1.1 101 Switching Protocols"
          ++ (crlf
              ++ (codes "Upgrade: WebSocket"
                  ++ (crlf
                      ++ (codes "Connection: Upgrade"
                          ++ (crlf
                              ++ (codes "Sec-WebSocket-Accept: "
                                  ++ (base64 (be_words (v ∷ w ∷ x ∷ y ∷ z ∷ []))
                                      ++ (crlf ++ crlf)))))))))
unfolding accept_2
accept_2_lem sha1 base64 key accept_buf v w x y z h small =
    let bytes : take 20 (change_char_to_array (words_hex (v ∷ w ∷ x ∷ y ∷ z ∷ []) ++ 0 ∷ []))
        ≡ be_words (v ∷ w ∷ x ∷ y ∷ z ∷ []) =
      ap (take 20) (decoded (v ∷ w ∷ x ∷ y ∷ z ∷ []) (0 ∷ [])) in
    let fits : ltb (length (key ++ guid)) 256 ≡ true = ground (arith, length-append key guid) in
    rw fits (
      ap some (
        ap (λ r. answer_2 base64 r accept_buf) h
        ∙ filled base64 (v ∷ w ∷ x ∷ y ∷ z ∷ []) _ accept_buf bytes))
