-- ===== src/WebSocket/Rfc.antt =====
-- RFC 6455 text frames, as a client sends them and as this server does.
use esp32base.Base.{
  ℕ, zero, suc, ◌+◌, ◌*◌, ◌/◌, ◌%◌, ◌≤◌, ◌<◌, ◌≡◌, refl, ap, ap₂, Bool-cases, inl, inr, false,
  Option, none, some, List, [], ◌∷◌, ◌++◌, arith, length, get_or, ltb, take, drop, AllBytes,
  take-append_length, bit_xor, ◌==◌, if◌then◌else◌,
}
use esp32base.WebSocket.{method_2, unmask, method_2_body, pack_method_2, send_data}
use esp32base.WebSocket.Xor.{xor-xor}

-- The length field of RFC 6455 for up to 65535 bytes, with the given mask bit (128 or 0).
abbrev pub length_bytes : ℕ → ℕ → List ℕ
length_bytes mask_bit n =
    if ltb n 126 then (mask_bit + n) ∷ [] else (mask_bit + 126) ∷ n / 256 ∷ n % 256 ∷ []

-- The masking of RFC 6455: the key's bytes take turns.
unfoldable pub masked : (a b c d : ℕ) → List ℕ → List ℕ
masked a b c d [] = []
masked a b c d (x ∷ text) = bit_xor x a ∷ masked b c d a text

-- A client's text frame: final, masked by four bytes.
abbrev pub client_frame : (a b c d : ℕ) → List ℕ → List ℕ
client_frame a b c d text =
    0x81 ∷ (length_bytes 128 (length text) ++ a ∷ b ∷ c ∷ d ∷ masked a b c d text)

length-masked : (a b c d : ℕ) (text : List ℕ) → length (masked a b c d text) ≡ length text
unfolding masked
length-masked a b c d [] = refl
length-masked a b c d (x ∷ text) = ap suc (length-masked b c d a text)

-- the byte of a key of four whose turn it is
abbrev turn : List ℕ → ℕ → ℕ
turn masks i = get_or masks (i % 4) 0

unmask-masked :
    (masks : List ℕ) (i : ℕ) (text : List ℕ)
    → ((j : ℕ) → turn masks j < 256)
    → AllBytes text
    → unmask masks i
        (masked (turn masks i) (turn masks (i + 1)) (turn masks (i + 2)) (turn masks (i + 3)) text)
      ≡ text
unfolding unmask masked
unmask-masked masks i [] small h = refl
unmask-masked masks i (x ∷ text) small h =
    let two : i + 1 + 1 ≡ i + 2 = omega arith in
    let three : i + 1 + 2 ≡ i + 3 = omega arith in
    let again : (i + 1 + 3) % 4 ≡ i % 4 = omega arith in
    let later = unmask-masked masks (i + 1) text small h.1 in
    ap₂ ◌∷◌ (xor-xor x (turn masks i) h.0 (small i)) (rw (two, three, again) at later)

module _ (a b c d : ℕ) (text rest : List ℕ) (cache_len : ℕ) (masks : AllBytes (a ∷ b ∷ c ∷ d ∷ []))
    (h : AllBytes text) where
  abbrev keys : List ℕ
  keys = a ∷ b ∷ c ∷ d ∷ []

  key-IsByte : (j : ℕ) → get_or keys (j % 4) 0 < 256
  key-IsByte j = below (j % 4)
    where
      below : (k : ℕ) → get_or keys k 0 < 256
      below zero = masks.0
      below (suc zero) = masks.1.0
      below (suc (suc zero)) = masks.1.1.0
      below (suc (suc (suc zero))) = masks.1.1.1.0
      below (suc (suc (suc (suc k)))) = omega arith

  -- the payload found behind the header, unmasked
  payload : unmask keys 0 (take (length text) (masked a b c d text ++ rest)) ≡ text
  payload =
      let e : take (length text) (masked a b c d text ++ rest) ≡ masked a b c d text =
        rw (← length-masked a b c d text) (take-append_length (masked a b c d text) rest) in
      rw e (unmask-masked keys 0 text key-IsByte h)

  body-short :
      (x y : ℕ)
      → length text + 6 ≤ cache_len
      → method_2_body
          (x ∷ y ∷ a ∷ b ∷ c ∷ d ∷ (masked a b c d text ++ rest))
          cache_len
          (length text)
          6
        ≡ (length text + 6, text)
  unfolding method_2_body
  body-short x y fits =
      let room : ltb cache_len (length text + 6) ≡ false = ground arith in
      rw room (ap (λ t. (length text + 6, t)) payload)

  body-long :
      (x y z w : ℕ)
      → length text + 8 ≤ cache_len
      → method_2_body
          (x ∷ y ∷ z ∷ w ∷ a ∷ b ∷ c ∷ d ∷ (masked a b c d text ++ rest))
          cache_len
          (length text)
          8
        ≡ (length text + 8, text)
  unfolding method_2_body
  body-long x y z w fits =
      let room : ltb cache_len (length text + 8) ≡ false = ground arith in
      rw room (ap (λ t. (length text + 8, t)) payload)

-- A client's text of up to 65535 bytes, masked by any four bytes, in a buffer that holds the frame and
-- anything behind it: the frame is read whole, and the packet is the text.
pub pack_method_2-client_frame :
    (a b c d : ℕ) (text rest : List ℕ) (cache_len : ℕ)
    → AllBytes (a ∷ b ∷ c ∷ d ∷ [])
    → AllBytes text
    → length text ≤ 65535
    → length (client_frame a b c d text) ≤ cache_len
    → pack_method_2 (client_frame a b c d text ++ rest) cache_len
      ≡ some (length (client_frame a b c d text), text)
unfolding pack_method_2
pack_method_2-client_frame a b c d text rest cache_len masks h small fits =
    let size = length-masked a b c d text in
    elim (Bool-cases (ltb (length text) 126)) [
      | inl short ↦
          let code : (128 + length text) % 128 ≡ length text = ground arith in
          let no_ext : (length text == 126) ≡ false = ground arith in
          let no_ext64 : (length text == 127) ≡ false = ground arith in
          let len : length (client_frame a b c d text) ≡ length text + 6 = rw short (omega arith) in
          let body =
            body-short a b c d text rest cache_len masks h 0x81 (128 + length text) (omega arith) in
          rw len (rw (short, code, no_ext, no_ext64) (ap some body))
      | inr long ↦
          let value : length text / 256 * 256 + length text % 256 ≡ length text = omega arith in
          let len : length (client_frame a b c d text) ≡ length text + 8 = rw long (omega arith) in
          let body =
            body-long a b c d text rest cache_len masks h 0x81 254 (length text / 256)
              (length text % 256) (omega arith) in
          rw len (rw (long, value) (ap some body))
    ]

-- How RFC 6455 reads an unmasked text frame that ends where its buffer does: the length is in the
-- second byte, or, if that is 126, in the two behind it, the high byte first.
abbrev pub exactly : ℕ → List ℕ → Option (List ℕ)
exactly n payload = if length payload == n then some payload else none

abbrev pub read_server_frame : List ℕ → Option (List ℕ)
read_server_frame frame =
    if get_or frame 0 0 == 0x81
    then (if ltb (get_or frame 1 0) 126
        then exactly (get_or frame 1 0) (drop 2 frame)
        else if get_or frame 1 0 == 126
        then exactly (256 * get_or frame 2 0 + get_or frame 3 0) (drop 4 frame)
        else none)
    else none

abbrev pub and_then : Option (List ℕ) → (List ℕ → Option (List ℕ)) → Option (List ℕ)
and_then none f = none
and_then (some a) f = f a

-- A browser that follows RFC 6455 reads the frame that is sent for a text of up to 65535 bytes as
-- that text.
pub read_server_frame-send_data :
    (text : List ℕ)
    → length text ≤ 65535
    → and_then (send_data method_2 text) read_server_frame ≡ some text
unfolding send_data
read_server_frame-send_data text h = ground arith

-- For a longer text the frame is not built and its length is left unset.
pub send_data-too_long : (text : List ℕ) → 65535 < length text → send_data method_2 text ≡ none
unfolding send_data
send_data-too_long text h = ground arith
