-- ===== src/WebSocket/Handshake.antt =====
-- The handshakes of components/websocket/websocket.c. SHA-1 (sha1.c), MD5 (wsock_md5.c) and Base64
-- (c_base64.h) are copies of other projects' code: they are parameters here.
pub mod Accept
use esp32base.Base.{
  ◌>>=◌, ℕ, zero, suc, ◌+◌, ◌-◌, ◌*◌, ◌/◌, ◌%◌, ◌^◌, Bool, true, false, ◌&&◌, Option, none, some,
  List, [], ◌∷◌, ◌++◌, ◌==◌, ltb, leb, if◌then◌else◌, length, get_or, take, drop, set, map,
  starts_with, contains, codes, until_nul,
}
use mathlib.Core.List.{flat_map}
use esp32base.Text.{trim, match_string_new, atoi_from}
use esp32base.UrlCodec.{hex_char, change_char_to_array}
use esp32base.WebSocket.{Method, unknow, method_1, method_2}

-- `TzhWebSocket`; `none` is NULL
pub record WebSocket : Type 0 where
  pub method : Method
  pub resource : Option (List ℕ)
  pub host : Option (List ℕ)
  pub origin : Option (List ℕ)
  pub protocol : Option (List ℕ)
  pub key : Option (List ℕ)
  pub key1 : Option (List ℕ)
  pub key2 : Option (List ℕ)
  pub version : Option (List ℕ)

-- `zhWebSockInit`
abbrev pub init : WebSocket
init = record {
  method = unknow;
  resource = none;
  host = none;
  origin = none;
  protocol = none;
  key = none;
  key1 = none;
  key2 = none;
  version = none;
}

abbrev pub crlf : List ℕ
crlf = 13 ∷ 10 ∷ []

-- strstr: where the needle first stands
unfoldable pub strstr : List ℕ → List ℕ → Option ℕ
strstr [] needle = if starts_with needle [] then some 0 else none
strstr (c ∷ s) needle =
    let rest : Option ℕ = elim (strstr s needle) [ none ↦ none | some i ↦ some (suc i) ] in
    if starts_with needle (c ∷ s) then some 0 else rest

-- `zhWebSockTrim` of a string that may be NULL
abbrev pub trim_new : Option (List ℕ) → Option (List ℕ)
trim_new none = none
trim_new (some s) = some (trim s)

-- a header's value, trimmed
abbrev pub header : List ℕ → List ℕ → Option (List ℕ)
header src name = trim_new (match_string_new src name 0)

-- "%s" of a string that may be NULL
abbrev pub shown : Option (List ℕ) → List ℕ
shown none = codes "(null)"
shown (some s) = s

abbrev pub guid : List ℕ
guid = codes "258EAFA5-E914-47DA-95CA-C5AB0DC85B11"

-- "%08X" of a 32-bit word
unfoldable pub word_hex : ℕ → List ℕ
word_hex w =
    hex_char (w / 2 ^ 28 % 16)
    ∷ hex_char (w / 2 ^ 24 % 16)
    ∷ hex_char (w / 2 ^ 20 % 16)
    ∷ hex_char (w / 2 ^ 16 % 16)
    ∷ hex_char (w / 2 ^ 12 % 16)
    ∷ hex_char (w / 2 ^ 8 % 16)
    ∷ hex_char (w / 2 ^ 4 % 16)
    ∷ hex_char (w % 16)
    ∷ []

unfoldable pub words_hex : List ℕ → List ℕ
words_hex [] = []
words_hex (w ∷ ws) = word_hex w ++ words_hex ws

-- The result of a handshake: the C result, the socket record, the memory of the request (in which a
-- NUL replaces the blank line), and what is in `acceptBuf`.
pub record Shaken : Type 0 where
  pub result : ℕ
  pub hs : WebSocket
  pub recvbuf : List ℕ
  pub accept : List ℕ

module _ (base64 : List ℕ → List ℕ) where
  -- what `sprintf` writes, given the words of SHA-1; nothing is written where SHA-1 fails
  unfoldable pub answer_2 : Option (List ℕ) → List ℕ → List ℕ
  answer_2 none accept_buf = accept_buf
  answer_2 (some digest) accept_buf =
      codes "HTTP/1.1 101 Switching Protocols"
      ++ (crlf
          ++ (codes "Upgrade: WebSocket"
              ++ (crlf
                  ++ (codes "Connection: Upgrade"
                      ++ (crlf
                          ++ (codes "Sec-WebSocket-Accept: "
                              ++ (base64
                                    (take 20 (change_char_to_array (words_hex digest ++ 0 ∷ [])))
                                  ++ (crlf ++ crlf))))))))

module _ (sha1 : List ℕ → Option (List ℕ)) (base64 : List ℕ → List ℕ) where
  -- the string of `acceptBuf`; `none` where the key and the GUID run past `msg[256]`
  unfoldable pub accept_2 : Option (List ℕ) → List ℕ → Option (List ℕ)
  accept_2 key accept_buf =
      if ltb (length (shown key ++ guid)) 256
      then some (answer_2 base64 (sha1 (shown key ++ guid)) accept_buf)
      else none

  -- `zhWebSockHandshake_2`; `none` is a fault
  unfoldable pub handshake_2 : List ℕ → WebSocket → List ℕ → Option Shaken
  handshake_2 recvbuf hs accept_buf = elim (strstr (until_nul recvbuf) (crlf ++ crlf)) [
    | none ↦ some (record { result = 1; hs = hs; recvbuf = recvbuf; accept = accept_buf })
    | some i ↦
        let src = take i recvbuf in
        let hs' = record hs {
          method = method_2;
          resource = match_string_new src (codes "GET ") 0x20;
          host = header src (codes "Host:");
          origin = header src (codes "Origin:");
          key = header src (codes "Sec-WebSocket-Key:");
          version = header src (codes "Sec-WebSocket-Version:");
        } in
        accept_2 hs'.key accept_buf >>= λ accept.
        some (record { result = 0; hs = hs'; recvbuf = set recvbuf i 0; accept = accept })
  ]

-- the digits of a key, and its blanks
unfoldable pub key_digits : List ℕ → List ℕ
key_digits [] = []
key_digits (c ∷ key) =
    let rest = key_digits key in if leb b'0' c && leb c b'9' then c ∷ rest else rest

unfoldable pub key_spaces : List ℕ → ℕ
key_spaces [] = 0
key_spaces (c ∷ key) = let rest = key_spaces key in if c == b' ' then rest + 1 else rest

-- `strtoul(digits, NULL, 10) / spaces` in 32 bits, `none` for a division by zero
unfoldable pub key_number : List ℕ → Option ℕ
key_number key =
    let n = atoi_from 0 (key_digits key) in
    let value = if ltb n (2 ^ 32) then n else 2 ^ 32 - 1 in
    if key_spaces key == 0 then none else some (value / key_spaces key)

-- `result << (8 * i) >> (8 * 3)` for i = 0 to 3
abbrev pub be_bytes : ℕ → List ℕ
be_bytes w = w / 2 ^ 24 % 256 ∷ w / 2 ^ 16 % 256 ∷ w / 2 ^ 8 % 256 ∷ w % 256 ∷ []

-- both keys must be there (`strlen(NULL)` faults) and hold a blank
abbrev pub both_numbers : Option (List ℕ) → Option (List ℕ) → Option (ℕ × ℕ)
both_numbers none key2 = none
both_numbers (some key1) none = none
both_numbers (some key1) (some key2) = elim (key_number key1) [
  | none ↦ none
  | some n1 ↦ elim (key_number key2) [ none ↦ none | some n2 ↦ some (n1, n2) ]
]

module _ (md5 : List ℕ → List ℕ) where
  -- what `acceptBuf` holds before its last NUL: the headers, and the 16 bytes of the digest
  unfoldable pub accept_1 : WebSocket → ℕ → ℕ → List ℕ → List ℕ
  accept_1 hs result1 result2 key3 =
      codes "HTTP/1.1 101 WebSocket Protocol Handshake"
      ++ (crlf
          ++ (codes "Upgrade: WebSocket"
              ++ (crlf
                  ++ (codes "Connection: Upgrade"
                      ++ (crlf
                          ++ (codes "Sec-WebSocket-Origin: "
                              ++ (shown hs.origin
                                  ++ (crlf
                                      ++ (codes "Sec-WebSocket-Location: ws://"
                                          ++ (shown hs.host
                                              ++ (shown hs.resource
                                                  ++ (crlf
                                                      ++ (codes "Sec-WebSocket-Protocol: sample"
                                                          ++ (crlf
                                                            ++ (crlf
                                                            ++ take 16 (
                                                            md5 (
                                                            be_bytes result1
                                                            ++ (be_bytes result2
                                                            ++ key3))))))))))))))))))

  -- `zhWebSockHandshake_1`; `none` is a fault. `key3` is the memory behind the blank line.
  unfoldable pub handshake_1 : List ℕ → WebSocket → List ℕ → Option Shaken
  handshake_1 recvbuf hs accept_buf = elim (strstr (until_nul recvbuf) (crlf ++ crlf)) [
    | none ↦ some (record { result = 1; hs = hs; recvbuf = recvbuf; accept = accept_buf })
    | some i ↦
        let src = take i recvbuf in
        let hs' = record hs {
          method = method_1;
          resource = match_string_new src (codes "GET ") 0x20;
          host = header src (codes "Host:");
          origin = header src (codes "Origin:");
          protocol = header src (codes "Sec-WebSocket-Protocol:");
          key1 = header src (codes "Sec-WebSocket-Key1:");
          key2 = header src (codes "Sec-WebSocket-Key2:");
        } in
        elim (both_numbers hs'.key1 hs'.key2) [
          | none ↦ none
          | some (n1, n2) ↦ some (record {
            result = 0;
            hs = hs';
            recvbuf = set recvbuf i 0;
            accept = accept_1 hs' n1 n2 (take 8 (drop (i + 4) recvbuf));
          })
        ]
  ]

-- `zhWebSockIdentify`
unfoldable pub identify : List ℕ → ℕ → Method
identify recvbuf buflen =
    if leb buflen 4
    then unknow
    else if contains (codes "Sec-WebSocket-Key1:") (until_nul recvbuf)
    then method_1
    else if contains (codes "Sec-WebSocket-Key:") (until_nul recvbuf)
    then method_2
    else unknow

-- the result of `zhWebSockHandshake`: 0, 1 and -1
pub data Outcome : Type 0 where
  accepted already failed : Outcome

module _ (sha1 : List ℕ → Option (List ℕ)) (base64 md5 : List ℕ → List ℕ) where
  abbrev pub outcome_of : Shaken → Outcome × Shaken
  outcome_of r = (if r.result == 0 then accepted else failed, r)

  -- the `switch` on the method identified
  unfoldable pub handshake_as : Method → List ℕ → WebSocket → List ℕ → Option (Outcome × Shaken)
  handshake_as unknow recvbuf hs accept_buf =
      some (failed, record { result = 1; hs = hs; recvbuf = recvbuf; accept = accept_buf })
  handshake_as method_1 recvbuf hs accept_buf = elim (handshake_1 md5 recvbuf hs accept_buf) [
    | none ↦ none
    | some r ↦ some (outcome_of r)
  ]
  handshake_as method_2 recvbuf hs accept_buf =
      handshake_2 sha1 base64 recvbuf hs accept_buf >>= λ r. some (outcome_of r)

  -- `zhWebSockHandshake`
  unfoldable pub handshake : Method → List ℕ → ℕ → WebSocket → List ℕ → Option (Outcome × Shaken)
  handshake unknow recvbuf buflen hs accept_buf =
      handshake_as (identify recvbuf buflen) recvbuf hs accept_buf
  handshake done recvbuf buflen hs accept_buf =
      some (already, record { result = 1; hs = hs; recvbuf = recvbuf; accept = accept_buf })
