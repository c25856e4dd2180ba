-- ===== src/Tests/Strings.antt =====
-- The codecs and the string routines at concrete inputs.
use esp32base.Base.{ℕ, ◌≡◌, List, [], ◌∷◌, arith}
use esp32base.UrlCodec.{url_decode, url_encode}
use esp32base.UrlCodec.RoundTrip.{url_decode-url_encode}

abbrev some_bytes : List ℕ
some_bytes = b'a' ∷ b' ' ∷ 200 ∷ []

url_decode-url_encode_example : url_decode (url_encode some_bytes) ≡ some_bytes
url_decode-url_encode_example =
    url_decode-url_encode some_bytes (omega arith, (omega arith, (omega arith, tt)))
