-- ===== src/UrlCodec.antt =====
-- `zhHttpUrlEncode` and `zhHttpUrlDecode` of components/http/zhHttp.c, and the hex codecs
-- `sbufEncode`, `sbufDecode` (main/sbufhex.c) and `ChangeCharToArray` (components/websocket/websocket.c).
-- `isxdigit`, `isupper`, `tolower` and `toupper` are the C locale's, on ASCII.
pub mod Digits
pub mod RoundTrip
pub mod HexTrip
use esp32base.Base.{
  ℕ, zero, suc, ◌+◌, ◌-◌, ◌*◌, ◌/◌, ◌%◌, Bool, true, false, not, ◌&&◌, ◌||◌, List, [], ◌∷◌, ◌++◌,
  ◌==◌, ltb, leb, if◌then◌else◌, bit_or,
}

abbrev pub is_xdigit : ℕ → Bool
is_xdigit c = (leb 48 c && leb c 57) || (leb 65 c && leb c 70) || (leb 97 c && leb c 102)

abbrev pub to_lower : ℕ → ℕ
to_lower c = if leb 65 c && leb c 90 then c + 32 else c

abbrev pub to_upper : ℕ → ℕ
to_upper c = if leb 97 c && leb c 122 then c - 32 else c

-- the value of a digit, `c >= '0' && c <= '9' ? c - '0' : c - 'a' + 10` of the lower-cased character
unfoldable pub digit_value : ℕ → ℕ
digit_value c = let l = to_lower c in if leb 48 l && leb l 57 then l - 48 else l + 10 - 97

-- `hexchars[d]`
unfoldable pub hex_char : ℕ → ℕ
hex_char d = if ltb d 10 then d + 48 else d + 55

-- `zhHttpUrlDecode`: the bytes written to the front of `str`, whose number is the result. The list
-- is what is left of `data`, so its length is what is left of `len`.
unfoldable pub url_decode : List ℕ → List ℕ
url_decode [] = []
url_decode (c ∷ []) = (if c == b'+' then b' ' else c) ∷ []
url_decode (c ∷ d ∷ []) = (if c == b'+' then b' ' else c) ∷ url_decode (d ∷ [])
url_decode (c ∷ d ∷ e ∷ rest) =
    let skip = url_decode (d ∷ e ∷ rest) in
    let taken = url_decode rest in
    if c == b'+'
    then b' ' ∷ skip
    else if c == b'%' && (is_xdigit d && is_xdigit e)
    then (digit_value d * 16 + digit_value e) % 256 ∷ taken
    else c ∷ skip

-- the test of `zhHttpUrlEncode` for a character that is escaped
abbrev pub is_escaped : ℕ → Bool
is_escaped c =
    (ltb c b'0' && (not (c == b'-') && not (c == b'.')))
    || (ltb c b'A' && ltb b'9' c)
    || (ltb b'Z' c && (ltb c b'a' && not (c == b'_')))
    || ltb b'z' c

-- `zhHttpUrlEncode`
unfoldable pub url_encode : List ℕ → List ℕ
url_encode [] = []
url_encode (c ∷ s) =
    let rest = url_encode s in
    if c == b' '
    then b'+' ∷ rest
    else if is_escaped c
    then b'%' ∷ hex_char (c / 16) ∷ hex_char (c % 16) ∷ rest
    else c ∷ rest

-- The value of one hex character in `sbufDecode` and `ChangeCharToArray`: an upper case letter, or
-- anything else taken for a digit. `char` is 8 bits wide, so a difference is kept modulo 256.
unfoldable pub nibble : ℕ → ℕ
nibble c = if leb b'A' c && leb c b'F' then c + 10 - b'A' else (c + 256 - b'0') % 256

-- `(hi << 4) | lo` kept in a char
unfoldable pub hex_pair : ℕ → ℕ → ℕ
hex_pair hi lo = bit_or (hi * 16 % 256) lo

-- The loop of `ChangeCharToArray` over the memory from its string on: the string, its NUL, and what
-- lies behind. It steps by two characters and looks for the NUL at even places alone.
unfoldable pub change_char_to_array : List ℕ → List ℕ
change_char_to_array [] = []
change_char_to_array (c ∷ []) = []
change_char_to_array (c ∷ d ∷ mem) =
    let rest = change_char_to_array mem in
    if c == 0 then [] else hex_pair (nibble c) (nibble d) ∷ rest

-- the first loop of `sbufDecode`: `toupper` up to the NUL
unfoldable pub upper : List ℕ → List ℕ
upper [] = []
upper (c ∷ mem) = let rest = upper mem in if c == 0 then c ∷ mem else to_upper c ∷ rest

-- `sbufDecode`, whose second loop is that of `ChangeCharToArray`
unfoldable pub sbuf_decode : List ℕ → List ℕ
sbuf_decode src = change_char_to_array (upper src)

-- `sbufEncode`: "%02X" of each byte
unfoldable pub sbuf_encode : List ℕ → List ℕ
sbuf_encode [] = []
sbuf_encode (b ∷ buff) = hex_char (b / 16) ∷ hex_char (b % 16) ∷ sbuf_encode buff
