-- ===== src/UrlCodec/HexTrip.antt =====
-- The hex codecs: round trip, and what an odd string leads to.
use esp32base.Base.{
  ℕ, ◌<◌, ◌≡◌, refl, ap, ap₂, ◌/◌, ◌%◌, false, List, [], ◌∷◌, ◌++◌, append-nil, arith, ◌==◌,
  AllBytes,
}
use esp32base.UrlCodec.{
  nibble, hex_pair, change_char_to_array, upper, to_upper, sbuf_decode, sbuf_encode,
}
use esp32base.UrlCodec.Digits.{hex_char_lem, hex_pair_lem, hex_char-nonzero}

-- Both loops go through the hex of some bytes, and on with what follows.
pub change_char_to_array-append :
    (buff mem : List ℕ)
    → AllBytes buff
    → change_char_to_array (sbuf_encode buff ++ mem) ≡ buff ++ change_char_to_array mem
unfolding change_char_to_array sbuf_encode
change_char_to_array-append [] mem h = refl
change_char_to_array-append (b ∷ buff) mem h =
    let (_, _, hi, _) = hex_char_lem (b / 16) (omega (arith, h.0)) in
    let (_, _, lo, _) = hex_char_lem (b % 16) (omega arith) in
    rw (hex_char-nonzero (b / 16), hi, lo)
      (ap₂ ◌∷◌ (hex_pair_lem b h.0) (change_char_to_array-append buff mem h.1))

upper-append :
    (buff mem : List ℕ)
    → AllBytes buff
    → upper (sbuf_encode buff ++ mem) ≡ sbuf_encode buff ++ upper mem
unfolding upper sbuf_encode
upper-append [] mem h = refl
upper-append (b ∷ buff) mem h =
    let (_, _, _, hi) = hex_char_lem (b / 16) (omega (arith, h.0)) in
    let (_, _, _, lo) = hex_char_lem (b % 16) (omega arith) in
    rw (hex_char-nonzero (b / 16), hex_char-nonzero (b % 16), hi, lo, upper-append buff mem h.1)

change_char_to_array-nul : (mem : List ℕ) → change_char_to_array (upper (0 ∷ mem)) ≡ []
unfolding change_char_to_array upper
change_char_to_array-nul [] = refl
change_char_to_array-nul (m ∷ mem) = refl

last-char :
    (c : ℕ) (mem : List ℕ)
    → 0 < c
    → change_char_to_array (upper (c ∷ 0 ∷ mem))
      ≡ hex_pair (nibble (to_upper c)) (nibble 0) ∷ change_char_to_array mem
unfolding change_char_to_array upper
last-char c mem p =
    let some_char : (c == 0) ≡ false = ground arith in
    let some_upper : (to_upper c == 0) ≡ false = ground arith in rw (some_char, some_upper)

-- Decoding the hex string of any bytes, in memory with its NUL and anything behind it, gives them back.
pub sbuf_decode-sbuf_encode :
    (buff mem : List ℕ) → AllBytes buff → sbuf_decode (sbuf_encode buff ++ 0 ∷ mem) ≡ buff
unfolding sbuf_decode
sbuf_decode-sbuf_encode buff mem h =
    rw
      (
        upper-append buff (0 ∷ mem) h,
        change_char_to_array-append buff (upper (0 ∷ mem)) h,
        change_char_to_array-nul mem,
      )
      (append-nil buff)

-- A string that is one character longer than the hex of some bytes is decoded past its end: its last
-- character is paired with the NUL, and the loop goes on with whatever lies behind in memory.
pub sbuf_decode-odd :
    (buff : List ℕ) (c : ℕ) (mem : List ℕ)
    → AllBytes buff
    → 0 < c
    → sbuf_decode (sbuf_encode buff ++ c ∷ 0 ∷ mem)
      ≡ buff ++ hex_pair (nibble (to_upper c)) (nibble 0) ∷ change_char_to_array mem
unfolding sbuf_decode
sbuf_decode-odd buff c mem h p =
    rw (upper-append buff (c ∷ 0 ∷ mem) h, change_char_to_array-append buff (upper (c ∷ 0 ∷ mem)) h)
      (ap (λ t. buff ++ t) (last-char c mem p))
