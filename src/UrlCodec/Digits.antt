-- ===== src/UrlCodec/Digits.antt =====
-- The hex digits, by a check of all values.
use esp32base.Base.{
  ℕ, ◌<◌, ◌≡◌, refl, ◌/◌, ◌%◌, true, false, ◌&&◌, arith, ◌==◌, ==_iff, holds_under, holds_under-at,
}
use esp32base.UrlCodec.{is_xdigit, digit_value, hex_char, nibble, hex_pair, to_upper}

digit_table :
    holds_under
      (λ d.
        is_xdigit (hex_char d)
        && (digit_value (hex_char d) == d)
        && (nibble (hex_char d) == d)
        && (to_upper (hex_char d) == hex_char d))
      16
    ≡ true
unfolding holds_under hex_char digit_value nibble
digit_table = refl

-- A digit that was written is one, is read back by either reader, and is upper case.
pub hex_char_lem :
    (d : ℕ)
    → d < 16
    → (is_xdigit (hex_char d) ≡ true)
      × (digit_value (hex_char d) ≡ d)
      × (nibble (hex_char d) ≡ d)
      × (to_upper (hex_char d) ≡ hex_char d)
hex_char_lem d h = ground (arith, holds_under-at _ 16 d h digit_table)

pair_table : holds_under (λ b. hex_pair (b / 16) (b % 16) == b) 256 ≡ true
unfolding holds_under hex_pair
pair_table = refl

pub hex_pair_lem : (b : ℕ) → b < 256 → hex_pair (b / 16) (b % 16) ≡ b
hex_pair_lem b h = (==_iff _ b).0 (holds_under-at _ 256 b h pair_table)

pub hex_char-nonzero : (d : ℕ) → (hex_char d == 0) ≡ false
unfolding hex_char
hex_char-nonzero d = ground arith
