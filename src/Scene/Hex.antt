-- ===== src/Scene/Hex.antt =====
-- `print16` and `strToHex` of main/scene_proc.c, one after the other.
use esp32base.Base.{
  if◌then◌else◌, leb, Bool-cases, inl, inr, ℕ, zero, suc, ◌+◌, ◌/◌, ◌%◌, ◌≤◌, ◌<◌, ◌≡◌, ◌≢◌, refl,
  ap, ◌∙◌, some, none, List, [], ◌∷◌, arith, length, AllBytes,
}
use esp32base.UrlCodec.{hex_char}
use esp32base.UrlCodec.Digits.{hex_char_lem}
use esp32base.Query.{words}
use esp32base.Query.Lookup.{words-more}
use esp32base.Scene.{print_16, hex_from, scan_hex, str_to_hex_from, str_to_hex}

abbrev digits : ℕ → List ℕ
digits b = hex_char (b / 16) ∷ hex_char (b % 16) ∷ []

hex_char-mark : (d : ℕ) → d < 16 → hex_char d ≢ b' '
unfolding hex_char
hex_char-mark d h = ground arith

scan_hex-digits : (n_hex b : ℕ) → b < 256 → scan_hex n_hex (digits b) ≡ b
unfolding scan_hex hex_from
scan_hex-digits n_hex b h =
    let (hi, hi_value, _, _) = hex_char_lem (b / 16) (omega arith) in
    let (lo, lo_value, _, _) = hex_char_lem (b % 16) (omega arith) in
    rw (hi, lo, hi_value, lo_value) (grind arith)

printed : List ℕ → List (List ℕ)
printed [] = []
printed (b ∷ bs) = digits b ∷ printed bs

words-print_16 : (bs : List ℕ) → AllBytes bs → words b' ' (print_16 bs) ≡ printed bs
unfolding print_16 printed words
words-print_16 [] h = refl
words-print_16 (b ∷ bs) h =
    words-more b' ' (digits b) (print_16 bs) (
      omega arith,
      (hex_char-mark (b / 16) (omega (arith, h.0)), (hex_char-mark (b % 16) (omega arith), tt)),
    )
    ∙ ap (λ t. digits b ∷ t) (words-print_16 bs h.1)

from-printed :
    (bs : List ℕ) (room n_hex : ℕ)
    → AllBytes bs
    → length bs ≤ room
    → str_to_hex_from (printed bs) room n_hex ≡ some bs
unfolding str_to_hex_from printed
from-printed [] room n_hex h fits = refl
from-printed (b ∷ bs) zero n_hex h fits = absurd (omega arith)
from-printed (b ∷ bs) (suc room) n_hex h fits =
    let byte : b % 256 ≡ b = omega (arith, h.0) in
    rw (scan_hex-digits n_hex b h.0, from-printed bs room b h.1 (omega arith), byte) refl

from-printed_full :
    (bs : List ℕ) (room n_hex : ℕ)
    → room < length bs
    → str_to_hex_from (printed bs) room n_hex ≡ none
unfolding str_to_hex_from printed
from-printed_full [] room n_hex fits = absurd (omega arith)
from-printed_full (b ∷ bs) zero n_hex fits = refl
from-printed_full (b ∷ bs) (suc room) n_hex fits =
    rw (from-printed_full bs room (scan_hex n_hex (digits b)) (omega arith)) refl

-- What `print16` prints of any bytes is read back by `strToHex` into a buffer that has room for them;
-- into a smaller one it gives -1.
pub str_to_hex-print_16 :
    (bs : List ℕ) (dstbuf_len : ℕ)
    → AllBytes bs
    → str_to_hex (print_16 bs) dstbuf_len ≡ (if leb (length bs) dstbuf_len then some bs else none)
unfolding str_to_hex
str_to_hex-print_16 bs dstbuf_len h =
    let start = length (print_16 bs) + 1 in
    let read = ap (λ w. str_to_hex_from w dstbuf_len start) (words-print_16 bs h) in
    elim (Bool-cases (leb (length bs) dstbuf_len)) [
      | inl fits ↦ rw fits (read ∙ from-printed bs dstbuf_len start h (ground (arith, fits)))
      | inr full ↦ rw full (read ∙ from-printed_full bs dstbuf_len start (ground (arith, full)))
    ]
