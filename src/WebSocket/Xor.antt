-- ===== src/WebSocket/Xor.antt =====
-- XOR with one byte, twice, is the byte again: a check of all pairs.
use esp32base.Base.{
  Bool, ℕ, ◌<◌, ◌≡◌, refl, ◌==◌, ==_iff, holds_under, holds_under-at, true, bit_xor,
}

abbrev undone_by : ℕ → ℕ → Bool
undone_by m x = bit_xor (bit_xor x m) m == x

table : holds_under (λ m. holds_under (undone_by m) 256) 256 ≡ true
unfolding holds_under
table = refl

pub xor-xor : (x m : ℕ) → x < 256 → m < 256 → bit_xor (bit_xor x m) m ≡ x
xor-xor x m h k =
    let row = holds_under-at (λ m. holds_under (undone_by m) 256) 256 m k table in
    (==_iff _ x).0 (holds_under-at (undone_by m) 256 x h row)
