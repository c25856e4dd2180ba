-- ===== src/Scene.antt =====
-- main/scene_proc.c: the comparison of a buffer with a pattern, `scmpBuf`, and the bytes as text,
-- `print16` and `strToHex`.
pub mod Match
pub mod Hex
use esp32base.UrlCodec.{hex_char, digit_value, is_xdigit}
use esp32base.Query.{words}
use esp32base.Base.{
  ◌>>=◌, Option, some, none, ◌*◌, ◌/◌, ◌%◌, ◌^◌, ℕ, zero, suc, ◌+◌, Bool, true, false, List, [],
  ◌∷◌, ◌==◌, ltb, if◌then◌else◌, length, drop,
}

-- the inner loop: how many of the pattern's bytes match the memory from here on
unfoldable pub matched : List ℕ → List ℕ → ℕ
matched [] mem = 0
matched (s ∷ scmp_buf) [] = 0
matched (s ∷ scmp_buf) (c ∷ mem) = let rest = matched scmp_buf mem in if c == s then suc rest else 0

-- The outer loop with fuel, at index `i`. The inner loop advances `i` over what it matched, and does not
-- go back; it looks at the memory behind `srclen` too.
unfoldable pub scmp_from : ℕ → List ℕ → ℕ → List ℕ → ℕ → Bool
scmp_from zero mem srclen scmp_buf i = false
scmp_from (suc fuel) mem srclen scmp_buf i =
    let n = matched scmp_buf (drop i mem) in
    let rest = scmp_from fuel mem srclen scmp_buf (i + n + 1) in
    if ltb i srclen then (if n == length scmp_buf then true else rest) else false

-- `scmpBuf`: true for 0, false for -1. Each round moves on, so `srclen` rounds and one are enough.
unfoldable pub scmp : List ℕ → ℕ → List ℕ → Bool
scmp mem srclen scmp_buf =
    if length scmp_buf == 0 then false else scmp_from (suc srclen) mem srclen scmp_buf 0

-- `print16`: what it prints
unfoldable pub print_16 : List ℕ → List ℕ
print_16 [] = []
print_16 (b ∷ buf) = hex_char (b / 16) ∷ hex_char (b % 16) ∷ b' ' ∷ print_16 buf

-- the number at the front of a text
unfoldable pub hex_from : ℕ → List ℕ → ℕ
hex_from acc [] = acc
hex_from acc (c ∷ s) =
    let next = hex_from (acc * 16 + digit_value c) s in if is_xdigit c then next else acc

-- sscanf(tpsz, "%x", &nHex), which leaves `nHex` where there is no digit, and stops at the largest number
-- of 32 bits (a sign, white space and 0x are not modelled)
unfoldable pub scan_hex : ℕ → List ℕ → ℕ
scan_hex n_hex [] = n_hex
scan_hex n_hex (c ∷ s) =
    let n = hex_from 0 (c ∷ s) in
    if is_xdigit c then (if ltb n (2 ^ 32) then n else 4294967295) else n_hex

-- the loop of `strToHex` over the words, with the room left in `dstBuf`; `none` is the result -1
unfoldable pub str_to_hex_from : List (List ℕ) → ℕ → ℕ → Option (List ℕ)
str_to_hex_from [] room n_hex = some []
str_to_hex_from (tpsz ∷ words) zero n_hex = none
str_to_hex_from (tpsz ∷ words) (suc room) n_hex = do
  rest ← str_to_hex_from words room (scan_hex n_hex tpsz)
  some (scan_hex n_hex tpsz % 256 ∷ rest)

-- `strToHex`: what it puts into `dstBuf`, whose number is the result
unfoldable pub str_to_hex : List ℕ → ℕ → Option (List ℕ)
str_to_hex str dstbuf_len = str_to_hex_from (words b' ' str) dstbuf_len (length str + 1)
