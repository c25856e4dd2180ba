-- ===== src/Pages/Answer.antt =====
-- The length that the device's answers state, as its own HTTP client reads it.
use esp32base.Base.{
  some, ℕ, zero, suc, ◌+◌, ◌/◌, ◌%◌, ◌≤◌, ◌≡◌, inl, inr, refl, ◌∙◌, false, List, [], ◌∷◌, ◌++◌,
  ◌==◌, ltb, append_assoc, arith, All, All-append, until_nul, decimal_from, starts_with, Bool-cases,
  codes,
}
use esp32base.Text.{atoi}
use esp32base.HttpClient.{
  content_length, total_of, http_get_protocol_value, strstr, to_colon, drop_colon, skip_blanks,
  to_line_end,
}
use esp32base.Pages.{respone_ok, eol, answer_end}

abbrev pub IsDigit : ℕ → Type 0
IsDigit c = (48 ≤ c) × (c ≤ 57)

pub decimal_from-digits : (fuel n : ℕ) → All IsDigit (decimal_from fuel n)
unfolding decimal_from
decimal_from-digits zero n = tt
decimal_from-digits (suc fuel) n = elim (Bool-cases (ltb n 10)) [
  | inl one ↦ rw one ((omega arith, ground arith), tt)
  | inr more ↦ rw more (
      All-append IsDigit (decimal_from fuel (n / 10)) ((48 + n % 10) ∷ [])
        (decimal_from-digits fuel (n / 10)) ((omega arith, omega arith), tt))
]

until_nul-digits :
    (ds rest : List ℕ) → All IsDigit ds → until_nul (ds ++ rest) ≡ ds ++ until_nul rest
unfolding until_nul
until_nul-digits [] rest h = refl
until_nul-digits (d ∷ ds) rest h =
    let char : (d == 0) ≡ false = ground (arith, h.0) in
    rw (char, until_nul-digits ds rest h.1) refl

to_colon-digits :
    (ds rest : List ℕ) → All IsDigit ds → to_colon (ds ++ 13 ∷ 10 ∷ rest) ≡ 13 ∷ 10 ∷ rest
unfolding to_colon
to_colon-digits [] rest h = refl
to_colon-digits (d ∷ ds) rest h =
    let no_colon : (d == 58) ≡ false = ground (arith, h.0) in
    let no_lf : (d == 10) ≡ false = ground (arith, h.0) in
    let char : (d == 0) ≡ false = ground (arith, h.0) in
    let no_cr : (d == 13) ≡ false = ground (arith, h.0) in
    rw (no_colon, no_lf, char, no_cr) (to_colon-digits ds rest h.1)

value-digits :
    (ds rest : List ℕ)
    → All IsDigit ds
    → total_of (
        some (to_line_end (skip_blanks (drop_colon (to_colon (until_nul (ds ++ 13 ∷ 10 ∷ rest)))))))
      ≡ some 0
unfolding atoi to_line_end skip_blanks until_nul
value-digits ds rest h =
    rw (until_nul-digits ds (13 ∷ 10 ∷ rest) h, to_colon-digits ds (until_nul rest) h) refl

-- The answer's own length cannot be read: whatever follows its header, the client finds the name
-- Content-Length in it, but no colon on that line, and takes the length as not given.
pub content_length-respone_ok :
    (n : ℕ) (body : List ℕ) → content_length (respone_ok n ++ body) ≡ some 0
unfolding content_length respone_ok http_get_protocol_value strstr to_colon skip_blanks to_line_end
    atoi starts_with until_nul
content_length-respone_ok n body =
    let fields =
      codes "Content-Type: text/html" ++ (eol ++ (codes "Keep-Alive: timeout=5, max=100" ++ eol)) in
    let ds = decimal_from (suc n) n in
    let flat : ((ds ++ 13 ∷ 10 ∷ fields) ++ answer_end) ++ body
        ≡ ds ++ 13 ∷ 10 ∷ (fields ++ (answer_end ++ body)) =
      append_assoc (ds ++ 13 ∷ 10 ∷ fields) answer_end body
      ∙ append_assoc ds (13 ∷ 10 ∷ fields) (answer_end ++ body) in
    rw flat (value-digits ds (fields ++ (answer_end ++ body)) (decimal_from-digits (suc n) n))
