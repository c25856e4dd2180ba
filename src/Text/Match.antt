-- ===== src/Text/Match.antt =====
-- The header search finds a value behind its name.
use esp32base.Base.{
  ℕ, ◌+◌, ◌<◌, ◌≡◌, refl, sym, ap, ◌∙◌, true, false, List, [], ◌∷◌, ◌++◌, append_assoc, append-nil,
  arith, ==_iff, length, length-append, get_or, get_or-append_length, All, ◌==◌, ltb,
}
use esp32base.Text.{ends_value, match_loop, match_string}

-- behind the value nothing more is taken
match_loop-ignored :
    (pattern : List ℕ) (end p : ℕ) (src : List ℕ)
    → length pattern < p
    → match_loop pattern end p src ≡ []
unfolding match_loop
match_loop-ignored pattern end p [] h = refl
match_loop-ignored pattern end p (c ∷ src) h =
    let past : (p == length pattern) ≡ false = ground arith in
    let past' : ltb p (length pattern) ≡ false = ground arith in
    rw (past, past') (match_loop-ignored pattern end p src h)

match_loop-value :
    (pattern : List ℕ) (end stop : ℕ) (value rest : List ℕ)
    → All (λ c. ends_value end c ≡ false) value
    → ends_value end stop ≡ true
    → match_loop pattern end (length pattern) (value ++ stop ∷ rest) ≡ value
unfolding match_loop
match_loop-value pattern end stop [] rest h e =
    let at : (length pattern == length pattern) ≡ true = ground arith in
    rw (at, e) (match_loop-ignored pattern end (length pattern + 1) rest (omega arith))
match_loop-value pattern end stop (c ∷ value) rest h e =
    let at : (length pattern == length pattern) ≡ true = ground arith in
    rw (at, h.0) (ap (λ t. c ∷ t) (match_loop-value pattern end stop value rest h.1 e))

-- the rest of the pattern, `front` being matched
match_loop-pattern :
    (front back : List ℕ) (end : ℕ) (src : List ℕ)
    → match_loop (front ++ back) end (length front) (back ++ src)
      ≡ match_loop (front ++ back) end (length (front ++ back)) src
unfolding match_loop
match_loop-pattern front [] end src = rw (append-nil front)
match_loop-pattern front (c ∷ back) end src =
    let n = length-append front (c ∷ back) in
    let not_end : (length front == length (front ++ c ∷ back)) ≡ false = ground arith in
    let inside : ltb (length front) (length (front ++ c ∷ back)) ≡ true = ground arith in
    let same : (c == get_or (front ++ c ∷ back) (length front) 0) ≡ true =
      (==_iff c _).1 (sym (get_or-append_length front (c ∷ back) 0)) in
    let next : length (front ++ c ∷ []) ≡ length front + 1 = length-append front (c ∷ []) in
    let ih = match_loop-pattern (front ++ c ∷ []) back end src in
    rw (not_end, inside, same) (rw (append_assoc front (c ∷ []) back, next) at ih)

-- no character of the text before begins the pattern
match_loop-skip :
    (pattern before src : List ℕ) (end : ℕ)
    → 0 < length pattern
    → All (λ c. (c == get_or pattern 0 0) ≡ false) before
    → match_loop pattern end 0 (before ++ src) ≡ match_loop pattern end 0 src
unfolding match_loop
match_loop-skip pattern [] src end p h = refl
match_loop-skip pattern (c ∷ before) src end p h =
    let not_at : (0 == length pattern) ≡ false = ground arith in
    let inside : ltb 0 (length pattern) ≡ true = ground arith in
    rw (not_at, inside, h.0) (match_loop-skip pattern before src end p h.1)

-- Where a non-empty pattern stands behind a text in which its first character does not occur, the
-- search returns the value behind it, up to the first character that ends a value, whatever follows.
pub match_string-value :
    (pattern before value rest : List ℕ) (end stop : ℕ)
    → 0 < length pattern
    → All (λ c. (c == get_or pattern 0 0) ≡ false) before
    → All (λ c. ends_value end c ≡ false) value
    → ends_value end stop ≡ true
    → match_string (before ++ (pattern ++ (value ++ stop ∷ rest))) pattern end ≡ value
unfolding match_string
match_string-value pattern before value rest end stop p h k e =
    match_loop-skip pattern before _ end p h
    ∙ match_loop-pattern [] pattern end (value ++ stop ∷ rest)
    ∙ match_loop-value pattern end stop value rest k e
