-- ===== src/WebSocket/Old.antt =====
-- The old framing: 0x00, text, 0xFF.
use esp32base.Base.{
  ℕ, zero, suc, ◌+◌, ◌-◌, ◌≤◌, ◌<◌, ◌≡◌, ◌≢◌, ap, ◌∙◌, true, false, some, List, [], ◌∷◌, ◌++◌,
  arith, ==_iff, length, get_or, ltb, All, take-append_length, get_or-append_length, ◌==◌,
}
use esp32base.WebSocket.{method_1_end, pack_method_1}

==_false : (a b : ℕ) → a ≢ b → (a == b) ≡ false
==_false a b h = ground arith

-- the 0xFF is looked for up to its place
method_1_end-mark :
    (fuel k : ℕ) (cache : List ℕ) (cache_len i : ℕ)
    → get_or cache (i + k) 0 ≡ 0xff
    → ((j : ℕ) → j < k → get_or cache (i + j) 0 ≢ 0xff)
    → i + k ≤ cache_len
    → k < fuel
    → method_1_end fuel cache cache_len i ≡ some (i + k + 1)
unfolding method_1_end
method_1_end-mark zero k cache cache_len i mark before fits enough = absurd (omega arith)
method_1_end-mark (suc fuel) zero cache cache_len i mark before fits enough =
    let at : i + 0 ≡ i = omega arith in
    let here : (get_or cache i 0 == 0xff) ≡ true = (==_iff _ _).1 (rw at at mark) in rw (here, at)
method_1_end-mark (suc fuel) (suc k) cache cache_len i mark before fits enough =
    let at : i + 0 ≡ i = omega arith in
    let next : i + 1 + k ≡ i + suc k = omega arith in
    let not_here : (get_or cache i 0 == 0xff) ≡ false =
      ==_false (get_or cache i 0) 0xff (rw at at (before 0 (omega arith))) in
    let more : ltb cache_len (i + 1) ≡ false = ground arith in
    let tail : method_1_end fuel cache cache_len (i + 1) ≡ some (i + 1 + k + 1) =
      method_1_end-mark fuel k cache cache_len (i + 1) (rw next mark)
        (λ j h. let e : i + 1 + j ≡ i + suc j = omega arith in rw e (before (suc j) (omega arith)))
        (omega arith) (omega arith) in
    rw (not_here, more) (tail ∙ ap (λ n. some (n + 1)) next)

before_mark :
    (text rest : List ℕ)
    → All (λ c. c ≢ 0xff) text
    → (j : ℕ) → j < length text + 1
    → get_or (0x00 ∷ (text ++ rest)) j 0 ≢ 0xff
before_mark text rest h zero k = omega arith
before_mark [] rest h (suc j) k = absurd (omega arith)
before_mark (c ∷ text) rest h (suc zero) k = h.0
before_mark (c ∷ text) rest h (suc (suc j)) k = before_mark text rest h.1 (suc j) (omega arith)

-- A text without 0xFF, framed, with anything behind it: given at least the bytes before the end mark,
-- the frame is read whole and the packet is the text. One byte less than the frame is enough, since
-- the scan looks one byte too far.
pub pack_method_1-frame :
    (text rest : List ℕ) (cache_len : ℕ)
    → All (λ c. c ≢ 0xff) text
    → length text + 1 ≤ cache_len
    → pack_method_1 (0x00 ∷ (text ++ 0xff ∷ rest)) cache_len ≡ (length text + 2, text)
unfolding pack_method_1
pack_method_1-frame text rest cache_len h fits =
    let cache = 0x00 ∷ (text ++ 0xff ∷ rest) in
    let zeroed : 0 + (length text + 1) ≡ suc (length text) = omega arith in
    let found : method_1_end (cache_len + 2) cache cache_len 0 ≡ some (0 + (length text + 1) + 1) =
      method_1_end-mark (cache_len + 2) (length text + 1) cache cache_len 0
        (rw zeroed (get_or-append_length text (0xff ∷ rest) 0))
        (λ j k. let e : 0 + j ≡ j = omega arith in rw e (before_mark text (0xff ∷ rest) h j k))
        (omega arith) (omega arith) in
    let size : 0 + (length text + 1) + 1 ≡ length text + 2 = omega arith in
    let cut : length text + 2 - 2 ≡ length text = omega arith in
    rw (found, size, cut) (ap (λ t. (length text + 2, t)) (take-append_length text (0xff ∷ rest)))
