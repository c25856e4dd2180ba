-- ===== src/WebServer/Send.antt =====
-- What the web server sends, and how it serves a request.
use esp32base.Base.{
  ℕ, zero, suc, ◌+◌, ◌-◌, ◌≤◌, ◌<◌, ◌≡◌, refl, sym, ap, ◌∙◌, Bool-cases, inl, inr, false, none,
  some, List, [], ◌∷◌, ◌++◌, append_assoc, ◌==◌, ltb, arith, length, length-drop, length-take,
  take-take, append-nil, take, drop, All,
}
use esp32base.WebServer.{limited, Returned, send_from, web_send_client}

-- The bytes that the calls of `write` took, of those each was given.
abbrev pub taken : List Returned → List (List ℕ) → List ℕ
taken [] parts = []
taken (r ∷ returns) [] = []
taken (none ∷ returns) (part ∷ parts) = []
taken (some n ∷ returns) (part ∷ parts) = take n part ++ taken returns parts

-- a call takes no more than it is given, here at most 500 bytes and what is left
abbrev pub IsWrite : List ℕ → Returned → Type 0
IsWrite part none = Unit
IsWrite part (some n) = n ≤ length part

abbrev pub AreWrites : List Returned → List (List ℕ) → Type 0
AreWrites [] parts = Unit
AreWrites (r ∷ returns) [] = Unit
AreWrites (r ∷ returns) (part ∷ parts) = IsWrite part r × AreWrites returns parts

abbrev pub IsShort : List ℕ → Type 0
IsShort part = (0 < length part) × (length part ≤ 500)

take-join : (a n k : ℕ) (xs : List ℕ) → k ≡ a + n → take a xs ++ take n (drop a xs) ≡ take k xs
take-join zero n k xs e = ap (λ t. take t xs) (omega arith)
take-join (suc a) zero zero [] e = absurd (omega arith)
take-join (suc a) (suc n) zero [] e = absurd (omega arith)
take-join (suc a) zero (suc k) [] e = refl
take-join (suc a) (suc n) (suc k) [] e = refl
take-join (suc a) n zero (x ∷ xs) e = absurd (omega arith)
take-join (suc a) n (suc k) (x ∷ xs) e = ap (λ t. x ∷ t) (take-join a n k xs (omega arith))

-- the part that one call is given
module _ (data_out : List ℕ) (bblen : ℕ) (h : bblen ≤ length data_out)
    (more : (length data_out - bblen == 0) ≡ false) where
  abbrev part : List ℕ
  part = take (limited (length data_out - bblen)) (drop bblen data_out)

  limited_lem :
      (0 < limited (length data_out - bblen))
      × (limited (length data_out - bblen) ≤ 500)
      × (limited (length data_out - bblen) ≤ length data_out - bblen)
  limited_lem = ground arith

  length-part : length part ≡ limited (length data_out - bblen)
  length-part =
      let (_, _, le) = limited_lem in
      let size = length-drop bblen data_out in
      length-take (limited (length data_out - bblen)) (drop bblen data_out) (omega arith)

  part-IsShort : IsShort part
  part-IsShort =
      let (pos, le, _) = limited_lem in let size = length-part in (omega arith, omega arith)

  part-taken :
      (n : ℕ)
      → n ≤ length part
      → (bblen + n ≤ length data_out)
        × (take bblen data_out ++ take n part ≡ take (bblen + n) data_out)
  part-taken n k =
      let (pos, le, le') = limited_lem in
      let size = length-part in
      (
        omega arith,
        ap (λ t. take bblen data_out ++ t)
              (take-take n (limited (length data_out - bblen)) (drop bblen data_out) (omega arith))
            ∙ take-join bblen n (bblen + n) data_out refl,
      )

send_from-lem :
    (returns : List Returned) (data_out : List ℕ) (bblen : ℕ)
    → bblen ≤ length data_out
    → AreWrites returns (send_from returns data_out bblen).0
    → All IsShort (send_from returns data_out bblen).0
      × ((send_from returns data_out bblen).1 ≤ length data_out)
      × (take bblen data_out ++ taken returns (send_from returns data_out bblen).0
          ≡ take (send_from returns data_out bblen).1 data_out)
unfolding send_from
send_from-lem [] data_out bblen h k = (tt, h, append-nil (take bblen data_out))
send_from-lem (none ∷ returns) data_out bblen h k =
    let inside : ltb (length data_out) bblen ≡ false = ground arith in
    elim (Bool-cases (length data_out - bblen == 0)) [
      | inl end ↦ rw (inside, end) (tt, h, append-nil (take bblen data_out))
      | inr more ↦
          rw (inside, more)
            ((part-IsShort data_out bblen h more, tt), h, append-nil (take bblen data_out))
    ]
send_from-lem (some n ∷ returns) data_out bblen h k =
    let inside : ltb (length data_out) bblen ≡ false = ground arith in
    elim (Bool-cases (length data_out - bblen == 0)) [
      | inl end ↦ rw (inside, end) (tt, h, append-nil (take bblen data_out))
      | inr more ↦
          let (k0, ks) = rw (inside, more) at k in
          let (within, joined) = part-taken data_out bblen h more n k0 in
          let (short, bound, all) = send_from-lem returns data_out (bblen + n) within ks in
          rw (inside, more)
            (
              (part-IsShort data_out bblen h more, short),
              bound,
              sym (append_assoc (take bblen data_out) _ _)
                  ∙ ap (λ t. t ++ taken returns (send_from returns data_out (bblen + n)).0) joined
                  ∙ all,
            )
    ]

-- Whatever `write` takes of what it is given, no call is given more than 500 bytes or none, and what
-- was taken is the front of the data, as far as the loop came.
pub web_send_client_lem :
    (returns : List Returned) (data_out : List ℕ)
    → AreWrites returns (web_send_client returns data_out).0
    → All IsShort (web_send_client returns data_out).0
      × (taken returns (web_send_client returns data_out).0
          ≡ take (web_send_client returns data_out).1 data_out)
unfolding web_send_client
web_send_client_lem returns data_out k =
    let (short, bound, all) = send_from-lem returns data_out 0 (omega arith) k in (short, all)
