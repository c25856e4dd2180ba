-- ===== src/Yun/Partial.antt =====
-- A frame of which only the first part is in the cache: `miniDataGet` waits for the rest.
use esp32base.Base.{
  ℕ, zero, suc, ◌+◌, ◌≤◌, ◌<◌, ◌≡◌, refl, ap, ◌∙◌, Bool-cases, inl, inr, true, false, List, [], ◌∷◌,
  ◌++◌, arith, ◌==◌, length, get_or, ltb,
}
use esp32base.MiniData.{MiniData, find_byte, get_parameter, get_frame, get, le16}
use esp32base.MiniData.RoundTrip.{length-create, create_short, create_long}
use esp32base.Yun.{data_ret}
use esp32base.Yun.Receive.{frame}

get_short-partial :
    (b : ℕ) (xs : List ℕ) (len : ℕ) (cmd : MiniData)
    → 3 ≤ len
    → 0 < b
    → b < 255
    → len < b + 3
    → get (0xaf ∷ b ∷ xs) len cmd
      ≡ (0, false, record cmd { frame_head = 0; head = 0xaf; parameter_len = b })
unfolding get get_frame get_parameter find_byte
get_short-partial b xs zero cmd h p q k = absurd (omega arith)
get_short-partial b xs (suc len) cmd h p q k =
    let enough : ltb (suc len) 3 ≡ false = ground arith in
    let inside : ltb 0 (suc len) ≡ true = ground arith in
    let no_ext : (b == 0xff) ≡ false = ground arith in
    let some_parameter : (b == 0) ≡ false = ground arith in
    let late : ltb (suc len) (b + 3) ≡ true = ground arith in
    rw (enough, inside, no_ext, some_parameter, late) refl

get_long-partial :
    (xs : List ℕ) (len : ℕ) (cmd : MiniData)
    → 3 ≤ len
    → len < 260
    → get (0xaf ∷ 0xff ∷ 0xff ∷ xs) len cmd ≡ (
      0,
      false,
      record cmd { frame_head = 0; head = 0xaf; parameter_len = le16 0xff (get_or xs 0 0) },
    )
unfolding get get_frame get_parameter find_byte
get_long-partial xs zero cmd h k = absurd (omega arith)
get_long-partial xs (suc len) cmd h k =
    let enough : ltb (suc len) 3 ≡ false = ground arith in
    let inside : ltb 0 (suc len) ≡ true = ground arith in
    let some_parameter : (le16 0xff (get_or xs 0 0) == 0) ≡ false = ground arith in
    let late : ltb (suc len) (le16 0xff (get_or xs 0 0) + 5) ≡ true = ground arith in
    rw (enough, inside, some_parameter, late) refl

pub get_few :
    (cache : List ℕ) (len : ℕ) (cmd : MiniData) → len < 3 → get cache len cmd ≡ (0, false, cmd)
unfolding get
get_few cache len cmd h = let few : ltb len 3 ≡ true = ground arith in rw few

abbrev pub Waits : List ℕ → ℕ → MiniData → Type 0
Waits cache len cmd = (cmd' : MiniData) × (get cache len cmd ≡ (0, false, cmd'))

-- A frame of which only a first part has arrived is waited for, whatever the array holds behind.
pub get-partial :
    (p part rest more junk : List ℕ) (cmd : MiniData)
    → length p < 255
    → part ++ rest ≡ frame p ++ more
    → length part < length (frame p)
    → Waits (part ++ junk) (length part) cmd
get-partial p [] rest more junk cmd short e h = (cmd, get_few junk 0 cmd (omega arith))
get-partial p (a ∷ []) rest more junk cmd short e h = (cmd, get_few _ 1 cmd (omega arith))
get-partial p (a ∷ b ∷ []) rest more junk cmd short e h = (cmd, get_few _ 2 cmd (omega arith))
get-partial p (a ∷ b ∷ c ∷ xs) rest more junk cmd short e h =
    let size = length-create (data_ret ∷ p) (omega arith) (omega arith) in
    elim (Bool-cases (ltb (suc (length p)) 0xff)) [
      | inl s ↦
          let e' =
            e ∙ ap (λ t. t ++ more) (create_short (data_ret ∷ p) (omega arith) (ground arith)) in
          let first : a ≡ 0xaf = ap (λ t. get_or t 0 0) e' in
          let second : b ≡ suc (length p) = ap (λ t. get_or t 1 0) e' in
          let room : length (frame p) ≡ suc (length p) + 2 + 1 = ground arith in
          (
            record cmd { frame_head = 0; head = 0xaf; parameter_len = b },
            rw first (
                get_short-partial b (c ∷ (xs ++ junk)) (suc (suc (suc (length xs)))) cmd
                  (omega arith) (omega arith) (ground arith) (omega arith)),
          )
      | inr l ↦
          let e' = e ∙ ap (λ t. t ++ more) (create_long (data_ret ∷ p) (ground arith)) in
          let first : a ≡ 0xaf = ap (λ t. get_or t 0 0) e' in
          let second : b ≡ 0xff = ap (λ t. get_or t 1 0) e' in
          let third : c ≡ 0xff = ap (λ t. get_or t 2 0) e' in
          (
            record cmd {
              frame_head = 0;
              head = 0xaf;
              parameter_len = le16 0xff (get_or (xs ++ junk) 0 0);
            },
            rw (first, second, third)
                (get_long-partial (xs ++ junk) (suc (suc (suc (length xs)))) cmd (omega arith)
                  (ground arith)),
          )
    ]
