-- ===== src/Device/Search.antt =====
-- What a reader gets back from the answer to a device search.
use esp32base.Base.{
  ℕ, zero, suc, ◌≡◌, ◌≢◌, ◌≤◌, refl, Bool, true, false, not, ◌&&◌, leb, length, AllNonzero, Option,
  none, some, List, [], ◌∷◌, ◌++◌, append_assoc, ◌==◌, if◌then◌else◌, arith, get_or, drop, All,
  c_str, codes, ◌>>=◌,
}
use esp32base.Device.{Names, gen_json, search_frame_data}

-- the text up to a mark, and what is behind the mark
until : ℕ → List ℕ → Option (List ℕ × List ℕ)
until mark [] = none
until mark (c ∷ s) =
    let rest = until mark s >>= λ (a, b). some (c ∷ a, b) in
    if c == mark then some ([], s) else rest

-- a text that must stand at the front, taken off
expect : List ℕ → List ℕ → Option (List ℕ)
expect [] s = some s
expect (p ∷ ps) [] = none
expect (p ∷ ps) (c ∷ s) = let rest = expect ps s in if p == c then rest else none

-- a character that stands for itself in a JSON string: no quotation mark, backslash or control character
unfoldable pub is_plain : ℕ → Bool
is_plain c = leb 32 c && (not (c == 34) && not (c == 92))

-- the characters of a string up to its closing quotation mark
string_end : List ℕ → Option (List ℕ × List ℕ)
string_end [] = none
string_end (c ∷ s) =
    let rest = string_end s >>= λ (a, b). some (c ∷ a, b) in
    if c == 34 then some ([], s) else if is_plain c then rest else none

-- a string in quotes
quoted : List ℕ → Option (List ℕ × List ℕ)
quoted s = expect (codes "\"") s >>= string_end

-- a member of an object: its name, its value, and the rest
member : List ℕ → Option (List ℕ × List ℕ × List ℕ)
member s = do
  (name, s1) ← quoted s
  s2 ← expect (codes ":") s1
  (value, s3) ← quoted s2
  some (name, value, s3)

-- the members behind the brace, with fuel
members : ℕ → List ℕ → Option (List (List ℕ × List ℕ))
members zero s = none
members (suc fuel) s = do
  (name, value, s1) ← member s
  let rest = members fuel (drop 1 s1) >>= λ others. some ((name, value) ∷ others) in
      let ends = if get_or s1 0 0 == 125 then some ((name, value) ∷ []) else none in
      if get_or s1 0 0 == 44 then rest else ends

-- A reader of the answers for the part of JSON that they can be: objects of strings without escapes, where
-- a backslash or a control character in a string is refused. It gives the identifier and the members.
pub read_answer : List ℕ → Option (List ℕ × List (List ℕ × List ℕ))
read_answer s = do
  s1 ← expect (codes "RMSD,") s
  (uuid, s2) ← until 44 s1
  s3 ← expect (codes "{") s2
  object ← members 8 s3
  some (uuid, object)

until-mark :
    (mark : ℕ) (xs rest : List ℕ)
    → All (λ c. c ≢ mark) xs
    → until mark (xs ++ mark ∷ rest) ≡ some (xs, rest)
unfolding until
until-mark mark [] rest h = ground arith
until-mark mark (x ∷ xs) rest h =
    let other : (x == mark) ≡ false = ground (arith, h.0) in
    rw (other, until-mark mark xs rest h.1) refl

abbrev pub Unquoted : List ℕ → Type 0
Unquoted s = All (λ c. is_plain c ≡ true) s

string_end-quote : (xs rest : List ℕ) → Unquoted xs → string_end (xs ++ 34 ∷ rest) ≡ some (xs, rest)
unfolding string_end
string_end-quote [] rest h = refl
string_end-quote (x ∷ xs) rest h =
    let other : (x == 34) ≡ false = unfold is_plain in ground (arith, h.0) in
    rw (other, h.0, string_end-quote xs rest h.1) refl

-- a member as `searchFrameData` writes it, for a name of one letter
member_lem :
    (letter : ℕ) (value rest : List ℕ)
    → is_plain letter ≡ true
    → Unquoted value
    → member (34 ∷ letter ∷ 34 ∷ 58 ∷ 34 ∷ (value ++ 34 ∷ rest)) ≡ some (letter ∷ [], value, rest)
unfolding member quoted expect
member_lem letter value rest h k =
    rw
      (
        string_end-quote (letter ∷ []) (58 ∷ 34 ∷ (value ++ 34 ∷ rest)) (h, tt),
        string_end-quote value rest k,
      )
      refl

-- names that the answer can carry: an identifier without a comma, names of characters that stand for
-- themselves in JSON, since nothing is escaped, and texts that fit `gen_json[500]` and `sebuf[600]`
pub record ReadableNames (n : Names) : Type 0 where
  pub uuid : All (λ c. c ≢ 44) n.devuuid
  pub uuid_text : AllNonzero n.devuuid
  pub name : Unquoted n.devname
  pub flag : Unquoted n.devflag
  pub publish : Unquoted n.publish
  pub subscr : Unquoted n.subscr
  pub json_fits : length (c_str (gen_json n)) ≤ 500
  pub answer_fits : length (search_frame_data n) ≤ 600

members-more :
    (fuel letter : ℕ) (value rest : List ℕ) (others : List (List ℕ × List ℕ))
    → is_plain letter ≡ true
    → Unquoted value
    → members fuel rest ≡ some others
    → members (suc fuel) (34 ∷ letter ∷ 34 ∷ 58 ∷ 34 ∷ (value ++ 34 ∷ 44 ∷ rest))
      ≡ some ((letter ∷ [], value) ∷ others)
unfolding members
members-more fuel letter value rest others h k more =
    rw (member_lem letter value (44 ∷ rest) h k, more) refl

members-last :
    (fuel letter : ℕ) (value rest : List ℕ)
    → is_plain letter ≡ true
    → Unquoted value
    → members (suc fuel) (34 ∷ letter ∷ 34 ∷ 58 ∷ 34 ∷ (value ++ 34 ∷ 125 ∷ rest))
      ≡ some ((letter ∷ [], value) ∷ [])
unfolding members
members-last fuel letter value rest h k = rw (member_lem letter value (125 ∷ rest) h k) refl

json_c_str :
    (n : Names)
    → c_str (gen_json n)
      ≡ 123
        ∷ 34
        ∷ 102
        ∷ 34
        ∷ 58
        ∷ 34
        ∷ (n.devflag
            ++ 34
              ∷ 44
              ∷ 34
              ∷ 110
              ∷ 34
              ∷ 58
              ∷ 34
              ∷ (n.devname
                  ++ 34
                    ∷ 44
                    ∷ 34
                    ∷ 115
                    ∷ 34
                    ∷ 58
                    ∷ 34
                    ∷ (n.subscr
                        ++ 34 ∷ 44 ∷ 34 ∷ 112 ∷ 34 ∷ 58 ∷ 34 ∷ (n.publish ++ 34 ∷ 125 ∷ 0 ∷ []))))
unfolding gen_json
json_c_str n = simp append_assoc

-- An answer to a search over MQTT is read back as a JSON object of strings: where the identifier has
-- no comma, the names no quotation mark, backslash or control character, none of which is escaped, and
-- the texts fit their buffers, a reader gets the identifier, and the flag, the name, the subscribed and
-- the published topic under "f", "n", "s" and "p".
pub search_frame_data-read :
    (n : Names)
    → ReadableNames n
    → read_answer (search_frame_data n)
      ≡ some (
        n.devuuid,
        (codes "f", n.devflag)
            ∷ (codes "n", n.devname)
            ∷ (codes "s", n.subscr)
            ∷ (codes "p", n.publish)
            ∷ [],
      )
unfolding read_answer search_frame_data gen_json expect
search_frame_data-read n r =
    let p = members-last 4 112 n.publish (0 ∷ []) (unfold is_plain in refl) r.publish in
    let s = members-more 5 115 n.subscr _ _ (unfold is_plain in refl) r.subscr p in
    let m = members-more 6 110 n.devname _ _ (unfold is_plain in refl) r.name s in
    let f = members-more 7 102 n.devflag _ _ (unfold is_plain in refl) r.flag m in
    rw (json_c_str n, until-mark 44 n.devuuid _ r.uuid, f) refl
