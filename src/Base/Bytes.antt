-- ===== src/Base/Bytes.antt =====
-- Bytes, C characters and C strings. A byte is a number below 256, a C string the list of the bytes
-- before its terminating NUL, and a text literal the list of its (ASCII) codes.
use Prim.Native.Nat.{ℕ, ◌+◌, ◌/◌, ◌%◌, zero, suc, ◌<◌}
use Prim.Native.Char.{code}
use Prim.Native.String.{String}
use mathlib.Core.Path.{◌≡◌, refl, ap}
use mathlib.Core.Bool.{Bool, true, false, ◌&&◌, ◌||◌}
use mathlib.Core.List.{List, [], ◌∷◌, ◌++◌}
use native.Mathlib.Omega.{arith}
use esp32base.Base.Tests.{◌==◌, ltb, if◌then◌else◌}
use esp32base.Base.Lists.{All, length, length-append}

-- The codes of a text literal.
abbrev pub codes : String → List ℕ
codes String.[] = []
codes (String.◌∷◌ letter text) = code letter ∷ codes text

abbrev pub IsByte : ℕ → Type 0
IsByte c = c < 256

abbrev pub AllBytes : List ℕ → Type 0
AllBytes = All IsByte

-- A C string holds no NUL.
abbrev pub AllNonzero : List ℕ → Type 0
AllNonzero = All (λ c. 0 < c)

-- The bytes of a C string with its NUL.
abbrev pub c_str : List ℕ → List ℕ
c_str s = s ++ 0 ∷ []

-- What `recv` hands over: at least one byte.
abbrev pub Piece : Type 0
Piece = ℕ × List ℕ

-- the bytes of successive pieces
abbrev pub bytes_of : List Piece → List ℕ
bytes_of [] = []
bytes_of ((b, bs) ∷ ps) = (b ∷ bs) ++ bytes_of ps

-- what `printf` writes for %d and a number that is not negative; a digit per unit of fuel
unfoldable pub decimal_from : ℕ → ℕ → List ℕ
decimal_from zero n = []
decimal_from (suc fuel) n =
    let front = decimal_from fuel (n / 10) in
    if ltb n 10 then (48 + n) ∷ [] else front ++ (48 + n % 10) ∷ []

abbrev pub decimal : ℕ → List ℕ
decimal n = decimal_from (suc n) n

-- the C string that starts a buffer
unfoldable pub until_nul : List ℕ → List ℕ
until_nul [] = []
until_nul (c ∷ cs) = if c == 0 then [] else c ∷ until_nul cs

-- strcmp(a, b) == 0.
unfoldable pub bytes_eq : List ℕ → List ℕ → Bool
bytes_eq [] [] = true
bytes_eq [] (y ∷ ys) = false
bytes_eq (x ∷ xs) [] = false
bytes_eq (x ∷ xs) (y ∷ ys) = x == y && bytes_eq xs ys

-- `p` stands at the front of `s`.
unfoldable pub starts_with : List ℕ → List ℕ → Bool
starts_with [] s = true
starts_with (p ∷ ps) [] = false
starts_with (p ∷ ps) (c ∷ s) = p == c && starts_with ps s

-- strstr(s, p) != NULL
unfoldable pub contains : List ℕ → List ℕ → Bool
contains p [] = starts_with p []
contains p (c ∷ s) = starts_with p (c ∷ s) || contains p s

-- A test that holds at every value under a limit.
unfoldable pub holds_under : (ℕ → Bool) → ℕ → Bool
holds_under test zero = true
holds_under test (suc limit) = holds_under test limit && test limit

pub holds_under-at :
    (test : ℕ → Bool) (limit v : ℕ) → v < limit → holds_under test limit ≡ true → test v ≡ true
unfolding holds_under
holds_under-at test zero v inside all = absurd (omega arith)
holds_under-at test (suc limit) v inside all = ground (arith, holds_under-at test limit v)

pub bytes_eq_refl : (s : List ℕ) → bytes_eq s s ≡ true
unfolding bytes_eq
bytes_eq_refl [] = refl
bytes_eq_refl (x ∷ xs) = ground (arith, bytes_eq_refl xs)

pub length-c_str : (s : List ℕ) → length (c_str s) ≡ length s + 1
length-c_str s = length-append s (0 ∷ [])

-- The string in memory is what stands before its NUL.
pub until_nul-append :
    (text behind : List ℕ) → AllNonzero text → until_nul (text ++ 0 ∷ behind) ≡ text
unfolding until_nul
until_nul-append [] behind h = refl
until_nul-append (c ∷ text) behind h =
    let some_char : (c == 0) ≡ false = ground (arith, h.0) in
    rw some_char (ap (λ t. c ∷ t) (until_nul-append text behind h.1))

pub AllNonzero-append : (xs ys : List ℕ) → AllNonzero xs → AllNonzero ys → AllNonzero (xs ++ ys)
AllNonzero-append [] ys h k = k
AllNonzero-append (x ∷ xs) ys h k = (h.0, AllNonzero-append xs ys h.1 k)
