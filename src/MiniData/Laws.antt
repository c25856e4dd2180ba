-- ===== src/MiniData/Laws.antt =====
-- What `miniDataGet` returns on every input: bounds of the result, and of what it reads.
use esp32base.Base.{
  ℕ, zero, suc, ◌+◌, ◌≤◌, ◌<◌, ◌≡◌, refl, Bool-cases, inl, inr, true, List, [], ◌∷◌, ◌++◌, arith,
  ◌==◌, ltb, length, get_or, get_or-append_lt,
}
use esp32base.MiniData.{MiniData, Got, find_byte, get_parameter, get_frame, get}

pub find_byte-le : (b : ℕ) (cache : List ℕ) (n : ℕ) → find_byte b cache n ≤ n
unfolding find_byte
find_byte-le b cache zero = omega arith
find_byte-le b [] (suc n) = omega arith
find_byte-le b (x ∷ xs) (suc n) = ground (arith, find_byte-le b xs n)

-- What a result promises to a caller that removes that many bytes of `len`; read by `get-le` and
-- `get-framed`.
pub record IsSound (cache : List ℕ) (len : ℕ) (got : Got) : Type 0 where
  pub within : got.0 ≤ len
  pub framed :
      got.1 ≡ true
      → (got.2.frame_len ≡ got.0)
        × (got.2.parameter + got.2.parameter_len + 1 ≡ got.0)
        × (got.2.end ≡ 0xfa)
        × (get_or cache (got.2.parameter + got.2.parameter_len) 0 ≡ 0xfa)
        × (0 < got.2.parameter_len)

get_parameter-IsSound :
    (cache : List ℕ) (len n base : ℕ) (c : MiniData)
    → n + 1 ≡ base
    → 1 ≤ len
    → IsSound cache len (get_parameter cache len n base c)
unfolding get_parameter
get_parameter-IsSound cache len n base c e h = ground arith

get_frame-IsSound :
    (cache : List ℕ) (len : ℕ) (c : MiniData) → 1 ≤ len → IsSound cache len (get_frame cache len c)
unfolding get_frame
get_frame-IsSound cache len c h = elim (Bool-cases (get_or cache 1 0 == 0xff)) [
  | inl long ↦ rw long (get_parameter-IsSound cache len 4 5 _ (omega arith) h)
  | inr short ↦ rw short (get_parameter-IsSound cache len 2 3 _ (omega arith) h)
]

find_byte-zero :
    (b : ℕ) (cache : List ℕ) (n : ℕ) → 0 < n → find_byte b cache n ≡ 0 → get_or cache 0 0 ≡ b
unfolding find_byte
find_byte-zero b cache zero h e = absurd (omega arith)
find_byte-zero b [] (suc n) h e = absurd (omega arith)
find_byte-zero b (x ∷ xs) (suc n) h e = ground arith

pub get-IsSound :
    (cache : List ℕ) (cache_len : ℕ) (pcmd : MiniData)
    → IsSound cache cache_len (get cache cache_len pcmd)
unfolding get
get-IsSound cache cache_len pcmd = elim (Bool-cases (ltb cache_len 3)) [
  | inl short ↦ rw short (record { within = omega arith; framed = λ e. cc })
  | inr long ↦ rw long (elim (Bool-cases (ltb 0 (find_byte 0xaf cache cache_len))) [
    | inl noise ↦ rw noise (record { within = find_byte-le 0xaf cache cache_len; framed = λ e. cc })
    | inr front ↦ rw front (get_frame-IsSound cache cache_len _ (ground arith))
  ])
]

-- On every input `miniDataGet` returns at most `cache_len`: the caller's `len -= tmp` cannot wrap.
pub get-le :
    (cache : List ℕ) (cache_len : ℕ) (pcmd : MiniData) → (get cache cache_len pcmd).0 ≤ cache_len
get-le cache cache_len pcmd = (get-IsSound cache cache_len pcmd).within

get-head :
    (cache : List ℕ) (cache_len : ℕ) (pcmd : MiniData)
    → (get cache cache_len pcmd).1 ≡ true
    → get_or cache 0 0 ≡ 0xaf
unfolding get
get-head cache cache_len pcmd = elim (Bool-cases (ltb cache_len 3)) [
  | inl short ↦ rw short (λ e. cc)
  | inr long ↦ rw long (elim (Bool-cases (ltb 0 (find_byte 0xaf cache cache_len))) [
    | inl noise ↦ rw noise (λ e. cc)
    | inr front ↦ λ e. find_byte-zero 0xaf cache cache_len (ground arith) (ground arith)
  ])
]

-- When `miniDataGet` reports success, the buffer begins with the head byte 0xAF; the parameter is not
-- empty, and ends at the byte before the last of the frame, which is the end mark 0xFA; and the frame
-- length that it stores is its result.
pub get-framed :
    (cache : List ℕ) (cache_len : ℕ) (pcmd : MiniData)
    → (get cache cache_len pcmd).1 ≡ true
    → let (n, found, cmd) = get cache cache_len pcmd in
      (get_or cache 0 0 ≡ 0xaf)
      × (0 < cmd.parameter_len)
      × (cmd.parameter + cmd.parameter_len + 1 ≡ n)
      × (get_or cache (cmd.parameter + cmd.parameter_len) 0 ≡ 0xfa)
      × (cmd.frame_len ≡ n)
get-framed cache cache_len pcmd e =
    let (size, ends, _, mark, some_bytes) = (get-IsSound cache cache_len pcmd).framed e in
    (get-head cache cache_len pcmd e, some_bytes, ends, mark, size)

-- `find_byte` looks at the first `n` bytes alone.
find_byte-append :
    (b : ℕ) (cache rest : List ℕ) (n : ℕ)
    → n ≤ length cache
    → find_byte b (cache ++ rest) n ≡ find_byte b cache n
unfolding find_byte
find_byte-append b cache rest zero h = refl
find_byte-append b [] rest (suc n) h = absurd (omega arith)
find_byte-append b (x ∷ xs) rest (suc n) h = ground (arith, find_byte-append b xs rest n)

get_parameter-append :
    (cache rest : List ℕ) (len n base : ℕ) (c : MiniData)
    → n + 1 ≡ base
    → len ≤ length cache
    → get_parameter (cache ++ rest) len n base c ≡ get_parameter cache len n base c
unfolding get_parameter
get_parameter-append cache rest len n base c e h =
    elim (Bool-cases (ltb len (c.parameter_len + base))) [
      | inl short ↦ rw short
      | inr long ↦ rw (get_or-append_lt cache rest (n + c.parameter_len) 0 (ground arith))
    ]

-- `miniDataGet` reads nothing beyond the first `cache_len` bytes, and the first four: what follows
-- them in memory does not change its result.
pub get-append :
    (cache rest : List ℕ) (cache_len : ℕ) (pcmd : MiniData)
    → cache_len ≤ length cache
    → 4 ≤ length cache
    → get (cache ++ rest) cache_len pcmd ≡ get cache cache_len pcmd
unfolding get get_frame
get-append cache rest cache_len pcmd h four = rw (
  find_byte-append 0xaf cache rest cache_len h,
  get_or-append_lt cache rest 1 0 (omega arith),
  get_or-append_lt cache rest 2 0 (omega arith),
  get_or-append_lt cache rest 3 0 (omega arith),
  get_parameter-append cache rest cache_len 4 5 _ (omega arith) h,
  get_parameter-append cache rest cache_len 2 3 _ (omega arith) h,
)
