-- ===== src/Yun/Receive.antt =====
-- What the cloud client delivers of the bytes that it receives.
use esp32base.Base.{
  ℕ, zero, suc, ◌+◌, ◌-◌, ◌≤◌, ◌<◌, ◌≡◌, refl, ap, ◌∙◌, Bool-cases, inl, inr, true, false, some,
  List, [], ◌∷◌, ◌++◌, append_assoc, arith, length, length-append, get_or, ltb, take, drop, All,
  take-append_length, drop-append_length,
}
use esp32base.MiniData.{MiniData, create, get}
use esp32base.MiniData.RoundTrip.{framed, parameter_at, get-create, length-create}
use esp32base.Stream.{Stream, consume, handled, drain}
use esp32base.Stream.Total.{IsValid, length-blit, drain-stop, drain-more, drain_total}
use esp32base.Yun.{data_ret, action_trans_serv_data, yun_frame, store, dtrs_recv_data}

-- the frame in which the server sends a payload
abbrev pub frame : List ℕ → List ℕ
frame p = create (length (data_ret ∷ p)) (data_ret ∷ p)

abbrev pub frames : List (List ℕ) → List ℕ
frames [] = []
frames (p ∷ ps) = frame p ++ frames ps

-- A first element seen through a slice.
take-head :
    (at n x : ℕ) (cache p : List ℕ)
    → take (suc n) (drop at cache) ≡ x ∷ p
    → (get_or cache at 0 ≡ x) × (take n (drop (suc at) cache) ≡ p)
take-head zero n x [] p e = absurd (cc)
take-head zero n x (c ∷ cache) p e = ground arith
take-head (suc at) n x [] p e = absurd (cc)
take-head (suc at) n x (c ∷ cache) p e = take-head at n x cache p e

pub yun_frame-data :
    (cache p : List ℕ)
    → take (length (data_ret ∷ p)) (drop (parameter_at (data_ret ∷ p)) cache) ≡ data_ret ∷ p
    → yun_frame cache (framed (data_ret ∷ p)) ≡ p ∷ []
unfolding yun_frame action_trans_serv_data
yun_frame-data cache p e =
    let at = parameter_at (data_ret ∷ p) in
    let (first, others) = take-head at (length p) data_ret cache p e in
    let next : at + 1 ≡ suc at = omega arith in
    let less : suc (length p) - 1 ≡ length p = omega arith in
    rw (first, next, less) (ap (λ t. t ∷ []) others)

-- the stream that holds these frames, with anything behind them in the array
abbrev holding : List (List ℕ) → List ℕ → MiniData → Stream
holding ps junk cmd = record { cache = frames ps ++ junk; len = length (frames ps); cmd = cmd }

get-empty : (cache : List ℕ) (cmd : MiniData) → get cache 0 cmd ≡ (0, false, cmd)
unfolding get
get-empty cache cmd = refl

module _ (p : List ℕ) (ps : List (List ℕ)) (junk : List ℕ) (cmd : MiniData)
    (short : length p < 255) where
  get-frame :
      get (frames (p ∷ ps) ++ junk) (length (frames (p ∷ ps))) cmd
      ≡ (length (frame p), true, framed (data_ret ∷ p))
  get-frame =
      rw (append_assoc (frame p) (frames ps) junk)
        (get-create (data_ret ∷ p) (frames ps ++ junk) _ cmd (omega arith) (omega arith)
          (omega (arith, length-append (frame p) (frames ps)))).0

  yun_frame-frame : yun_frame (frames (p ∷ ps) ++ junk) (framed (data_ret ∷ p)) ≡ p ∷ []
  yun_frame-frame = yun_frame-data (frames (p ∷ ps) ++ junk) p (
      rw (append_assoc (frame p) (frames ps) junk)
        (get-create (data_ret ∷ p) (frames ps ++ junk) (length (frame p)) cmd (omega arith)
          (omega arith) (omega arith)).1)

  -- what the move leaves behind the frames that are still held
  abbrev left : List ℕ
  left = drop (length (frames ps)) (frame p ++ (frames ps ++ junk))

  consume-frame :
      (cmd' : MiniData)
      → consume (length (frame p)) cmd' (holding (p ∷ ps) junk cmd) ≡ holding ps left cmd'
  unfolding consume
  consume-frame cmd' =
      let size : length (frame p ++ frames ps) - length (frame p) ≡ length (frames ps) =
        omega (arith, length-append (frame p) (frames ps)) in
      rw (
        size,
        append_assoc (frame p) (frames ps) junk,
        drop-append_length (frame p) (frames ps ++ junk),
        take-append_length (frames ps) junk,
      )

drain-frames :
    (ps : List (List ℕ)) (junk : List ℕ) (cmd : MiniData) (fuel : ℕ)
    → All (λ p. length p < 255) ps
    → length (frames ps) < fuel
    → (s' : Stream) × (drain yun_frame fuel (holding ps junk cmd) ≡ some (s', ps)) × (s'.len ≡ 0)
unfolding handled
drain-frames ps junk cmd zero short h = absurd (omega arith)
drain-frames [] junk cmd (suc fuel) short h = (
  holding [] junk cmd,
  drain-stop yun_frame fuel (holding [] junk cmd) false cmd (get-empty junk cmd),
  refl,
)
drain-frames (p ∷ ps) junk cmd (suc fuel) short h =
    let size = length-create (data_ret ∷ p) (omega arith) (omega arith) in
    let cmd' = framed (data_ret ∷ p) in
    let (s', e, none_left) =
      drain-frames ps (left p ps junk cmd short.0) cmd' fuel short.1
        (omega (arith, length-append (frame p) (frames ps))) in
    (
      s',
      drain-more yun_frame fuel (holding (p ∷ ps) junk cmd) (length (frame p)) true cmd'
            (get-frame p ps junk cmd short.0) (omega arith)
          ∙ rw (consume-frame p ps junk cmd short.0 cmd', e)
              (ap (λ t. some (s', t ++ ps)) (yun_frame-frame p ps junk cmd short.0)),
      none_left,
    )

store-frames :
    (ps : List (List ℕ)) (s : Stream)
    → s.len ≡ 0
    → length (frames ps) ≤ 1399
    → store s (frames ps) ≡ holding ps (drop (length (frames ps)) s.cache) s.cmd
unfolding store
store-frames ps s e h =
    let n = length (frames ps) in
    let guard : ltb 1399 (s.len + n) ≡ false = ground arith in
    let size : 0 + n ≡ n = omega arith in rw (guard, e, size)

store-IsValid :
    (s : Stream) (param : List ℕ)
    → IsValid 1400 s
    → length param ≤ 1400
    → IsValid 1400 (store s param)
unfolding store
store-IsValid s param v h = elim (Bool-cases (ltb 1399 (s.len + length param))) [
  | inl over ↦
      rw over
        (record { size = length-blit s.cache param 0 (omega arith) ∙ v.size; fits = omega arith })
  | inr room ↦ rw room (record {
    size = length-blit s.cache param s.len (ground arith) ∙ v.size;
    fits = ground arith;
  })
]

-- Frames of payloads of at most 254 bytes, received together into an empty cache that they fit, are
-- delivered: the callback is given exactly those payloads, in order, and the cache is empty again.
pub dtrs_recv_data-frames :
    (ps : List (List ℕ)) (s : Stream)
    → s.len ≡ 0
    → All (λ p. length p < 255) ps
    → length (frames ps) ≤ 1399
    → (s' : Stream) × (dtrs_recv_data s (frames ps) ≡ some (s', ps)) × (s'.len ≡ 0)
unfolding dtrs_recv_data
dtrs_recv_data-frames ps s e short h =
    let n = length (frames ps) in
    rw (store-frames ps s e h) (drain-frames ps (drop n s.cache) s.cmd (suc n) short (omega arith))

-- Whatever arrives, in pieces of at most 1400 bytes, the handler returns, and the cache stays valid:
-- it keeps its 1400 bytes, of which at most 1400 are held.
pub dtrs_recv_data_total :
    (s : Stream) (param : List ℕ)
    → IsValid 1400 s
    → length param ≤ 1400
    → (s' : Stream) × (out : List (List ℕ)) × (dtrs_recv_data s param ≡ some (s', out))
      × IsValid 1400 s'
unfolding dtrs_recv_data
dtrs_recv_data_total s param v h =
    let s1 = store s param in
    let (s', out, e, valid, _) =
      drain_total yun_frame 1400 (suc s1.len) s1 (omega arith) (store-IsValid s param v h) in
    (s', out, e, valid)

-- A longer piece is copied past the end of the cache: the guard empties the cache and does not look
-- at the piece's own length.
pub store-overflow :
    (s : Stream) (param : List ℕ)
    → IsValid 1400 s
    → 1400 < length param
    → 1400 < length (store s param).cache
unfolding store
store-overflow s param v h =
    let guard : ltb 1399 (s.len + length param) ≡ true = ground arith in
    rw guard (omega (arith, length-append param (drop (0 + length param) s.cache)))
