-- ===== src/Yun/Pieces.antt =====
-- The cloud client's frames in the pieces in which a stream socket hands them over.
use esp32base.Base.{
  concat, ℕ, suc, ◌+◌, ◌≤◌, ◌<◌, ◌≡◌, refl, sym, ap, ◌∙◌, false, Option, some, List, [], ◌∷◌, ◌++◌,
  append_assoc, arith, length, length-append, ltb, take, drop, All, take-append_length, ◌>>=◌,
}
use esp32base.MiniData.RoundTrip.{length-create}
use esp32base.Stream.{Stream}
use esp32base.Yun.{data_ret, store, dtrs_recv_data}
use esp32base.Yun.Receive.{frame, frames}
use esp32base.Yun.Drained.{StopsShort, Held, Drained, over, drain-pieces}

-- the callback's runs on the pieces in which the bytes arrive, and all that the user was given
unfoldable pub feed : Stream → List (List ℕ) → Option (Stream × List (List ℕ))
feed s [] = some (s, [])
feed s (x ∷ xs) = do (s1, out) ← dtrs_recv_data s x; (s2, more) ← feed s1 xs; some (s2, out ++ more)

store-Held :
    (ps : List (List ℕ)) (x rest : List ℕ) (s : Stream) (h : Held ps (x ++ rest) s)
    → length x ≤ 1140
    → store s x ≡ over (h.part ++ x) (drop (length h.part + length x) s.cache) s.cmd
unfolding store
store-Held ps x rest s h fits =
    let guard : ltb 1399 (s.len + length x) ≡ false = ground (arith, h.len_is, h.small) in
    let front : take (length h.part) s.cache ≡ h.part =
      ap (take (length h.part)) h.cache_is ∙ take-append_length h.part h.junk in
    rw (guard, h.len_is, front, length-append h.part x, append_assoc h.part x) refl

dtrs_recv_data-Held :
    (ps : List (List ℕ)) (x rest : List ℕ) (s : Stream)
    → Held ps (x ++ rest) s
    → length x ≤ 1140
    → Drained ps rest (dtrs_recv_data s x)
unfolding dtrs_recv_data
dtrs_recv_data-Held ps x rest s h fits = rw (store-Held ps x rest s h fits) (
    drain-pieces ps (h.part ++ x) rest _ s.cmd (suc (length (h.part ++ x))) h.short
      (append_assoc h.part x rest ∙ h.awaited) (omega arith))

held-nothing : (ps : List (List ℕ)) (s : Stream) → Held ps [] s → (ps ≡ []) × (s.len ≡ 0)
held-nothing [] s h = (refl, h.len_is ∙ h.stops)
held-nothing (p ∷ ps) s h = absurd (
    omega (
      arith,
      ap length h.awaited,
      h.stops,
      length-append h.part [],
      length-append (frame p) (frames ps),
    ))

feed-Held :
    (ps pieces : List (List ℕ)) (s : Stream)
    → Held ps (concat pieces) s
    → All (λ x. length x ≤ 1140) pieces
    → (s' : Stream) × (feed s pieces ≡ some (s', ps)) × (s'.len ≡ 0)
unfolding feed
feed-Held ps [] s h small =
    let (none_left, empty) = held-nothing ps s h in
    (s, ap (λ t. some (s, t)) (sym none_left), empty)
feed-Held ps (x ∷ xs) s h small =
    let d = dtrs_recv_data-Held ps x (concat xs) s h small.0 in
    let (s', e, empty) = feed-Held d.left xs d.after d.held small.1 in
    (s', rw (d.run, e, d.all_of) refl, empty)

StopsShort-nothing : (ps : List (List ℕ)) → All (λ p. length p < 255) ps → StopsShort ps []
StopsShort-nothing [] short = refl
StopsShort-nothing (p ∷ ps) short =
    let size = length-create (data_ret ∷ p) (omega arith) (omega arith) in omega arith

-- Frames of payloads of at most 254 bytes, cut anywhere into pieces of at most 1140 bytes: the runs
-- of the callback on these pieces, from an empty cache, give the user exactly those payloads, in
-- order, and end with an empty cache.
pub feed-frames :
    (ps pieces : List (List ℕ)) (s : Stream)
    → s.len ≡ 0
    → All (λ p. length p < 255) ps
    → All (λ x. length x ≤ 1140) pieces
    → concat pieces ≡ frames ps
    → (s' : Stream) × (feed s pieces ≡ some (s', ps)) × (s'.len ≡ 0)
feed-frames ps pieces s empty short small e =
    feed-Held ps pieces s
      (record {
        part = [];
        junk = s.cache;
        cache_is = refl;
        len_is = empty;
        awaited = e;
        small = omega arith;
        stops = StopsShort-nothing ps short;
        short = short;
      })
      small
