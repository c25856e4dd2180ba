-- ===== src/Yun/Drained.antt =====
-- One run of the receive loop on a cache that ends inside a frame.
use esp32base.Base.{
  split-longer, ℕ, zero, suc, ◌-◌, ◌<◌, ◌≡◌, refl, ap, ◌∙◌, Bool-cases, inl, inr, true, false,
  Option, some, List, [], ◌∷◌, ◌++◌, append_assoc, arith, length, length-append, ltb, drop, All,
  take-append_length, drop-append_length,
}
use esp32base.MiniData.{MiniData}
use esp32base.MiniData.RoundTrip.{framed, get-create, length-create}
use esp32base.Stream.{Stream, consume, prepend, handled, drain}
use esp32base.Stream.Total.{drain-stop, drain-more}
use esp32base.Yun.{data_ret, yun_frame}
use esp32base.Yun.Receive.{frame, frames, yun_frame-data}
use esp32base.Yun.Partial.{get-partial, get_few}

-- the bytes held do not complete the next frame
abbrev pub StopsShort : List (List ℕ) → List ℕ → Type 0
StopsShort [] part = length part ≡ 0
StopsShort (p ∷ ps) part = length part < length (frame p)

-- What the cache holds between two pieces: the first part of the frames still to come.
pub record Held (ps : List (List ℕ)) (rest : List ℕ) (s : Stream) : Type 0 where
  pub part : List ℕ
  pub junk : List ℕ
  pub cache_is : s.cache ≡ part ++ junk
  pub len_is : s.len ≡ length part
  pub awaited : part ++ rest ≡ frames ps
  pub small : length part < 260
  pub stops : StopsShort ps part
  pub short : All (λ p. length p < 255) ps

-- the frames that a run of the loop delivered, and those it left
pub record Drained (ps : List (List ℕ)) (rest : List ℕ) (r : Option (Stream × List (List ℕ)))
    : Type 0 where
  pub after : Stream
  pub out : List (List ℕ)
  pub left : List (List ℕ)
  pub run : r ≡ some (after, out)
  pub all_of : ps ≡ out ++ left
  pub held : Held left rest after

abbrev pub over : List ℕ → List ℕ → MiniData → Stream
over buf junk cmd = record { cache = buf ++ junk; len = length buf; cmd = cmd }

drain-nothing :
    (buf rest junk : List ℕ) (cmd : MiniData) (fuel : ℕ)
    → buf ++ rest ≡ []
    → Drained [] rest (drain yun_frame (suc fuel) (over buf junk cmd))
unfolding handled
drain-nothing [] rest junk cmd fuel e = record {
  after = over [] junk cmd;
  out = [];
  left = [];
  run = drain-stop yun_frame fuel (over [] junk cmd) false cmd (get_few junk 0 cmd (omega arith));
  all_of = refl;
  held = record {
    part = [];
    junk = junk;
    cache_is = refl;
    len_is = refl;
    awaited = e;
    small = omega arith;
    stops = refl;
    short = tt;
  };
}
drain-nothing (b ∷ buf) rest junk cmd fuel e = absurd (cc e)

drain-waiting :
    (p : List ℕ) (ps : List (List ℕ)) (buf rest junk : List ℕ) (cmd : MiniData) (fuel : ℕ)
    → All (λ q. length q < 255) (p ∷ ps)
    → buf ++ rest ≡ frames (p ∷ ps)
    → length buf < length (frame p)
    → Drained (p ∷ ps) rest (drain yun_frame (suc fuel) (over buf junk cmd))
unfolding handled
drain-waiting p ps buf rest junk cmd fuel short e h =
    let size = length-create (data_ret ∷ p) (omega arith) (omega arith) in
    let (cmd', waits) = get-partial p buf rest (frames ps) junk cmd short.0 e h in
    record {
      after = record (over buf junk cmd) { cmd = cmd' };
      out = [];
      left = p ∷ ps;
      run = drain-stop yun_frame fuel (over buf junk cmd) false cmd' waits;
      all_of = refl;
      held = record {
        part = buf;
        junk = junk;
        cache_is = refl;
        len_is = refl;
        awaited = e;
        small = ground arith;
        stops = h;
        short = short;
      };
    }

-- what is behind the bytes that are held, once a frame is taken off
abbrev behind : List ℕ → List ℕ → List ℕ → List ℕ
behind p w junk = drop (length w) (frame p ++ (w ++ junk))

consume-front :
    (p w junk : List ℕ) (cmd cmd' : MiniData)
    → consume (length (frame p)) cmd' (over (frame p ++ w) junk cmd) ≡ over w (behind p w junk) cmd'
unfolding consume
consume-front p w junk cmd cmd' =
    let size : length (frame p ++ w) - length (frame p) ≡ length w =
      omega (arith, length-append (frame p) w) in
    rw (
      size,
      append_assoc (frame p) w junk,
      drop-append_length (frame p) (w ++ junk),
      take-append_length w junk,
    )

drain-front :
    (p w junk : List ℕ) (cmd : MiniData) (fuel : ℕ)
    → length p < 255
    → drain yun_frame (suc fuel) (over (frame p ++ w) junk cmd)
      ≡ prepend yun_frame
          (p ∷ [])
          (drain yun_frame fuel (over w (behind p w junk) (framed (data_ret ∷ p))))
unfolding handled
drain-front p w junk cmd fuel short =
    let cmd' = framed (data_ret ∷ p) in
    let size = length-create (data_ret ∷ p) (omega arith) (omega arith) in
    let (got, there) =
      get-create (data_ret ∷ p) (w ++ junk) (length (frame p ++ w)) cmd (omega arith) (omega arith)
        (omega (arith, length-append (frame p) w)) in
    let flat = append_assoc (frame p) w junk in
    drain-more yun_frame fuel (over (frame p ++ w) junk cmd) (length (frame p)) true cmd'
      (rw flat got) (omega arith)
    ∙ rw (consume-front p w junk cmd cmd') (
        ap (λ t. prepend yun_frame t (drain yun_frame fuel (over w (behind p w junk) cmd')))
          {y = p ∷ []} (rw flat (yun_frame-data _ p there)))

pub drain-pieces :
    (ps : List (List ℕ)) (buf rest junk : List ℕ) (cmd : MiniData) (fuel : ℕ)
    → All (λ p. length p < 255) ps
    → buf ++ rest ≡ frames ps
    → length buf < fuel
    → Drained ps rest (drain yun_frame fuel (over buf junk cmd))
drain-pieces ps buf rest junk cmd zero short e h = absurd (omega arith)
drain-pieces [] buf rest junk cmd (suc fuel) short e h = drain-nothing buf rest junk cmd fuel e
drain-pieces (p ∷ ps) buf rest junk cmd (suc fuel) short e h =
    elim (Bool-cases (ltb (length buf) (length (frame p)))) [
      | inl waiting ↦ drain-waiting p ps buf rest junk cmd fuel short e (ground arith)
      | inr whole ↦
          let (w, front, back) = split-longer (frame p) (frames ps) buf rest e (ground arith) in
          let size = length-create (data_ret ∷ p) (omega arith) (omega arith) in
          let cmd' = framed (data_ret ∷ p) in
          let d =
            drain-pieces ps w rest (behind p w junk) cmd' fuel short.1 back
              (omega (arith, ap length front, length-append (frame p) w)) in
          record {
            after = d.after;
            out = p ∷ d.out;
            left = d.left;
            run =
                ap (λ t. drain yun_frame (suc fuel) (over t junk cmd)) front
                ∙ (drain-front p w junk cmd fuel short.0 ∙ ap (prepend yun_frame (p ∷ [])) d.run);
            all_of = ap (λ t. p ∷ t) d.all_of;
            held = d.held;
          }
    ]
