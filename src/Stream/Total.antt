-- ===== src/Stream/Total.antt =====
-- The receive loop ends: every round that goes on removes at least one byte.
use esp32base.Base.{
  ℕ, zero, suc, ◌+◌, ◌-◌, ◌≤◌, ◌<◌, ◌≡◌, ◌≢◌, ap, ◌∙◌, refl, Bool-cases, inl, inr, Bool, false,
  some, List, ◌++◌, arith, ◌==◌, length, take, drop, length-append, length-drop, length-take,
}
use esp32base.MiniData.{MiniData, get}
use esp32base.MiniData.Laws.{get-IsSound}
use esp32base.Stream.{Stream, blit, shift, consume, prepend, handled, drain}

pub length-blit :
    (buf src : List ℕ) (pos : ℕ)
    → pos + length src ≤ length buf
    → length (blit buf pos src) ≡ length buf
length-blit buf src pos h = omega (
  arith,
  length-append (take pos buf) (src ++ drop (pos + length src) buf),
  length-append src (drop (pos + length src) buf),
  length-drop (pos + length src) buf,
  length-take pos buf (omega arith),
)

length-shift :
    (buf : List ℕ) (tmp len : ℕ) → tmp + len ≤ length buf → length (shift buf tmp len) ≡ length buf
length-shift buf tmp len h = omega (
  arith,
  length-append (take len (drop tmp buf)) (drop len buf),
  length-drop len buf,
  length-drop tmp buf,
  length-take len (drop tmp buf) (omega (arith, length-drop tmp buf)),
)

-- The bytes held lie in the array.
pub record IsValid (cap : ℕ) (s : Stream) : Type 0 where
  pub size : length s.cache ≡ cap
  pub fits : s.len ≤ cap

pub consume-IsValid :
    (cap tmp : ℕ) (cmd : MiniData) (s : Stream)
    → tmp ≤ s.len
    → IsValid cap s
    → IsValid cap (consume tmp cmd s)
unfolding consume
consume-IsValid cap tmp cmd s h v = record {
  size = omega (arith, length-shift s.cache tmp (s.len - tmp) (omega arith));
  fits = omega arith;
}

len-consume : (tmp : ℕ) (cmd : MiniData) (s : Stream) → (consume tmp cmd s).len ≡ s.len - tmp
unfolding consume
len-consume tmp cmd s = refl

module _ {A : Type 0} (handle : List ℕ → MiniData → List A) where
  -- what one round hands on
  abbrev pub round : Stream → List A
  round s = let (tmp, ok, cmd) = get s.cache s.len s.cmd in handled handle s.cache ok cmd

  pub drain-stop :
      (fuel : ℕ) (s : Stream) (ok : Bool) (cmd : MiniData)
      → get s.cache s.len s.cmd ≡ (0, ok, cmd)
      → drain handle (suc fuel) s ≡ some (record s { cmd = cmd }, handled handle s.cache ok cmd)
  unfolding drain
  drain-stop fuel s ok cmd e = rw e

  pub drain-more :
      (fuel : ℕ) (s : Stream) (tmp : ℕ) (ok : Bool) (cmd : MiniData)
      → get s.cache s.len s.cmd ≡ (tmp, ok, cmd)
      → tmp ≢ 0
      → drain handle (suc fuel) s
        ≡ prepend handle (handled handle s.cache ok cmd) (drain handle fuel (consume tmp cmd s))
  unfolding drain
  drain-more fuel s tmp ok cmd e ne = let more : (tmp == 0) ≡ false = ground arith in rw (e, more)

  -- With more fuel than bytes held the loop returns, in a valid state that holds no more bytes.
  pub drain_total :
      (cap fuel : ℕ) (s : Stream)
      → s.len < fuel
      → IsValid cap s
      → (s' : Stream) × (out : List A) × (drain handle fuel s ≡ some (s', out))
        × IsValid cap s'
        × (s'.len ≤ s.len)
  drain_total cap zero s h v = absurd (omega arith)
  drain_total cap (suc fuel) s h v = elim (Bool-cases ((get s.cache s.len s.cmd).0 == 0)) [
    | inl stop ↦ (
      record s { cmd = (get s.cache s.len s.cmd).2 },
      round s,
      drain-stop fuel s _ _ (ground arith),
      record { size = v.size; fits = v.fits },
      omega arith,
    )
    | inr more ↦
        let tmp = (get s.cache s.len s.cmd).0 in
        let sound = get-IsSound s.cache s.len s.cmd in
        let s1 = consume tmp (get s.cache s.len s.cmd).2 s in
        let less : s1.len ≡ s.len - tmp = len-consume tmp (get s.cache s.len s.cmd).2 s in
        let (s', out, e, v', shorter) =
          drain_total cap fuel s1 (ground (arith, sound.within))
            (consume-IsValid cap tmp (get s.cache s.len s.cmd).2 s sound.within v) in
        (
          s',
          round s ++ out,
          drain-more fuel s _ _ _ refl (ground arith) ∙ ap (prepend handle (round s)) e,
          v',
          omega arith,
        )
  ]
