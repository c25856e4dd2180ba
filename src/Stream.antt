-- ===== src/Stream.antt =====
-- The receive loop over a cache of frames: the `_nnc:` loop of `dtrs_recv_data_callback`
-- (components/hxkong_yun/hxkong_yun.c) and the same loop of `uart2_read` (main/trans_data.c), over
-- what each does with a frame.
pub mod Total
pub mod Blit
use esp32base.Base.{
  ℕ, zero, suc, ◌+◌, ◌-◌, Bool, true, false, Option, none, some, List, [], ◌∷◌, ◌++◌, ◌==◌,
  if◌then◌else◌, length, take, drop,
}
use esp32base.MiniData.{MiniData, get}

-- The cache array, the number of bytes held, and the record of the last frame. Output is the list
-- of what was handed on, oldest first.
pub record Stream : Type 0 where
  pub cache : List ℕ
  pub len : ℕ
  pub cmd : MiniData

-- memcpy(&buf[pos], src, n): a list that comes out longer than `buf` was written past its end
abbrev pub blit : List ℕ → ℕ → List ℕ → List ℕ
blit buf pos src = take pos buf ++ (src ++ drop (pos + length src) buf)

-- for(n=0;n<len;n++) { buf[n]=buf[tmp+n]; }
abbrev pub shift : List ℕ → ℕ → ℕ → List ℕ
shift buf tmp len = take len (drop tmp buf) ++ drop len buf

-- the stream after `tmp` bytes are taken off its front
unfoldable pub consume : ℕ → MiniData → Stream → Stream
consume tmp cmd s = record s {
  len = s.len - tmp;
  cache = shift s.cache tmp (s.len - tmp);
  cmd = cmd;
}

module _ {A : Type 0} (handle : List ℕ → MiniData → List A) where
  -- what one call of `miniDataGet` leads to
  unfoldable pub handled : List ℕ → Bool → MiniData → List A
  handled cache ok cmd = if ok then handle cache cmd else []

  abbrev pub prepend : List A → Option (Stream × List A) → Option (Stream × List A)
  prepend out none = none
  prepend out (some (s, rest)) = some (s, out ++ rest)

  -- The loop, with fuel; `none` means that the fuel ran out.
  unfoldable pub drain : ℕ → Stream → Option (Stream × List A)
  drain zero s = none
  drain (suc fuel) s =
      let (tmp, ok, cmd) = get s.cache s.len s.cmd in
      let out = handled s.cache ok cmd in
      let rest = prepend out (drain fuel (consume tmp cmd s)) in
      if tmp == 0 then some (record s { cmd = cmd }, out) else rest
