-- ===== src/Uart/Frames.antt =====
-- `uart2_read` and `uart1_read`: their buffers.
use esp32base.Base.{
  ℕ, suc, ◌+◌, ◌≤◌, ◌<◌, ◌≡◌, refl, Bool, Bool-cases, inl, inr, some, List, [], ◌∷◌, ◌++◌, arith,
  ◌==◌, ltb, if◌then◌else◌, length, length-set, length-append, length-take, set, take, drop,
}
use esp32base.Stream.{Stream}
use esp32base.Stream.Total.{drain_total}
use esp32base.Uart.{ignored, uart2_byte, uart2_read, Uart1, uart1_read}

-- The cache keeps its 255 bytes, and at most 254 are held.
pub record IsValid2 (s : Stream) : Type 0 where
  pub size : length s.cache ≡ 255
  pub fits : s.len ≤ 254

uart2_byte_total :
    (s : Stream) (b : ℕ) → IsValid2 s → (t : Stream) × (uart2_byte s b ≡ some t) × IsValid2 t
unfolding uart2_byte
uart2_byte_total s b v =
    let pos : ℕ = if ltb 254 (s.len + 1) then 0 else s.len in
    let s1 : Stream = record s { cache = set s.cache pos b; len = pos + 1 } in
    let low : pos + 1 ≤ 254 = ground arith in
    let size = length-set s.cache pos b in
    elim (Bool-cases (b == 0xfa)) [
      | inl mark ↦
          let (t, out, e, valid, shorter) =
            drain_total ignored 255 (suc (pos + 1)) s1 (omega arith)
              (record { size = omega arith; fits = omega arith }) in
          (t, rw (mark, e), record { size = valid.size; fits = omega arith })
      | inr other ↦ (s1, rw other, record { size = omega arith; fits = omega arith })
    ]

-- Whatever bytes the coprocessor sends, `uart2_read` returns, having written only inside its cache:
-- the cache keeps its 255 bytes, of which at most 254 are held.
pub uart2_read_total :
    (s : Stream) (buf : List ℕ)
    → IsValid2 s
    → (t : Stream) × (uart2_read s buf ≡ some t) × IsValid2 t
unfolding uart2_read
uart2_read_total s [] v = (s, refl, v)
uart2_read_total s (b ∷ buf) v =
    let (t, e, v') = uart2_byte_total s b v in
    let (u, e', v'') = uart2_read_total t buf v' in (u, rw (e, uart2_read) e', v'')

-- successive calls of `uart1_read`
unfoldable pub uart1_reads : Bool → Uart1 → List (List ℕ) → Uart1
uart1_reads connected s [] = s
uart1_reads connected s (buf ∷ bufs) = uart1_reads connected (uart1_read connected s buf).0 bufs

-- bytes in all
abbrev pub total : List (List ℕ) → ℕ
total [] = 0
total (buf ∷ bufs) = length buf + total bufs

uart1_read-len :
    (c : Bool) (s : Uart1) (buf : List ℕ)
    → (uart1_read c s buf).0.recv_len ≡ s.recv_len + length buf
unfolding uart1_read
uart1_read-len c s buf = refl

uart1_read-size :
    (c : Bool) (s : Uart1) (buf : List ℕ)
    → s.recv_len ≤ length s.recv_buf
    → s.recv_len + length buf ≤ length (uart1_read c s buf).0.recv_buf
unfolding uart1_read
uart1_read-size c s buf h = omega (
  arith,
  length-append (take s.recv_len s.recv_buf) (buf ++ drop (s.recv_len + length buf) s.recv_buf),
  length-append buf (drop (s.recv_len + length buf) s.recv_buf),
  length-take s.recv_len s.recv_buf h,
)

-- Nothing resets the length of the RS-485 buffer: after any pieces it has grown by their bytes.
pub recv_len-uart1_reads :
    (c : Bool) (s : Uart1) (bufs : List (List ℕ))
    → (uart1_reads c s bufs).recv_len ≡ s.recv_len + total bufs
unfolding uart1_reads
recv_len-uart1_reads c s [] = omega arith
recv_len-uart1_reads c s (buf ∷ bufs) =
    omega (arith, uart1_read-len c s buf, recv_len-uart1_reads c (uart1_read c s buf).0 bufs)

uart1_reads-size :
    (c : Bool) (s : Uart1) (bufs : List (List ℕ))
    → s.recv_len ≤ length s.recv_buf
    → (uart1_reads c s bufs).recv_len ≤ length (uart1_reads c s bufs).recv_buf
unfolding uart1_reads
uart1_reads-size c s [] h = h
uart1_reads-size c s (buf ∷ bufs) h =
    uart1_reads-size c (uart1_read c s buf).0 bufs
      (omega (arith, uart1_read-len c s buf, uart1_read-size c s buf h))

-- From the start, any pieces of more than 255 bytes in all are written past the end of the 255-byte
-- RS-485 buffer.
pub uart1_reads-overflow :
    (c : Bool) (s : Uart1) (bufs : List (List ℕ))
    → length s.recv_buf ≡ 255
    → s.recv_len ≡ 0
    → 255 < total bufs
    → 255 < length (uart1_reads c s bufs).recv_buf
uart1_reads-overflow c s bufs size start h =
    omega (arith, recv_len-uart1_reads c s bufs, uart1_reads-size c s bufs (omega arith))
