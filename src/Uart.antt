-- ===== src/Uart.antt =====
-- The receivers of main/trans_data.c for the serial lines: the debug console (`uart_debug_read`), the
-- RS-485 line (`uart1_read`) and the coprocessor's frames (`uart2_read`). A call takes the bytes that
-- the driver read; the SDK's output (echo, MQTT publish) is not modelled but for where it is said.
pub mod Console
pub mod Frames
pub mod Driver
pub mod Typing
use esp32base.Base.{
  ℕ, zero, suc, ◌+◌, ◌-◌, Bool, true, false, ◌&&◌, ◌||◌, Option, none, some, List, [], ◌∷◌, ◌++◌,
  ◌==◌, ltb, leb, if◌then◌else◌, length, get_or, take, drop, set, until_nul,
}
use esp32base.MiniData.{MiniData, find_byte}
use esp32base.Stream.{Stream, blit, drain}

-- `g_debugCmdline` (255 bytes) and `g_debugCmdlineLen`
pub record DebugLine : Type 0 where
  pub cmdline : List ℕ
  pub len : ℕ

-- the guard before the copy
unfoldable pub limit : DebugLine → DebugLine
limit s = if leb 255 s.len then record s { len = 0 } else s

-- a character that the loop copies or deletes with; the others are dropped
abbrev pub accepted : ℕ → Bool
accepted c = (leb 32 c && leb c 127) || c == 0x0d

-- one round of the copy loop: 0x7F deletes, the rest is appended
unfoldable pub put_char : DebugLine → ℕ → DebugLine
put_char s c =
    if accepted c
    then (if c == 0x7f
        then (if ltb 0 s.len
            then record s { len = s.len - 1; cmdline = set s.cmdline (s.len - 1) 0 }
            else s)
        else record s { cmdline = set s.cmdline s.len c; len = s.len + 1 })
    else s

-- the copy loop; an escape ends it
unfoldable pub put_chars : DebugLine → List ℕ → DebugLine
put_chars s [] = s
put_chars s (c ∷ buf) = let rest = put_chars (put_char s c) buf in if c == 0x1b then s else rest

-- g_debugCmdline[0]=0; g_debugCmdlineLen=0;
abbrev pub cleared : DebugLine → DebugLine
cleared s = record { cmdline = set s.cmdline 0 0; len = 0 }

-- from the search for the carriage return on: the new state, and the memory that `do_command` is
-- given, if it is called: the array, with what an earlier line left behind the NUL
unfoldable pub run_line : DebugLine → DebugLine × Option (List ℕ)
run_line s =
    let i = find_byte 0x0d s.cmdline s.len in
    let is_enter = ltb i s.len in
    let s' = if is_enter then record s { cmdline = set s.cmdline i 0; len = i } else s in
    if get_or s'.cmdline 0 0 == 0
    then (cleared s', none)
    else if is_enter
    then (cleared s', some s'.cmdline)
    else (s', none)

-- `uart_debug_read`
unfoldable pub uart_debug_read : DebugLine → List ℕ → DebugLine × Option (List ℕ)
uart_debug_read s buf = run_line (put_chars (limit s) buf)

-- `g_recvUart1Buf` (255 bytes) and `g_recvUart1BufLen`
pub record Uart1 : Type 0 where
  pub recv_buf : List ℕ
  pub recv_len : ℕ

-- `uart1_read`; the result says whether it publishes (`connected` is `g_mqttClient != NULL`)
unfoldable pub uart1_read : Bool → Uart1 → List ℕ → Uart1 × Bool
uart1_read connected s buf =
    let s' = record s {
      recv_buf = blit s.recv_buf s.recv_len buf;
      recv_len = s.recv_len + length buf;
    } in
    (s', ltb 0 s'.recv_len && connected)

-- what the frame handler of `uart2_read` does: its call is commented out
abbrev pub ignored : List ℕ → MiniData → List (Unit {0})
ignored cache cmd = []

-- one round of `uart2_read`; `none` means that the fuel of the inner loop ran out
unfoldable pub uart2_byte : Stream → ℕ → Option Stream
uart2_byte s b =
    let pos = if ltb 254 (s.len + 1) then 0 else s.len in
    let s' = record s { cache = set s.cache pos b; len = pos + 1 } in
    if b == 0xfa
    then elim (drain ignored (suc (pos + 1)) s') [ none ↦ none | some (t, out) ↦ some t ]
    else some s'

-- `uart2_read`
unfoldable pub uart2_read : Stream → List ℕ → Option Stream
uart2_read s [] = some s
uart2_read s (b ∷ buf) = elim (uart2_byte s b) [ none ↦ none | some t ↦ uart2_read t buf ]

-- `cfgInit`, but for the LEDs
unfoldable pub cfg_init : DebugLine → Uart1 → Stream → DebugLine × Uart1 × Stream
cfg_init console uart1 uart2 =
    (record console { len = 0 }, record uart1 { recv_len = 0 }, record uart2 { len = 0 })
