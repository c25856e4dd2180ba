-- ===== src/Uart/Driver.antt =====
-- The tasks of the serial lines: components/uart_debug/uart0.c, components/uart1/uart1.c and
-- components/uart2/uart2.c, which are the same code but for the names, and uart0.c but for the flag.
-- What `uart_read_bytes` puts into `data` is an event; the driver's configuration is the SDK's.
use esp32base.Base.{
  ℕ, Bool, true, false, Option, none, some, List, [], ◌∷◌, ◌++◌, ◌==◌, ltb, if◌then◌else◌, length,
  ◌>>=◌,
}
use esp32base.Config.{Flash}
use esp32base.Command.{Action, Run, do_command}
use esp32base.Uart.{DebugLine, uart_debug_read}

-- `uart1_init` and `uart2_init` on the flag `isUart1Enable`; a baud rate below 0 is 0 here
unfoldable pub uart_init : Bool → ℕ → Bool
uart_init is_enable baud_rate = if baud_rate == 0 then is_enable else true

-- `uart_debug_send`, `uart1_send` and `uart2_send`: what goes to `uart_write_bytes`
unfoldable pub uart_send : Bool → List ℕ → List (List ℕ)
uart_send is_enable buf = if is_enable then buf ∷ [] else []

-- one round of a task: the callback is called where something was read
unfoldable pub uart_round {ℓ} : {S : Type ℓ} → (S → List ℕ → S) → S → List ℕ → S
uart_round read s buf = if ltb 0 (length buf) then read s buf else s

-- `task_uart1` and `task_uart2` with a callback, over what is read in each round. The flag is not
-- cleared by anything: without it the task ends at once.
unfoldable pub task_uart {ℓ} : {S : Type ℓ} → Bool → (S → List ℕ → S) → S → List (List ℕ) → S
task_uart false read s reads = s
task_uart true read s [] = s
task_uart true read s (buf ∷ reads) = task_uart true read (uart_round read s buf) reads

module _ {S : Type 0} (flash : Flash S) where
  -- the command that `uart_debug_read` runs, if any
  unfoldable pub run_command : Option (List ℕ) → S → Run S
  run_command none s = some (s, [])
  run_command (some mem) s = do_command flash mem s

  -- a round of `task_uart_debug` with `uart_debug_read` as the callback: the line, the flash, and what
  -- was done; `none` is a fault of the command
  unfoldable pub debug_round : DebugLine → S → List ℕ → Option ((DebugLine × S) × List Action)
  debug_round line s buf =
      if ltb 0 (length buf)
      then (let (line', mem) = uart_debug_read line buf in
          run_command mem s >>= λ (s', did). some ((line', s'), did))
      else some ((line, s), [])

  -- `task_uart_debug`, over what is read in each round
  unfoldable pub task_uart_debug :
      DebugLine → S → List (List ℕ) → Option ((DebugLine × S) × List Action)
  task_uart_debug line s [] = some ((line, s), [])
  task_uart_debug line s (buf ∷ reads) = do
    ((line1, s1), did) ← debug_round line s buf
    ((line2, s2), more) ← task_uart_debug line1 s1 reads
    some ((line2, s2), did ++ more)
