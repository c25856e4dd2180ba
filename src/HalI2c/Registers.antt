-- ===== src/HalI2c/Registers.antt =====
-- The bus with one device of numbered registers, as the protocol has it, and what is written to and read
-- from it through components/hal/hal_i2c.c.
use esp32base.Base.{
  ℕ, zero, suc, ◌+◌, ◌/◌, ◌%◌, ◌≤◌, ◌<◌, ◌≡◌, refl, ap, ap₂, ◌∙◌, Bool, true, false, Option, none,
  some, List, [], ◌∷◌, ◌++◌, ◌==◌, arith, length, if◌then◌else◌, ◌>>=◌,
}
use esp32base.HalI2c.{I2cCommand, start, write_byte, writes, reads, stop}

-- the device: its address of 7 bits, the register that it stands at, and its registers
pub record Slave : Type 0 where
  pub address : ℕ
  pub pointer : ℕ
  pub cells : ℕ → ℕ

-- where a transaction is. `is_sending`: the device drives the bus, since the last byte that it sent was
-- acknowledged, or none was sent yet.
pub data BusPhase : Type 0 where
  idle : BusPhase
  addressing : BusPhase
  selected : BusPhase
  is_written : BusPhase
  is_sending : BusPhase
  released : BusPhase

unfoldable pub put : (ℕ → ℕ) → ℕ → ℕ → ℕ → ℕ
put cells at b i = if i == at then b else cells i

unfoldable pub put_all : (ℕ → ℕ) → ℕ → List ℕ → ℕ → ℕ
put_all cells at [] = cells
put_all cells at (b ∷ bytes) = put_all (put cells at b) (at + 1) bytes

unfoldable pub load : (ℕ → ℕ) → ℕ → ℕ → List ℕ
load cells at zero = []
load cells at (suc n) = cells at ∷ load cells (at + 1) n

-- A byte that comes in. The first is an address, which only its device acknowledges; the second the
-- number of a register; the others go into the registers from there on.
unfoldable pub byte_in : Slave → BusPhase → ℕ → Option (Slave × BusPhase)
byte_in s idle b = none
byte_in s addressing b =
    if b / 2 == s.address
    then (if b % 2 == 0 then some (s, selected) else some (s, is_sending))
    else none
byte_in s selected b = some (record s { pointer = b }, is_written)
byte_in s is_written b =
    some (record s { pointer = s.pointer + 1; cells = put s.cells s.pointer b }, is_written)
byte_in s is_sending b = none
byte_in s released b = none

unfoldable pub bytes_in : Slave → BusPhase → List ℕ → Option (Slave × BusPhase)
bytes_in s phase [] = some (s, phase)
bytes_in s phase (b ∷ bytes) = byte_in s phase b >>= λ (s', phase'). bytes_in s' phase' bytes

-- a start or a stop, which is lost where the device drives the bus
abbrev pub condition : Slave → BusPhase → BusPhase → Option (Slave × BusPhase)
condition s is_sending next = none
condition s idle next = some (s, next)
condition s addressing next = some (s, next)
condition s selected next = some (s, next)
condition s is_written next = some (s, next)
condition s released next = some (s, next)

abbrev pub bytes_out : Slave → BusPhase → ℕ → Bool → Option ((Slave × BusPhase) × List ℕ)
bytes_out s is_sending n ack = some (
  (record s { pointer = s.pointer + n }, if ack then is_sending else released),
  load s.cells s.pointer n,
)
bytes_out s idle n ack = none
bytes_out s addressing n ack = none
bytes_out s selected n ack = none
bytes_out s is_written n ack = none
bytes_out s released n ack = none

-- the commands of a list, in order; `none` where one fails
unfoldable pub run_commands :
    Slave → BusPhase → List I2cCommand → Option (Slave × List (ℕ × List ℕ))
run_commands s phase [] = some (s, [])
run_commands s phase (start ∷ cmd) = do
  (s', phase') ← condition s phase addressing
  run_commands s' phase' cmd
run_commands s phase (stop ∷ cmd) = do
  (s', phase') ← condition s phase idle
  run_commands s' phase' cmd
run_commands s phase (write_byte b ∷ cmd) = do
  (s', phase') ← byte_in s phase b
  run_commands s' phase' cmd
run_commands s phase (writes bytes ∷ cmd) = do
  (s', phase') ← bytes_in s phase bytes
  run_commands s' phase' cmd
run_commands s phase (reads at n ack ∷ cmd) = do
  ((s', phase'), bytes) ← bytes_out s phase n ack
  (s'', got) ← run_commands s' phase' cmd
  some (s'', (at, bytes) ∷ got)

-- a whole transaction: a failure leaves the device as it is here
abbrev pub ended_as :
    Slave → Option (Slave × List (ℕ × List ℕ)) → (Slave × List (ℕ × List ℕ)) × Bool
ended_as s none = ((s, []), false)
ended_as s (some result) = (result, true)

unfoldable pub bus : Slave → List I2cCommand → (Slave × List (ℕ × List ℕ)) × Bool
bus s cmd = ended_as s (run_commands s idle cmd)

pub put_all-before :
    (cells : ℕ → ℕ) (at : ℕ) (bytes : List ℕ) (i : ℕ) → i < at → put_all cells at bytes i ≡ cells i
unfolding put_all put
put_all-before cells at [] i h = refl
put_all-before cells at (b ∷ bytes) i h =
    put_all-before (put cells at b) (at + 1) bytes i (omega arith) ∙ ground arith

pub put_all-behind :
    (cells : ℕ → ℕ) (at : ℕ) (bytes : List ℕ) (i : ℕ)
    → at + length bytes ≤ i
    → put_all cells at bytes i ≡ cells i
unfolding put_all put
put_all-behind cells at [] i h = refl
put_all-behind cells at (b ∷ bytes) i h =
    put_all-behind (put cells at b) (at + 1) bytes i (omega arith) ∙ ground arith

pub load-put_all :
    (cells : ℕ → ℕ) (at : ℕ) (bytes : List ℕ)
    → load (put_all cells at bytes) at (length bytes) ≡ bytes
unfolding put_all load put
load-put_all cells at [] = refl
load-put_all cells at (b ∷ bytes) =
    ap₂ (λ x t. x ∷ t)
      (put_all-before (put cells at b) (at + 1) bytes at (omega arith) ∙ ground arith)
      (load-put_all (put cells at b) (at + 1) bytes)

pub load-append :
    (cells : ℕ → ℕ) (at m n : ℕ) → load cells at (m + n) ≡ load cells at m ++ load cells (at + m) n
unfolding load
load-append cells at zero n =
    let none_more : 0 + n ≡ n = omega arith in
    let here : at + 0 ≡ at = omega arith in rw (none_more, here) refl
load-append cells at (suc m) n =
    let more : suc m + n ≡ suc (m + n) = omega arith in
    let on : at + suc m ≡ (at + 1) + m = omega arith in
    rw (more, on) (ap (λ t. cells at ∷ t) (load-append cells (at + 1) m n))

pub length-load : (cells : ℕ → ℕ) (at n : ℕ) → length (load cells at n) ≡ n
unfolding load
length-load cells at zero = refl
length-load cells at (suc n) = omega (arith, length-load cells (at + 1) n)

pub load-behind :
    (cells : ℕ → ℕ) (at : ℕ) (bytes : List ℕ) (i n : ℕ)
    → at + length bytes ≤ i
    → load (put_all cells at bytes) i n ≡ load cells i n
unfolding load
load-behind cells at bytes i zero h = refl
load-behind cells at bytes i (suc n) h =
    ap₂ (λ x t. x ∷ t) (put_all-behind cells at bytes i h)
      (load-behind cells at bytes (i + 1) n (omega arith))
