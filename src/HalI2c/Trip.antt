-- ===== src/HalI2c/Trip.antt =====
-- What is written to a device's registers, and read back from them.
use esp32base.Base.{
  ℕ, zero, suc, ◌+◌, ◌-◌, ◌/◌, ◌%◌, ◌<◌, ◌≡◌, refl, ap, sym, ◌∙◌, Bool, true, false, some, List, [],
  ◌∷◌, ◌++◌, ◌==◌, arith, length, ltb, drop,
}
use esp32base.Stream.{blit}
use esp32base.Stream.Blit.{blit-blit}
use esp32base.HalI2c.{
  I2cCommand, write_address, read_address, write_commands, read_commands, filled_data,
  hal_i2c_master_mem_write, hal_i2c_master_mem_read,
}
use esp32base.HalI2c.Registers.{
  Slave, idle, addressing, selected, is_written, is_sending, put, put_all, load, load-behind,
  load-put_all, load-append, length-load, byte_in, bytes_in, run_commands, ended_as, bus,
}

-- the device after bytes for its registers
abbrev written : Slave → ℕ → List ℕ → Slave
written s mem_addr bytes = record s {
  pointer = mem_addr + length bytes;
  cells = put_all s.cells mem_addr bytes;
}

bytes_in-written :
    (s : Slave) (bytes : List ℕ)
    → bytes_in s is_written bytes ≡ some (written s s.pointer bytes, is_written)
unfolding bytes_in byte_in put_all
bytes_in-written s [] = ap (λ p. some (record s { pointer = p }, is_written)) (omega arith)
bytes_in-written s (b ∷ bytes) =
    bytes_in-written (record s { pointer = s.pointer + 1; cells = put s.cells s.pointer b }) bytes
    ∙ ap
        (λ p.
          some
            (record s { pointer = p; cells = put_all s.cells s.pointer (b ∷ bytes) }, is_written))
        (omega arith)

-- the device hears both of its addresses
hears_write :
    (s : Slave)
    → s.address < 128
    → byte_in s addressing (write_address s.address) ≡ some (s, selected)
unfolding byte_in
hears_write s h =
    let mine : (write_address s.address / 2 == s.address) ≡ true = ground arith in
    let even : (write_address s.address % 2 == 0) ≡ true = ground arith in rw (mine, even) refl

hears_read :
    (s : Slave)
    → s.address < 128
    → byte_in s addressing (read_address s.address) ≡ some (s, is_sending)
unfolding byte_in
hears_read s h =
    let mine : (read_address s.address / 2 == s.address) ≡ true = ground arith in
    let odd : (read_address s.address % 2 == 0) ≡ false = ground arith in rw (mine, odd) refl

run_write :
    (s : Slave) (mem_addr : ℕ) (bytes : List ℕ)
    → s.address < 128
    → run_commands s idle (write_commands s.address mem_addr bytes)
      ≡ some (written s mem_addr bytes, [])
unfolding run_commands write_commands byte_in
run_write s mem_addr bytes h =
    let heard = hears_write s h in
    let all = bytes_in-written (record s { pointer = mem_addr }) bytes in rw (heard, all) refl

run_read_one :
    (s : Slave)
    → s.address < 128
    → run_commands s idle (read_commands s.address 1)
      ≡ some (record s { pointer = s.pointer + 1 }, (0, load s.cells s.pointer 1) ∷ [])
unfolding run_commands read_commands
run_read_one s h =
    let heard = hears_write s h in let asked = hears_read s h in rw (heard, asked) refl

run_read_more :
    (s : Slave) (n : ℕ)
    → s.address < 128
    → 0 < n
    → run_commands s idle (read_commands s.address (n + 1))
      ≡ some (
        record s { pointer = s.pointer + n + 1 },
        (0, load s.cells s.pointer n) ∷ (n, load s.cells (s.pointer + n) 1) ∷ [],
      )
unfolding run_commands read_commands
run_read_more s n h k =
    let heard = hears_write s h in
    let asked = hears_read s h in
    let many : ltb 1 (n + 1) ≡ true = ground arith in
    let last : n + 1 - 1 ≡ n = omega arith in rw (many, last, heard, asked) refl

bus_lem :
    (s : Slave) (cmd : List I2cCommand) (result : Slave × List (ℕ × List ℕ))
    → run_commands s idle cmd ≡ some result
    → bus s cmd ≡ (result, true)
unfolding bus
bus_lem s cmd result e = ap (ended_as s) e

-- a read of registers into the front of `data_rd`
abbrev Loaded : List ℕ → List ℕ → ℕ → (Slave × List ℕ) × Bool → Type 0
Loaded registers data_rd size ((s', data'), ok) =
    (ok ≡ true) × (data' ≡ registers ++ drop size data_rd)

mem_read-Loaded :
    (s : Slave) (mem_addr : ℕ) (data_rd : List ℕ) (size : ℕ)
    → s.address < 128
    → Loaded
        (load s.cells s.pointer size)
        data_rd
        size
        (hal_i2c_master_mem_read bus s s.address mem_addr data_rd size)
unfolding hal_i2c_master_mem_read filled_data
mem_read-Loaded s mem_addr data_rd zero h = (refl, unfold load in refl)
mem_read-Loaded s mem_addr data_rd (suc zero) h =
    let done =
      bus_lem s (read_commands s.address 1)
        (record s { pointer = s.pointer + 1 }, (0, load s.cells s.pointer 1) ∷ [])
        (run_read_one s h) in
    rw done (refl, unfold load in refl)
mem_read-Loaded s mem_addr data_rd (suc (suc n)) h =
    let many : suc (suc n) ≡ suc n + 1 = omega arith in
    let some_size : (suc n + 1 == 0) ≡ false = ground arith in
    let xs = load s.cells s.pointer (suc n) in
    let ys = load s.cells (s.pointer + suc n) 1 in
    let done =
      bus_lem s (read_commands s.address (suc n + 1))
        (record s { pointer = s.pointer + suc n + 1 }, (0, xs) ∷ (suc n, ys) ∷ [])
        (run_read_more s (suc n) h (omega arith)) in
    let at : suc n ≡ 0 + length xs = omega (arith, length-load s.cells s.pointer (suc n)) in
    let all : xs ++ ys ≡ load s.cells s.pointer (suc n + 1) =
      sym (load-append s.cells s.pointer (suc n) 1) in
    let end : 0 + length (load s.cells s.pointer (suc n + 1)) ≡ suc n + 1 =
      omega (arith, length-load s.cells s.pointer (suc n + 1)) in
    let whole : blit (blit data_rd 0 xs) (suc n) ys
        ≡ load s.cells s.pointer (suc n + 1) ++ drop (suc n + 1) data_rd =
      ap (λ m. blit (blit data_rd 0 xs) m ys) at
      ∙ blit-blit data_rd xs ys 0 (omega arith)
      ∙ ap (λ t. t ++ drop (0 + length t) data_rd) all
      ∙ ap (λ m. load s.cells s.pointer (suc n + 1) ++ drop m data_rd) end in
    rw (many, some_size, done) (refl, whole)

mem_write-written :
    (s : Slave) (mem_addr : ℕ) (b : ℕ) (bytes : List ℕ)
    → s.address < 128
    → hal_i2c_master_mem_write bus s s.address mem_addr (b ∷ bytes)
      ≡ (written s mem_addr (b ∷ bytes), true)
unfolding hal_i2c_master_mem_write
mem_write-written s mem_addr b bytes h =
    let some_size : (length (b ∷ bytes) == 0) ≡ false = ground arith in
    let done =
      bus_lem s (write_commands s.address mem_addr (b ∷ bytes)) (written s mem_addr (b ∷ bytes), [])
        (run_write s mem_addr (b ∷ bytes) h) in
    rw (some_size, done) refl

-- a write to a device, and a read behind it
abbrev pub there : Slave → ℕ → List ℕ → Slave × Bool
there s mem_addr data_wr = hal_i2c_master_mem_write bus s s.address mem_addr data_wr

abbrev pub back : Slave → ℕ → List ℕ → ℕ → List ℕ → ℕ → (Slave × List ℕ) × Bool
back s mem_addr data_wr mem_addr_2 data_rd size =
    hal_i2c_master_mem_read bus (there s mem_addr data_wr).0 s.address mem_addr_2 data_rd size

-- With a device of numbered registers on the bus, whose address has 7 bits, and that has the protocol's
-- rules for starts, stops, and acknowledgements: a write of one byte or more succeeds and puts them into
-- the registers from its address on. A read behind it succeeds too, but whatever its address is, what it
-- puts at the front of the buffer are the registers behind those written, as they were before.
pub hal_i2c_master_mem_read-write :
    (s : Slave) (mem_addr : ℕ) (data_wr : List ℕ) (mem_addr_2 : ℕ) (data_rd : List ℕ) (size : ℕ)
    → s.address < 128
    → 0 < length data_wr
    → ((there s mem_addr data_wr).1 ≡ true)
      × (load (there s mem_addr data_wr).0.cells mem_addr (length data_wr) ≡ data_wr)
      × ((back s mem_addr data_wr mem_addr_2 data_rd size).1 ≡ true)
      × ((back s mem_addr data_wr mem_addr_2 data_rd size).0.1
          ≡ load s.cells (mem_addr + length data_wr) size ++ drop size data_rd)
hal_i2c_master_mem_read-write s mem_addr [] mem_addr_2 data_rd size h k = absurd (omega arith)
hal_i2c_master_mem_read-write s mem_addr (b ∷ bytes) mem_addr_2 data_rd size h k =
    let done = mem_write-written s mem_addr b bytes h in
    let s1 = written s mem_addr (b ∷ bytes) in
    let (ok, all) = mem_read-Loaded s1 mem_addr_2 data_rd size h in
    let old = load-behind s.cells mem_addr (b ∷ bytes) s1.pointer size (omega arith) in
    rw done (
      refl,
      load-put_all s.cells mem_addr (b ∷ bytes),
      ok,
      all ∙ ap (λ t. t ++ drop size data_rd) old,
    )
