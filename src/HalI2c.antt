-- ===== src/HalI2c.antt =====
-- The transactions of components/hal/hal_i2c.c with a device that has numbered registers.
pub mod Registers
pub mod Trip
use esp32base.Base.{
  ℕ, ◌+◌, ◌-◌, ◌*◌, ◌%◌, Bool, true, false, List, [], ◌∷◌, ◌++◌, ◌==◌, ltb, if◌then◌else◌, length,
}
use esp32base.Stream.{blit}

-- The commands that a list for the SDK's driver is made of; every byte is written with ACK_CHECK_EN.
-- `reads` has the place in `data_rd`, the number of bytes, and true for ACK_VAL behind the last one.
-- A read of one byte, i2c_master_read_byte, is one of 1.
pub data I2cCommand : Type 0 where
  start : I2cCommand
  write_byte : ℕ → I2cCommand
  writes : List ℕ → I2cCommand
  reads : ℕ → ℕ → Bool → I2cCommand
  stop : I2cCommand

-- the device's address and I2C_MASTER_WRITE, or I2C_MASTER_READ, in a `uint8_t`
abbrev pub write_address : ℕ → ℕ
write_address dev_addr = dev_addr * 2 % 256

abbrev pub read_address : ℕ → ℕ
read_address dev_addr = (dev_addr * 2 + 1) % 256

-- what `hal_i2c_master_mem_write` puts into the list
unfoldable pub write_commands : ℕ → ℕ → List ℕ → List I2cCommand
write_commands dev_addr mem_addr data_wr =
    start ∷ write_byte (write_address dev_addr) ∷ write_byte mem_addr ∷ writes data_wr ∷ stop ∷ []

-- and `hal_i2c_master_mem_read`, which does not use its `MemAddr`
unfoldable pub read_commands : ℕ → ℕ → List I2cCommand
read_commands dev_addr size =
    (start ∷ write_byte (write_address dev_addr) ∷ start ∷ write_byte (read_address dev_addr) ∷ [])
    ++ (if ltb 1 size then reads 0 (size - 1) true ∷ [] else [])
    ++ (reads (size - 1) 1 false ∷ stop ∷ [])

-- the bytes that were read, by their places, in `data_rd`
unfoldable pub filled_data : List ℕ → List (ℕ × List ℕ) → List ℕ
filled_data data_rd [] = data_rd
filled_data data_rd ((at, bytes) ∷ got) = filled_data (blit data_rd at bytes) got

-- `i2c_master_cmd_begin` on the bus: what is read, and true for ESP_OK
module _ {S : Type 0} (cmd_begin : S → List I2cCommand → (S × List (ℕ × List ℕ)) × Bool) where
  -- `hal_i2c_master_mem_write`
  unfoldable pub hal_i2c_master_mem_write : S → ℕ → ℕ → List ℕ → S × Bool
  hal_i2c_master_mem_write s dev_addr mem_addr data_wr =
      if length data_wr == 0
      then (s, true)
      else (let ((s', got), ret) = cmd_begin s (write_commands dev_addr mem_addr data_wr) in
          (s', ret))

  -- `hal_i2c_master_mem_read`, with what `data_rd` holds after it
  unfoldable pub hal_i2c_master_mem_read : S → ℕ → ℕ → List ℕ → ℕ → (S × List ℕ) × Bool
  hal_i2c_master_mem_read s dev_addr mem_addr data_rd size =
      if size == 0
      then ((s, data_rd), true)
      else (let ((s', got), ret) = cmd_begin s (read_commands dev_addr size) in
          ((s', filled_data data_rd got), ret))
