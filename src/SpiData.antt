-- ===== src/SpiData.antt =====
-- components/spi_data/spi_data.c, the sectors of main/cfg.h, and the relay state of
-- main/trans_data_a.c. The SDK's flash calls are a parameter; true stands for ESP_OK.
pub mod Laws
use esp32base.Base.{
  ℕ, zero, suc, ◌+◌, ◌-◌, ◌*◌, Bool, true, false, ◌||◌, Option, none, some, List, [], ◌∷◌, ◌++◌,
  ◌==◌, if◌then◌else◌, length, take, drop,
}

-- `spi_flash_erase_sector`, `spi_flash_write` at an address, and `spi_flash_read` of a number of bytes
-- from an address, nothing where it fails
pub record SpiFlash (S : Type 0) : Type 0 where
  pub erase_sector : ℕ → S → Bool × S
  pub write : ℕ → List ℕ → S → Bool × S
  pub read : ℕ → ℕ → S → Option (List ℕ)

-- `SPI_FLASH_SEC_SIZE`, `SECTOR_CFG_DATA` and `SECTOR_CFG_DEV_STATUS`
abbrev pub sec_size : ℕ
sec_size = 4096

abbrev pub sector_cfg_data : ℕ
sector_cfg_data = 400

abbrev pub sector_cfg_dev_status : ℕ
sector_cfg_dev_status = 510

-- the index at which the search for the end of a text stops: 0x00, 0xFF, or the end of the buffer
unfoldable pub text_end : List ℕ → ℕ
text_end [] = 0
text_end (c ∷ buf) = let rest = text_end buf in if c == 0 || c == 0xff then 0 else suc rest

-- buf[n] = 0x00, where there is a byte `n`
abbrev pub end_at : ℕ → List ℕ → List ℕ
end_at n [] = []
end_at zero (c ∷ buf) = 0 ∷ buf
end_at (suc n) (c ∷ buf) = c ∷ end_at n buf

-- the branches on the read's result: the buffer, of which the last byte is not read, and `*buf_len`
unfoldable pub text_from : Option (List ℕ) → Option (List ℕ) × ℕ
text_from none = (none, 0)
text_from (some bytes) =
    let buf = bytes ++ 0 ∷ [] in let ret = text_end buf in (some (end_at ret buf), ret)

module _ {S : Type 0} (flash : SpiFlash S) where
  -- the write behind a successful erasure
  unfoldable pub write_erased : List ℕ → ℕ → Bool × S → ℕ × S
  write_erased data_ sector (false, s) = (1, s)
  write_erased data_ sector (true, s) =
      let (ok, s') = flash.write (sector * sec_size) data_ s in (if ok then 0 else 1, s')

  -- `write_spi_flash_data`
  unfoldable pub write_spi_flash_data : List ℕ → ℕ → S → ℕ × S
  write_spi_flash_data data_ sector s = write_erased data_ sector (flash.erase_sector sector s)

  -- `get_spi_flash_binary_data`
  unfoldable pub get_spi_flash_binary_data : ℕ → ℕ → S → Option (List ℕ)
  get_spi_flash_binary_data read_len sector s = flash.read (sector * sec_size) read_len s

  -- `get_spi_flash_text_data`
  unfoldable pub get_spi_flash_text_data : ℕ → ℕ → S → Option (List ℕ) × ℕ
  get_spi_flash_text_data sector sector_count s =
      if sector_count == 0
      then (none, 0)
      else text_from (flash.read (sector * sec_size) (4096 * sector_count - 1) s)

  -- `saveRelayState` and `readRelayState`, which gives 1 and leaves the state where the read fails
  unfoldable pub save_relay_state : List ℕ → S → ℕ × S
  save_relay_state relay_state s = write_spi_flash_data relay_state sector_cfg_dev_status s

  unfoldable pub relay_from : List ℕ → Option (List ℕ) → ℕ × List ℕ
  relay_from relay_state none = (1, relay_state)
  relay_from relay_state (some buf) = (0, buf)

  unfoldable pub read_relay_state : List ℕ → S → ℕ × List ℕ
  read_relay_state relay_state s =
      relay_from relay_state
        (get_spi_flash_binary_data (length relay_state) sector_cfg_dev_status s)
