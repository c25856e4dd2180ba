-- ===== src/SpiData/Laws.antt =====
-- What the flash access gives back.
use esp32base.Base.{
  append-nil, subst, append_assoc, ℕ, ◌-◌, ◌*◌, ◌≤◌, ◌≡◌, ◌≢◌, refl, ap, sym, ◌∙◌, Bool, true,
  false, ◌||◌, Option, some, List, [], ◌∷◌, ◌++◌, ◌==◌, if◌then◌else◌, length, arith, All,
  until_nul,
}
use esp32base.SpiData.{
  SpiFlash, sec_size, sector_cfg_data, sector_cfg_dev_status, text_end, end_at, write_erased,
  write_spi_flash_data, get_spi_flash_binary_data, text_from, get_spi_flash_text_data,
  save_relay_state, relay_from, read_relay_state,
}

-- Documented behaviour of the flash: bytes written with success into a sector that was erased with
-- success are read back, and neither step changes what is read from other sectors.
pub record IsSpiFlash {S : Type 0} (flash : SpiFlash S) : Type 0 where
  pub read-write :
      (sector : ℕ) (data_ : List ℕ) (s : S)
      → length data_ ≤ sec_size
      → (flash.erase_sector sector s).0 ≡ true
      → (flash.write (sector * sec_size) data_ (flash.erase_sector sector s).1).0 ≡ true
      → flash.read
          (sector * sec_size)
          (length data_)
          (flash.write (sector * sec_size) data_ (flash.erase_sector sector s).1).1
        ≡ some data_
  pub erase_elsewhere :
      (sector other n : ℕ) (s : S)
      → sector ≢ other
      → n ≤ sec_size
      → flash.read (other * sec_size) n (flash.erase_sector sector s).1
        ≡ flash.read (other * sec_size) n s
  pub write_elsewhere :
      (sector other n : ℕ) (data_ : List ℕ) (s : S)
      → sector ≢ other
      → n ≤ sec_size
      → length data_ ≤ sec_size
      → flash.read (other * sec_size) n (flash.write (sector * sec_size) data_ s).1
        ≡ flash.read (other * sec_size) n s

module _ {S : Type 0} (flash : SpiFlash S) (law : IsSpiFlash flash) where
  -- after an erasure with this result
  written-elsewhere :
      (data_ : List ℕ) (sector other n : ℕ) (e : Bool × S)
      → sector ≢ other
      → n ≤ sec_size
      → length data_ ≤ sec_size
      → flash.read (other * sec_size) n (write_erased flash data_ sector e).1
        ≡ flash.read (other * sec_size) n e.1
  unfolding write_erased
  written-elsewhere data_ sector other n (false, s) h k l = refl
  written-elsewhere data_ sector other n (true, s) h k l =
      law.write_elsewhere sector other n data_ s h k l

  -- A write to a sector, whether it succeeds or not, leaves what other sectors give.
  pub binary_data-write_elsewhere :
      (data_ : List ℕ) (sector other n : ℕ) (s : S)
      → sector ≢ other
      → n ≤ sec_size
      → length data_ ≤ sec_size
      → get_spi_flash_binary_data flash n other (write_spi_flash_data flash data_ sector s).1
        ≡ get_spi_flash_binary_data flash n other s
  unfolding write_spi_flash_data get_spi_flash_binary_data
  binary_data-write_elsewhere data_ sector other n s h k l =
      written-elsewhere data_ sector other n (flash.erase_sector sector s) h k l
      ∙ law.erase_elsewhere sector other n s h k

  wrote : (b : Bool) → ◌≡◌ {A = ℕ} (if b then 0 else 1) 0 → b ≡ true
  wrote true e = refl
  wrote false e = absurd (omega (arith, e))

  written-back :
      (data_ : List ℕ) (sector : ℕ) (e : Bool × S) (s : S)
      → length data_ ≤ sec_size
      → flash.erase_sector sector s ≡ e
      → (write_erased flash data_ sector e).0 ≡ 0
      → flash.read (sector * sec_size) (length data_) (write_erased flash data_ sector e).1
        ≡ some data_
  unfolding write_erased
  written-back data_ sector (false, s1) s fits erased ok = absurd (omega (arith, ok))
  written-back data_ sector (true, s1) s fits erased ok =
      let at = ap (λ r. r.1) erased in
      let done =
        subst (λ u. (flash.write (sector * sec_size) data_ u).0 ≡ true) (sym at)
          (wrote (flash.write (sector * sec_size) data_ s1).0 ok) in
      subst
        (λ u.
          flash.read (sector * sec_size) (length data_) (flash.write (sector * sec_size) data_ u).1
          ≡ some data_)
        at (law.read-write sector data_ s fits (ap (λ r. r.0) erased) done)

  -- Bytes of at most a sector that are written with the result 0 are read back.
  pub binary_data-write :
      (data_ : List ℕ) (sector : ℕ) (s : S)
      → length data_ ≤ sec_size
      → (write_spi_flash_data flash data_ sector s).0 ≡ 0
      → get_spi_flash_binary_data flash
          (length data_)
          sector
          (write_spi_flash_data flash data_ sector s).1
        ≡ some data_
  unfolding write_spi_flash_data get_spi_flash_binary_data
  binary_data-write data_ sector s fits ok =
      written-back data_ sector (flash.erase_sector sector s) s fits refl ok

  -- On a flash that behaves as documented, a relay state of at most a sector that is saved with the result 0 is what a read then gives,
  -- whatever the caller's array of that length held; and the configuration's sector gives what it gave before,
  -- whether the save succeeds or not.
  pub read_relay_state-save_relay_state :
      (relay_state old : List ℕ) (n : ℕ) (s : S)
      → length relay_state ≤ sec_size
      → length old ≡ length relay_state
      → n ≤ sec_size
      → (get_spi_flash_binary_data flash n sector_cfg_data (save_relay_state flash relay_state s).1
          ≡ get_spi_flash_binary_data flash n sector_cfg_data s)
        × ((save_relay_state flash relay_state s).0 ≡ 0
            → read_relay_state flash old (save_relay_state flash relay_state s).1
              ≡ (0, relay_state))
  unfolding save_relay_state read_relay_state relay_from
  read_relay_state-save_relay_state relay_state old n s fits same k = (
    binary_data-write_elsewhere relay_state sector_cfg_dev_status sector_cfg_data n s (omega arith)
        k fits,
    λ ok. rw (same, binary_data-write relay_state sector_cfg_dev_status s fits ok) refl,
  )

-- no byte that ends a text
abbrev pub IsText : List ℕ → Type 0
IsText t = All (λ c. (c == 0 || c == 0xff) ≡ false) t

pub text_end-text :
    (t : List ℕ) (c : ℕ) (rest : List ℕ)
    → IsText t
    → (c == 0 || c == 0xff) ≡ true
    → text_end (t ++ c ∷ rest) ≡ length t
unfolding text_end
text_end-text [] c rest h k = rw k refl
text_end-text (x ∷ t) c rest h k = rw (h.0, text_end-text t c rest h.1 k) refl

until_nul-end_at :
    (t : List ℕ) (c : ℕ) (rest : List ℕ)
    → IsText t
    → until_nul (end_at (length t) (t ++ c ∷ rest)) ≡ t
unfolding until_nul
until_nul-end_at [] c rest h = refl
until_nul-end_at (x ∷ t) c rest h =
    let nonzero : (x == 0) ≡ false = ground (arith, h.0) in
    rw (nonzero, until_nul-end_at t c rest h.1) refl

-- a text ends where nothing more was read, or at one of these bytes
abbrev pub Ends : List ℕ → Type 0
Ends [] = Unit
Ends (c ∷ more) = (c == 0 || c == 0xff) ≡ true

TextIs : List ℕ → Option (List ℕ) × ℕ → Type 0
TextIs t r = (buf : List ℕ) × (r ≡ (some buf, length t)) × (until_nul buf ≡ t)

text_from_lem : (t rest : List ℕ) → IsText t → Ends rest → TextIs t (text_from (some (t ++ rest)))
unfolding text_from TextIs
text_from_lem t [] clean ends = (
  end_at (length t) (t ++ 0 ∷ []),
  rw (append-nil t, text_end-text t 0 [] clean refl) refl,
  until_nul-end_at t 0 [] clean,
)
text_from_lem t (c ∷ more) clean ends = (
  end_at (length t) (t ++ c ∷ (more ++ 0 ∷ [])),
  rw (append_assoc t (c ∷ more) (0 ∷ []), text_end-text t c (more ++ 0 ∷ []) clean ends) refl,
  until_nul-end_at t c (more ++ 0 ∷ []) clean,
)

-- Where one sector or more can be read, a text in flash without 0x00 and 0xFF that ends with one of
-- these or at the end of the bytes read is what the buffer holds as a C string, and its length is what
-- `*buf_len` gets.
pub get_spi_flash_text_data_lem :
    {S : Type 0}
    → (flash : SpiFlash S) (sector count : ℕ) (t rest : List ℕ) (s : S) → IsText t
    → count ≢ 0
    → flash.read (sector * sec_size) (4096 * count - 1) s ≡ some (t ++ rest)
    → Ends rest
    → (buf : List ℕ) × (get_spi_flash_text_data flash sector count s ≡ (some buf, length t))
      × (until_nul buf ≡ t)
unfolding get_spi_flash_text_data TextIs
get_spi_flash_text_data_lem flash sector count t rest s clean some_sector got ends =
    let counted : (count == 0) ≡ false = ground arith in
    let run : get_spi_flash_text_data flash sector count s ≡ text_from (some (t ++ rest)) =
      rw counted (ap text_from got) in
    subst (TextIs t) (sym run) (text_from_lem t rest clean ends)
