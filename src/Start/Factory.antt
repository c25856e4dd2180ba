-- ===== src/Start/Factory.antt =====
-- The configuration that a factory reset writes.
use esp32base.Base.{
  ℕ, zero, suc, ◌≤◌, ◌<◌, ◌≡◌, refl, ap, ◌∙◌, Bool, true, false, ◌&&◌, ◌*◌, ltb, length-append,
  if◌then◌else◌, some, none, List, [], ◌∷◌, ◌++◌, ◌==◌, length, take, drop, arith, until_nul,
  replicate, AllNonzero,
}
use esp32base.Start.{
  strncpy, Chip, Defaults, factory_strings, in_arrays, factory_cfg, hex_bytes, hex_byte,
}

until_nul-take :
    (s rest : List ℕ) (n m : ℕ)
    → AllNonzero s
    → length s < n
    → 0 < m
    → until_nul (take n (s ++ replicate m 0) ++ rest) ≡ s
unfolding until_nul
until_nul-take [] rest zero m h k p = absurd (omega arith)
until_nul-take [] rest (suc n) zero h k p = absurd (omega arith)
until_nul-take [] rest (suc n) (suc m) h k p = refl
until_nul-take (c ∷ s) rest zero m h k p = absurd (omega arith)
until_nul-take (c ∷ s) rest (suc n) m h k p =
    let nonzero : (c == 0) ≡ false = ground (arith, h.0) in
    rw (nonzero, until_nul-take s rest n m h.1 (omega arith) p) refl

drop_nil : (k : ℕ) → drop {A = ℕ} k [] ≡ []
drop_nil zero = refl
drop_nil (suc k) = refl

until_nul-drop-take :
    (k : ℕ) (s rest : List ℕ) (n m : ℕ)
    → AllNonzero s
    → length s < n
    → k < n
    → k < m
    → until_nul (drop k (take n (s ++ replicate m 0) ++ rest)) ≡ drop k s
until_nul-drop-take zero s rest n m h p q r = until_nul-take s rest n m h p r
until_nul-drop-take (suc k) s rest zero m h p q r = absurd (omega arith)
until_nul-drop-take (suc k) [] rest (suc n) zero h p q r = absurd (omega arith)
until_nul-drop-take (suc k) [] rest (suc n) (suc m) h p q r =
    until_nul-drop-take k [] rest n m tt (omega arith) (omega arith) (omega arith) ∙ drop_nil k
until_nul-drop-take (suc k) (c ∷ s) rest (suc n) m h p q r =
    until_nul-drop-take k s rest n m h.1 (omega arith) (omega arith) (omega arith)

until_nul-cut :
    (n : ℕ) (s zeros rest : List ℕ)
    → AllNonzero s
    → n ≤ length s
    → until_nul (take n (s ++ zeros) ++ rest) ≡ take n s ++ until_nul rest
unfolding until_nul
until_nul-cut zero s zeros rest h k = refl
until_nul-cut (suc n) [] zeros rest h k = absurd (omega arith)
until_nul-cut (suc n) (c ∷ s) zeros rest h k =
    let nonzero : (c == 0) ≡ false = ground (arith, h.0) in
    rw (nonzero, until_nul-cut n s zeros rest h.1 (omega arith)) refl

until_nul-strncpy :
    (buf s : List ℕ) (n : ℕ) → AllNonzero s → length s < n → until_nul (strncpy buf s n) ≡ s
until_nul-strncpy buf s n h k = until_nul-take s (drop n buf) n n h k (omega arith)

-- the values of the JSON text are C strings that leave room for the NUL in what is copied, and end
-- within the arrays of the configuration
pub record IsDefault (d : Defaults) : Type 0 where
  pub ssid : AllNonzero d.apssid
  pub ssid_fits : length d.apssid < 64
  pub password : AllNonzero d.apssid_password
  pub password_fits : length d.apssid_password < 30
  pub name : AllNonzero d.devname
  pub name_fits : length d.devname < 26
  pub flag : AllNonzero d.devflag
  pub flag_fits : length d.devflag < 16
  pub host : AllNonzero d.mqtt_host
  pub host_fits : length d.mqtt_host < 128

-- what a factory reset is to give, given the end of the MAC address in hex digits
abbrev pub expected_strings : List ℕ → Defaults → List (List ℕ)
expected_strings mac d =
    (d.apssid ++ mac) ∷ d.apssid_password ∷ (d.devname ++ mac) ∷ d.devflag ∷ d.mqtt_host ∷ []

length-hex_bytes : (upper : Bool) (bs : List ℕ) → length (hex_bytes upper bs) ≡ 2 * length bs
unfolding hex_bytes hex_byte
length-hex_bytes upper [] = refl
length-hex_bytes upper (b ∷ bs) = omega (arith, length-hex_bytes upper bs)

length-take_most : (n : ℕ) (xs : List ℕ) → length (take n xs) ≤ n
length-take_most zero xs = omega arith
length-take_most (suc n) [] = omega arith
length-take_most (suc n) (x ∷ xs) = omega (arith, length-take_most n xs)

strings_lem :
    (chip : Chip) (d : Defaults)
    → IsDefault d
    → let cfg = factory_strings chip d in
      let mac = hex_bytes false (take 3 (drop 3 chip.mac_addr)) in
      (cfg.ap_ssid ∷ cfg.ap_password ∷ cfg.devname ∷ cfg.devflag ∷ cfg.mqtt_host ∷ [])
      ≡ expected_strings mac d
unfolding factory_strings
strings_lem chip d h =
    rw
      (
        until_nul-strncpy (replicate 255 0) d.apssid 64 h.ssid h.ssid_fits,
        until_nul-strncpy _ d.apssid_password 30 h.password h.password_fits,
        until_nul-strncpy _ d.devname 64 h.name (omega (arith, h.name_fits)),
        until_nul-strncpy _ d.devflag 64 h.flag (omega (arith, h.flag_fits)),
        until_nul-strncpy _ d.mqtt_host 200 h.host (omega (arith, h.host_fits)),
      )
      refl

-- the array tests, on the five strings
strings_fit : List (List ℕ) → Bool
strings_fit (ssid ∷ password ∷ name ∷ flag ∷ host ∷ []) =
    ltb (length ssid) 96
    && (ltb (length password) 34
        && (ltb (length name) 32 && (ltb (length flag) 16 && ltb (length host) 128)))
strings_fit _ = false

expected_fit :
    (bytes : List ℕ) (d : Defaults)
    → length bytes ≤ 3
    → IsDefault d
    → strings_fit (expected_strings (hex_bytes false bytes) d) ≡ true
unfolding strings_fit
expected_fit bytes d small h =
    let mac = hex_bytes false bytes in
    let size = length-hex_bytes false bytes in
    let ssid = length-append d.apssid mac in
    let name = length-append d.devname mac in
    let a : ltb (length (d.apssid ++ mac)) 96 ≡ true = ground (arith, h.ssid_fits) in
    let b : ltb (length d.apssid_password) 34 ≡ true = ground (arith, h.password_fits) in
    let c : ltb (length (d.devname ++ mac)) 32 ≡ true = ground (arith, h.name_fits) in
    let e : ltb (length d.devflag) 16 ≡ true = ground (arith, h.flag_fits) in
    let f : ltb (length d.mqtt_host) 128 ≡ true = ground (arith, h.host_fits) in
    rw (a, b, c, e, f) refl

-- With default strings that end within their arrays, a factory reset comes to a configuration, and it
-- writes them as they are, the name of the access point and of the device with the last three bytes of
-- the MAC address in hex behind it: the one buffer that they all go through leaves nothing of one in
-- another.
pub factory_cfg_lem :
    (chip : Chip) (d : Defaults)
    → IsDefault d
    → let cfg = factory_strings chip d in
      let mac = hex_bytes false (take 3 (drop 3 chip.mac_addr)) in
      (factory_cfg chip d ≡ some cfg)
      × ((cfg.ap_ssid ∷ cfg.ap_password ∷ cfg.devname ∷ cfg.devflag ∷ cfg.mqtt_host ∷ [])
          ≡ expected_strings mac d)
unfolding factory_cfg strings_fit
factory_cfg_lem chip d h =
    let strings = strings_lem chip d h in
    let bytes = take 3 (drop 3 chip.mac_addr) in
    let fit : in_arrays (factory_strings chip d) ≡ true =
      ap strings_fit strings ∙ expected_fit bytes d (length-take_most 3 (drop 3 chip.mac_addr)) h in
    (ap (λ b. if b then some (factory_strings chip d) else none) fit, strings)

-- A default password of 30 characters or more is not closed by a NUL: with a default name of the
-- access point of fewer than 64, a factory reset appends to the password's first 30 characters what
-- that name has behind its 30th.
pub factory_cfg-leak :
    (chip : Chip) (d : Defaults)
    → AllNonzero d.apssid
    → length d.apssid < 64
    → AllNonzero d.apssid_password
    → 30 ≤ length d.apssid_password
    → (factory_strings chip d).ap_password ≡ take 30 d.apssid_password ++ drop 30 d.apssid
unfolding factory_strings
factory_cfg-leak chip d h k p q =
    let ssbuf = strncpy (replicate 255 0) d.apssid 64 in
    until_nul-cut 30 d.apssid_password (replicate 30 0) (drop 30 ssbuf) p q
    ∙ ap (λ t. take 30 d.apssid_password ++ t)
        (until_nul-drop-take 30 d.apssid (drop 64 (replicate 255 0)) 64 64 h k (omega arith)
          (omega arith))
