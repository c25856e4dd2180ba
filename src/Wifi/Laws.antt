-- ===== src/Wifi/Laws.antt =====
-- What the SDK reads from the WiFi configurations.
use esp32base.Base.{
  ◌%◌, ℕ, zero, suc, ◌+◌, ◌≤◌, ◌<◌, ◌≡◌, refl, ap, sym, ◌∙◌, ◌↔◌, false, List, [], ◌∷◌, ◌++◌, ◌==◌,
  arith, if◌then◌else◌, length, length-append, length-c_str, length-take, length-drop, take, drop,
  take-append_le, take-append_length, drop-append_length, take-take, replicate, c_str, AllNonzero,
  until_nul, append_assoc,
}
use esp32base.Wifi.{
  auth_open, auth_wpa_wpa2_psk, ssid_size, password_size, credentials_of, app_wifi_sta,
  app_wifi_softap,
}

-- the name and the password that the SDK reads: strings that may fill their arrays
abbrev pub ssid_of : List ℕ → List ℕ
ssid_of credentials = until_nul (take ssid_size credentials)

abbrev pub password_of : List ℕ → List ℕ
password_of credentials = until_nul (take password_size (drop ssid_size credentials))

until_nul-take :
    (k : ℕ) (s behind : List ℕ)
    → AllNonzero s
    → length s ≤ k
    → until_nul (take k (s ++ 0 ∷ behind)) ≡ s
unfolding until_nul
until_nul-take zero [] behind h fits = refl
until_nul-take (suc k) [] behind h fits = refl
until_nul-take zero (c ∷ s) behind h fits = absurd (omega arith)
until_nul-take (suc k) (c ∷ s) behind h fits =
    let char : (c == 0) ≡ false = ground (arith, h.0) in
    rw char (ap (λ t. c ∷ t) (until_nul-take k s behind h.1 (omega arith)))

-- a name of at most 32 and a password of at most 63 characters are read back
credentials_lem :
    (ssid passwd : List ℕ)
    → AllNonzero ssid
    → AllNonzero passwd
    → length ssid ≤ ssid_size
    → length passwd < password_size
    → (ssid_of (credentials_of ssid passwd) ≡ ssid)
      × (password_of (credentials_of ssid passwd) ≡ passwd)
      × (take (length ssid) (credentials_of ssid passwd) ≡ ssid)
unfolding credentials_of
credentials_lem ssid passwd h k name_fits fits =
    let zeros : List ℕ = replicate (ssid_size + password_size) 0 in
    let mem = c_str ssid ++ drop (0 + length (c_str ssid)) zeros in
    let rest = c_str passwd ++ drop (ssid_size + length (c_str passwd)) mem in
    let size : length mem ≡ ssid_size + password_size = omega (
      arith,
      length-append (c_str ssid) (drop (0 + length (c_str ssid)) zeros),
      length-drop (0 + length (c_str ssid)) zeros,
      length-c_str ssid,
    ) in
    let front : length (take ssid_size mem) ≡ ssid_size = length-take ssid_size mem (omega arith) in
    let name : take ssid_size (take ssid_size mem ++ rest) ≡ take ssid_size mem =
      ap (λ n. take n (take ssid_size mem ++ rest)) (sym front)
      ∙ take-append_length (take ssid_size mem) rest in
    let behind : drop ssid_size (take ssid_size mem ++ rest) ≡ rest =
      ap (λ n. drop n (take ssid_size mem ++ rest)) (sym front)
      ∙ drop-append_length (take ssid_size mem) rest in
    (
      ap until_nul name
          ∙ ap (λ t. until_nul (take ssid_size t))
              (append_assoc ssid (0 ∷ []) (drop (0 + length (c_str ssid)) zeros))
          ∙ until_nul-take ssid_size ssid (drop (0 + length (c_str ssid)) zeros) h name_fits,
      ap (λ t. until_nul (take password_size t))
            (behind ∙ append_assoc passwd (0 ∷ []) (drop (ssid_size + length (c_str passwd)) mem))
          ∙ until_nul-take password_size passwd (drop (ssid_size + length (c_str passwd)) mem) k
              (omega arith),
      take-append_le (length ssid) (take ssid_size mem) rest (omega arith)
          ∙ take-take (length ssid) ssid_size mem name_fits
          ∙ ap (take (length ssid))
              (append_assoc ssid (0 ∷ []) (drop (0 + length (c_str ssid)) zeros))
          ∙ take-append_length ssid (0 ∷ drop (0 + length (c_str ssid)) zeros),
    )

open_lem :
    (passwd : List ℕ)
    → ((if length passwd == 0 then auth_open else auth_wpa_wpa2_psk) ≡ auth_open) ↔ (passwd ≡ [])
open_lem [] = (λ e. refl, λ e. refl)
open_lem (c ∷ passwd) = (λ e. ground arith, λ e. cc e)

-- A name of at most 32 characters and a password of at most 63: the access point has exactly these,
-- with the name's length, two clients at most, and is open exactly where the password is empty; the
-- station is given exactly these too.
pub app_wifi_softap_lem :
    (ssid passwd : List ℕ)
    → AllNonzero ssid
    → AllNonzero passwd
    → length ssid ≤ ssid_size
    → length passwd < password_size
    → (ssid_of (app_wifi_softap ssid passwd).credentials ≡ ssid)
      × (password_of (app_wifi_softap ssid passwd).credentials ≡ passwd)
      × (take (app_wifi_softap ssid passwd).ssid_len (app_wifi_softap ssid passwd).credentials
          ≡ ssid)
      × ((app_wifi_softap ssid passwd).max_connection ≡ 2)
      × (((app_wifi_softap ssid passwd).authmode ≡ auth_open) ↔ (passwd ≡ []))
      × (app_wifi_sta ssid passwd ≡ (app_wifi_softap ssid passwd).credentials)
unfolding app_wifi_softap app_wifi_sta
app_wifi_softap_lem ssid passwd h k name_fits fits =
    let (name, word, front) = credentials_lem ssid passwd h k name_fits fits in
    let short : length ssid % 256 ≡ length ssid = omega arith in
    (
      name,
      word,
      ap (λ n. take n (credentials_of ssid passwd)) short ∙ front,
      refl,
      open_lem passwd,
      refl,
    )
