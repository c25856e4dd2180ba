-- ===== src/Wifi.antt =====
-- components/espressif/wifi.c: the WiFi configurations that app_wifi_sta and app_wifi_softap hand to the
-- SDK. In `wifi_config_t` the name has 32 bytes, and the password's 64 stand behind them.
pub mod Laws
use esp32base.Base.{ℕ, ◌+◌, ◌%◌, ◌==◌, Bool, List, if◌then◌else◌, length, replicate, c_str}
use esp32base.Stream.{blit}

pub data AuthMode : Type 0 where
  auth_open auth_wpa_wpa2_psk : AuthMode

-- `wifi_config.ap`, of which `credentials` are the name and the password
pub record ApConfig : Type 0 where
  pub credentials : List ℕ
  pub ssid_len : ℕ
  pub max_connection : ℕ
  pub authmode : AuthMode

abbrev pub ssid_size : ℕ
ssid_size = 32

abbrev pub password_size : ℕ
password_size = 64

-- the two calls of `strcpy` into a configuration of zero bytes
unfoldable pub credentials_of : List ℕ → List ℕ → List ℕ
credentials_of ssid passwd =
    blit (blit (replicate (ssid_size + password_size) 0) 0 (c_str ssid)) ssid_size (c_str passwd)

-- `app_wifi_sta`: `wifi_config.sta`
unfoldable pub app_wifi_sta : List ℕ → List ℕ → List ℕ
app_wifi_sta ssid passwd = credentials_of ssid passwd

-- `app_wifi_softap`
unfoldable pub app_wifi_softap : List ℕ → List ℕ → ApConfig
app_wifi_softap in_ssid in_pwd = record {
  credentials = credentials_of in_ssid in_pwd;
  ssid_len = length in_ssid % 256;
  max_connection = 2;
  authmode = if length in_pwd == 0 then auth_open else auth_wpa_wpa2_psk;
}
