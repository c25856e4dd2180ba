-- ===== src/Config.antt =====
-- The configuration in flash: main/cfg.h and the setters of main/trans_data_a.c. The flash driver is a
-- parameter: its state, what a read of the configuration's sector gives (nothing where it fails), and
-- a write.
pub mod Laws
use esp32base.Base.{ltb, length, ◌&&◌, Bool, true, false, ℕ, Option, none, some, List, []}

-- `EzhWifiMode`
pub data WifiMode : Type 0 where
  undo ap_mode sta : WifiMode

-- `TagCfgData`, its arrays as the strings that they hold
pub record CfgData : Type 0 where
  pub dev_init_flag : ℕ
  pub mode : WifiMode
  pub ap_ssid : List ℕ
  pub ap_password : List ℕ
  pub sta_ssid : List ℕ
  pub sta_password : List ℕ
  pub uart1_baud_rate : ℕ
  pub tcpserv1_port : ℕ
  pub devuuid : List ℕ
  pub devname : List ℕ
  pub devflag : List ℕ
  pub is_mqtt_start : ℕ
  pub mqtt_host : List ℕ
  pub mqtt_port : ℕ
  pub mqtt_clientid : List ℕ
  pub mqtt_username : List ℕ
  pub mqtt_password : List ℕ

-- `get_spi_flash_binary_data` and `write_spi_flash_data` of the configuration's sector; a write gives 0,
-- or 1 where it fails
pub record Flash (S : Type 0) : Type 0 where
  pub read_cfg : S → Option CfgData
  pub write_cfg : CfgData → S → ℕ × S

module _ {S : Type 0} (flash : Flash S) where
  -- a failed read is NULL, and a write through it faults
  unfoldable pub write_back : (CfgData → CfgData) → Option CfgData → S → Option (ℕ × S)
  write_back change none s = none
  write_back change (some cfg) s = some (flash.write_cfg (change cfg) s)

  -- read, change, write: what the setters share, with the result of the write; `none` is a fault
  unfoldable pub update_cfg : (CfgData → CfgData) → S → Option (ℕ × S)
  update_cfg change s = write_back change (flash.read_cfg s) s

  -- a `strcpy` that runs past its array leaves nothing to be said
  unfoldable pub fitting : Bool → (CfgData → CfgData) → S → Option (ℕ × S)
  fitting false change s = none
  fitting true change s = update_cfg change s

  -- `setMqtt`, with `mqtt_host[128]`
  unfoldable pub set_mqtt : List ℕ → ℕ → S → Option (ℕ × S)
  set_mqtt host port =
      fitting (ltb (length host) 128) (λ cfg. record cfg { mqtt_host = host; mqtt_port = port })

  -- `setMqttInfo`
  unfoldable pub set_mqtt_info : List ℕ → List ℕ → List ℕ → S → Option (ℕ × S)
  set_mqtt_info client_id username password =
      fitting (ltb (length client_id) 64 && (ltb (length username) 64 && ltb (length password) 64))
        (λ cfg. record cfg {
          mqtt_clientid = client_id;
          mqtt_username = username;
          mqtt_password = password;
        })

  -- `setConnectWifi`, `setOpenWifi` and `setCloseWifi`, which restart the system at their end
  unfoldable pub set_connect_wifi : List ℕ → List ℕ → S → Option (ℕ × S)
  set_connect_wifi ssid password =
      fitting (ltb (length ssid) 96 && ltb (length password) 34)
        (λ cfg. record cfg { sta_ssid = ssid; sta_password = password; mode = sta })

  unfoldable pub set_open_wifi : List ℕ → List ℕ → S → Option (ℕ × S)
  set_open_wifi ssid password =
      fitting (ltb (length ssid) 96 && ltb (length password) 34)
        (λ cfg. record cfg { ap_ssid = ssid; ap_password = password; mode = ap_mode })

  unfoldable pub set_close_wifi : S → Option (ℕ × S)
  set_close_wifi = update_cfg (λ cfg. record cfg {
    ap_ssid = [];
    ap_password = [];
    sta_ssid = [];
    sta_password = [];
    mode = undo;
  })

  -- `setMqttStartAndStop`
  unfoldable pub set_mqtt_start_and_stop : ℕ → S → Option (ℕ × S)
  set_mqtt_start_and_stop b = update_cfg (λ cfg. record cfg { is_mqtt_start = b })
