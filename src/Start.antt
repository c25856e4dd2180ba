-- ===== src/Start.antt =====
-- The start of the device: initFactoryCfgFlash of main/cfg.c, and event_handler and app_main of
-- main/main.c. cJSON, the MAC address and `rand` are parameters; drivers and tasks are the list of
-- what is started.
pub mod Factory
pub mod PowerOn
use esp32base.Base.{
  ℕ, zero, suc, ◌+◌, ◌/◌, ◌%◌, Bool, true, false, ◌&&◌, Option, none, some, List, [], ◌∷◌, ◌++◌,
  ◌==◌, ltb, if◌then◌else◌, length, get_or, take, drop, replicate, codes, decimal, until_nul, ◌>>=◌,
}
use esp32base.Config.{WifiMode, undo, ap_mode, sta, CfgData}
use esp32base.Device.{Names, names_of}
use esp32base.SpiData.{text_end}

-- `cJSON_Parse`, and the number and the string of the member that `cJSON_GetObjectItem` finds; nothing
-- where there is no such member, of which the code does not ask
pub record Json (J : Type 0) : Type 0 where
  pub parse : List ℕ → Option J
  pub int_item : J → List ℕ → Option ℕ
  pub string_item : J → List ℕ → Option (List ℕ)

-- `INIT_HARDWARE_FLAG`
abbrev pub init_hardware_flag : ℕ
init_hardware_flag = 1111112

-- strncpy(buf, s, n): the bytes of `s` up to its NUL, zeros behind it, `n` bytes in all
abbrev pub strncpy : List ℕ → List ℕ → ℕ → List ℕ
strncpy buf s n = take n (s ++ replicate n 0) ++ drop n buf

-- a digit of %02x and of %02X
abbrev pub hex_digit : Bool → ℕ → ℕ
hex_digit upper n = if ltb n 10 then 48 + n else if upper then 55 + n else 87 + n

-- sprintf("%02x", b) for a byte
unfoldable pub hex_byte : Bool → ℕ → List ℕ
hex_byte upper b = hex_digit upper (b / 16) ∷ hex_digit upper (b % 16) ∷ []

unfoldable pub hex_bytes : Bool → List ℕ → List ℕ
hex_bytes upper [] = []
hex_bytes upper (b ∷ bs) = hex_byte upper b ++ hex_bytes upper bs

-- what the calls of the SDK and of the C library give: the six bytes of the MAC address, and `rand()`
pub record Chip : Type 0 where
  pub mac_addr : List ℕ
  pub random : ℕ

-- the values of the JSON object, in the order in which the code asks for them
pub record Defaults : Type 0 where
  pub uart1_baud_rate : ℕ
  pub is_wifi_start : ℕ
  pub apssid : List ℕ
  pub apssid_password : List ℕ
  pub devname : List ℕ
  pub devflag : List ℕ
  pub mqtt_host : List ℕ
  pub mqtt_port : ℕ
  pub is_mqtt_start : ℕ
  pub tcpserv1_port : ℕ

-- What goes to `cfgdata`, with the strings as they are written. `ssbuf` is one buffer that every string
-- goes through.
unfoldable pub factory_strings : Chip → Defaults → CfgData
factory_strings chip d =
    let ssbuf1 = strncpy (replicate 255 0) d.apssid 64 in
    let ssbuf2 = strncpy ssbuf1 d.apssid_password 30 in
    let ssbuf3 = strncpy ssbuf2 d.devname 64 in
    let ssbuf4 = strncpy ssbuf3 d.devflag 64 in
    let ssbuf5 = strncpy ssbuf4 d.mqtt_host 200 in
    let tail_of_mac = hex_bytes false (take 3 (drop 3 chip.mac_addr)) in
    record {
      dev_init_flag = init_hardware_flag;
      mode = if d.is_wifi_start == 0 then undo else ap_mode;
      ap_ssid = until_nul ssbuf1 ++ tail_of_mac;
      ap_password = until_nul ssbuf2;
      sta_ssid = [];
      sta_password = [];
      uart1_baud_rate = d.uart1_baud_rate;
      tcpserv1_port = d.tcpserv1_port;
      devuuid =
          codes "HXK" ++ (hex_bytes true (take 6 chip.mac_addr) ++ decimal (chip.random % 1000));
      devname = until_nul ssbuf3 ++ tail_of_mac;
      devflag = until_nul ssbuf4;
      is_mqtt_start = d.is_mqtt_start;
      mqtt_host = until_nul ssbuf5;
      mqtt_port = d.mqtt_port;
      mqtt_clientid = [];
      mqtt_username = [];
      mqtt_password = [];
    }

-- whether the strings and their NULs fit into `apSSID[96]`, `apPassword[34]`, `devname[32]`,
-- `devflag[16]` and `mqtt_host[128]`; the at most 18 characters of `devuuid[64]` always do
abbrev pub in_arrays : CfgData → Bool
in_arrays cfg =
    ltb (length cfg.ap_ssid) 96
    && (ltb (length cfg.ap_password) 34
        && (ltb (length cfg.devname) 32
            && (ltb (length cfg.devflag) 16 && ltb (length cfg.mqtt_host) 128)))

-- `none` where a string is written past the end of its array
unfoldable pub factory_cfg : Chip → Defaults → Option CfgData
factory_cfg chip d =
    let cfgdata = factory_strings chip d in if in_arrays cfgdata then some cfgdata else none

-- the calls of `cJSON_GetObjectItem`; `none` where a member is missing, and a NULL is followed
unfoldable pub defaults_of : {J : Type 0} → Json J → J → Option Defaults
defaults_of json j = do
  baud ← json.int_item j (codes "uart1_baudRate")
  wifi ← json.int_item j (codes "is_wifi_start")
  ssid ← json.string_item j (codes "apssid")
  password ← json.string_item j (codes "apssid_password")
  name ← json.string_item j (codes "devname")
  flag ← json.string_item j (codes "devflag")
  host ← json.string_item j (codes "mqtt_host")
  port ← json.int_item j (codes "mqtt_port")
  mqtt ← json.int_item j (codes "is_mqtt_start")
  tcp ← json.int_item j (codes "tcpserv1_port")
  some (record {
    uart1_baud_rate = baud;
    is_wifi_start = wifi;
    apssid = ssid;
    apssid_password = password;
    devname = name;
    devflag = flag;
    mqtt_host = host;
    mqtt_port = port;
    is_mqtt_start = mqtt;
    tcpserv1_port = tcp;
  })

-- what the factory reset needs of the flash: the 4095 bytes of the JSON text's sector, nothing for NULL;
-- the configuration; and its write, whose result the code does not look at
pub record FactoryFlash (S : Type 0) : Type 0 where
  pub read_json : S → Option (List ℕ)
  pub read_cfg : S → Option CfgData
  pub write_cfg : CfgData → S → S

module _ {S J : Type 0} (flash : FactoryFlash S) (json : Json J) (chip : Chip) where
  -- what follows a successful parse
  unfoldable pub factory_write : J → S → Option S
  factory_write j s = do
    d ← defaults_of json j
    cfgdata ← factory_cfg chip d
    some (flash.write_cfg cfgdata s)

  -- `if(json)`: a text that is not JSON changes nothing
  unfoldable pub factory_parsed : Option J → S → Option S
  factory_parsed none s = some s
  factory_parsed (some j) s = factory_write j s

  -- `initFactoryCfgFlash`: the flash after it, `none` where it faults, as it does on the NULL of a failed
  -- read
  unfoldable pub init_factory_cfg_flash : S → Option S
  init_factory_cfg_flash s = flash.read_json s >>= λ pdefjson.
      factory_parsed (json.parse (take (text_end pdefjson) pdefjson)) s

-- what `app_main` comes to: `esp_restart`, a fault, or the start of the device on a configuration
pub data Boot (S : Type 0) : Type 0 where
  restarts : S → Boot S
  faults : Boot S
  runs : CfgData → Boot S

abbrev restart_after : {S : Type 0} → Option S → Boot S
restart_after none = faults
restart_after (some s) = restarts s

module _ {S J : Type 0} (flash : FactoryFlash S) (json : Json J) (chip : Chip) where
  -- the tests of `app_main` on the configuration read
  unfoldable pub checked : S → Option CfgData → Boot S
  checked s none = restarts s
  checked s (some cfg) =
      let reset = restart_after (init_factory_cfg_flash flash json chip s) in
      if cfg.dev_init_flag == init_hardware_flag then runs cfg else reset

  -- what a boot leads to, given what a restart does
  unfoldable pub go_on : S → (S → Option (S × CfgData)) → Boot S → Option (S × CfgData)
  go_on s again (restarts s') = again s'
  go_on s again faults = none
  go_on s again (runs cfg) = some (s, cfg)

  -- the loop of restarts, with fuel; `none` where the fuel runs out or the device faults
  unfoldable pub power_on : ℕ → S → Option (S × CfgData)
  power_on zero s = none
  power_on (suc fuel) s = go_on s (power_on fuel) (checked s (flash.read_cfg s))

-- what `app_main` starts: drivers with their rate or port, servers, the WiFi
pub data Started : Type 0 where
  task_gpio task_uart_debug task_udp : Started
  task_uart1 task_uart2 : ℕ → Started
  task_web task_tcpserv : ℕ → Started
  wifi_softap wifi_sta : List ℕ → List ℕ → Started

-- the `switch` on the WiFi mode
unfoldable pub start_wifi : CfgData → WifiMode → List Started
start_wifi cfg undo = []
start_wifi cfg ap_mode = wifi_softap cfg.ap_ssid cfg.ap_password ∷ []
start_wifi cfg sta = wifi_sta cfg.sta_ssid cfg.sta_password ∷ []

-- `app_main` from the names on
unfoldable pub start_up : CfgData → Names × List Started
start_up cfg = (
  names_of cfg,
  task_gpio
      ∷ task_uart_debug
      ∷ task_uart1 cfg.uart1_baud_rate
      ∷ task_uart2 19200
      ∷ task_web 80
      ∷ ((if ltb 0 cfg.tcpserv1_port then task_tcpserv cfg.tcpserv1_port ∷ [] else [])
          ++ task_udp ∷ start_wifi cfg cfg.mode),
)

-- the events of the SDK that `event_handler` names
pub data SystemEvent : Type 0 where
  sta_start sta_disconnected sta_connected sta_got_ip : SystemEvent
  ap_staconnected ap_stadisconnected eth_connected eth_disconnected eth_got_ip other_event :
      SystemEvent

pub data NetAction : Type 0 where
  wifi_connect start_mqtt start_yun : NetAction

-- `event_handler`; the case of `eth_disconnected` has no `break`
unfoldable pub event_handler : SystemEvent → List NetAction
event_handler sta_start = wifi_connect ∷ []
event_handler sta_disconnected = wifi_connect ∷ []
event_handler sta_connected = []
event_handler sta_got_ip = start_mqtt ∷ start_yun ∷ []
event_handler ap_staconnected = []
event_handler ap_stadisconnected = []
event_handler eth_connected = []
event_handler eth_disconnected = start_mqtt ∷ start_yun ∷ []
event_handler eth_got_ip = start_mqtt ∷ start_yun ∷ []
event_handler other_event = []
