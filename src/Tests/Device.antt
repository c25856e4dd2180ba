-- ===== src/Tests/Device.antt =====
-- The key scanner, the configuration, the commands and the scene helpers at concrete inputs.
use esp32base.Scene.{print_16, str_to_hex}
use esp32base.Scene.Hex.{str_to_hex-print_16}
use esp32base.Base.{ℕ, ◌≡◌, refl, some, List, [], ◌∷◌, ◌++◌, arith, codes}
use esp32base.Gpio.{init_key, scan}
use esp32base.Gpio.Debounce.{expected, scan-expected}
use esp32base.Text.{trim, ltrim, rtrim, rtrim_loop, atoi, atoi_from, signed_from}
use esp32base.Config.{CfgData, undo, Flash, set_mqtt}
use esp32base.Config.Laws.{IsFlash}
use esp32base.Command.{mqtt_app_start, refused, finished, do_command}
use esp32base.Command.Laws.{do_command-setmqtt}

abbrev levels : List ℕ
levels = 1 ∷ 0 ∷ 0 ∷ 0 ∷ 1 ∷ 0 ∷ []

scan-expected_example : scan init_key levels ≡ expected 0 levels
scan-expected_example = scan-expected levels

-- a flash that holds one configuration, and never fails
abbrev working : Flash CfgData
working = record { read_cfg = λ s. some s; write_cfg = λ cfg s. (0, cfg) }

working-IsFlash : IsFlash working
working-IsFlash cfg s ok = refl

abbrev blank : CfgData
blank = record {
  dev_init_flag = 1111112;
  mode = undo;
  ap_ssid = [];
  ap_password = [];
  sta_ssid = [];
  sta_password = [];
  uart1_baud_rate = 9600;
  tcpserv1_port = 2000;
  devuuid = [];
  devname = [];
  devflag = [];
  is_mqtt_start = 0;
  mqtt_host = [];
  mqtt_port = 0;
  mqtt_clientid = [];
  mqtt_username = [];
  mqtt_password = [];
}

do_command-setmqtt_example :
    do_command working (codes "setmqtt " ++ ((codes "h" ++ b',' ∷ codes "80") ++ 0 ∷ [])) blank
    ≡ finished
        (mqtt_app_start ∷ [])
        (refused ∷ [])
        (set_mqtt working (trim (codes "setmqtt " ++ codes "h")) 80 blank)
do_command-setmqtt_example =
    do_command-setmqtt working (codes "h") (codes "80") [] 80 blank (refl, tt) (omega arith, tt)
      (omega arith, (omega arith, tt)) (omega arith) (omega arith)
      (unfold atoi atoi_from signed_from trim rtrim rtrim_loop ltrim in refl)

abbrev printed_bytes : List ℕ
printed_bytes = 0 ∷ 10 ∷ 255 ∷ []

str_to_hex-print_16_example : str_to_hex (print_16 printed_bytes) 3 ≡ some printed_bytes
str_to_hex-print_16_example =
    str_to_hex-print_16 printed_bytes 3 (omega arith, (omega arith, (omega arith, tt)))
