-- ===== src/Tests/Tasks.antt =====
-- The console, the timers, the sockets, the WiFi and the page of data at concrete inputs.
use esp32base.Base.{
  ℕ, ◌+◌, ◌≤◌, ◌≡◌, ◌↔◌, refl, true, false, Bool, not, ◌||◌, none, some, List, [], ◌∷◌, ◌++◌, arith,
  codes, length, take, replicate, until_nul, bytes_eq,
}
use esp32base.Config.{CfgData, Flash, undo}
use esp32base.Command.{do_command, first_word, skip_space, word_of, run_word, help}
use esp32base.Text.{span}
use esp32base.Uart.{DebugLine}
use esp32base.Uart.Driver.{task_uart_debug}
use esp32base.Uart.Typing.{task_uart_debug-line}
use esp32base.TimerGroup.{HwTimer}
use esp32base.TimerGroup.Events.{
  interrupt, turn, TimerStep, timer_steps, waiting, accepted_timers, AreTimers, timer_steps_lem,
}
use esp32base.Device.{Names, failed}
use esp32base.Mcast.{
  zero_code, negative, Setup, Group, Mcast, McastEvent, setup, recv, app_mcast_task,
}
use esp32base.Mcast.Sockets.{closed, in_use, opened, app_mcast_task-closes}
use esp32base.HalI2c.Registers.{Slave, load}
use esp32base.HalI2c.Trip.{there, back, hal_i2c_master_mem_read-write}
use esp32base.Wifi.{app_wifi_sta, app_wifi_softap, auth_open}
use esp32base.Wifi.Laws.{ssid_of, password_of, app_wifi_softap_lem}
use esp32base.SmartConfig.{
  smart_step, smartconfig_handler, wifi_event_handler_smartcfg, SmartConfig, SmartEvent, sta_start,
  status_link, status_link_over, smart_steps, connects, disconnects, stops, sets_config,
  SmartAction,
}
use esp32base.SmartConfig.Order.{connects_early, is_configured, is_stopped, smart_steps-order}
use esp32base.UrlParser.{Url}
use esp32base.ParserClient.{Network, ParserInput, http_client, get_text, at_eof}
use esp32base.ParserClient.Resources.{count, is_connect, GivesBack, http_client-GivesBack}
use esp32base.Pages.Template.{Part, plain, mark}

-- a flash that cannot be read, which the command does not need
abbrev no_flash : Flash ℕ
no_flash = record { read_cfg = λ s. none; write_cfg = λ cfg s. (1, s) }

abbrev prompt : DebugLine
prompt = record { cmdline = replicate 255 0; len = 0 }

task_uart_debug-line_example :
    (line' : DebugLine) × (task_uart_debug no_flash prompt 0
        (codes "he" ∷ [] ∷ codes "l" ∷ (codes "p" ++ 0x0d ∷ []) ∷ [])
      ≡ some ((line', 0), help ∷ []))
    × (line'.len ≡ 0)
task_uart_debug-line_example =
    task_uart_debug-line no_flash prompt 0 0 (codes "he" ∷ [] ∷ codes "l" ∷ []) (codes "p")
      (help ∷ []) refl refl (omega arith) (omega arith) (omega arith) (omega arith)
      (unfold do_command first_word skip_space span word_of run_word until_nul bytes_eq in refl)

abbrev registers : HwTimer
registers = record { cnt_high = 0; cnt_low = 5; alarm_high = 0; alarm_low = 0; alarm_en = false }

abbrev timer_turns : List TimerStep
timer_turns = interrupt 0 1 registers ∷ interrupt 1 2 registers ∷ turn ∷ []

timer_steps_lem_example :
    ((timer_steps (λ t. t + 9) [] timer_turns).1
        ++ waiting (timer_steps (λ t. t + 9) [] timer_turns).0
      ≡ waiting [] ++ accepted_timers 0 timer_turns)
    × (length (timer_steps (λ t. t + 9) [] timer_turns).0 ≤ 10)
    × AreTimers (timer_steps (λ t. t + 9) [] timer_turns).0
timer_steps_lem_example = timer_steps_lem (λ t. t + 9) [] timer_turns tt (omega arith)

abbrev lamp : Names
lamp = record {
  devuuid = codes "HXK";
  devname = codes "la";
  devflag = codes "L";
  publish = codes "la";
  subscr = codes "la";
}

abbrev good_group : Group
good_group = record {
  ip_info = zero_code;
  is_valid = true;
  multicast_if = zero_code;
  membership = zero_code;
}

abbrev bound : ℕ → Setup
bound fd = record { fd = some fd; bind = zero_code; loopback = zero_code; group = good_group }

abbrev unbound : ℕ → Setup
unbound fd = record { fd = some fd; bind = negative; loopback = zero_code; group = good_group }

abbrev no_socket : Mcast
no_socket = record { udp_sock = none; last = record { ip = []; port = 0 } }

abbrev mcast_events : List McastEvent
mcast_events = setup (unbound 4) ∷ setup (bound 5) ∷ recv failed ∷ setup (bound 6) ∷ []

app_mcast_task-closes_example :
    closed (app_mcast_task lamp no_socket mcast_events).1
      ++ in_use (app_mcast_task lamp no_socket mcast_events).0.udp_sock
    ≡ [] ++ opened lamp no_socket mcast_events
app_mcast_task-closes_example = app_mcast_task-closes lamp no_socket mcast_events

app_wifi_softap_lem_example :
    (ssid_of (app_wifi_softap (codes "hx") (codes "pw")).credentials ≡ codes "hx")
    × (password_of (app_wifi_softap (codes "hx") (codes "pw")).credentials ≡ codes "pw")
    × (take
          (app_wifi_softap (codes "hx") (codes "pw")).ssid_len
          (app_wifi_softap (codes "hx") (codes "pw")).credentials
        ≡ codes "hx")
    × ((app_wifi_softap (codes "hx") (codes "pw")).max_connection ≡ 2)
    × (((app_wifi_softap (codes "hx") (codes "pw")).authmode ≡ auth_open) ↔ (codes "pw" ≡ []))
    × (app_wifi_sta (codes "hx") (codes "pw")
        ≡ (app_wifi_softap (codes "hx") (codes "pw")).credentials)
app_wifi_softap_lem_example =
    app_wifi_softap_lem (codes "hx") (codes "pw") (omega arith) (omega arith) (omega arith)
      (omega arith)

abbrev phone : List SmartEvent
phone = sta_start ∷ status_link (codes "cfg") ∷ status_link_over ∷ []

abbrev phone_actions : List SmartAction
phone_actions = sets_config (codes "cfg") ∷ disconnects ∷ connects ∷ stops ∷ []

abbrev set_up : SmartConfig
set_up = record { is_linked = true; is_connected = true; waits_for_link = false }

smart_steps-order_example :
    (connects_early phone_actions ≡ false)
    × (true ≡ is_configured phone_actions)
    × ((not true || is_stopped phone_actions) ≡ true)
smart_steps-order_example =
    smart_steps-order set_up phone phone_actions (refl, (refl, (refl, tt)))
      (unfold smart_steps smart_step smartconfig_handler wifi_event_handler_smartcfg in refl)

abbrev net : Network
net = record {
  lookup_error = 0;
  has_socket = true;
  connects = false ∷ true ∷ [];
  is_printed = true;
  is_written = true;
  reads = at_eof ∷ [];
}

abbrev url : Url
url = record {
  scheme = codes "http";
  host = codes "h";
  port = 80;
  authority = codes "h";
  path = codes "/";
}

-- a parser that counts its calls
abbrev counting : ℕ → ParserInput → ℕ × Bool
counting n input = (n + 1, true)

http_client-GivesBack_example :
    (count is_connect (http_client counting get_text url 0 net).1 ≤ 6)
    × GivesBack
        (http_client counting get_text url 0 net).0.0
        net
        (http_client counting get_text url 0 net).1
http_client-GivesBack_example = http_client-GivesBack counting get_text url 0 net refl

abbrev cfg : CfgData
cfg = record {
  dev_init_flag = 1;
  mode = undo;
  ap_ssid = [];
  ap_password = [];
  sta_ssid = [];
  sta_password = [];
  uart1_baud_rate = 9600;
  tcpserv1_port = 0;
  devuuid = codes "HXK";
  devname = codes "la";
  devflag = [];
  is_mqtt_start = 0;
  mqtt_host = codes "m.x";
  mqtt_port = 1883;
  mqtt_clientid = [];
  mqtt_username = [];
  mqtt_password = [];
}

abbrev parts : List Part
parts =
    plain (codes "p { x: 1 } ")
    ∷ mark (codes "mqttip")
    ∷ plain (codes ":")
    ∷ mark (codes "mqttport")
    ∷ mark (codes "tcpserv2")
    ∷ []

abbrev thermometer : Slave
thermometer = record { address = 0x48; pointer = 0; cells = λ i. i }

hal_i2c_master_mem_read-write_example :
    ((there thermometer 0x10 (7 ∷ 8 ∷ 9 ∷ [])).1 ≡ true)
    × (load (there thermometer 0x10 (7 ∷ 8 ∷ 9 ∷ [])).0.cells 0x10 3 ≡ 7 ∷ 8 ∷ 9 ∷ [])
    × ((back thermometer 0x10 (7 ∷ 8 ∷ 9 ∷ []) 0x10 (replicate 4 0) 3).1 ≡ true)
    × ((back thermometer 0x10 (7 ∷ 8 ∷ 9 ∷ []) 0x10 (replicate 4 0) 3).0.1
        ≡ 0x13 ∷ 0x14 ∷ 0x15 ∷ 0 ∷ [])
unfolding load
hal_i2c_master_mem_read-write_example =
    hal_i2c_master_mem_read-write thermometer 0x10 (7 ∷ 8 ∷ 9 ∷ []) 0x10 (replicate 4 0) 3
      (omega arith) (omega arith)
