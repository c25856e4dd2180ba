-- ===== src/Command.antt =====
-- The commands of the console and of the web page: `do_command` of main/cfg.c and the `cmd_` functions
-- of main/trans_data.c. Messages are left out, but for the two that stand for a refusal.
pub mod Laws
use esp32base.Base.{
  ◌>>=◌, ◌^◌, ℕ, zero, suc, ◌+◌, ◌-◌, Bool, true, false, ◌&&◌, ◌||◌, Option, none, some, List, [],
  ◌∷◌, ◌++◌, ◌==◌, ltb, leb, if◌then◌else◌, length, take, drop, bytes_eq, codes, until_nul,
}
use esp32base.Text.{trim, atoi, span, is_space}
use esp32base.Config.{
  Flash, update_cfg, set_mqtt, set_mqtt_info, set_connect_wifi, set_open_wifi, set_close_wifi,
  set_mqtt_start_and_stop,
}

-- what a command does besides the flash; `refused` and `unknown` are messages
pub data Action : Type 0 where
  restart mqtt_app_start show_mqtt show_uart factory help refused unknown : Action

-- the state after, and the actions; `none` is a fault: a write through the NULL of a failed read, or a
-- parameter that does not fit into its array
abbrev pub Run : Type 0 → Type 0
Run S = Option (S × List Action)

-- `strchr(pstr,',')`: the text before the comma and the text behind it, `none` for NULL
unfoldable pub split_comma : List ℕ → Option (List ℕ × List ℕ)
split_comma [] = none
split_comma (c ∷ s) =
    let rest : Option (List ℕ × List ℕ) = elim (split_comma s) [
      | none ↦ none
      | some (a, b) ↦ some (c ∷ a, b)
    ] in
    if c == b',' then some ([], s) else rest

-- `char param[150]`
abbrev pub fits : List ℕ → Bool
fits param = ltb (length param) 150

-- the actions after a setter: by its result, or the restart that the setter ends with
abbrev pub finished : {S : Type 0} → (ok failed : List Action) → Option (ℕ × S) → Run S
finished ok failed none = none
finished ok failed (some (ret, s)) = some (s, if ret == 0 then ok else failed)

-- whether the bits are those of an `int` above 0
abbrev pub is_positive : ℕ → Bool
is_positive n = ltb 0 n && ltb n (2 ^ 31)

-- the answer of `cmd_setuart1`, where nothing was read or by the result of the write
abbrev pub saved : {S : Type 0} → S → Option (ℕ × S) → Run S
saved s none = some (s, refused ∷ [])
saved s (some (ret, s')) = some (s', if ret == 0 then restart ∷ [] else refused ∷ [])

module _ {S : Type 0} (flash : Flash S) where
  -- two parameters, given to a command's setter
  unfoldable pub with_two : Option (List ℕ × List ℕ) → (List ℕ → List ℕ → S → Run S) → S → Run S
  with_two none run s = some (s, refused ∷ [])
  with_two (some (param1, param2)) run s =
      if fits param1 && fits param2 then run (trim param1) (trim param2) s else none

  -- `cmd_setmqtt`
  unfoldable pub cmd_setmqtt : List ℕ → S → Run S
  cmd_setmqtt commandline = with_two (split_comma commandline) (λ host port s.
      atoi port >>= λ n. finished (mqtt_app_start ∷ []) (refused ∷ []) (set_mqtt flash host n s))

  -- the second and third parameter of `cmd_setmqttinfo`
  unfoldable pub with_three : List ℕ → Option (List ℕ × List ℕ) → S → Run S
  with_three param1 none s = some (s, refused ∷ [])
  with_three param1 (some (param2, param3)) s =
      if fits param2 && fits param3
      then finished (mqtt_app_start ∷ []) (refused ∷ [])
          (set_mqtt_info flash (trim param1) (trim param2) (trim param3) s)
      else none

  unfoldable pub setmqttinfo_from : Option (List ℕ × List ℕ) → S → Run S
  setmqttinfo_from none s = some (s, refused ∷ [])
  setmqttinfo_from (some (param1, behind)) s =
      if fits param1 then with_three param1 (split_comma behind) s else none

  -- `cmd_setmqttinfo`
  unfoldable pub cmd_setmqttinfo : List ℕ → S → Run S
  cmd_setmqttinfo commandline = setmqttinfo_from (split_comma commandline)

  -- `cmd_open_wifi` and `cmd_connect_wifi`; their setters restart the system and do not return
  unfoldable pub cmd_open_wifi : List ℕ → S → Run S
  cmd_open_wifi commandline = with_two (split_comma commandline) (λ ssid password s.
      finished (restart ∷ []) (restart ∷ []) (set_open_wifi flash ssid password s))

  unfoldable pub cmd_connect_wifi : List ℕ → S → Run S
  cmd_connect_wifi commandline = with_two (split_comma commandline) (λ ssid password s.
      finished (restart ∷ []) (restart ∷ []) (set_connect_wifi flash ssid password s))

  -- `cmd_close_wifi`
  unfoldable pub cmd_close_wifi : S → Run S
  cmd_close_wifi s = finished (restart ∷ []) (restart ∷ []) (set_close_wifi flash s)

  -- `cmd_mqtt_start` and `cmd_mqtt_stop`
  unfoldable pub cmd_mqtt : ℕ → S → Run S
  cmd_mqtt b s = finished (restart ∷ []) (restart ∷ []) (set_mqtt_start_and_stop flash b s)

  -- the read and the write of `cmd_setuart1`
  unfoldable pub save_uart1 : ℕ → S → Run S
  save_uart1 baud_rate s =
      saved s (update_cfg flash (λ cfg. record cfg { uart1_baud_rate = baud_rate }) s)

  -- `cmd_setuart1`
  unfoldable pub cmd_setuart1 : List ℕ → S → Run S
  cmd_setuart1 commandline s =
      if fits commandline
      then (atoi (trim commandline) >>= λ n.
          if is_positive n then save_uart1 n s else some (s, refused ∷ []))
      else none

-- `sscanf(Cmdline,"%s",command)`: the first word
unfoldable pub skip_space : List ℕ → List ℕ
skip_space [] = []
skip_space (c ∷ s) = let rest = skip_space s in if is_space c then rest else c ∷ s

unfoldable pub first_word : List ℕ → List ℕ
first_word line = (span is_space (skip_space line)).0

-- the command words
pub data Word : Type 0 where
  help_word factory_word restart_word openwifi connectwifi closewifi showuart setuart1 showmqtt
        mqttstart mqttstop setmqtt setmqttinfo other empty :
      Word

-- the chain of `strcmp` in `do_command`
unfoldable pub word_of : List ℕ → Word
word_of command =
    if bytes_eq (codes "help") command
    then help_word
    else if bytes_eq (codes "factory") command
    then factory_word
    else if bytes_eq (codes "restart") command
    then restart_word
    else if bytes_eq (codes "openwifi") command
    then openwifi
    else if bytes_eq (codes "connectwifi") command
    then connectwifi
    else if bytes_eq (codes "closewifi") command
    then closewifi
    else if bytes_eq (codes "showuart") command
    then showuart
    else if bytes_eq (codes "setuart1") command
    then setuart1
    else if bytes_eq (codes "showmqtt") command
    then showmqtt
    else if bytes_eq (codes "mqttstart") command
    then mqttstart
    else if bytes_eq (codes "mqttstop") command
    then mqttstop
    else if bytes_eq (codes "setmqtt") command
    then setmqtt
    else if bytes_eq (codes "setmqttinfo") command
    then setmqttinfo
    else if ltb 0 (length command)
    then other
    else empty

module _ {S : Type 0} (flash : Flash S) where
  -- The branches of `do_command`. The memory from the command line on is given: `cmd_setuart1` is
  -- passed the address behind the first word, the others the whole line.
  unfoldable pub run_word : Word → List ℕ → List ℕ → S → Run S
  run_word help_word mem command s = some (s, help ∷ [])
  run_word factory_word mem command s = some (s, factory ∷ restart ∷ [])
  run_word restart_word mem command s = some (s, restart ∷ [])
  run_word openwifi mem command s = cmd_open_wifi flash (until_nul mem) s
  run_word connectwifi mem command s = cmd_connect_wifi flash (until_nul mem) s
  run_word closewifi mem command s = cmd_close_wifi flash s
  run_word showuart mem command s = some (s, show_uart ∷ [])
  run_word setuart1 mem command s = cmd_setuart1 flash (until_nul (drop (length command + 1) mem)) s
  run_word showmqtt mem command s = some (s, show_mqtt ∷ [])
  run_word mqttstart mem command s = cmd_mqtt flash 1 s
  run_word mqttstop mem command s = cmd_mqtt flash 0 s
  run_word setmqtt mem command s = cmd_setmqtt flash (until_nul mem) s
  run_word setmqttinfo mem command s = cmd_setmqttinfo flash (until_nul mem) s
  run_word other mem command s = some (s, unknown ∷ [])
  run_word empty mem command s = some (s, [])

  -- `do_command`; `none` too where the word does not fit into `command[196]`
  unfoldable pub do_command : List ℕ → S → Run S
  do_command mem s =
      let command = first_word (until_nul mem) in
      if ltb (length command) 196 then run_word (word_of command) mem command s else none
