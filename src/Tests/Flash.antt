-- ===== src/Tests/Flash.antt =====
-- The flash, the start of the device and the search answers at concrete inputs.
use esp32base.Base.{
  AllNonzero, zero, suc, ◌<◌, ◌∙◌, ℕ, ◌*◌, ◌≤◌, ◌≡◌, ◌≢◌, refl, ap, true, false, some, List, [],
  ◌∷◌, ◌++◌, ◌==◌, if◌then◌else◌, arith, codes, length, take, replicate, c_str, ◌≤◌,
}
use esp32base.Config.{CfgData, undo}
use esp32base.SpiData.{
  SpiFlash, sec_size, sector_cfg_data, get_spi_flash_binary_data, save_relay_state,
  read_relay_state,
}
use esp32base.SpiData.Laws.{IsSpiFlash, read_relay_state-save_relay_state}
use esp32base.Start.{
  Json, Chip, Defaults, factory_strings, factory_cfg, defaults_of, FactoryFlash, power_on,
  hex_bytes,
}
use esp32base.Start.Factory.{IsDefault, expected_strings, factory_cfg_lem}
use esp32base.Start.PowerOn.{power_on-factory}
use esp32base.Device.{
  Names, names_of, gen_json, search_frame_data, udp_answer, LastUdp, from_ipv4, mcast_round,
}
use esp32base.Device.Search.{is_plain, read_answer, search_frame_data-read}
use esp32base.Device.Answers.{answers, search_frame_data-fits, mcast_round-answers}

-- a flash as the bytes that were last written at each address
abbrev Sectors : Type 0
Sectors = ℕ → List ℕ

abbrev put : ℕ → List ℕ → Sectors → Sectors
put at data_ s a = if a == at then data_ else s a

abbrev memory : SpiFlash Sectors
memory = record {
  erase_sector = λ sector s. (true, put (sector * sec_size) [] s);
  write = λ at data_ s. (true, put at data_ s);
  read = λ at n s. some (take n (s at));
}

take_whole : (xs : List ℕ) → take (length xs) xs ≡ xs
take_whole [] = refl
take_whole (x ∷ xs) = ap (λ t. x ∷ t) (take_whole xs)

put-same : (at : ℕ) (data_ : List ℕ) (s : Sectors) → put at data_ s at ≡ data_
put-same at data_ s = let same : (at == at) ≡ true = ground arith in rw same refl

put-other : (at a : ℕ) (data_ : List ℕ) (s : Sectors) → a ≢ at → put at data_ s a ≡ s a
put-other at a data_ s h = let other : (a == at) ≡ false = ground arith in rw other refl

memory-IsSpiFlash : IsSpiFlash memory
memory-IsSpiFlash = record {
  read-write = λ sector data_ s fits e w.
      ap (λ x. some (take (length data_) x))
        (put-same (sector * sec_size) data_ (put (sector * sec_size) [] s))
      ∙ ap some (take_whole data_);
  erase_elsewhere = λ sector other n s h k.
      ap (λ x. some (take n x))
        (put-other (sector * sec_size) (other * sec_size) [] s (λ e. h (omega (arith, e))));
  write_elsewhere = λ sector other n data_ s h k l.
      ap (λ x. some (take n x))
        (put-other (sector * sec_size) (other * sec_size) data_ s (λ e. h (omega (arith, e))));
}

abbrev erased : Sectors
erased a = []

abbrev relays : List ℕ
relays = 1 ∷ 0 ∷ 1 ∷ []

read_relay_state-save_relay_state_example :
    (get_spi_flash_binary_data memory 8 sector_cfg_data (save_relay_state memory relays erased).1
      ≡ get_spi_flash_binary_data memory 8 sector_cfg_data erased)
    × ((save_relay_state memory relays erased).0 ≡ 0
        → read_relay_state memory (0 ∷ 0 ∷ 0 ∷ []) (save_relay_state memory relays erased).1
          ≡ (0, relays))
read_relay_state-save_relay_state_example =
    read_relay_state-save_relay_state memory memory-IsSpiFlash relays (0 ∷ 0 ∷ 0 ∷ []) 8 erased
      (omega arith) refl (omega arith)

-- a text in the sector 512
abbrev page : Sectors
page a = codes "page" ++ 0xff ∷ 0xff ∷ []

abbrev chip : Chip
chip = record { mac_addr = 1 ∷ 2 ∷ 3 ∷ 4 ∷ 5 ∷ 0xab ∷ []; random = 1007 }

abbrev defaults : Defaults
defaults = record {
  uart1_baud_rate = 9600;
  is_wifi_start = 1;
  apssid = codes "ap";
  apssid_password = codes "pw";
  devname = codes "ap";
  devflag = codes "ap";
  mqtt_host = codes "ap";
  mqtt_port = 9600;
  is_mqtt_start = 1;
  tcpserv1_port = 0;
}

defaults-IsDefault : IsDefault defaults
defaults-IsDefault = record {
  ssid = (omega arith, (omega arith, tt));
  ssid_fits = omega arith;
  password = (omega arith, (omega arith, tt));
  password_fits = omega arith;
  name = (omega arith, (omega arith, tt));
  name_fits = omega arith;
  flag = (omega arith, (omega arith, tt));
  flag_fits = omega arith;
  host = (omega arith, (omega arith, tt));
  host_fits = omega arith;
}

factory_cfg_lem_example :
    let cfg = factory_strings chip defaults in
    (factory_cfg chip defaults ≡ some cfg)
    × ((cfg.ap_ssid ∷ cfg.ap_password ∷ cfg.devname ∷ cfg.devflag ∷ cfg.mqtt_host ∷ [])
        ≡ expected_strings (hex_bytes false (4 ∷ 5 ∷ 0xab ∷ [])) defaults)
factory_cfg_lem_example = factory_cfg_lem chip defaults defaults-IsDefault

nonzero : (n c : ℕ) (rest : List ℕ) → 0 < c → AllNonzero rest → AllNonzero (replicate n c ++ rest)
nonzero zero c rest h k = k
nonzero (suc n) c rest h k = (h, nonzero n c rest h k)

-- a flash that holds one configuration and the text "{}"
abbrev device : FactoryFlash CfgData
device = record {
  read_json = λ s. some (codes "{}" ++ 0 ∷ []);
  read_cfg = λ s. some s;
  write_cfg = λ c s. c;
}

-- every text is read as an object that gives these values
abbrev any_json : Json ℕ
any_json = record {
  parse = λ text. some 0;
  int_item = λ j key. some 9600;
  string_item = λ j key. some (codes "ap");
}

abbrev read_defaults : Defaults
read_defaults = record {
  uart1_baud_rate = 9600;
  is_wifi_start = 9600;
  apssid = codes "ap";
  apssid_password = codes "ap";
  devname = codes "ap";
  devflag = codes "ap";
  mqtt_host = codes "ap";
  mqtt_port = 9600;
  is_mqtt_start = 9600;
  tcpserv1_port = 9600;
}

abbrev empty_cfg : CfgData
empty_cfg = record {
  dev_init_flag = 0;
  mode = undo;
  ap_ssid = [];
  ap_password = [];
  sta_ssid = [];
  sta_password = [];
  uart1_baud_rate = 0;
  tcpserv1_port = 0;
  devuuid = codes "HXK";
  devname = codes "lamp";
  devflag = codes "L";
  is_mqtt_start = 1;
  mqtt_host = codes "h";
  mqtt_port = 1883;
  mqtt_clientid = [];
  mqtt_username = [];
  mqtt_password = [];
}

power_on-factory_example :
    power_on device any_json chip 2 empty_cfg
    ≡ some (factory_strings chip read_defaults, factory_strings chip read_defaults)
power_on-factory_example =
    power_on-factory device any_json chip empty_cfg empty_cfg (codes "{}" ++ 0 ∷ []) 0 read_defaults
      refl (omega arith) refl refl (unfold defaults_of in refl)
      (record {
        ssid = (omega arith, (omega arith, tt));
        ssid_fits = omega arith;
        password = (omega arith, (omega arith, tt));
        password_fits = omega arith;
        name = (omega arith, (omega arith, tt));
        name_fits = omega arith;
        flag = (omega arith, (omega arith, tt));
        flag_fits = omega arith;
        host = (omega arith, (omega arith, tt));
        host_fits = omega arith;
      })
      refl

abbrev lamp : Names
lamp = record {
  devuuid = codes "HXK";
  devname = codes "la";
  devflag = codes "L";
  publish = codes "la";
  subscr = codes "la";
}

search_frame_data-read_example :
    read_answer (search_frame_data lamp)
    ≡ some (
      codes "HXK",
      (codes "f", codes "L")
          ∷ (codes "n", codes "la")
          ∷ (codes "s", codes "la")
          ∷ (codes "p", codes "la")
          ∷ [],
    )
unfolding is_plain
search_frame_data-read_example = search_frame_data-read lamp (record {
  uuid = (omega arith, (omega arith, (omega arith, tt)));
  uuid_text = (omega arith, (omega arith, (omega arith, tt)));
  name = (refl, (refl, tt));
  flag = (refl, tt);
  publish = (refl, (refl, tt));
  subscr = (refl, (refl, tt));
  json_fits = unfold gen_json in omega arith;
  answer_fits = unfold gen_json search_frame_data in omega arith;
})

search_frame_data-fits_example :
    (length (c_str (gen_json (names_of empty_cfg))) ≤ 500)
    × (length (c_str (udp_answer (names_of empty_cfg))) ≤ 500)
    × (length (search_frame_data (names_of empty_cfg)) ≤ 600)
search_frame_data-fits_example =
    search_frame_data-fits empty_cfg
      (record { uuid = omega arith; name = omega arith; flag = omega arith })

abbrev nobody : LastUdp
nobody = record { ip = []; port = 0 }

mcast_round-answers_example :
    mcast_round lamp nobody (from_ipv4 (codes "10.0.0.9") 2288 (codes "FMSD,"))
    ≡ some (
      record { ip = codes "10.0.0.9"; port = 2288 },
      answers lamp (codes "10.0.0.9") 2288 (codes "FMSD,"),
    )
mcast_round-answers_example =
    mcast_round-answers lamp nobody (codes "10.0.0.9") 2288 (codes "FMSD,") (omega arith)
      (omega arith)
