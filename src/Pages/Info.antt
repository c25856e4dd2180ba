-- ===== src/Pages/Info.antt =====
-- The page of data: its marks, and what a browser is sent for it.
use esp32base.Base.{
  true, ℕ, Bool, true, false, List, [], ◌∷◌, ◌==◌, not, ◌&&◌, ◌||◌, codes, decimal,
}
use esp32base.Config.{CfgData}
use esp32base.Pages.Shown.{Binding}
use esp32base.Pages.Template.{plain, is_lower, IsPart}

-- what the device shows, by the names of the marks
abbrev pub bindings : CfgData → List Binding
bindings cfg =
    (codes "mqttip", cfg.mqtt_host)
    ∷ (codes "mqttport", decimal cfg.mqtt_port)
    ∷ (codes "mqttcid", cfg.mqtt_clientid)
    ∷ (codes "mqttuser", cfg.mqtt_username)
    ∷ (codes "mqttpasswd", cfg.mqtt_password)
    ∷ (codes "uart1brt", decimal cfg.uart1_baud_rate)
    ∷ (codes "devuuid", cfg.devuuid)
    ∷ (codes "devname", cfg.devname)
    ∷ (codes "devflag", cfg.devflag)
    ∷ (codes "tcpserv1", decimal cfg.tcpserv1_port)
    ∷ []

-- the strings of the configuration that the page shows hold no NUL, no 0xFF, and nothing like a mark
pub record IsShowable (cfg : CfgData) : Type 0 where
  pub host : IsPart (plain cfg.mqtt_host)
  pub clientid : IsPart (plain cfg.mqtt_clientid)
  pub username : IsPart (plain cfg.mqtt_username)
  pub password : IsPart (plain cfg.mqtt_password)
  pub uuid : IsPart (plain cfg.devuuid)
  pub name : IsPart (plain cfg.devname)
  pub flag : IsPart (plain cfg.devflag)

unbraced : List ℕ → Bool
unbraced [] = true
unbraced (c ∷ name) = not (c == b'{' || c == b'}') && unbraced name

abbrev is_name : List ℕ → Bool
is_name [] = false
is_name (c ∷ name) = is_lower c && unbraced (c ∷ name)
