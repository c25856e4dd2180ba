-- ===== src/Config/Laws.antt =====
-- What the setters leave in flash.
use esp32base.Base.{Bool, true, false, ℕ, ◌≡◌, sym, ap, ◌∙◌, Option, none, some, List}
use esp32base.Config.{
  ap_mode, CfgData, Flash, write_back, update_cfg, fitting, set_mqtt, set_open_wifi,
}

-- A write that reports 0 is what a read gives then.
abbrev pub IsFlash : {S : Type 0} → Flash S → Type 0
IsFlash {S} flash =
    (cfg : CfgData) (s : S)
    → (flash.write_cfg cfg s).0 ≡ 0
    → flash.read_cfg (flash.write_cfg cfg s).1 ≡ some cfg

abbrev or_else : {S : Type 0} → ℕ × S → Option (ℕ × S) → ℕ × S
or_else d none = d
or_else d (some r) = r

-- A read, a change and a write: where the write reports 0, the flash then holds the changed
-- configuration, whatever the change is.
pub update_cfg_lem :
    {S : Type 0}
    → (flash : Flash S) (change : CfgData → CfgData) (cfg : CfgData) (s s' : S) → IsFlash flash
    → flash.read_cfg s ≡ some cfg
    → update_cfg flash change s ≡ some (0, s')
    → flash.read_cfg s' ≡ some (change cfg)
unfolding update_cfg write_back
update_cfg_lem flash change cfg s s' law e done =
    let written : flash.write_cfg (change cfg) s ≡ (0, s') =
      ap (or_else (0, s')) (sym (ap (λ c. write_back flash change c s) e) ∙ done) in
    sym (ap (λ r. flash.read_cfg r.1) written) ∙ law (change cfg) s (ap (λ r. r.0) written)

fitting-update :
    {S : Type 0}
    → (flash : Flash S) (fits : Bool) (change : CfgData → CfgData) (s s' : S)
    → fitting flash fits change s ≡ some (0, s')
    → update_cfg flash change s ≡ some (0, s')
unfolding fitting
fitting-update flash false change s s' h = cc h
fitting-update flash true change s s' h = h

-- Opening an access point and then setting the MQTT server keeps both: the configuration read then has
-- the four new values and the access point mode, and otherwise what it had.
pub set_mqtt-set_open_wifi :
    {S : Type 0}
    → (flash : Flash S) (cfg : CfgData) (ssid password host : List ℕ) (port : ℕ) (s s1 s2 : S)
    → IsFlash flash
    → flash.read_cfg s ≡ some cfg
    → set_open_wifi flash ssid password s ≡ some (0, s1)
    → set_mqtt flash host port s1 ≡ some (0, s2)
    → flash.read_cfg s2
      ≡ some (record cfg {
        ap_ssid = ssid;
        ap_password = password;
        mode = ap_mode;
        mqtt_host = host;
        mqtt_port = port;
      })
unfolding set_mqtt set_open_wifi
set_mqtt-set_open_wifi flash cfg ssid password host port s s1 s2 law e first second =
    let opened = update_cfg_lem flash _ cfg s s1 law e (fitting-update flash _ _ s s1 first) in
    update_cfg_lem flash _ _ s1 s2 law opened (fitting-update flash _ _ s1 s2 second)
