-- ===== src/Start/PowerOn.antt =====
-- The way from power to the running device.
use esp32base.Base.{
  ℕ, zero, suc, ◌≡◌, ◌≢◌, refl, ap, ◌∙◌, false, none, some, List, ◌==◌, arith, take,
}
use esp32base.Config.{CfgData}
use esp32base.SpiData.{text_end}
use esp32base.Start.Factory.{IsDefault, factory_cfg_lem}
use esp32base.Start.{
  Json, init_hardware_flag, Chip, Defaults, factory_strings, factory_cfg, defaults_of, FactoryFlash,
  factory_write, factory_parsed, init_factory_cfg_flash, runs, restart_after, checked, go_on,
  power_on,
}

-- the text that a factory reset parses, of the bytes of its sector
abbrev pub default_text : List ℕ → List ℕ
default_text pdefjson = take (text_end pdefjson) pdefjson

module _ {S J : Type 0} (flash : FactoryFlash S) (json : Json J) (chip : Chip) where
  checked-ready :
      (s : S) (cfg : CfgData)
      → cfg.dev_init_flag ≡ init_hardware_flag
      → checked flash json chip s (some cfg) ≡ runs cfg
  unfolding checked
  checked-ready s cfg e = rw e refl

  checked-new :
      (s : S) (cfg : CfgData)
      → cfg.dev_init_flag ≢ init_hardware_flag
      → checked flash json chip s (some cfg)
        ≡ restart_after (init_factory_cfg_flash flash json chip s)
  unfolding checked
  checked-new s cfg h =
      let new : (cfg.dev_init_flag == init_hardware_flag) ≡ false = ground arith in rw new refl

  reset-parsed :
      (s : S) (bytes : List ℕ) (j : J) (d : Defaults) (cfg : CfgData)
      → flash.read_json s ≡ some bytes
      → json.parse (default_text bytes) ≡ some j
      → defaults_of json j ≡ some d
      → factory_cfg chip d ≡ some cfg
      → init_factory_cfg_flash flash json chip s ≡ some (flash.write_cfg cfg s)
  unfolding init_factory_cfg_flash factory_parsed factory_write
  reset-parsed s bytes j d cfg read e f fits =
      rw read (ap (λ p. factory_parsed flash json chip p s) e ∙ rw (f, fits) refl)

  reset-unparsed :
      (s : S) (bytes : List ℕ)
      → flash.read_json s ≡ some bytes
      → json.parse (default_text bytes) ≡ none
      → init_factory_cfg_flash flash json chip s ≡ some s
  unfolding init_factory_cfg_flash factory_parsed
  reset-unparsed s bytes read e = rw read (ap (λ p. factory_parsed flash json chip p s) e)

  power_on-ready :
      (fuel : ℕ) (s : S) (cfg : CfgData)
      → flash.read_cfg s ≡ some cfg
      → cfg.dev_init_flag ≡ init_hardware_flag
      → power_on flash json chip (suc fuel) s ≡ some (s, cfg)
  unfolding power_on go_on
  power_on-ready fuel s cfg e f =
      ap
        (λ o. go_on flash json chip s (power_on flash json chip fuel) (checked flash json chip s o))
        e
      ∙ ap (go_on flash json chip s (power_on flash json chip fuel)) (checked-ready s cfg f)

  power_on-new :
      (fuel : ℕ) (s s' : S) (cfg : CfgData)
      → flash.read_cfg s ≡ some cfg
      → cfg.dev_init_flag ≢ init_hardware_flag
      → init_factory_cfg_flash flash json chip s ≡ some s'
      → power_on flash json chip (suc fuel) s ≡ power_on flash json chip fuel s'
  unfolding power_on go_on
  power_on-new fuel s s' cfg e f reset =
      ap
        (λ o. go_on flash json chip s (power_on flash json chip fuel) (checked flash json chip s o))
        e
      ∙ ap (go_on flash json chip s (power_on flash json chip fuel))
          (checked-new s cfg f ∙ ap restart_after reset)

  -- A device with a readable configuration that was never set up, and with a readable JSON text of
  -- default values that fit their arrays, runs after one restart, on the configuration of the factory
  -- reset, where the flash gives back that one configuration after its write.
  pub power_on-factory :
      (s : S) (cfg : CfgData) (bytes : List ℕ) (j : J) (d : Defaults)
      → flash.read_cfg s ≡ some cfg
      → cfg.dev_init_flag ≢ init_hardware_flag
      → flash.read_json s ≡ some bytes
      → json.parse (default_text bytes) ≡ some j
      → defaults_of json j ≡ some d
      → IsDefault d
      → flash.read_cfg (flash.write_cfg (factory_strings chip d) s) ≡ some (factory_strings chip d)
      → power_on flash json chip 2 s
        ≡ some (flash.write_cfg (factory_strings chip d) s, factory_strings chip d)
  unfolding factory_strings
  power_on-factory s cfg bytes j d e new read parsed values h written =
      let cfgdata = factory_strings chip d in
      let s' = flash.write_cfg cfgdata s in
      power_on-new 1 s s' cfg e new
        (reset-parsed s bytes j d cfgdata read parsed values (factory_cfg_lem chip d h).0)
      ∙ power_on-ready 0 s' cfgdata written refl

  -- Where the sector holds no JSON text such a device restarts for ever: no number of boots is enough.
  pub power_on-no_json :
      (fuel : ℕ) (s : S) (cfg : CfgData) (bytes : List ℕ)
      → flash.read_cfg s ≡ some cfg
      → cfg.dev_init_flag ≢ init_hardware_flag
      → flash.read_json s ≡ some bytes
      → json.parse (default_text bytes) ≡ none
      → power_on flash json chip fuel s ≡ none
  unfolding power_on
  power_on-no_json zero s cfg bytes e new read invalid = refl
  power_on-no_json (suc fuel) s cfg bytes e new read invalid =
      power_on-new fuel s s cfg e new (reset-unparsed s bytes read invalid)
      ∙ power_on-no_json fuel s cfg bytes e new read invalid
