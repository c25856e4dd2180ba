-- ===== src/Device/Mqtt.antt =====
-- The MQTT client: its messages, and when it runs.
use esp32base.Base.{
  ℕ, ◌-◌, ◌≡◌, refl, ap, ◌∙◌, Bool, true, false, ◌&&◌, not, some, List, [], ◌∷◌, ◌++◌, ◌==◌,
  if◌then◌else◌, arith, length, codes, starts_with, Bool-cases, inl, inr, replicate,
  take-append_length,
}
use esp32base.Config.{CfgData, Flash}
use esp32base.Device.{
  Names, search_frame_data, MqttAction, publishes, mqtt_net_data, stops, starts, mqtt_proc_data,
  on_data, mqtt_event_handler, mqtt_uri, mqtt_start_with, mqtt_app_start, mqtt_after_read,
}

starts_with-front : (p s : List ℕ) → starts_with p (p ++ s) ≡ true
unfolding starts_with
starts_with-front [] s = refl
starts_with-front (c ∷ p) s =
    let same : (c == c) ≡ true = ground arith in rw (same, starts_with-front p s) refl

-- A message to the device's own topic reaches `mqttNetData` with exactly its payload, whatever the
-- memory behind topic and payload holds, unless the topic with what is behind it begins with "MSD/A".
pub mqtt_event_handler-own :
    (n : Names) (payload behind_topic behind : List ℕ)
    → starts_with (codes "MSD/A") (n.subscr ++ behind_topic) ≡ false
    → mqtt_event_handler n
        (on_data (n.subscr ++ behind_topic) (length n.subscr) (payload ++ behind) (length payload))
      ≡ mqtt_net_data payload ∷ []
unfolding mqtt_event_handler mqtt_proc_data
mqtt_event_handler-own n payload behind_topic behind h =
    rw
      (
        h,
        take-append_length n.subscr (replicate (128 - length n.subscr) 0),
        starts_with-front n.subscr behind_topic,
        take-append_length payload behind,
      )
      refl

-- A message to "MSD/A" is answered on "MSD/B" with the device's data where it begins with "FMSD,",
-- and is ignored otherwise, also by a device whose own topic is a part of it.
pub mqtt_event_handler-search :
    (n : Names) (topic buf : List ℕ) (topic_len len : ℕ)
    → starts_with (codes "MSD/A") topic ≡ true
    → mqtt_event_handler n (on_data topic topic_len buf len) ≡ (
        if starts_with (codes "FMSD,") buf
        then publishes (codes "MSD/B") (search_frame_data n) ∷ []
        else [])
unfolding mqtt_event_handler mqtt_proc_data
mqtt_event_handler-search n topic buf topic_len len h = rw h refl

-- the configuration turns MQTT on and has a port
abbrev pub wanted : CfgData → Bool
wanted cfg = not (cfg.is_mqtt_start == 0) && not (cfg.mqtt_port == 0)

abbrev start_result : Bool → CfgData → Bool × List MqttAction
start_result client cfg = (
  wanted cfg,
  (if client then stops ∷ [] else []) ++ (if wanted cfg then starts (mqtt_uri cfg) ∷ [] else []),
)

mqtt_after_read_lem :
    (client : Bool) (cfg : CfgData)
    → mqtt_after_read client (some cfg) ≡ some (start_result client cfg)
unfolding mqtt_after_read mqtt_start_with
mqtt_after_read_lem client cfg = elim (Bool-cases (cfg.is_mqtt_start == 0)) [
  | inl off ↦ rw off refl
  | inr on ↦ elim (Bool-cases (cfg.mqtt_port == 0)) [
    | inl no_port ↦ rw (on, no_port) refl
    | inr port ↦ rw (on, port) refl
  ]
]

-- `mqtt_app_start` on a flash that can be read: afterwards there is a client exactly where the
-- configuration turns MQTT on and has a port; it is then started with the configured address, and an
-- old client is stopped before, in every case.
pub mqtt_app_start_lem :
    {S : Type 0}
    → (flash : Flash S) (client : Bool) (s : S) (cfg : CfgData) → flash.read_cfg s ≡ some cfg
    → mqtt_app_start flash client s
      ≡ some (
        wanted cfg,
        (if client then stops ∷ [] else [])
            ++ (if wanted cfg then starts (mqtt_uri cfg) ∷ [] else []),
      )
unfolding mqtt_app_start
mqtt_app_start_lem flash client s cfg e =
    ap (mqtt_after_read client) e ∙ mqtt_after_read_lem client cfg
