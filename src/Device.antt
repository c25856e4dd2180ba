-- ===== src/Device.antt =====
-- The answers to a device search, and the MQTT client of the device: main/trans_data_a.c
-- (searchFrameData, isSearchFrameData), main/trans_data.c (udp_read, mqtt_proc_data,
-- mqtt_event_handler, mqtt_app_start), components/udp_multicast/udp_multicast.c (the rounds of
-- app_mcast_task and sendUDPLastIP), and the names that app_main of main/main.c sets. What the device
-- sends is returned; the MQTT library, the sockets and the LEDs are outside. The answers over
-- UDP are the calls of `sendUDP`.
pub mod Search
pub mod Answers
pub mod Mqtt
use esp32base.Base.{
  ℕ, ◌≡◌, Bool, true, false, ◌&&◌, Option, none, some, List, [], ◌∷◌, ◌++◌, ◌==◌, ltb,
  if◌then◌else◌, length, get_or, take, replicate, c_str, codes, starts_with, decimal, ◌-◌,
}
use esp32base.Config.{CfgData, Flash}

-- `g_msdA_devuuid` and its neighbours, as the strings that they hold
pub record Names : Type 0 where
  pub devuuid : List ℕ
  pub devname : List ℕ
  pub devflag : List ℕ
  pub publish : List ℕ
  pub subscr : List ℕ

-- the names that `app_main` sets from the configuration
unfoldable pub names_of : CfgData → Names
names_of cfg = record {
  devuuid = cfg.devuuid;
  devname = cfg.devname;
  devflag = cfg.devflag;
  publish = cfg.devname ++ codes "_";
  subscr = cfg.devname;
}

-- `gen_json` of `searchFrameData`, without its NUL
unfoldable pub gen_json : Names → List ℕ
gen_json n =
    codes "{\"f\":\""
    ++ (n.devflag
        ++ (codes "\",\"n\":\""
            ++ (n.devname
                ++ (codes "\",\"s\":\""
                    ++ (n.subscr ++ (codes "\",\"p\":\"" ++ (n.publish ++ codes "\"}")))))))

-- `searchFrameData`: the bytes put into `sendBuf`, the NUL of the JSON text with them
unfoldable pub search_frame_data : Names → List ℕ
search_frame_data n = codes "RMSD," ++ (n.devuuid ++ (codes "," ++ c_str (gen_json n)))

-- the text that `isSearchFrameData` prints into its buffer
unfoldable pub udp_answer : Names → List ℕ
udp_answer n =
    codes "RMSD,"
    ++ (n.devuuid
        ++ (codes ",{\"f\":\""
            ++ (n.devflag ++ (codes "\",\"n\":\"" ++ (n.devname ++ codes "\"}")))))

-- `g_lastUDP_ip` and `g_lastUDP_port`
pub record LastUdp : Type 0 where
  pub ip : List ℕ
  pub port : ℕ

-- what `sendUDP` is called with
pub record Datagram : Type 0 where
  pub to_ip : List ℕ
  pub to_port : ℕ
  pub text : List ℕ

-- `sendUDP`, given whether `getaddrinfo` finds the address: the datagrams that `sendto` is called with.
-- What `sendto` returns is only printed.
unfoldable pub send_udp : Bool → Datagram → List Datagram
send_udp found datagram = if found then datagram ∷ [] else []

-- `sendUDPLastIP`: the datagrams that `sendUDP` is called with
unfoldable pub send_udp_last_ip : LastUdp → List ℕ → List Datagram
send_udp_last_ip last text =
    if last.port == 0
    then []
    else if get_or last.ip 0 0 == 0
    then []
    else record { to_ip = last.ip; to_port = last.port; text = text } ∷ []

-- `udp_read`
unfoldable pub udp_read : Names → LastUdp → List ℕ → List Datagram
udp_read n last data_ =
    if ltb 4 (length data_)
    then (if starts_with (codes "FMSD") data_ then send_udp_last_ip last (udp_answer n) else [])
    else []

-- what `recvfrom` gives: an error, or bytes with the sender's address, where it is an IPv4 address
pub data RecvFrom : Type 0 where
  failed : RecvFrom
  from_other : List ℕ → RecvFrom
  from_ipv4 : List ℕ → ℕ → List ℕ → RecvFrom

-- the end of a round: the callback is called for a datagram that is not empty
unfoldable pub mcast_callback : Names → LastUdp → List ℕ → List Datagram
mcast_callback n last data_ = if ltb 0 (length data_) then udp_read n last data_ else []

-- One round of the inner loop of `app_mcast_task`; `none` when the socket is closed and made anew.
unfoldable pub mcast_round : Names → LastUdp → RecvFrom → Option (LastUdp × List Datagram)
mcast_round n last failed = none
mcast_round n last (from_other data_) = some (last, mcast_callback n last data_)
mcast_round n last (from_ipv4 ip port data_) =
    let last' : LastUdp = record { ip = ip; port = port } in
    some (last', mcast_callback n last' data_)

-- what the device does with its MQTT client
pub data MqttAction : Type 0 where
  subscribes : List ℕ → MqttAction
  publishes : List ℕ → List ℕ → MqttAction
  mqtt_net_data : List ℕ → MqttAction
  led : Bool → MqttAction
  stops : MqttAction
  starts : List ℕ → MqttAction

-- an array of 128 zero bytes with a string at its front
abbrev pub name_array : List ℕ → List ℕ
name_array s = s ++ replicate (128 - length s) 0

-- `mqtt_proc_data`: `topic` and `buf` are the memory from these pointers on
unfoldable pub mqtt_proc_data : Names → List ℕ → ℕ → List ℕ → ℕ → List MqttAction
mqtt_proc_data n topic topic_len buf len =
    if starts_with (codes "MSD/A") topic
    then (if starts_with (codes "FMSD,") buf
        then publishes (codes "MSD/B") (search_frame_data n) ∷ []
        else [])
    else if starts_with (take topic_len (name_array n.subscr)) topic
    then mqtt_net_data (take len buf) ∷ []
    else []

-- the events of the MQTT library, with the data of a message
pub data MqttEvent : Type 0 where
  on_connected on_disconnected on_subscribed on_unsubscribed on_published on_error : MqttEvent
  on_data : List ℕ → ℕ → List ℕ → ℕ → MqttEvent

-- `mqtt_event_handler`
unfoldable pub mqtt_event_handler : Names → MqttEvent → List MqttAction
mqtt_event_handler n on_connected = led true ∷ subscribes (codes "MSD/A") ∷ subscribes n.subscr ∷ []
mqtt_event_handler n on_disconnected = led false ∷ []
mqtt_event_handler n on_subscribed = []
mqtt_event_handler n on_unsubscribed = []
mqtt_event_handler n on_published = []
mqtt_event_handler n on_error = led false ∷ []
mqtt_event_handler n (on_data topic topic_len buf len) = mqtt_proc_data n topic topic_len buf len

-- sprintf(mqtt_cfg.uri, "mqtt://%s:%d", …)
unfoldable pub mqtt_uri : CfgData → List ℕ
mqtt_uri cfg = codes "mqtt://" ++ (cfg.mqtt_host ++ (codes ":" ++ decimal cfg.mqtt_port))

-- the part of `mqtt_app_start` behind the read: whether there is a client then, and what was done
unfoldable pub mqtt_start_with : CfgData → Bool × List MqttAction
mqtt_start_with cfg =
    if cfg.is_mqtt_start == 0
    then (false, [])
    else if cfg.mqtt_port == 0
    then (false, [])
    else (true, starts (mqtt_uri cfg) ∷ [])

-- `mqtt_app_start` on what the read gives: an old client is stopped; NULL leads to a restart, `none`
unfoldable pub mqtt_after_read : Bool → Option CfgData → Option (Bool × List MqttAction)
mqtt_after_read client none = none
mqtt_after_read client (some cfg) =
    let (client', did) = mqtt_start_with cfg in
    some (client', (if client then stops ∷ [] else []) ++ did)

-- `mqtt_app_start`, given whether there is a client
unfoldable pub mqtt_app_start : {S : Type 0} → Flash S → Bool → S → Option (Bool × List MqttAction)
mqtt_app_start flash client s = mqtt_after_read client (flash.read_cfg s)
