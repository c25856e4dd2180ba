-- ===== src/EventEngine.antt =====
-- components/espressif/event.c: the event groups of the network interfaces, as the handler that
-- `event_engine_init` installs sets and clears their bits.
use esp32base.Base.{Bool, true, false, List, [], ◌∷◌, ◌≡◌, refl}

-- the bits of `station_event_group` and of `eth_event_group`; nothing uses those of `ap_event_group`
record EventGroups : Type 0 where
  sta_connected_bit : Bool
  sta_gotip_bit : Bool
  eth_connected_bit : Bool
  eth_disconnected_bit : Bool
  eth_gotip_bit : Bool

-- the events of the switch, and any other
data EngineEvent : Type 0 where
  system_event_sta_start system_event_sta_disconnected system_event_sta_connected : EngineEvent
  system_event_sta_got_ip system_event_ap_staconnected system_event_ap_stadisconnected : EngineEvent
  system_event_eth_connected system_event_eth_disconnected system_event_eth_got_ip : EngineEvent
  any_other : EngineEvent

-- the case of SYSTEM_EVENT_ETH_GOT_IP, into which the one before it goes on
abbrev eth_got_ip : EventGroups → EventGroups
eth_got_ip s = record s { eth_gotip_bit = true }

-- `event_handler`, with whether it calls `esp_wifi_connect`
unfoldable engine_event_handler : EngineEvent → EventGroups → EventGroups × Bool
engine_event_handler system_event_sta_start s = (s, true)
engine_event_handler system_event_sta_disconnected s =
    (record s { sta_connected_bit = false; sta_gotip_bit = false }, true)
engine_event_handler system_event_sta_connected s = (record s { sta_connected_bit = true }, false)
engine_event_handler system_event_sta_got_ip s = (record s { sta_gotip_bit = true }, false)
engine_event_handler system_event_ap_staconnected s = (s, false)
engine_event_handler system_event_ap_stadisconnected s = (s, false)
engine_event_handler system_event_eth_connected s = (record s { eth_connected_bit = true }, false)
engine_event_handler system_event_eth_disconnected s =
    (eth_got_ip (record s { eth_disconnected_bit = true }), false)
engine_event_handler system_event_eth_got_ip s = (eth_got_ip s, false)
engine_event_handler any_other s = (s, false)

-- `event_engine_init`, and the events behind it
abbrev event_engine_init : EventGroups
event_engine_init = record {
  sta_connected_bit = false;
  sta_gotip_bit = false;
  eth_connected_bit = false;
  eth_disconnected_bit = false;
  eth_gotip_bit = false;
}

unfoldable handled_events : EventGroups → List EngineEvent → EventGroups
handled_events s [] = s
handled_events s (e ∷ events) = handled_events (engine_event_handler e s).0 events

handled_events-eth_gotip :
    (s : EventGroups) (events : List EngineEvent)
    → s.eth_gotip_bit ≡ true
    → (handled_events s events).eth_gotip_bit ≡ true
unfolding handled_events engine_event_handler
handled_events-eth_gotip s [] h = h
handled_events-eth_gotip s (system_event_sta_start ∷ events) h = handled_events-eth_gotip _ events h
handled_events-eth_gotip s (system_event_sta_disconnected ∷ events) h =
    handled_events-eth_gotip _ events h
handled_events-eth_gotip s (system_event_sta_connected ∷ events) h =
    handled_events-eth_gotip _ events h
handled_events-eth_gotip s (system_event_sta_got_ip ∷ events) h =
    handled_events-eth_gotip _ events h
handled_events-eth_gotip s (system_event_ap_staconnected ∷ events) h =
    handled_events-eth_gotip _ events h
handled_events-eth_gotip s (system_event_ap_stadisconnected ∷ events) h =
    handled_events-eth_gotip _ events h
handled_events-eth_gotip s (system_event_eth_connected ∷ events) h =
    handled_events-eth_gotip _ events h
handled_events-eth_gotip s (system_event_eth_disconnected ∷ events) h =
    handled_events-eth_gotip _ events refl
handled_events-eth_gotip s (system_event_eth_got_ip ∷ events) h =
    handled_events-eth_gotip _ events refl
handled_events-eth_gotip s (any_other ∷ events) h = handled_events-eth_gotip _ events h

-- A cable that is pulled leaves the bit of an Ethernet address set, whatever comes behind it.
handled_events-eth_disconnected :
    (s : EventGroups) (events : List EngineEvent)
    → (handled_events s (system_event_eth_disconnected ∷ events)).eth_gotip_bit ≡ true
unfolding handled_events engine_event_handler
handled_events-eth_disconnected s events = handled_events-eth_gotip _ events refl
