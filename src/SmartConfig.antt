-- ===== src/SmartConfig.antt =====
-- main/smartconfig.c: the WiFi settings from a phone. Two tasks of the SDK call the handlers; they meet in
-- an event group of two bits, on which the event task waits.
pub mod Order
use esp32base.Base.{
  ℕ, Bool, true, false, Option, none, some, List, [], ◌∷◌, ◌++◌, if◌then◌else◌, ◌>>=◌,
}

-- the bits LINKED_BIT and CONNECTED_BIT, and whether the event task waits for the first
pub record SmartConfig : Type 0 where
  pub is_linked : Bool
  pub is_connected : Bool
  pub waits_for_link : Bool

-- the events of the SDK that are named, and `smartconfig_status_t`; a link brings a configuration
pub data SmartEvent : Type 0 where
  sta_start sta_got_ip sta_connected sta_disconnected other_event : SmartEvent
  status_wait status_find_channel status_getting_ssid_pswd status_link_over : SmartEvent
  status_link : List ℕ → SmartEvent

pub data SmartAction : Type 0 where
  connects disconnects stops : SmartAction
  sets_config : List ℕ → SmartAction

-- `wifi_event_handler_smartcfg`: the state, and what is done; a start waits for the link
unfoldable pub wifi_event_handler_smartcfg :
    SmartEvent → SmartConfig → SmartConfig × List SmartAction
wifi_event_handler_smartcfg sta_start s =
    if s.is_linked then (s, connects ∷ []) else (record s { waits_for_link = true }, [])
wifi_event_handler_smartcfg sta_disconnected s = (record s { is_connected = false }, connects ∷ [])
wifi_event_handler_smartcfg _ s = (s, [])

-- `smartconfig_handler`, with what the event task does when it no longer waits
unfoldable pub smartconfig_handler : SmartEvent → SmartConfig → SmartConfig × List SmartAction
smartconfig_handler (status_link wifi_config) s = (
  record s { is_linked = true; waits_for_link = false },
  sets_config wifi_config ∷ disconnects ∷ (if s.waits_for_link then connects ∷ [] else []),
)
smartconfig_handler status_link_over s = (record s { is_connected = true }, stops ∷ [])
smartconfig_handler _ s = (s, [])

-- which of the two tasks an event is for
abbrev pub is_status : SmartEvent → Bool
is_status sta_start = false
is_status sta_got_ip = false
is_status sta_connected = false
is_status sta_disconnected = false
is_status other_event = false
is_status status_wait = true
is_status status_find_channel = true
is_status status_getting_ssid_pswd = true
is_status status_link_over = true
is_status (status_link wifi_config) = true

-- An event; `none` where it is for the event task and that waits.
unfoldable pub smart_step : SmartConfig → SmartEvent → Option (SmartConfig × List SmartAction)
smart_step s e =
    if is_status e
    then some (smartconfig_handler e s)
    else if s.waits_for_link
    then none
    else some (wifi_event_handler_smartcfg e s)

-- The events, one after the other. `smartconfig_init` makes the event group, starts the SDK's two tasks,
-- and waits until `is_connected` is set.
unfoldable pub smart_steps : SmartConfig → List SmartEvent → Option (SmartConfig × List SmartAction)
smart_steps s [] = some (s, [])
smart_steps s (e ∷ events) = do
  (s1, did) ← smart_step s e
  (s2, more) ← smart_steps s1 events
  some (s2, did ++ more)
