-- ===== src/Gpio.antt =====
-- components/h_gpio/h_gpio.c and include/h_gpio.h: the debounced key scanner. `gpio_get_level`
-- belongs to the SDK, so the level that it returned is an argument of each scan.
pub mod Debounce
pub mod Thread
use esp32base.Base.{ℕ, Bool, true, false, List, [], ◌∷◌, ◌==◌, if◌then◌else◌}

-- `EzhKeyState`
pub data KeyState : Type 0 where
  state_0 state_1 state_2 state_3 : KeyState

-- `EzhKeyEvent`
pub data KeyEvent : Type 0 where
  none down press up : KeyEvent

-- the `switch` of `zhSCM_keyState`: new state and event; `key_port` is `!gpio_get_level(pin)`
switch : KeyState → Bool → KeyState × KeyEvent
switch state_1 key_port = if key_port then (state_2, down) else (state_0, none)
switch state_2 key_port = if key_port then (state_3, press) else (state_0, up)
switch state_3 key_port = if key_port then (state_3, press) else (state_0, up)
switch state_0 key_port = if key_port then (state_1, none) else (state_0, none)

-- `zhSCM_keyState`: the key is wired to pull the pin low.
unfoldable pub key_state : KeyState → ℕ → KeyState × KeyEvent
unfolding switch
key_state status level = switch status (level == 0)

-- `zhSCM_initKey` leaves the scanner in this state.
abbrev pub init_key : KeyState
init_key = state_0

-- The rounds of `task_gpio_thread` for one key: the events of the successive levels.
unfoldable pub scan : KeyState → List ℕ → List KeyEvent
unfolding key_state
scan status [] = []
scan status (level ∷ levels) =
    let (status', ev) = key_state status level in ev ∷ scan status' levels

-- the state after those rounds
unfoldable pub scan_state : KeyState → List ℕ → KeyState
unfolding key_state
scan_state status [] = status
scan_state status (level ∷ levels) = scan_state (key_state status level).0 levels
