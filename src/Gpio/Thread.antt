-- ===== src/Gpio/Thread.antt =====
-- task_gpio_thread of main/main.c: the rounds over the four keys.
use esp32base.Base.{ℕ, ◌≡◌, refl, ap₂, List, [], ◌∷◌, map}
use esp32base.Gpio.{KeyState, KeyEvent, init_key, key_state, scan}

-- `btnFactory`, `btn1`, `btn2` and `btn3`
pub record Keys : Type 0 where
  pub btn_factory : KeyState
  pub btn_1 : KeyState
  pub btn_2 : KeyState
  pub btn_3 : KeyState

-- the keys that `app_main` sets up
abbrev pub init_keys : Keys
init_keys = record { btn_factory = init_key; btn_1 = init_key; btn_2 = init_key; btn_3 = init_key }

-- the levels of the pins 39, 34, 35 and 13 in a round
pub record Pins : Type 0 where
  pub pin_39 : ℕ
  pub pin_34 : ℕ
  pub pin_35 : ℕ
  pub pin_13 : ℕ

-- the four values that `ev` takes in a round
pub record Events : Type 0 where
  pub factory : KeyEvent
  pub key_1 : KeyEvent
  pub key_2 : KeyEvent
  pub key_3 : KeyEvent

-- one round of the thread, of which the cases only print
unfoldable pub gpio_round : Keys → Pins → Keys × Events
gpio_round k p =
    let (s0, e0) = key_state k.btn_factory p.pin_39 in
    let (s1, e1) = key_state k.btn_1 p.pin_34 in
    let (s2, e2) = key_state k.btn_2 p.pin_35 in
    let (s3, e3) = key_state k.btn_3 p.pin_13 in
    (
      record { btn_factory = s0; btn_1 = s1; btn_2 = s2; btn_3 = s3 },
      record { factory = e0; key_1 = e1; key_2 = e2; key_3 = e3 },
    )

-- `task_gpio_thread`
unfoldable pub task_gpio_thread : Keys → List Pins → List Events
task_gpio_thread k [] = []
task_gpio_thread k (p ∷ ps) = let (k', e) = gpio_round k p in e ∷ task_gpio_thread k' ps

-- In the rounds of the thread each key has the events that scanning its own pin alone has.
pub task_gpio_thread-scan :
    (k : Keys) (ps : List Pins)
    → (map (λ e. e.factory) (task_gpio_thread k ps) ≡ scan k.btn_factory (map (λ p. p.pin_39) ps))
      × (map (λ e. e.key_1) (task_gpio_thread k ps) ≡ scan k.btn_1 (map (λ p. p.pin_34) ps))
      × (map (λ e. e.key_2) (task_gpio_thread k ps) ≡ scan k.btn_2 (map (λ p. p.pin_35) ps))
      × (map (λ e. e.key_3) (task_gpio_thread k ps) ≡ scan k.btn_3 (map (λ p. p.pin_13) ps))
unfolding task_gpio_thread gpio_round scan key_state
task_gpio_thread-scan k [] = (refl, refl, refl, refl)
task_gpio_thread-scan k (p ∷ ps) =
    let (a, b, c, d) = task_gpio_thread-scan (gpio_round k p).0 ps in
    (ap₂ ◌∷◌ refl a, ap₂ ◌∷◌ refl b, ap₂ ◌∷◌ refl c, ap₂ ◌∷◌ refl d)
