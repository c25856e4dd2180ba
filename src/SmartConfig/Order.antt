-- ===== src/SmartConfig/Order.antt =====
-- The order of what the two tasks do.
use esp32base.Base.{
  ◌≡◌, refl, Bool, true, false, not, ◌||◌, some, List, [], ◌∷◌, ◌++◌, arith, All, subst,
  >>=-eq-some, some_eq,
}
use esp32base.SmartConfig.{
  SmartConfig, SmartEvent, sta_start, sta_got_ip, sta_connected, sta_disconnected, other_event,
  status_wait, status_find_channel, status_getting_ssid_pswd, status_link_over, status_link,
  SmartAction, connects, disconnects, stops, sets_config, wifi_event_handler_smartcfg,
  smartconfig_handler, smart_step, smart_steps,
}

-- whether `connects` stands before the first `sets_config`
unfoldable pub connects_early : List SmartAction → Bool
connects_early [] = false
connects_early (connects ∷ did) = true
connects_early (disconnects ∷ did) = connects_early did
connects_early (stops ∷ did) = connects_early did
connects_early (sets_config c ∷ did) = false

unfoldable pub is_configured : List SmartAction → Bool
is_configured [] = false
is_configured (connects ∷ did) = is_configured did
is_configured (disconnects ∷ did) = is_configured did
is_configured (stops ∷ did) = is_configured did
is_configured (sets_config c ∷ did) = true

unfoldable pub is_stopped : List SmartAction → Bool
is_stopped [] = false
is_stopped (connects ∷ did) = is_stopped did
is_stopped (disconnects ∷ did) = is_stopped did
is_stopped (stops ∷ did) = true
is_stopped (sets_config c ∷ did) = is_stopped did

-- a fresh event group
abbrev pub fresh : SmartConfig
fresh = record { is_linked = false; is_connected = false; waits_for_link = false }

abbrev pub not_disconnected : SmartEvent → Bool
not_disconnected sta_start = true
not_disconnected sta_got_ip = true
not_disconnected sta_connected = true
not_disconnected sta_disconnected = false
not_disconnected other_event = true
not_disconnected status_wait = true
not_disconnected status_find_channel = true
not_disconnected status_getting_ssid_pswd = true
not_disconnected status_link_over = true
not_disconnected (status_link c) = true

-- a connection waits for the link, but behind a disconnection; both bits say what has been done
record InOrder (s s' : SmartConfig) (did : List SmartAction) : Type 0 where
  linked : s'.is_linked ≡ (s.is_linked || is_configured did)
  early : s.is_linked ≡ false → connects_early did ≡ false
  over : s'.is_connected ≡ true → (s.is_connected || is_stopped did) ≡ true

status-InOrder :
    (e : SmartEvent) (s : SmartConfig)
    → InOrder s (smartconfig_handler e s).0 (smartconfig_handler e s).1
unfolding smartconfig_handler is_configured connects_early is_stopped
status-InOrder status_link_over s = ground arith
status-InOrder e s = ground arith

event-InOrder :
    (e : SmartEvent) (s : SmartConfig)
    → not_disconnected e ≡ true
    → InOrder s (wifi_event_handler_smartcfg e s).0 (wifi_event_handler_smartcfg e s).1
unfolding wifi_event_handler_smartcfg is_configured connects_early is_stopped
event-InOrder sta_disconnected s h = cc h
event-InOrder e s h = ground arith

step-InOrder :
    (s s' : SmartConfig) (e : SmartEvent) (did : List SmartAction)
    → not_disconnected e ≡ true
    → smart_step s e ≡ some (s', did)
    → InOrder s s' did
unfolding smart_step
step-InOrder s s' e did h step = ground (arith, status-InOrder e s, event-InOrder e s h)

is_configured-append :
    (did more : List SmartAction)
    → is_configured (did ++ more) ≡ (is_configured did || is_configured more)
unfolding is_configured
is_configured-append [] more = refl
is_configured-append (connects ∷ did) more = is_configured-append did more
is_configured-append (disconnects ∷ did) more = is_configured-append did more
is_configured-append (stops ∷ did) more = is_configured-append did more
is_configured-append (sets_config c ∷ did) more = refl

is_stopped-append :
    (did more : List SmartAction) → is_stopped (did ++ more) ≡ (is_stopped did || is_stopped more)
unfolding is_stopped
is_stopped-append [] more = refl
is_stopped-append (connects ∷ did) more = is_stopped-append did more
is_stopped-append (disconnects ∷ did) more = is_stopped-append did more
is_stopped-append (stops ∷ did) more = refl
is_stopped-append (sets_config c ∷ did) more = is_stopped-append did more

connects_early-append :
    (did more : List SmartAction)
    → connects_early did ≡ false
    → (is_configured did ≡ false → connects_early more ≡ false)
    → connects_early (did ++ more) ≡ false
unfolding connects_early is_configured
connects_early-append [] more h k = k refl
connects_early-append (connects ∷ did) more h k = cc h
connects_early-append (disconnects ∷ did) more h k = connects_early-append did more h k
connects_early-append (stops ∷ did) more h k = connects_early-append did more h k
connects_early-append (sets_config c ∷ did) more h k = refl

then-InOrder :
    (s s1 s2 : SmartConfig) (did more : List SmartAction)
    → InOrder s s1 did
    → InOrder s1 s2 more
    → InOrder s s2 (did ++ more)
then-InOrder s s1 s2 did more a b = record {
  linked = ground (arith, a.linked, b.linked, is_configured-append did more);
  early = λ h.
      connects_early-append did more (a.early h) (λ k. b.early (ground (arith, a.linked, h, k)));
  over = λ h. ground (arith, a.over, b.over h, is_stopped-append did more);
}

All-InOrder :
    (s s' : SmartConfig) (events : List SmartEvent) (did : List SmartAction)
    → All (λ e. not_disconnected e ≡ true) events
    → smart_steps s events ≡ some (s', did)
    → InOrder s s' did
unfolding smart_steps
All-InOrder s s' [] did h run =
    let start : InOrder s s [] = record {
      linked = unfold is_configured in ground arith;
      early = λ k. unfold connects_early in refl;
      over = λ k. ground (arith, k);
    } in
    subst (λ r. InOrder s r.0 r.1) (some_eq (s, []) (s', did) run) start
All-InOrder s s' (e ∷ events) did h run =
    let ((s1, now), step, rest) = >>=-eq-some (smart_step s e) _ run in
    let ((s2, more), later, end_) = >>=-eq-some (smart_steps s1 events) _ rest in
    subst (λ r. InOrder s r.0 r.1) (some_eq (s2, now ++ more) (s', did) end_)
      (then-InOrder s s1 s2 now more (step-InOrder s s1 e now h.0 step)
        (All-InOrder s1 s2 events more h.1 later))

-- From a fresh event group, in any order of the two tasks' events in which the station is not
-- disconnected: nothing connects before a configuration has been set; LINKED_BIT is set exactly where
-- one has been; and where CONNECTED_BIT is set, for which `smartconfig_init` waits, the search for
-- settings has been stopped.
pub smart_steps-order :
    (s' : SmartConfig) (events : List SmartEvent) (did : List SmartAction)
    → All (λ e. not_disconnected e ≡ true) events
    → smart_steps fresh events ≡ some (s', did)
    → (connects_early did ≡ false)
      × (s'.is_linked ≡ is_configured did)
      × ((not s'.is_connected || is_stopped did) ≡ true)
smart_steps-order s' events did h run =
    let in_order = All-InOrder fresh s' events did h run in
    (in_order.early refl, in_order.linked, ground (arith, in_order.over))
