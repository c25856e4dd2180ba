-- ===== src/Gpio/Debounce.antt =====
-- The key scanner against a description by the length of the current run of pressed samples.
use esp32base.Base.{ℕ, ◌+◌, ◌≡◌, refl, List, [], ◌∷◌, arith, ◌==◌, ltb, if◌then◌else◌}
use esp32base.Gpio.{
  KeyState, state_0, state_1, state_2, state_3, KeyEvent, none, down, press, up, key_state,
  init_key, scan, scan_state,
}

-- length of the run of pressed samples that a new sample ends, after a run of length `run`
abbrev next_run : ℕ → ℕ → ℕ
next_run run level = if level == 0 then run + 1 else 0

-- The second pressed sample in a row is the press, later ones repeat it, and a release is reported
-- exactly after a run of at least two.
abbrev event_of : ℕ → ℕ → KeyEvent
event_of run level =
    if level == 0
    then (if run == 0 then none else if run == 1 then down else press)
    else if ltb run 2
    then none
    else up

pub expected : ℕ → List ℕ → List KeyEvent
expected run [] = []
expected run (level ∷ levels) = event_of run level ∷ expected (next_run run level) levels

-- the state of the scanner after a run of that length
abbrev state_of : ℕ → KeyState
state_of run =
    if run == 0
    then state_0
    else if run == 1
    then state_1
    else if run == 2
    then state_2
    else state_3

key_state-run :
    (run level : ℕ)
    → key_state (state_of run) level ≡ (state_of (next_run run level), event_of run level)
unfolding key_state
key_state-run run level = ground arith

scan_run : (run : ℕ) (levels : List ℕ) → scan (state_of run) levels ≡ expected run levels
unfolding scan expected
scan_run run [] = refl
scan_run run (level ∷ levels) =
    ground (arith, key_state-run run level, scan_run (next_run run level) levels)

-- From its initial state, and for every sequence of levels, the scanner reports none for the first
-- pressed sample of a run, down for the second, press for each later one, up for the released sample
-- that ends a run of at least two, and none for every other released sample.
pub scan-expected : (levels : List ℕ) → scan init_key levels ≡ expected 0 levels
scan-expected levels = scan_run 0 levels

abbrev pub counts : (KeyEvent → ℕ) → List KeyEvent → ℕ
counts f [] = 0
counts f (e ∷ es) = f e + counts f es

abbrev pub is_down : KeyEvent → ℕ
is_down down = 1
is_down _ = 0

abbrev pub is_up : KeyEvent → ℕ
is_up up = 1
is_up _ = 0

-- 1 while a reported press waits for its release
abbrev pub held : KeyState → ℕ
held state_2 = 1
held state_3 = 1
held _ = 0

key_state-held :
    (s : KeyState) (level : ℕ)
    → held s + is_down (key_state s level).1
      ≡ held (key_state s level).0 + is_up (key_state s level).1
unfolding key_state
key_state-held s level = ground arith

scan-held :
    (s : KeyState) (levels : List ℕ)
    → held s + counts is_down (scan s levels)
      ≡ held (scan_state s levels) + counts is_up (scan s levels)
unfolding scan scan_state
scan-held s [] = refl
scan-held s (level ∷ levels) =
    omega (arith, key_state-held s level, scan-held (key_state s level).0 levels)

-- Over every sequence of levels the down events are the up events, and one more exactly when the
-- scanner ends in one of its two pressed states: no release without its press, no press twice.
pub scan_balance :
    (levels : List ℕ)
    → counts is_down (scan init_key levels)
      ≡ held (scan_state init_key levels) + counts is_up (scan init_key levels)
scan_balance levels = omega (arith, scan-held state_0 levels)
