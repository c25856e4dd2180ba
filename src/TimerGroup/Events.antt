-- ===== src/TimerGroup/Events.antt =====
-- From the timers' interrupts to the callbacks.
use esp32base.Base.{
  ℕ, ◌+◌, ◌-◌, ◌*◌, ◌%◌, ◌^◌, ◌≤◌, ◌<◌, ◌≡◌, refl, ap, sym, ◌∙◌, Bool, true, false, ◌&&◌, none,
  some, List, [], ◌∷◌, ◌++◌, ◌==◌, ltb, if◌then◌else◌, arith, length, length-append, append-nil,
  append_assoc, Bool-cases, inl, inr,
}
use esp32base.TimerGroup.{
  HwTimer, TimerEvent, is_raised, counter, set_alarm, timer_group0_isr, queue_send, timer_evt,
  timer_evt_task,
}

-- The alarm that the interrupt of timer 0 leaves is the counter with the interval added and the
-- adjustment made, to 64 bits, and enabled.
pub timer_group0_isr-alarm :
    (next_alarm : ℕ → ℕ) (intr_status : ℕ) (t : HwTimer)
    → is_raised intr_status 0 ≡ true
    → let t' = (timer_group0_isr next_alarm 0 intr_status t).0 in
      (t'.alarm_high * 2 ^ 32 + t'.alarm_low ≡ next_alarm (counter t) % 2 ^ 64)
      × (t'.alarm_en ≡ true)
unfolding timer_group0_isr set_alarm
timer_group0_isr-alarm next_alarm intr_status t raised = rw raised (omega arith, refl)

-- an interrupt of a timer with the status then and its registers, or a turn of the task
pub data TimerStep : Type 0 where
  interrupt : ℕ → ℕ → HwTimer → TimerStep
  turn : TimerStep

-- the queue after steps, and the calls, in any order of interrupts and turns
module _ (next_alarm : ℕ → ℕ) where
  unfoldable pub timer_step : List TimerEvent → TimerStep → List TimerEvent × List ℕ
  timer_step queue (interrupt timer_idx intr_status t) =
      (queue_send queue (timer_group0_isr next_alarm timer_idx intr_status t).1, [])
  timer_step queue turn = timer_evt_task queue

  unfoldable pub timer_steps : List TimerEvent → List TimerStep → List TimerEvent × List ℕ
  timer_steps queue [] = (queue, [])
  timer_steps queue (s ∷ steps) =
      let (queue1, calls) = timer_step queue s in
      let (queue2, more) = timer_steps queue1 steps in (queue2, calls ++ more)

-- the timers whose interrupts come while there is room, by how many events are in the queue
abbrev pub raised_timer : ℕ → ℕ → List ℕ
raised_timer timer_idx intr_status =
    if is_raised intr_status timer_idx && ltb timer_idx 2 then timer_idx ∷ [] else []

unfoldable pub accepted_timers : ℕ → List TimerStep → List ℕ
accepted_timers n [] = []
accepted_timers n (interrupt timer_idx intr_status t ∷ steps) =
    let taken = if ltb n 10 then raised_timer timer_idx intr_status else [] in
    taken ++ accepted_timers (n + length taken) steps
accepted_timers n (turn ∷ steps) = accepted_timers (n - 1) steps

-- the timers of the events that wait
unfoldable pub waiting : List TimerEvent → List ℕ
waiting [] = []
waiting (evt ∷ queue) = evt.idx ∷ waiting queue

-- events as the handler posts them
abbrev pub AreTimers : List TimerEvent → Type 0
AreTimers [] = Unit
AreTimers (evt ∷ queue) = (evt.type ≡ evt.idx) × (evt.idx < 2) × AreTimers queue

waiting-append :
    (queue : List TimerEvent) (evt : TimerEvent)
    → waiting (queue ++ evt ∷ []) ≡ waiting queue ++ evt.idx ∷ []
unfolding waiting
waiting-append [] evt = refl
waiting-append (e ∷ queue) evt = ap (λ t. e.idx ∷ t) (waiting-append queue evt)

AreTimers-append :
    (queue : List TimerEvent) (evt : TimerEvent)
    → AreTimers queue
    → evt.type ≡ evt.idx
    → evt.idx < 2
    → AreTimers (queue ++ evt ∷ [])
AreTimers-append [] evt h e k = (e, k, tt)
AreTimers-append (x ∷ queue) evt (a, b, h) e k = (a, b, AreTimers-append queue evt h e k)

timer_evt-idx : (evt : TimerEvent) → evt.type ≡ evt.idx → evt.idx < 2 → timer_evt evt ≡ evt.idx ∷ []
unfolding timer_evt
timer_evt-idx evt e h = ground arith

-- what an interrupt does to the queue
abbrev Sent : List TimerEvent → List ℕ → List TimerEvent → Type 0
Sent queue taken queue' =
    (waiting queue' ≡ waiting queue ++ taken)
    × (length queue' ≡ length queue + length taken)
    × (length queue' ≤ 10)
    × AreTimers queue'

send-Sent :
    (queue : List TimerEvent) (timer_idx type n : ℕ)
    → AreTimers queue
    → length queue ≤ 10
    → type ≡ timer_idx
    → timer_idx < 2
    → Sent queue
        (if ltb (length queue) 10 then timer_idx ∷ [] else [])
        (queue_send queue (some (record { type = type; idx = timer_idx; counter_val = n })))
unfolding queue_send
send-Sent queue timer_idx type n h size e k =
    let evt : TimerEvent = record { type = type; idx = timer_idx; counter_val = n } in
    elim (Bool-cases (ltb (length queue) 10)) [
      | inl room ↦ rw room (
        waiting-append queue evt,
        length-append queue (evt ∷ []),
        ground (arith, length-append queue (evt ∷ [])),
        AreTimers-append queue evt h e k,
      )
      | inr full ↦ rw full (sym (append-nil (waiting queue)), omega arith, size, h)
    ]

nothing-Sent :
    (queue : List TimerEvent)
    → AreTimers queue
    → length queue ≤ 10
    → Sent queue [] (queue_send queue none)
unfolding queue_send
nothing-Sent queue h size = (sym (append-nil (waiting queue)), omega arith, size, h)

interrupt-Sent :
    (next_alarm : ℕ → ℕ) (queue : List TimerEvent) (timer_idx intr_status : ℕ) (t : HwTimer)
    → AreTimers queue
    → length queue ≤ 10
    → Sent queue
        (if ltb (length queue) 10 then raised_timer timer_idx intr_status else [])
        (queue_send queue (timer_group0_isr next_alarm timer_idx intr_status t).1)
unfolding timer_group0_isr
interrupt-Sent next_alarm queue timer_idx intr_status t h size =
    elim (Bool-cases (is_raised intr_status timer_idx)) [
      | inr quiet ↦ rw quiet (unasked (ltb (length queue) 10))
      | inl raised ↦ elim (Bool-cases (timer_idx == 0)) [
        | inl first ↦
            let low : ltb timer_idx 2 ≡ true = ground arith in
            rw (raised, first, low)
              (send-Sent queue timer_idx 0 (counter t) h size (ground arith) (ground arith))
        | inr later ↦ elim (Bool-cases (timer_idx == 1)) [
          | inl second ↦
              let low : ltb timer_idx 2 ≡ true = ground arith in
              rw (raised, later, second, low)
                (send-Sent queue timer_idx 1 (counter t) h size (ground arith) (ground arith))
          | inr neither ↦
              let high : ltb timer_idx 2 ≡ false = ground arith in
              rw (raised, later, neither, high) (unasked (ltb (length queue) 10))
        ]
      ]
    ]
  where
    unasked : (room : Bool) → Sent queue (if room then [] else []) (queue_send queue none)
    unasked true = nothing-Sent queue h size
    unasked false = nothing-Sent queue h size

-- what waits now, then what is accepted, is what is called and what waits at the end
abbrev Kept : List TimerEvent → List ℕ → List TimerEvent × List ℕ → Type 0
Kept queue taken (queue', calls) =
    (calls ++ waiting queue' ≡ waiting queue ++ taken) × (length queue' ≤ 10) × AreTimers queue'

-- In any order of interrupts and turns of the task, from a queue of the handler's events: the callback
-- has been called with exactly the timers whose interrupts came while the queue had room, in their
-- order, but for those that still wait; and the queue never holds more than ten.
pub timer_steps_lem :
    (next_alarm : ℕ → ℕ) (queue : List TimerEvent) (steps : List TimerStep)
    → AreTimers queue
    → length queue ≤ 10
    → ((timer_steps next_alarm queue steps).1 ++ waiting (timer_steps next_alarm queue steps).0
        ≡ waiting queue ++ accepted_timers (length queue) steps)
      × (length (timer_steps next_alarm queue steps).0 ≤ 10)
      × AreTimers (timer_steps next_alarm queue steps).0
unfolding timer_steps timer_step timer_evt_task accepted_timers waiting
timer_steps_lem next_alarm queue [] h size = (sym (append-nil (waiting queue)), size, h)
timer_steps_lem next_alarm queue (interrupt timer_idx intr_status t ∷ steps) h size =
    let taken = if ltb (length queue) 10 then raised_timer timer_idx intr_status else [] in
    let queue1 = queue_send queue (timer_group0_isr next_alarm timer_idx intr_status t).1 in
    let (now, grown, size1, h1) = interrupt-Sent next_alarm queue timer_idx intr_status t h size in
    let (later, size2, h2) = timer_steps_lem next_alarm queue1 steps h1 size1 in
    (
      later
          ∙ ap (λ n. waiting queue1 ++ accepted_timers n steps) grown
          ∙ ap (λ w. w ++ accepted_timers (length queue + length taken) steps) now
          ∙ append_assoc (waiting queue) taken
              (accepted_timers (length queue + length taken) steps),
      size2,
      h2,
    )
timer_steps_lem next_alarm [] (turn ∷ steps) h size = timer_steps_lem next_alarm [] steps h size
timer_steps_lem next_alarm (evt ∷ queue) (turn ∷ steps) (e, k, h) size =
    let (later, size2, h2) = timer_steps_lem next_alarm queue steps h (omega arith) in
    let (queue2, more) = timer_steps next_alarm queue steps in
    let n : length (evt ∷ queue) - 1 ≡ length queue = omega arith in
    (
      ap (λ c. (c ++ more) ++ waiting queue2) (timer_evt-idx evt e k)
          ∙ ap (λ w. evt.idx ∷ w) later
          ∙ ap (λ m. evt.idx ∷ (waiting queue ++ accepted_timers m steps)) (sym n),
      size2,
      h2,
    )
