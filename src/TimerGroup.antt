-- ===== src/TimerGroup.antt =====
-- components/timer/timer_group.c: the interrupt handler of the two timers, the queue of ten events, and
-- the task that calls back. Floating-point arithmetic is a parameter.
pub mod Events
use esp32base.Base.{
  ℕ, ◌+◌, ◌*◌, ◌/◌, ◌%◌, ◌^◌, Bool, true, false, ◌&&◌, Option, none, some, List, [], ◌∷◌, ◌++◌,
  ◌==◌, ltb, if◌then◌else◌, length,
}

-- the registers of a timer that the handler uses
pub record HwTimer : Type 0 where
  pub cnt_high : ℕ
  pub cnt_low : ℕ
  pub alarm_high : ℕ
  pub alarm_low : ℕ
  pub alarm_en : Bool

-- `timer_event_t`; the group is 0 in all of them
pub record TimerEvent : Type 0 where
  pub type : ℕ
  pub idx : ℕ
  pub counter_val : ℕ

-- `intr_status & BIT(timer_idx)`
abbrev pub is_raised : ℕ → ℕ → Bool
is_raised intr_status timer_idx = intr_status / 2 ^ timer_idx % 2 == 1

abbrev pub counter : HwTimer → ℕ
counter t = t.cnt_high * 2 ^ 32 + t.cnt_low

module _ (next_alarm : ℕ → ℕ) where
  -- The alarm of timer 0 is set anew. `next_alarm` adds the interval to a counter and takes
  -- TIMER_FINE_ADJ off, in `double`s that become a `uint64_t`.
  unfoldable pub set_alarm : HwTimer → HwTimer
  set_alarm t =
      let timer_val = next_alarm (counter t) in
      record t {
        alarm_high = timer_val / 2 ^ 32 % 2 ^ 32;
        alarm_low = timer_val % 2 ^ 32;
        alarm_en = true;
      }

  -- `timer_group0_isr` of a timer, given the status: the registers after it, and the event it posts
  unfoldable pub timer_group0_isr : ℕ → ℕ → HwTimer → HwTimer × Option TimerEvent
  timer_group0_isr timer_idx intr_status t =
      if is_raised intr_status timer_idx && timer_idx == 0
      then (set_alarm t, some (record { type = 0; idx = timer_idx; counter_val = counter t }))
      else if is_raised intr_status timer_idx && timer_idx == 1
      then (
        record t { alarm_en = true },
        some (record { type = 1; idx = timer_idx; counter_val = counter t }),
      )
      else (t, none)

-- xQueueSendFromISR on `timer_queue`, which has room for ten events; one that finds it full is lost
unfoldable pub queue_send : List TimerEvent → Option TimerEvent → List TimerEvent
queue_send queue none = queue
queue_send queue (some evt) = if ltb (length queue) 10 then queue ++ evt ∷ [] else queue

-- a round of `timer_evt_task` with an event: what `g_timer_group_cb` is called with
unfoldable pub timer_evt : TimerEvent → List ℕ
timer_evt evt = if evt.type == 0 then 0 ∷ [] else if evt.type == 1 then 1 ∷ [] else []

-- xQueueReceive and the round of `timer_evt_task`; the task waits for an event
unfoldable pub timer_evt_task : List TimerEvent → List TimerEvent × List ℕ
timer_evt_task [] = ([], [])
timer_evt_task (evt ∷ queue) = (queue, timer_evt evt)
