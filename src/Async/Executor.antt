-- ===== src/Async/Executor.antt =====
-- `CriticalTask` and `AsyncExecutor` of patroni/async_executor.py. A part of a method that holds the
-- locks is one function.
use metatroni.Prelude.{Bool, true, false, Option, none, some, if◌then◌else◌}
use metatroni.Names.{Name}

pub record CriticalTask (A : Type 0) : Type 0 where
  pub is_cancelled : Bool
  pub result : Option A

pub record AsyncExecutor (A : Type 0) : Type 0 where
  pub scheduled_action : Option Name
  pub is_cancelled : Bool
  pub finish_event : Bool
  pub critical_task : CriticalTask A

-- What a task comes to: it is cancelled before it starts, it raises, or it returns a value or `None`.
pub data Outcome (A : Type 0) : Type 0 where
  cancelled : Outcome A
  raised : Outcome A
  returned : Option A → Outcome A

abbrev pub is_some : Option Name → Bool
is_some none = false
is_some (some a) = true

module _ {A : Type 0} where
  -- `CriticalTask.__init__` and `CriticalTask.reset`
  abbrev pub new_task : CriticalTask A
  new_task = record { is_cancelled = false; result = none }

  -- `CriticalTask.cancel`
  unfoldable pub cancel_task : CriticalTask A → Bool × CriticalTask A
  cancel_task t = elim t.result [
    | some r ↦ (false, t)
    | none ↦ (true, record { is_cancelled = true; result = t.result })
  ]

  -- `CriticalTask.complete`
  abbrev pub complete : A → CriticalTask A → CriticalTask A
  complete r t = record { is_cancelled = t.is_cancelled; result = some r }

  -- `AsyncExecutor.__init__`
  abbrev pub new_executor : AsyncExecutor A
  new_executor = record {
    scheduled_action = none;
    is_cancelled = false;
    finish_event = false;
    critical_task = new_task;
  }

  -- `busy`
  abbrev pub busy : AsyncExecutor A → Bool
  busy e = is_some e.scheduled_action

  -- `schedule`: the action that is there already, if any.
  unfoldable pub schedule : Name → AsyncExecutor A → Option Name × AsyncExecutor A
  schedule action e = elim e.scheduled_action [
    | some a ↦ (some a, e)
    | none ↦ (
      none,
      record {
        scheduled_action = some action;
        is_cancelled = false;
        finish_event = true;
        critical_task = e.critical_task;
      },
    )
  ]

  -- `reset_scheduled_action`
  abbrev pub reset_scheduled_action : AsyncExecutor A → AsyncExecutor A
  reset_scheduled_action e = record {
    scheduled_action = none;
    is_cancelled = e.is_cancelled;
    finish_event = e.finish_event;
    critical_task = e.critical_task;
  }

  -- `run`: the test before the task is run, and whether it is run.
  unfoldable pub begin : AsyncExecutor A → Bool × AsyncExecutor A
  begin e = if e.is_cancelled then (false, e) else (
    true,
    record {
      scheduled_action = e.scheduled_action;
      is_cancelled = e.is_cancelled;
      finish_event = false;
      critical_task = e.critical_task;
    },
  )

  -- `run`: what is done in the end, the `finally` block.
  unfoldable pub finish : AsyncExecutor A → AsyncExecutor A
  finish e = record {
    scheduled_action = none;
    is_cancelled = e.is_cancelled;
    finish_event = true;
    critical_task = new_task;
  }

  -- `wakeup is not None`: the HA loop is woken up.
  abbrev pub wakes_up : Outcome A → Bool
  wakes_up (returned none) = false
  wakes_up _ = true

  abbrev pub value_of : Outcome A → Option A
  value_of (returned r) = r
  value_of _ = none

  -- `run` of a task that may change the executor: its value, whether the HA loop is woken up, and the
  -- executor afterwards.
  unfoldable pub run :
      (AsyncExecutor A → Outcome A × AsyncExecutor A)
      → AsyncExecutor A
      → Option A × Bool × AsyncExecutor A
  unfolding begin finish
  run func e =
      let started = begin e in
      let done = func started.1 in
      let outcome = if started.0 then done.0 else cancelled in
      (value_of outcome, wakes_up outcome, finish (if started.0 then done.1 else started.1))

  -- `cancel`: whether there is something to wait for.
  unfoldable pub request_cancel : AsyncExecutor A → Bool × AsyncExecutor A
  request_cancel e = elim e.scheduled_action [
    | none ↦ (false, e)
    | some a ↦ (
      true,
      record {
        scheduled_action = e.scheduled_action;
        is_cancelled = true;
        finish_event = e.finish_event;
        critical_task = e.critical_task;
      },
    )
  ]

  abbrev pub with_task : AsyncExecutor A → CriticalTask A → AsyncExecutor A
  with_task e t = record {
    scheduled_action = e.scheduled_action;
    is_cancelled = e.is_cancelled;
    finish_event = e.finish_event;
    critical_task = t;
  }
