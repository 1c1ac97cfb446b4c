-- ===== src/Tests/Async.antt =====
-- Runs of the asynchronous executor (patroni/async_executor.py), and the theorems there.
use metatroni.Prelude.{ℕ, Bool, ◌≡◌, refl, true, false, List, [], ◌∷◌, Option, some, none, length}
use metatroni.Names.{name}
use metatroni.Async.Executor.{
  Outcome, new_executor, cancel_task, schedule, begin, finish, run, request_cancel,
}
use metatroni.Async.Threads.{Threads, Event, threads, pull, step, steps, start, all_allowed}
use metatroni.Async.Alone.{is_calm, IsAlone, steps-start-IsAlone}
use metatroni.Async.Critical.{is_checked, Exclusive, steps-start-Exclusive}

unfoldable program : Unit {0}
unfolding cancel_task schedule begin finish run request_cancel step steps pull is_calm is_checked
    all_allowed
program = tt

abbrev count_running : Option (Threads ℕ) → ℕ
count_running none = 0
count_running (some t) = length t.running

-- A task that is cancelled before a thread takes it up runs beside the next one.
cancelled_early :
    count_running (
      steps
        (Event.tries_run (name "restart")
          ∷ Event.requests_cancel
          ∷ Event.ends_cancel
          ∷ Event.tries_run (name "promote")
          ∷ Event.begins 0
          ∷ Event.begins 0
          ∷ [])
        start)
    ≡ 2
unfolding program
cancelled_early = refl

-- The caller of `cancel` unschedules a task that was scheduled while it woke up.
cancelled_late :
    count_running (
      steps
        (Event.tries_run (name "restart")
          ∷ Event.begins 0
          ∷ Event.requests_cancel
          ∷ Event.returns 0
          ∷ Event.finishes 0
          ∷ Event.tries_run (name "reinitialize")
          ∷ Event.ends_cancel
          ∷ Event.tries_run (name "promote")
          ∷ Event.begins 0
          ∷ Event.begins 0
          ∷ [])
        start)
    ≡ 2
unfolding program
cancelled_late = refl

-- A task is run in place, and the executor is free again.
runs_in_place :
    run {A = ℕ} (λ e. (Outcome.returned (some 7), e)) (schedule (name "restart") new_executor).1 ≡ (
      some 7,
      true,
      record {
        scheduled_action = none;
        is_cancelled = false;
        finish_event = true;
        critical_task = record { is_cancelled = false; result = none };
      },
    )
unfolding program
runs_in_place = refl

-- A critical task that is cancelled too late, and the task is then cancelled.
abbrev calm_run : List (Event ℕ)
calm_run =
    Event.tries_run (name "promote")
    ∷ Event.begins 0
    ∷ Event.completes_critical 5
    ∷ Event.cancels_critical
    ∷ Event.requests_cancel
    ∷ []

abbrev calm_end : Threads ℕ
calm_end =
    threads
      (record {
        scheduled_action = some (name "promote");
        is_cancelled = true;
        finish_event = false;
        critical_task = record { is_cancelled = false; result = some 5 };
      })
      [] (name "promote" ∷ []) [] 1

calm_run-steps : steps calm_run start ≡ some calm_end
unfolding program
calm_run-steps = refl

calm_run_calm : all_allowed is_calm calm_run start ≡ true
unfolding program
calm_run_calm = refl

calm_run_checked : all_allowed is_checked calm_run start ≡ true
unfolding program
calm_run_checked = refl

abbrev critical_of : Option (Threads ℕ) → Bool × Option ℕ
critical_of none = (false, none)
critical_of (some t) = (t.executor.critical_task.is_cancelled, t.executor.critical_task.result)

-- A task that does not look whether it is cancelled completes after the caller was told that it was.
completed_unchecked :
    critical_of (
      steps
        (Event.tries_run (name "promote")
          ∷ Event.begins 0
          ∷ Event.cancels_critical
          ∷ Event.completes_critical 5
          ∷ [])
        start)
    ≡ (true, some 5)
unfolding program
completed_unchecked = refl

steps-start-IsAlone_example : IsAlone calm_end
steps-start-IsAlone_example = steps-start-IsAlone calm_run calm_end calm_run_calm calm_run-steps

steps-start-Exclusive_example : Exclusive calm_end.executor.critical_task
steps-start-Exclusive_example =
    steps-start-Exclusive calm_run calm_end calm_run_checked calm_run-steps
