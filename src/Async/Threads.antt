-- ===== src/Async/Threads.antt =====
-- The threads that use an `AsyncExecutor` (patroni/async_executor.py), interleaved between the parts
-- of its methods that hold the locks.
use metatroni.Prelude.{
  ℕ, zero, suc, ◌≡◌, Bool, true, false, ◌&&◌, List, [], ◌∷◌, ◌++◌, Option, none, some,
  if◌then◌else◌, Option-cases, inl, inr, &&_split,
}
use metatroni.Names.{Name}
use metatroni.Async.Executor.{
  AsyncExecutor, cancel_task, complete, new_executor, schedule, reset_scheduled_action, begin,
  finish, request_cancel, with_task,
}

-- The executor with the tasks that wait for a thread, that run, and that are about to leave `run`,
-- each by the action that it was scheduled as, and the number of the callers of `cancel` that wait.
pub record Threads (A : Type 0) : Type 0 where
  pub executor : AsyncExecutor A
  pub queued : List Name
  pub running : List Name
  pub ending : List Name
  pub waiting : ℕ

-- A number tells which of the tasks goes on.
pub data Event (A : Type 0) : Type 0 where
  tries_run : Name → Event A
  begins : ℕ → Event A
  returns : ℕ → Event A
  finishes : ℕ → Event A
  requests_cancel : Event A
  ends_cancel : Event A
  cancels_critical : Event A
  completes_critical : A → Event A

-- The task of the number, and the others.
unfoldable pub pull : List Name → ℕ → Option (Name × List Name)
pull [] i = none
pull (a ∷ bs) zero = some (a, bs)
pull (a ∷ bs) (suc i) = elim (pull bs i) [ none ↦ none | some p ↦ some (p.0, a ∷ p.1) ]

module _ {A : Type 0} where
  abbrev pub threads : AsyncExecutor A → List Name → List Name → List Name → ℕ → Threads A
  threads e q r f w = record { executor = e; queued = q; running = r; ending = f; waiting = w }

  abbrev pub submitted : Name → Threads A → Option Name × AsyncExecutor A → Threads A
  submitted a t (none, e) = threads e (t.queued ++ (a ∷ [])) t.running t.ending t.waiting
  submitted a t (some b, e) = threads e t.queued t.running t.ending t.waiting

  -- A thread takes a task up, and runs it unless it is cancelled.
  abbrev pub taken_up : Threads A → Name × List Name → Bool × AsyncExecutor A → Threads A
  taken_up t p (true, e) = threads e p.1 (p.0 ∷ t.running) t.ending t.waiting
  taken_up t p (false, e) = threads e p.1 t.running (p.0 ∷ t.ending) t.waiting

  abbrev pub awaited : Threads A → Bool × AsyncExecutor A → Threads A
  awaited t (true, e) = threads e t.queued t.running t.ending (suc t.waiting)
  awaited t (false, e) = threads e t.queued t.running t.ending t.waiting

  -- A step of one of the threads; `none` where no thread can take it. A task completes the critical
  -- task whether or not it is cancelled.
  unfoldable pub step : Event A → Threads A → Option (Threads A)
  unfolding pull
  step (tries_run action) t = some (submitted action t (schedule action t.executor))
  step (begins i) t = elim (pull t.queued i) [
    | none ↦ none
    | some p ↦ some (taken_up t p (begin t.executor))
  ]
  step (returns i) t = elim (pull t.running i) [
    | none ↦ none
    | some p ↦ some (threads t.executor t.queued p.1 (p.0 ∷ t.ending) t.waiting)
  ]
  step (finishes i) t = elim (pull t.ending i) [
    | none ↦ none
    | some p ↦ some (threads (finish t.executor) t.queued t.running p.1 t.waiting)
  ]
  step requests_cancel t = some (awaited t (request_cancel t.executor))
  step ends_cancel t = elim t.waiting [
    | zero ↦ none
    | suc w ↦
        if t.executor.finish_event
        then some (threads (reset_scheduled_action t.executor) t.queued t.running t.ending w)
        else none
  ]
  step cancels_critical t = some (
      threads (with_task t.executor (cancel_task t.executor.critical_task).1) t.queued t.running
        t.ending t.waiting)
  step (completes_critical r) t = elim t.running [
    | [] ↦ none
    | a ∷ bs ↦ some (
        threads (with_task t.executor (complete r t.executor.critical_task)) t.queued t.running
          t.ending t.waiting)
  ]

  abbrev pub start : Threads A
  start = threads new_executor [] [] [] 0

  -- The steps one after another.
  unfoldable pub steps : List (Event A) → Threads A → Option (Threads A)
  unfolding step
  steps [] t = some t
  steps (e ∷ es) t = elim (step e t) [ none ↦ none | some u ↦ steps es u ]

  -- Each step is allowed where it is taken.
  unfoldable pub all_allowed : (Event A → Threads A → Bool) → List (Event A) → Threads A → Bool
  unfolding step
  all_allowed allowed [] t = true
  all_allowed allowed (e ∷ es) t =
      allowed e t && elim (step e t) [ none ↦ true | some u ↦ all_allowed allowed es u ]

  abbrev pub After : (Threads A → Type 0) → Option (Threads A) → Type 0
  After P none = Unit {0}
  After P (some u) = P u

  -- What each allowed step keeps, the steps keep.
  pub steps_keep :
      (allowed : Event A → Threads A → Bool) (P : Threads A → Type 0)
      → ((e : Event A) (t : Threads A) → allowed e t ≡ true → P t → After P (step e t))
      → (es : List (Event A)) (t : Threads A) → P t
      → all_allowed allowed es t ≡ true
      → After P (steps es t)
  unfolding steps all_allowed
  steps_keep allowed P keep [] t h c = h
  steps_keep allowed P keep (e ∷ es) t h c = elim (Option-cases (step e t)) [
    | inl stuck ↦ rw (steps, stuck) tt
    | inr (u, taken) ↦
        let now = &&_split (allowed e t) (rest (step e t)) c in
        rw (steps, taken)
          (steps_keep allowed P keep es u (rw taken at (keep e t now.0 h)) (rw taken at now.1))
  ]
    where
      rest : Option (Threads A) → Bool
      rest none = true
      rest (some u) = all_allowed allowed es u
