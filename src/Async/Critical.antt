-- ===== src/Async/Critical.antt =====
-- What a critical task comes to, whichever way the threads take turns (patroni/async_executor.py).
use metatroni.Prelude.{
  ℕ, zero, suc, ◌≡◌, refl, Bool, true, not, List, [], ◌∷◌, none, some, Bool-cases, Option-cases,
  inl, inr,
}
use metatroni.Names.{Name}
use metatroni.Async.Executor.{
  CriticalTask, AsyncExecutor, cancel_task, schedule, begin, finish, request_cancel,
}
use metatroni.Async.Threads.{
  Threads, Event, threads, step, steps, start, pull, all_allowed, After, steps_keep,
}

module _ {A : Type 0} where
  -- What `CriticalTask` asks of the background thread: it completes the task under its lock, after it
  -- has found that it is not cancelled.
  unfoldable pub is_checked : Event A → Threads A → Bool
  is_checked (Event.completes_critical r) t = not t.executor.critical_task.is_cancelled
  is_checked _ t = true

  -- It is not both cancelled and completed.
  abbrev pub Exclusive : CriticalTask A → Type 0
  Exclusive k = k.is_cancelled ≡ true → k.result ≡ none

  abbrev Keeps : Threads A → Type 0
  Keeps t = Exclusive t.executor.critical_task

  step-Exclusive :
      (e : Event A) (x : AsyncExecutor A) (q r f : List Name) (w : ℕ)
      → is_checked e (threads x q r f w) ≡ true
      → Exclusive x.critical_task
      → After Keeps (step e (threads x q r f w))
  unfolding step is_checked
  step-Exclusive (Event.tries_run a) x q r f w c h =
      unfold schedule in
      elim (Option-cases x.scheduled_action) [ inl free ↦ rw free h | inr (b, taken) ↦ rw taken h ]
  step-Exclusive (Event.begins i) x q r f w c h = elim (Option-cases (pull q i)) [
    | inl stuck ↦ rw (step, stuck) tt
    | inr (p, taken) ↦
        rw (step, taken)
          (unfold begin in
            elim (Bool-cases x.is_cancelled) [
              | inl cancelled ↦ rw cancelled h
              | inr runs ↦ rw runs h
            ])
  ]
  step-Exclusive (Event.returns i) x q r f w c h = elim (Option-cases (pull r i)) [
    | inl stuck ↦ rw (step, stuck) tt
    | inr (p, taken) ↦ rw (step, taken) h
  ]
  step-Exclusive (Event.finishes i) x q r f w c h = elim (Option-cases (pull f i)) [
    | inl stuck ↦ rw (step, stuck) tt
    | inr (p, taken) ↦ rw (step, taken) (unfold finish in λ e. refl)
  ]
  step-Exclusive Event.requests_cancel x q r f w c h =
      unfold request_cancel in
      elim (Option-cases x.scheduled_action) [ inl free ↦ rw free h | inr (b, taken) ↦ rw taken h ]
  step-Exclusive Event.ends_cancel x q r f zero c h = tt
  step-Exclusive Event.ends_cancel x q r f (suc w) c h = elim (Bool-cases x.finish_event) [
    | inl set ↦ rw (step, set) h
    | inr clear ↦ rw (step, clear) tt
  ]
  step-Exclusive Event.cancels_critical x q r f w c h =
      unfold cancel_task in
      elim (Option-cases x.critical_task.result) [
        | inl free ↦ rw free (λ e. free)
        | inr (b, taken) ↦ rw taken h
      ]
  step-Exclusive (Event.completes_critical a) x q [] f w c h = tt
  step-Exclusive (Event.completes_critical a) x q (b ∷ r) f w c h = λ e. absurd (cc (c, e))

  -- If no task completes the critical task after it was cancelled, then, whichever way the threads
  -- take turns, a critical task that is cancelled has no result.
  pub steps-start-Exclusive :
      (es : List (Event A)) (t : Threads A)
      → all_allowed is_checked es start ≡ true
      → steps es start ≡ some t
      → Exclusive t.executor.critical_task
  steps-start-Exclusive es t c e = rw e at (
      steps_keep is_checked Keeps
        (λ e t c h. step-Exclusive e t.executor t.queued t.running t.ending t.waiting c h) es start
        (λ z. refl) c)
