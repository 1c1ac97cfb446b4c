-- ===== src/Async/Alone.antt =====
-- How many tasks run at one time (patroni/async_executor.py).
use metatroni.Prelude.{
  Memᴰ, ℕ, zero, suc, ◌+◌, ◌≡◌, refl, ap, sym, ◌≤◌, Bool, true, false, List, [], ◌∷◌, ◌++◌, Option,
  none, some, ◌==◌, arith, length,
}
use metatroni.Names.{Name}
use metatroni.Async.Executor.{
  CriticalTask, AsyncExecutor, complete, schedule, begin, finish, request_cancel, with_task,
}
use metatroni.Async.Threads.{
  Threads, Event, threads, step, steps, start, pull, all_allowed, After, steps_keep,
}

only : (a b : Name) → Memᴰ b (a ∷ []) → some a ≡ some b
only a b (Memᴰ.head e) = ap some (sym e)
only a b (Memᴰ.tail k) = elim k [ ]

unscheduled : {a : Name} → none ≡ some a → ⊥
unscheduled e = absurd cc

module _ {A : Type 0} where
  -- What is asked for of the callers: nothing is scheduled while a caller of `cancel` waits, and
  -- `cancel` is not called before the task has been taken up.
  unfoldable pub is_calm : Event A → Threads A → Bool
  is_calm (Event.tries_run a) t = t.waiting == 0
  is_calm Event.requests_cancel t = length t.queued == 0
  is_calm _ t = true

  -- One task at most, and its action is the scheduled one.
  pub record IsAlone (t : Threads A) : Type 0 where
    pub one : length t.queued + length t.running + length t.ending ≤ 1
    pub scheduled :
        (a : Name)
        → Memᴰ a (t.queued ++ t.running ++ t.ending)
        → t.executor.scheduled_action ≡ some a
    pub cleared : 1 ≤ length t.running + length t.ending → t.executor.finish_event ≡ false
    pub not_cancelled : 1 ≤ length t.queued → t.executor.is_cancelled ≡ false
    pub not_awaited : 1 ≤ length t.queued → t.waiting ≡ 0

  -- A state by its parts.
  abbrev state :
      Option Name → Bool → Bool → CriticalTask A → List Name → List Name → List Name → ℕ → Threads A
  state s c ev k =
      threads
        (record { scheduled_action = s; is_cancelled = c; finish_event = ev; critical_task = k })

  tries_run-IsAlone :
      (a : Name) (s : Option Name) (c ev : Bool) (k : CriticalTask A) (q r f : List Name) (w : ℕ)
      → (w == 0) ≡ true
      → IsAlone (state s c ev k q r f w)
      → After IsAlone (step (Event.tries_run a) (state s c ev k q r f w))
  unfolding step schedule
  tries_run-IsAlone a (some b) c ev k q r f w calm h = h
  tries_run-IsAlone a none c ev k [] [] [] w calm h = record {
    one = omega arith;
    scheduled = only a;
    cleared = λ l. absurd (omega arith);
    not_cancelled = λ l. refl;
    not_awaited = λ l. ground (arith, calm);
  }
  tries_run-IsAlone a none c ev k (x ∷ q) r f w calm h =
      absurd (unscheduled (h.scheduled x (Memᴰ.head refl)))
  tries_run-IsAlone a none c ev k [] (x ∷ r) f w calm h =
      absurd (unscheduled (h.scheduled x (Memᴰ.head refl)))
  tries_run-IsAlone a none c ev k [] [] (x ∷ f) w calm h =
      absurd (unscheduled (h.scheduled x (Memᴰ.head refl)))

  begins-IsAlone :
      (i : ℕ) (s : Option Name) (c ev : Bool) (k : CriticalTask A) (q r f : List Name) (w : ℕ)
      → IsAlone (state s c ev k q r f w)
      → After IsAlone (step (Event.begins i) (state s c ev k q r f w))
  unfolding step begin pull
  begins-IsAlone i s c ev k [] r f w h = tt
  begins-IsAlone i s c ev k (a ∷ b ∷ q) r f w h = absurd (omega (arith, h.one))
  begins-IsAlone i s c ev k (a ∷ []) (x ∷ r) f w h = absurd (omega (arith, h.one))
  begins-IsAlone i s c ev k (a ∷ []) [] (x ∷ f) w h = absurd (omega (arith, h.one))
  begins-IsAlone (suc i) s c ev k (a ∷ []) [] [] w h = tt
  begins-IsAlone zero s true ev k (a ∷ []) [] [] w h = absurd (ground (arith, h.not_cancelled))
  begins-IsAlone zero s false ev k (a ∷ []) [] [] w h = record {
    one = omega arith;
    scheduled = h.scheduled;
    cleared = λ l. refl;
    not_cancelled = λ l. refl;
    not_awaited = λ l. absurd (omega arith);
  }

  returns-IsAlone :
      (i : ℕ) (s : Option Name) (c ev : Bool) (k : CriticalTask A) (q r f : List Name) (w : ℕ)
      → IsAlone (state s c ev k q r f w)
      → After IsAlone (step (Event.returns i) (state s c ev k q r f w))
  unfolding step pull
  returns-IsAlone i s c ev k q [] f w h = tt
  returns-IsAlone i s c ev k q (a ∷ b ∷ r) f w h = absurd (omega (arith, h.one))
  returns-IsAlone i s c ev k (x ∷ q) (a ∷ []) f w h = absurd (omega (arith, h.one))
  returns-IsAlone i s c ev k [] (a ∷ []) (x ∷ f) w h = absurd (omega (arith, h.one))
  returns-IsAlone (suc i) s c ev k [] (a ∷ []) [] w h = tt
  returns-IsAlone zero s c ev k [] (a ∷ []) [] w h = record {
    one = omega arith;
    scheduled = h.scheduled;
    cleared = λ l. h.cleared (omega arith);
    not_cancelled = h.not_cancelled;
    not_awaited = h.not_awaited;
  }

  finishes-IsAlone :
      (i : ℕ) (s : Option Name) (c ev : Bool) (k : CriticalTask A) (q r f : List Name) (w : ℕ)
      → IsAlone (state s c ev k q r f w)
      → After IsAlone (step (Event.finishes i) (state s c ev k q r f w))
  unfolding step finish pull
  finishes-IsAlone i s c ev k q r [] w h = tt
  finishes-IsAlone i s c ev k q r (a ∷ b ∷ f) w h = absurd (omega (arith, h.one))
  finishes-IsAlone i s c ev k (x ∷ q) r (a ∷ []) w h = absurd (omega (arith, h.one))
  finishes-IsAlone i s c ev k [] (x ∷ r) (a ∷ []) w h = absurd (omega (arith, h.one))
  finishes-IsAlone (suc i) s c ev k [] [] (a ∷ []) w h = tt
  finishes-IsAlone zero s c ev k [] [] (a ∷ []) w h = record {
    one = omega arith;
    scheduled = λ b m. elim m [ ];
    cleared = λ l. absurd (omega arith);
    not_cancelled = h.not_cancelled;
    not_awaited = h.not_awaited;
  }

  requests_cancel-IsAlone :
      (s : Option Name) (c ev : Bool) (k : CriticalTask A) (q r f : List Name) (w : ℕ)
      → (length q == 0) ≡ true
      → IsAlone (state s c ev k q r f w)
      → After IsAlone (step Event.requests_cancel (state s c ev k q r f w))
  unfolding step request_cancel
  requests_cancel-IsAlone none c ev k q r f w calm h = h
  requests_cancel-IsAlone (some a) c ev k q r f w calm h = record {
    one = h.one;
    scheduled = h.scheduled;
    cleared = h.cleared;
    not_cancelled = λ l. absurd (ground (arith, l, calm));
    not_awaited = λ l. absurd (ground (arith, l, calm));
  }

  ends_cancel-IsAlone :
      (s : Option Name) (c ev : Bool) (k : CriticalTask A) (q r f : List Name) (w : ℕ)
      → IsAlone (state s c ev k q r f w)
      → After IsAlone (step Event.ends_cancel (state s c ev k q r f w))
  unfolding step
  ends_cancel-IsAlone s c ev k q r f zero h = tt
  ends_cancel-IsAlone s c false k q r f (suc w) h = tt
  ends_cancel-IsAlone s c true k [] [] [] (suc w) h = record {
    one = omega arith;
    scheduled = λ a m. elim m [ ];
    cleared = h.cleared;
    not_cancelled = h.not_cancelled;
    not_awaited = λ l. absurd (omega arith);
  }
  ends_cancel-IsAlone s c true k (x ∷ q) r f (suc w) h =
      absurd (clash (h.not_awaited (omega arith)))
    where
      clash : suc w ≡ 0 → ⊥
      clash z = absurd (omega (arith, z))
  ends_cancel-IsAlone s c true k [] (x ∷ r) f (suc w) h = absurd (ground (arith, h.cleared))
  ends_cancel-IsAlone s c true k [] [] (x ∷ f) (suc w) h = absurd (ground (arith, h.cleared))

  -- The invariant does not look at the critical task.
  other_task :
      (t : Threads A) (k : CriticalTask A)
      → IsAlone t
      → IsAlone (threads (with_task t.executor k) t.queued t.running t.ending t.waiting)
  other_task t k h = record {
    one = h.one;
    scheduled = h.scheduled;
    cleared = h.cleared;
    not_cancelled = h.not_cancelled;
    not_awaited = h.not_awaited;
  }

  completes-IsAlone :
      (a : A) (e : AsyncExecutor A) (q r f : List Name) (w : ℕ)
      → IsAlone (threads e q r f w)
      → After IsAlone (step (Event.completes_critical a) (threads e q r f w))
  unfolding step
  completes-IsAlone a e q [] f w h = tt
  completes-IsAlone a e q (x ∷ r) f w h =
      other_task (threads e q (x ∷ r) f w) (complete a e.critical_task) h

  step-IsAlone :
      (e : Event A) (t : Threads A) → is_calm e t ≡ true → IsAlone t → After IsAlone (step e t)
  unfolding is_calm
  step-IsAlone (Event.tries_run a) t c h = tries_run-IsAlone a _ _ _ _ _ _ _ _ c h
  step-IsAlone (Event.begins i) t c h = begins-IsAlone i _ _ _ _ _ _ _ _ h
  step-IsAlone (Event.returns i) t c h = returns-IsAlone i _ _ _ _ _ _ _ _ h
  step-IsAlone (Event.finishes i) t c h = finishes-IsAlone i _ _ _ _ _ _ _ _ h
  step-IsAlone Event.requests_cancel t c h = requests_cancel-IsAlone _ _ _ _ _ _ _ _ c h
  step-IsAlone Event.ends_cancel t c h = ends_cancel-IsAlone _ _ _ _ _ _ _ _ h
  step-IsAlone Event.cancels_critical t c h = unfold step in other_task t _ h
  step-IsAlone (Event.completes_critical r) t c h =
      completes-IsAlone r t.executor t.queued t.running t.ending t.waiting h

  start-IsAlone : IsAlone start
  start-IsAlone = record {
    one = omega arith;
    scheduled = λ a m. elim m [ ];
    cleared = λ l. absurd (omega arith);
    not_cancelled = λ l. absurd (omega arith);
    not_awaited = λ l. absurd (omega arith);
  }

  -- If nothing is scheduled while a caller of cancel waits, and cancel is not called on a task that
  -- still waits for a thread, then there is one task at a time, and its action is the scheduled one.
  -- While it runs or ends, the event that cancel waits for is not set.
  pub steps-start-IsAlone :
      (es : List (Event A)) (t : Threads A)
      → all_allowed is_calm es start ≡ true
      → steps es start ≡ some t
      → IsAlone t
  steps-start-IsAlone es t c e =
      rw e at (steps_keep is_calm IsAlone step-IsAlone es start start-IsAlone c)
