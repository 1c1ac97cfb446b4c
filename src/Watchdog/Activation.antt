-- ===== src/Watchdog/Activation.antt =====
-- What `Watchdog.activate` promises (patroni/watchdog/base.py).
use metatroni.Prelude.{
  ℕ, ◌≡◌, refl, Bool, true, false, not, ◌&&◌, Option, none, some, arith, Bool-cases, Option-cases,
  inl, inr,
}
use metatroni.Prelude.Int.{ℤ, pos, negsuc, ltb_ℤ, leb_ℤ, is_zero, ◌-ℤ◌}
use metatroni.Watchdog.Config.{Config, is_required, timeout, timing_slack}
use metatroni.Watchdog.Device.{
  Device, Impl, null, impl_is_running, impl_can_be_disabled, impl_get_timeout, impl_open,
  impl_close, impl_set_timeout, impl_has_set_timeout, never,
}
use metatroni.Watchdog.Facade.{
  Watchdog, Held, replace, hold, caught, check_timeout, set_timeout, try_open, exceeds, verdict,
  to_open, activate_impl, activate,
}

-- The timeout that was found is that of the implementation that is left, if it runs.
abbrev Agrees : {D : Type 0} → Device D → Option ℤ × Held D → Type 0
Agrees v (t, h) =
    impl_is_running v h.impl ≡ true → (a : ℤ) × (t ≡ some a) × (impl_get_timeout v h.impl ≡ some a)

abbrev AgreesIfDone : {D : Type 0} → Device D → Option (Option ℤ) × Held D → Type 0
AgreesIfDone v (none, h) = Unit {0}
AgreesIfDone v (some t, h) = Agrees v (t, h)

null-Agrees : {D : Type 0} (v : Device D) (t : Option ℤ) (h : Held D) → Agrees v (t, replace null h)
unfolding replace impl_is_running
null-Agrees v t h running = absurd (cc)

caught-Agrees :
    {D : Type 0} (v : Device D) (r : Option (Option ℤ) × Held D)
    → AgreesIfDone v r
    → Agrees v (caught r)
caught-Agrees v (none, h) k = null-Agrees v (some never) h
caught-Agrees v (some t, h) k = k

module _ {D O : Type 0} (v : Device D) (c : Config O) where
  check_timeout-AgreesIfDone :
      (h : Held D) (t : Option ℤ)
      → impl_get_timeout v h.impl ≡ t
      → AgreesIfDone v (check_timeout v c t h)
  unfolding check_timeout
  check_timeout-AgreesIfDone h none e = tt
  check_timeout-AgreesIfDone h (some t) e = elim (Bool-cases (too_short h t)) [
    | inr kept ↦ rw kept (λ running. (t, refl, e))
    | inl short ↦ elim (Bool-cases (impl_close v h.impl).0) [
      | inl closed ↦ rw (short, closed) (null-Agrees v none (hold (impl_close v h.impl).1 h))
      | inr failed ↦ rw (short, failed) tt
    ]
  ]
    where
      too_short : Held D → ℤ → Bool
      too_short k a =
          impl_is_running v k.impl && ltb_ℤ a (pos c.loop_wait) && impl_can_be_disabled v k.impl

  set_timeout-AgreesIfDone : (h : Held D) → AgreesIfDone v (set_timeout v c h)
  unfolding set_timeout
  set_timeout-AgreesIfDone h = elim (Option-cases (impl_has_set_timeout v h.impl)) [
    | inl unknown ↦ rw (set_timeout, unknown) tt
    | inr (false, fixed) ↦
        rw (set_timeout, fixed) (check_timeout-AgreesIfDone h (impl_get_timeout v h.impl) refl)
    | inr (true, settable) ↦ elim (Bool-cases (impl_set_timeout v (timeout c) h.impl).0) [
      | inl set ↦
          rw (set_timeout, settable, set)
            (check_timeout-AgreesIfDone (hold (impl_set_timeout v (timeout c) h.impl).1 h)
              (impl_get_timeout v (impl_set_timeout v (timeout c) h.impl).1) refl)
      | inr failed ↦ rw (set_timeout, settable, failed) tt
    ]
  ]

  try_open-Agrees : (h : Held D) → Agrees v (try_open v c h)
  unfolding try_open
  try_open-Agrees h = elim (Bool-cases (impl_open v h.impl).0) [
    | inl done ↦ rw done (
        caught-Agrees v (set_timeout v c (hold (impl_open v h.impl).1 h))
          (set_timeout-AgreesIfDone (hold (impl_open v h.impl).1 h)))
    | inr failed ↦ rw failed (null-Agrees v (some never) (hold (impl_open v h.impl).1 h))
  ]

  -- Nothing runs, if nothing was to be opened.
  try_open-null : (h : Held D) → impl_is_running v (try_open v c (replace null h)).1.impl ≡ false
  unfolding try_open set_timeout check_timeout impl_open impl_has_set_timeout impl_get_timeout
      impl_is_running replace
  try_open-null h = refl

  -- A watchdog that is required and was accepted runs, and no longer than the timeout.
  verdict_required :
      (r : Option ℤ × Held D)
      → is_required c.mode ≡ true
      → verdict v c r ≡ true
      → (impl_is_running v r.1.impl ≡ true) × (exceeds c r.0 ≡ false)
  unfolding verdict
  verdict_required r h e = ground (arith, h, e)

-- With slack for the loop, a timeout that does not exceed the configured one is at most that.
within :
    (limit t : ℤ) (loop_wait : ℕ)
    → ltb_ℤ (limit -ℤ pos loop_wait) (pos 0) ≡ false
    → (not (is_zero t) && ltb_ℤ limit t) ≡ false
    → leb_ℤ t limit ≡ true
within (pos a) (pos b) n h k = ground (arith, h, k)
within (pos a) (negsuc b) n h k = ground (arith, h, k)
within (negsuc a) (pos b) n h k = ground (arith, h, k)
within (negsuc a) (negsuc b) n h k = ground (arith, h, k)

module _ {D O : Type 0} (v : Device D) where
  -- What was activated where a watchdog is required.
  pub record Guards (w : Watchdog D O) : Type 0 where
    pub running : impl_is_running v w.held.impl ≡ true
    pub slack : ltb_ℤ (timing_slack w.config) (pos 0) ≡ false
    pub bounded :
        (t : ℤ) × (impl_get_timeout v w.held.impl ≡ some t) × (leb_ℤ t (timeout w.config) ≡ true)

  abbrev GuardsWith : Config O → Option ℤ × Held D → Type 0
  GuardsWith c r =
      (impl_is_running v r.1.impl ≡ true)
      × (ltb_ℤ (timing_slack c) (pos 0) ≡ false)
      × ((t : ℤ) × (impl_get_timeout v r.1.impl ≡ some t) × (leb_ℤ t (timeout c) ≡ true))

  with_slack :
      (c : Config O) (h : Held D)
      → is_required c.mode ≡ true
      → ltb_ℤ (timing_slack c) (pos 0) ≡ false
      → verdict v c (try_open v c h) ≡ true
      → GuardsWith c (try_open v c h)
  unfolding timing_slack exceeds
  with_slack c h required slack accepted =
      let (running, fits) = verdict_required v c (try_open v c h) required accepted in
      let (t, found, gets) = try_open-Agrees v c h running in
      (running, slack, (t, gets, within (timeout c) t c.loop_wait slack (rw found at fits)))

  opened-Guards :
      (c : Config O) (h : Held D)
      → is_required c.mode ≡ true
      → verdict v c (try_open v c (to_open c h)) ≡ true
      → GuardsWith c (try_open v c (to_open c h))
  opened-Guards c h required accepted = elim (Bool-cases (ltb_ℤ (timing_slack c) (pos 0))) [
    | inl no_slack ↦ absurd (clash (null no_slack))
    | inr slack ↦
        let kept : to_open c h ≡ h = unfold to_open in rw slack refl in
        rw kept (with_slack c h required slack (rw kept at accepted))
  ]
    where
      null : ltb_ℤ (timing_slack c) (pos 0) ≡ true → to_open c h ≡ replace Impl.null h
      null e = unfold to_open in rw e refl

      clash : to_open c h ≡ replace Impl.null h → ⊥
      clash e =
          let running = (verdict_required v c (try_open v c (to_open c h)) required accepted).0 in
          let nothing = try_open-null v c h in absurd (cc (running, nothing, e))

  -- Where a watchdog is required, an activation that is reported as done leaves one that runs, with a
  -- timeout that is no longer than the configured one.
  pub activate-Guards :
      (w : Watchdog D O)
      → is_required w.config.mode ≡ true
      → (activate v w).0 ≡ true
      → Guards (activate v w).1
  unfolding activate activate_impl
  activate-Guards w required accepted =
      let (running, slack, bounded) = opened-Guards w.config w.held required accepted in
      record { running = running; slack = slack; bounded = bounded }
