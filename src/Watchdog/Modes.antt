-- ===== src/Watchdog/Modes.antt =====
-- The modes of the watchdog over the calls of its methods (patroni/watchdog/base.py).
use mathlib.Core.Path.{subst}
use metatroni.Prelude.{
  ℕ, zero, suc, ◌≡◌, refl, sym, ◌∙◌, ap, Bool, true, false, not, ◌&&◌, Option, none, some, arith,
  if◌then◌else◌, Bool-cases, if_cases, Option-cases, inl, inr,
}
use metatroni.Prelude.Int.{ℤ, pos, negsuc}
use metatroni.Names.{name_eq_refl}
use metatroni.Watchdog.Config.{
  Mode, Config, is_required, is_off, same_int, same_mode, same_driver, same_config, timeout,
}
use metatroni.Watchdog.Device.{
  System, Impl, null, is_null, get_impl, impl_is_running, impl_keepalive, impl_close, impl_open,
  impl_has_set_timeout, impl_get_timeout, impl_set_timeout,
}
use metatroni.Watchdog.Facade.{
  Watchdog, Held, replace, hold, init, activate, activate_impl, try_open, set_timeout,
  check_timeout, to_open, disable, disable_impl, reload_config, apply_inactive, turn_off, exchange,
  keepalive, apply_pending, turn_on, change_driver, change_timeout, with_config, with_held,
}

if_false : {A : Type 0} (b : Bool) (x y : A) → b ≡ false → (if b then x else y) ≡ y
if_false b x y h = rw h refl

module _ {D O : Type 0} (s : System D O) where
  -- A call of a method.
  pub data Step : Watchdog D O → Watchdog D O → Type 0 where
    reloads : (c : Config O) (w : Watchdog D O) → Step w (reload_config s c w)
    activates : (w : Watchdog D O) → Step w (activate s.device w).1
    keeps_alive : (w : Watchdog D O) → Step w (keepalive s w)
    disables : (w : Watchdog D O) → Step w (disable s.device w)

  -- What a watchdog comes to in the calls of its methods, from a configuration.
  pub data Reaches (c : Config O) : Watchdog D O → Type 0 where
    starts : (w : Watchdog D O) → init s c ≡ some w → Reaches c w
    steps : (w w' : Watchdog D O) → Reaches c w → Step w w' → Reaches c w'

  -- Where the mode is off, there is no device, and the configuration is in effect.
  pub record OffIsNull (w : Watchdog D O) : Type 0 where
    pub no_device : is_off w.config.mode ≡ true → w.held.impl ≡ null
    pub in_effect : is_off w.config.mode ≡ true → w.active_config ≡ w.config

  init-OffIsNull : (c : Config O) (w : Watchdog D O) → init s c ≡ some w → OffIsNull w
  unfolding init
  init-OffIsNull c w e =
      elim (Bool-cases
        (is_required c.mode && is_null (if is_off c.mode then null else get_impl s c))) [
          | inl exits ↦ absurd (nothing (rw exits at e))
          | inr made_one ↦
              subst OffIsNull (ap made (rw made_one at e))
                (record { no_device = λ off. rw off refl; in_effect = λ off. refl })
        ]
    where
      nothing : none ≡ some w → ⊥
      nothing z = absurd (cc)

      made : Option (Watchdog D O) → Watchdog D O
      made none = w
      made (some x) = x

  turn_on_config : (w : Watchdog D O) → (turn_on s w).config ≡ w.config
  unfolding turn_on activate_impl
  turn_on_config w = ground arith

  change_driver_config : (w : Watchdog D O) → (change_driver s w).config ≡ w.config
  unfolding change_driver activate_impl
  change_driver_config w = ground arith

  change_timeout_config : (w : Watchdog D O) → (change_timeout s.device w).config ≡ w.config
  unfolding change_timeout
  change_timeout_config w = elim (Option-cases (impl_get_timeout s.device (set_to w).1)) [
    | inl e ↦ ground (arith, e)
    | inr (t, e) ↦ ground (arith, e)
  ]
    where
      set_to : Watchdog D O → Bool × Impl D
      set_to x = impl_set_timeout s.device (timeout x.config) x.held.impl

  apply_pending_config : (w : Watchdog D O) → (apply_pending s w).config ≡ w.config
  unfolding apply_pending
  apply_pending_config w =
      change_timeout_config (change_driver s (turn_on s w))
      ∙ change_driver_config (turn_on s w)
      ∙ turn_on_config w

  keepalive_config : (w : Watchdog D O) → (keepalive s w).config ≡ w.config
  unfolding keepalive
  keepalive_config w = ground (
    arith,
    apply_pending_config (with_held w (hold (impl_keepalive s.device w.held.impl).1 w.held)),
  )

  try_open-null_impl :
      (c : Config O) (h : Held D)
      → h.impl ≡ null
      → (try_open s.device c (to_open c h)).1.impl ≡ null
  unfolding try_open set_timeout check_timeout to_open replace impl_open impl_has_set_timeout
      impl_get_timeout impl_is_running
  try_open-null_impl c h e = ground (arith, e)

  activate-OffIsNull : (w : Watchdog D O) → OffIsNull w → OffIsNull (activate s.device w).1
  unfolding activate activate_impl
  activate-OffIsNull w h = record {
    no_device = λ off. try_open-null_impl w.config w.held (h.no_device off);
    in_effect = λ off. refl;
  }

  disable-OffIsNull : (w : Watchdog D O) → OffIsNull w → OffIsNull (disable s.device w)
  unfolding disable
  disable-OffIsNull w h = record {
    no_device =
        λ off. rw (h.no_device off) (unfold disable_impl impl_close impl_is_running in refl);
    in_effect = h.in_effect;
  }

  same_driver_refl :
      ((o : O) → s.same_options o o ≡ true) → (c : Config O) → same_driver s.same_options c c ≡ true
  unfolding same_driver
  same_driver_refl same c = rw (name_eq_refl c.driver, same c.driver_config) refl

  same_config_refl :
      ((o : O) → s.same_options o o ≡ true) → (c : Config O) → same_config s.same_options c c ≡ true
  unfolding same_config
  same_config_refl same c =
      ground (arith, same_driver_refl same c, mode_refl c.mode, int_refl c.safety_margin)
    where
      mode_refl : (m : Mode) → same_mode m m ≡ true
      mode_refl Mode.required = refl
      mode_refl Mode.automatic = refl
      mode_refl Mode.off = refl

      int_refl : (z : ℤ) → same_int z z ≡ true
      int_refl (pos n) = ground arith
      int_refl (negsuc n) = ground arith

  apply_inactive-OffIsNull :
      ((o : O) → s.same_options o o ≡ true)
      → (w : Watchdog D O) → OffIsNull w
      → OffIsNull (apply_inactive s w)
  unfolding apply_inactive
  apply_inactive-OffIsNull same w h =
      if_cases OffIsNull w.active w _ (λ e. h)
        (λ e. record {
          no_device = λ off. rw (h.in_effect off, same_driver_refl same w.config) (h.no_device off);
          in_effect = λ off. refl;
        })

  turn_off-OffIsNull : (w : Watchdog D O) → OffIsNull (turn_off s.device w)
  unfolding turn_off exchange replace
  turn_off-OffIsNull w = record { no_device = λ off. ground arith; in_effect = λ off. refl }

  reload_config-OffIsNull :
      ((o : O) → s.same_options o o ≡ true)
      → (c : Config O) (w : Watchdog D O) → OffIsNull (reload_config s c w)
  unfolding reload_config
  reload_config-OffIsNull same c w = elim (Bool-cases (is_off c.mode)) [
    | inl off ↦ rw off (
        apply_inactive-OffIsNull same (turn_off s.device (with_config w c))
          (turn_off-OffIsNull (with_config w c)))
    | inr on ↦ rw on (
        apply_inactive-OffIsNull same (with_config w c) (record {
          no_device = λ off. absurd (cc (on, off));
          in_effect = λ off. absurd (cc (on, off));
        }))
  ]

  -- A keepalive changes nothing but the device, where the configuration is in effect.
  keepalive_in_effect :
      ((o : O) → s.same_options o o ≡ true)
      → (w : Watchdog D O) → w.active_config ≡ w.config
      → w.held.impl ≡ null
      → ((keepalive s w).held.impl ≡ null) × ((keepalive s w).active_config ≡ w.active_config)
  unfolding keepalive impl_keepalive
  keepalive_in_effect same w e k = elim (Bool-cases w.active) [
    | inr stopped ↦ rw (keepalive, stopped) (k, refl)
    | inl running ↦ rw (keepalive, running, k, e, same_config_refl same w.config) (refl, refl)
  ]

  keepalive-OffIsNull :
      ((o : O) → s.same_options o o ≡ true)
      → (w : Watchdog D O) → OffIsNull w
      → OffIsNull (keepalive s w)
  keepalive-OffIsNull same w h = record {
    no_device =
        λ off. (keepalive_in_effect same w (h.in_effect (still off)) (h.no_device (still off))).0;
    in_effect = λ off.
        (keepalive_in_effect same w (h.in_effect (still off)) (h.no_device (still off))).1
        ∙ h.in_effect (still off)
        ∙ sym (keepalive_config w);
  }
    where
      still : is_off (keepalive s w).config.mode ≡ true → is_off w.config.mode ≡ true
      still off = rw (keepalive_config w) at off

  -- Whatever methods are called, a watchdog whose mode is off has no device, and nothing is pending.
  pub Reaches-OffIsNull :
      ((o : O) → s.same_options o o ≡ true)
      → (c : Config O) (w : Watchdog D O) → Reaches c w
      → OffIsNull w
  Reaches-OffIsNull same c w (starts _ e) = init-OffIsNull c w e
  Reaches-OffIsNull same c w (steps v _ r step) = after step (Reaches-OffIsNull same c v r)
    where
      after : {x y : Watchdog D O} → Step x y → OffIsNull x → OffIsNull y
      after (reloads d x) h = reload_config-OffIsNull same d x
      after (activates x) h = activate-OffIsNull x h
      after (keeps_alive x) h = keepalive-OffIsNull same x h
      after (disables x) h = disable-OffIsNull x h

  -- A change of the timeout that waits for a keepalive, where no device is held.
  pub record Pending (w : Watchdog D O) : Type 0 where
    pub active : w.active ≡ true
    pub no_device : w.held.impl ≡ null
    pub still_on : (not (is_off w.config.mode) && is_off w.active_config.mode) ≡ false
    pub one_driver : same_driver s.same_options w.config w.active_config ≡ true
    pub other_timeout : same_int (timeout w.config) (timeout w.active_config) ≡ false

  unfoldable pub keepalives : ℕ → Watchdog D O → Watchdog D O
  keepalives zero w = w
  keepalives (suc n) w = keepalives n (keepalive s w)

  held-Pending :
      (w : Watchdog D O) (i : Impl D) → i ≡ null → Pending w → Pending (with_held w (hold i w.held))
  held-Pending w i e h = record {
    active = h.active;
    no_device = e;
    still_on = h.still_on;
    one_driver = h.one_driver;
    other_timeout = h.other_timeout;
  }

  turn_on-Pending : (w : Watchdog D O) → Pending w → turn_on s w ≡ w
  unfolding turn_on
  turn_on-Pending w h = if_false _ _ w h.still_on

  change_driver-Pending : (w : Watchdog D O) → Pending w → change_driver s w ≡ w
  unfolding change_driver
  change_driver-Pending w h = rw h.one_driver refl

  change_timeout-Pending : (w : Watchdog D O) → Pending w → Pending (change_timeout s.device w)
  unfolding change_timeout
  change_timeout-Pending w h =
      subst Pending (sym (if_false _ _ _ h.other_timeout ∙ if_false _ _ _ refused.0))
        (held-Pending w _ refused.1 h)
    where
      refused :
          ((impl_set_timeout s.device (timeout w.config) w.held.impl).0 ≡ false)
          × ((impl_set_timeout s.device (timeout w.config) w.held.impl).1 ≡ null)
      refused = rw h.no_device (unfold impl_set_timeout in (refl, refl))

  apply_pending-Pending : (w : Watchdog D O) → Pending w → Pending (apply_pending s w)
  unfolding apply_pending
  apply_pending-Pending w h =
      subst (λ x. Pending (change_timeout s.device x))
        (sym (ap (change_driver s) (turn_on-Pending w h) ∙ change_driver-Pending w h))
        (change_timeout-Pending w h)

  keepalive-Pending : (w : Watchdog D O) → Pending w → Pending (keepalive s w)
  unfolding keepalive
  keepalive-Pending w h =
      if_cases Pending w.active _ w
        (λ e. if_cases Pending _ _ w' (λ e'. apply_pending-Pending w' kept) (λ e'. kept)) (λ e. h)
    where
      w' : Watchdog D O
      w' = with_held w (hold (impl_keepalive s.device w.held.impl).1 w.held)

      kept : Pending w'
      kept =
          held-Pending w (impl_keepalive s.device w.held.impl).1
            (rw h.no_device (unfold impl_keepalive in refl)) h

  -- Without a device a change of the timeout stays pending over any number of keepalives.
  pub keepalives-Pending : (n : ℕ) (w : Watchdog D O) → Pending w → Pending (keepalives n w)
  unfolding keepalives
  keepalives-Pending zero w h = h
  keepalives-Pending (suc n) w h = keepalives-Pending n (keepalive s w) (keepalive-Pending w h)
