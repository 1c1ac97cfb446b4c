-- ===== src/Watchdog/Facade.antt =====
-- `Watchdog` of patroni/watchdog/base.py. Its methods hold one lock, so each is a step of the state.
-- A device that the facade lets go of is remembered as it was left.
use metatroni.Prelude.{
  Bool, true, false, not, ◌&&◌, ◌||◌, List, [], ◌∷◌, Option, none, some, if◌then◌else◌,
}
use metatroni.Prelude.Int.{ℤ, pos, ltb_ℤ, is_zero}
use metatroni.Watchdog.Config.{
  Config, is_required, is_off, same_driver, same_config, same_int, timeout, timing_slack,
}
use metatroni.Watchdog.Device.{
  Device, System, Impl, null, opened, is_null, get_impl, impl_is_running, impl_is_healthy,
  impl_can_be_disabled, impl_open, impl_close, impl_keepalive, impl_get_timeout,
  impl_has_set_timeout, impl_set_timeout, never,
}

-- `impl`, and the devices that were let go of.
pub record Held (D : Type 0) : Type 0 where
  pub impl : Impl D
  pub dropped : List D

abbrev let_go : {D : Type 0} → Impl D → List D → List D
let_go null ds = ds
let_go (opened d) ds = d ∷ ds

-- `self.impl = impl`
unfoldable pub replace : {D : Type 0} → Impl D → Held D → Held D
replace impl h = record { impl = impl; dropped = let_go h.impl h.dropped }

-- The implementation after one of its operations.
abbrev pub hold : {D : Type 0} → Impl D → Held D → Held D
hold impl h = record { impl = impl; dropped = h.dropped }

pub record Watchdog (D O : Type 0) : Type 0 where
  pub config : Config O
  pub active_config : Config O
  pub active : Bool
  pub held : Held D

-- `__init__`; `none` is the exit where a watchdog is required and there is none.
unfoldable pub init : {D O : Type 0} → System D O → Config O → Option (Watchdog D O)
init s c =
    let impl = if is_off c.mode then null else get_impl s c in
    if is_required c.mode && is_null impl
    then none
    else some (record {
      config = c;
      active_config = c;
      active = false;
      held = record { impl = impl; dropped = [] };
    })

-- `_disable`; the `WatchdogError` that ends it early is logged.
unfoldable pub disable_impl : {D : Type 0} → Device D → Impl D → Impl D
disable_impl v impl =
    let kept = impl_keepalive v impl in
    if impl_is_running v impl && not (impl_can_be_disabled v impl)
    then (if kept.0
        then elim (impl_get_timeout v kept.1) [ none ↦ kept.1 | some t ↦ (impl_close v kept.1).1 ]
        else kept.1)
    else (impl_close v impl).1

-- The `except` branch of `_activate`, or what its `try` block found.
abbrev pub caught : {D : Type 0} → Option (Option ℤ) × Held D → Option ℤ × Held D
caught (none, h) = (some never, replace null h)
caught (some t, h) = (t, h)

-- `actual_timeout and actual_timeout > self.config.timeout`
unfoldable pub exceeds : {O : Type 0} → Config O → Option ℤ → Bool
exceeds c none = false
exceeds c (some t) = not (is_zero t) && ltb_ℤ (timeout c) t

-- `_disable`, and a new implementation.
unfoldable pub exchange : {D : Type 0} → Device D → Impl D → Held D → Held D
unfolding disable_impl replace
exchange v impl h = replace impl (hold (disable_impl v h.impl) h)

module _ {D O : Type 0} where
  -- The end of `_set_timeout`: a timeout that is too short for the loop ends the watchdog, if it can
  -- be ended. The outer `none` is a `WatchdogError`.
  unfoldable pub check_timeout :
      Device D → Config O → Option ℤ → Held D → Option (Option ℤ) × Held D
  unfolding replace
  check_timeout v c none h = (none, h)
  check_timeout v c (some t) h =
      let closed = impl_close v h.impl in
      if impl_is_running v h.impl && ltb_ℤ t (pos c.loop_wait) && impl_can_be_disabled v h.impl
      then (if closed.0
          then (some none, replace null (hold closed.1 h))
          else (none, hold closed.1 h))
      else (some (some t), h)

  -- `_set_timeout`
  unfoldable pub set_timeout : Device D → Config O → Held D → Option (Option ℤ) × Held D
  unfolding check_timeout
  set_timeout v c h =
      let r = impl_set_timeout v (timeout c) h.impl in
      let set = check_timeout v c (impl_get_timeout v r.1) (hold r.1 h) in
      let kept = check_timeout v c (impl_get_timeout v h.impl) h in
      elim (impl_has_set_timeout v h.impl) [
        | none ↦ (none, h)
        | some has ↦ if has then (if r.0 then set else (none, hold r.1 h)) else kept
      ]

  -- The `try` block of `_activate`, with the timeout and the implementation afterwards.
  unfoldable pub try_open : Device D → Config O → Held D → Option ℤ × Held D
  unfolding set_timeout replace
  try_open v c h =
      let r = impl_open v h.impl in
      let set = set_timeout v c (hold r.1 h) in caught (if r.0 then set else (none, hold r.1 h))

  -- The tests at the end of `_activate`.
  unfoldable pub verdict : Device D → Config O → Option ℤ × Held D → Bool
  unfolding exceeds
  verdict v c (t, h) =
      if (not (impl_is_running v h.impl) || exceeds c t) && is_required c.mode
      then false
      else if impl_is_running v h.impl
      then true
      else not (is_required c.mode)

  -- What `_activate` opens: nothing, where the loop leaves no slack.
  unfoldable pub to_open : Config O → Held D → Held D
  to_open c h = if ltb_ℤ (timing_slack c) (pos 0) then replace null h else h

  abbrev pub with_held : Watchdog D O → Held D → Watchdog D O
  with_held w h = record {
    config = w.config;
    active_config = w.active_config;
    active = w.active;
    held = h;
  }

  abbrev pub with_active : Watchdog D O → Bool → Watchdog D O
  with_active w active = record {
    config = w.config;
    active_config = w.active_config;
    active = active;
    held = w.held;
  }

  abbrev pub with_config : Watchdog D O → Config O → Watchdog D O
  with_config w c = record {
    config = c;
    active_config = w.active_config;
    active = w.active;
    held = w.held;
  }

  -- `self.active_config = self.config`
  abbrev pub applied : Watchdog D O → Watchdog D O
  applied w = record {
    config = w.config;
    active_config = w.config;
    active = w.active;
    held = w.held;
  }

  -- `_activate`
  unfoldable pub activate_impl : Device D → Watchdog D O → Bool × Watchdog D O
  unfolding try_open verdict to_open
  activate_impl v w =
      let r = try_open v w.config (to_open w.config w.held) in
      (verdict v w.config r, with_held (applied w) r.1)

  -- `activate`
  unfoldable pub activate : Device D → Watchdog D O → Bool × Watchdog D O
  unfolding activate_impl
  activate v w = activate_impl v (with_active w true)

  -- `disable`
  unfoldable pub disable : Device D → Watchdog D O → Watchdog D O
  unfolding disable_impl
  disable v w = with_active (with_held w (hold (disable_impl v w.held.impl) w.held)) false

  -- `reload_config`, where the mode is off.
  unfoldable pub turn_off : Device D → Watchdog D O → Watchdog D O
  unfolding exchange replace
  turn_off v w =
      applied (with_held w (if w.active then exchange v null w.held else replace null w.held))

  -- `reload_config`, after that: a watchdog that is not active takes the configuration at once.
  unfoldable pub apply_inactive : System D O → Watchdog D O → Watchdog D O
  unfolding replace
  apply_inactive s w =
      let h =
        if same_driver s.same_options w.config w.active_config
        then w.held
        else replace (get_impl s w.config) w.held in
      if w.active then w else applied (with_held w h)

  -- `reload_config`
  unfoldable pub reload_config : System D O → Config O → Watchdog D O → Watchdog D O
  unfolding apply_inactive turn_off
  reload_config s c w =
      let w' = with_config w c in
      apply_inactive s (if is_off c.mode then turn_off s.device w' else w')

  -- `keepalive`: a watchdog that has been turned on again.
  unfoldable pub turn_on : System D O → Watchdog D O → Watchdog D O
  unfolding activate_impl replace
  turn_on s w =
      let w' = (activate_impl s.device (with_held w (replace (get_impl s w.config) w.held))).1 in
      if not (is_off w.config.mode) && is_off w.active_config.mode then w' else w

  -- `keepalive`: another driver.
  unfoldable pub change_driver : System D O → Watchdog D O → Watchdog D O
  unfolding activate_impl exchange
  change_driver s w =
      let w' =
        (activate_impl s.device (with_held w (exchange s.device (get_impl s w.config) w.held))).1 in
      if same_driver s.same_options w.config w.active_config then w else w'

  -- `keepalive`: another timeout, and the configuration is the active one. What is logged of a
  -- running watchdog asks for the timeout, which may raise.
  unfoldable pub change_timeout : Device D → Watchdog D O → Watchdog D O
  change_timeout v w =
      let r = impl_set_timeout v (timeout w.config) w.held.impl in
      let w' = with_held w (hold r.1 w.held) in
      let logged =
        if impl_is_running v r.1
        then elim (impl_get_timeout v r.1) [ none ↦ w' | some t ↦ applied w' ]
        else applied w' in
      if same_int (timeout w.config) (timeout w.active_config)
      then applied w
      else if r.0
      then logged
      else w'

  -- `keepalive`: the pending changes of the configuration.
  unfoldable pub apply_pending : System D O → Watchdog D O → Watchdog D O
  unfolding turn_on change_driver change_timeout
  apply_pending s w = change_timeout s.device (change_driver s (turn_on s w))

  -- `keepalive`; the `WatchdogError` that ends it early is logged.
  unfoldable pub keepalive : System D O → Watchdog D O → Watchdog D O
  unfolding apply_pending
  keepalive s w =
      let r = impl_keepalive s.device w.held.impl in
      let w' = with_held w (hold r.1 w.held) in
      let pending = apply_pending s w' in
      if w.active
      then (if r.0 && not (same_config s.same_options w.config w.active_config)
          then pending
          else w')
      else w

  -- `is_running`
  unfoldable pub is_running : Device D → Watchdog D O → Bool
  is_running v w = impl_is_running v w.held.impl

  -- `is_healthy`
  unfoldable pub is_healthy : Device D → Watchdog D O → Bool
  is_healthy v w =
      if is_required w.config.mode
      then not (ltb_ℤ (timing_slack w.config) (pos 0)) && impl_is_healthy v w.held.impl
      else true
