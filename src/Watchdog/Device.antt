-- ===== src/Watchdog/Device.antt =====
-- `WatchdogBase` and `NullWatchdog` of patroni/watchdog/base.py. A device is a record of the
-- operations of an implementation, which may raise `WatchdogError`; what `can_be_disabled` raises on
-- a device that is not open is left aside, since it is only read of a running one that has said
-- whether its timeout can be set.
use metatroni.Prelude.{Bool, true, false, ◌&&◌, Option, some, if◌then◌else◌}
use metatroni.Prelude.Int.{ℤ, pos}
use metatroni.Names.{name, name_eq}
use metatroni.Watchdog.Config.{Config}

-- An operation that changes the device says whether it succeeded: `false` is a `WatchdogError`.
pub record Device (D : Type 0) : Type 0 where
  pub is_running : D → Bool
  pub is_healthy : D → Bool
  pub can_be_disabled : D → Bool
  pub open_device : D → Bool × D
  pub close_device : D → Bool × D
  pub keepalive : D → Bool × D
  pub get_timeout : D → Option ℤ
  pub has_set_timeout : D → Option Bool
  pub set_timeout : ℤ → D → Bool × D

-- What the facade finds of its system: the two devices that it can make of a configuration.
pub record System (D O : Type 0) : Type 0 where
  pub device : Device D
  pub is_linux : Bool
  pub linux_device : O → D
  pub testing_device : O → D
  pub same_options : O → O → Bool

-- `NullWatchdog` or a device
pub data Impl (D : Type 0) : Type 0 where
  null : Impl D
  opened : D → Impl D

-- `get_impl`
unfoldable pub get_impl : {D O : Type 0} → System D O → Config O → Impl D
get_impl s c =
    if name_eq c.driver (name "testing")
    then opened (s.testing_device c.driver_config)
    else if s.is_linux && name_eq c.driver (name "default")
    then opened (s.linux_device c.driver_config)
    else null

-- `NullWatchdog.get_timeout`
abbrev pub never : ℤ
never = pos 1000000000

module _ {D : Type 0} where
  abbrev pub is_null : Impl D → Bool
  is_null null = true
  is_null (opened d) = false

  unfoldable pub impl_is_running : Device D → Impl D → Bool
  impl_is_running v null = false
  impl_is_running v (opened d) = v.is_running d

  unfoldable pub impl_is_healthy : Device D → Impl D → Bool
  impl_is_healthy v null = false
  impl_is_healthy v (opened d) = v.is_healthy d

  unfoldable pub impl_can_be_disabled : Device D → Impl D → Bool
  impl_can_be_disabled v null = true
  impl_can_be_disabled v (opened d) = v.can_be_disabled d

  abbrev changed : Bool × D → Bool × Impl D
  changed (ok, d) = (ok, opened d)

  unfoldable pub impl_open : Device D → Impl D → Bool × Impl D
  impl_open v null = (true, null)
  impl_open v (opened d) = changed (v.open_device d)

  unfoldable pub impl_close : Device D → Impl D → Bool × Impl D
  impl_close v null = (true, null)
  impl_close v (opened d) = changed (v.close_device d)

  unfoldable pub impl_keepalive : Device D → Impl D → Bool × Impl D
  impl_keepalive v null = (true, null)
  impl_keepalive v (opened d) = changed (v.keepalive d)

  unfoldable pub impl_get_timeout : Device D → Impl D → Option ℤ
  impl_get_timeout v null = some never
  impl_get_timeout v (opened d) = v.get_timeout d

  unfoldable pub impl_has_set_timeout : Device D → Impl D → Option Bool
  impl_has_set_timeout v null = some false
  impl_has_set_timeout v (opened d) = v.has_set_timeout d

  -- The null watchdog inherits a `set_timeout` that raises.
  unfoldable pub impl_set_timeout : Device D → ℤ → Impl D → Bool × Impl D
  impl_set_timeout v t null = (false, null)
  impl_set_timeout v t (opened d) = changed (v.set_timeout t d)
