-- ===== src/Tests/Watchdog.antt =====
-- The watchdog (patroni/watchdog/base.py) on a device that is a counter, and the theorems there.
use metatroni.Prelude.{ℕ, ◌≡◌, refl, Bool, true, false, some, [], ◌∷◌, ◌==◌, arith}
use metatroni.Prelude.Int.{ℤ, pos}
use metatroni.Names.{name, name_eq, lower, lower_code}
use metatroni.Watchdog.Config.{
  Mode, ModeValue, parse_mode, Config, same_driver, same_config, timeout, timing_slack,
}
use metatroni.Watchdog.Device.{
  Device, System, Impl, get_impl, impl_is_running, impl_is_healthy, impl_can_be_disabled, impl_open,
  impl_close, impl_keepalive, impl_get_timeout, impl_has_set_timeout, impl_set_timeout,
}
use metatroni.Watchdog.Facade.{
  Watchdog, replace, init, disable_impl, check_timeout, set_timeout, try_open, exceeds, verdict,
  to_open, activate_impl, activate, disable, exchange, turn_off, apply_inactive, reload_config,
  turn_on, change_driver, change_timeout, apply_pending, keepalive, is_running, is_healthy,
}
use metatroni.Watchdog.Activation.{Guards, activate-Guards}
use metatroni.Watchdog.Modes.{
  Step, Reaches, OffIsNull, Reaches-OffIsNull, Pending, keepalives, keepalives-Pending,
}

unfoldable program : Unit {0}
unfolding name_eq lower lower_code parse_mode same_driver same_config timeout timing_slack get_impl
    impl_is_running impl_is_healthy impl_can_be_disabled impl_open impl_close impl_keepalive
    impl_get_timeout impl_has_set_timeout impl_set_timeout replace init disable_impl check_timeout
    set_timeout try_open exceeds verdict to_open activate_impl activate disable exchange turn_off
    apply_inactive reload_config turn_on change_driver change_timeout apply_pending keepalive
    is_running is_healthy
program = tt

-- A timer: whether it runs, and its timeout.
record Timer : Type 0 where
  runs : Bool
  seconds : ℤ

abbrev timer : Device Timer
timer = record {
  is_running = λ d. d.runs;
  is_healthy = λ d. true;
  can_be_disabled = λ d. true;
  open_device = λ d. (true, record { runs = true; seconds = d.seconds });
  close_device = λ d. (true, record { runs = false; seconds = d.seconds });
  keepalive = λ d. (d.runs, d);
  get_timeout = λ d. some d.seconds;
  has_set_timeout = λ d. some true;
  set_timeout = λ t d. (true, record { runs = d.runs; seconds = t });
}

abbrev idle : Timer
idle = record { runs = false; seconds = pos 60 }

abbrev system : System Timer ℕ
system = record {
  device = timer;
  is_linux = true;
  linux_device = λ o. idle;
  testing_device = λ o. idle;
  same_options = λ o p. o == p;
}

abbrev config : Mode → ℕ → Config ℕ
config mode ttl = record {
  mode = mode;
  ttl = ttl;
  loop_wait = 10;
  safety_margin = pos 5;
  driver = name "default";
  driver_config = 0;
}

modes :
    (parse_mode (ModeValue.text (name "Required")) ≡ Mode.required)
    × (parse_mode (ModeValue.text (name "auto")) ≡ Mode.automatic)
    × (parse_mode (ModeValue.text (name "on")) ≡ Mode.off)
    × (parse_mode ModeValue.false_value ≡ Mode.off)
unfolding program
modes = (refl, refl, refl, refl)

abbrev holding : Config ℕ → Impl Timer → Watchdog Timer ℕ
holding c impl = record {
  config = c;
  active_config = c;
  active = false;
  held = record { impl = impl; dropped = [] };
}

abbrev watchdog : Watchdog Timer ℕ
watchdog = holding (config Mode.required 30) (Impl.opened idle)

activates : (activate timer watchdog).0 ≡ true
unfolding program
activates = refl

activate-Guards_example : Guards timer (activate timer watchdog).1
activate-Guards_example = activate-Guards timer watchdog refl activates

same_options_refl : (o : ℕ) → system.same_options o o ≡ true
same_options_refl o = ground arith

abbrev stopped : Watchdog Timer ℕ
stopped = reload_config system (config Mode.off 30) (activate timer watchdog).1

watchdog-init : init system (config Mode.required 30) ≡ some watchdog
unfolding program
watchdog-init = refl

stopped-Reaches : Reaches system (config Mode.required 30) stopped
stopped-Reaches =
    Reaches.steps (activate timer watchdog).1 stopped
      (Reaches.steps watchdog (activate timer watchdog).1 (Reaches.starts watchdog watchdog-init)
        (Step.activates watchdog))
      (Step.reloads (config Mode.off 30) (activate timer watchdog).1)

Reaches-OffIsNull_example : OffIsNull system stopped
Reaches-OffIsNull_example =
    Reaches-OffIsNull system same_options_refl (config Mode.required 30) stopped stopped-Reaches

stopped_device : stopped.held.dropped ≡ record { runs = false; seconds = pos 25 } ∷ []
unfolding program
stopped_device = refl

-- No device, and another `ttl`.
abbrev waiting : Watchdog Timer ℕ
waiting = record {
  config = config Mode.automatic 60;
  active_config = config Mode.automatic 30;
  active = true;
  held = record { impl = Impl.null; dropped = [] };
}

waiting-Pending : Pending system waiting
unfolding program
waiting-Pending = record {
  active = refl;
  no_device = refl;
  still_on = refl;
  one_driver = refl;
  other_timeout = refl;
}

keepalives-Pending_example : Pending system (keepalives system 100 waiting)
keepalives-Pending_example = keepalives-Pending system 100 waiting waiting-Pending
