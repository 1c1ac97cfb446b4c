-- ===== src/Watchdog/Config.antt =====
-- `WatchdogConfig` of patroni/watchdog/base.py. The configuration of a driver is of any type; times
-- are whole seconds, and `ttl` and `loop_wait` are not negative.
use Prim.Native.Nat.{◌/◌}
use metatroni.Prelude.{ℕ, Bool, true, false, ◌&&◌, ◌||◌, ◌==◌, if◌then◌else◌}
use metatroni.Prelude.Int.{ℤ, pos, negsuc, ◌-ℤ◌}
use metatroni.Names.{Name, name, name_eq, lower}

pub data Mode : Type 0 where
  required automatic off : Mode

abbrev pub is_required : Mode → Bool
is_required Mode.required = true
is_required _ = false

abbrev pub is_off : Mode → Bool
is_off Mode.off = true
is_off _ = false

abbrev pub same_mode : Mode → Mode → Bool
same_mode Mode.required n = is_required n
same_mode Mode.off n = is_off n
same_mode Mode.automatic Mode.automatic = true
same_mode Mode.automatic _ = false

-- The value of the key: `False` or the text of another value.
pub data ModeValue : Type 0 where
  false_value : ModeValue
  text : Name → ModeValue

abbrev is_one_of : Name → Name → Name → Bool
is_one_of mode a b = name_eq mode a || name_eq mode b

-- `parse_mode`
unfoldable pub parse_mode : ModeValue → Mode
parse_mode false_value = Mode.off
parse_mode (text s) =
    let mode = lower s in
    if is_one_of mode (name "require") (name "required")
    then Mode.required
    else if is_one_of mode (name "auto") (name "automatic")
    then Mode.automatic
    else Mode.off

pub record Config (O : Type 0) : Type 0 where
  pub mode : Mode
  pub ttl : ℕ
  pub loop_wait : ℕ
  pub safety_margin : ℤ
  pub driver : Name
  pub driver_config : O

abbrev pub same_int : ℤ → ℤ → Bool
same_int (pos a) (pos b) = a == b
same_int (negsuc a) (negsuc b) = a == b
same_int (pos a) (negsuc b) = false
same_int (negsuc a) (pos b) = false

-- `self.driver == other.driver and self.driver_config == other.driver_config`
unfoldable pub same_driver : {O : Type 0} → (O → O → Bool) → Config O → Config O → Bool
same_driver same_options c d =
    name_eq c.driver d.driver && same_options c.driver_config d.driver_config

-- `__eq__`
unfoldable pub same_config : {O : Type 0} → (O → O → Bool) → Config O → Config O → Bool
unfolding same_driver
same_config same_options c d =
    same_mode c.mode d.mode
    && c.ttl == d.ttl
    && c.loop_wait == d.loop_wait
    && same_int c.safety_margin d.safety_margin
    && same_driver same_options c d

-- `timeout`
unfoldable pub timeout : {O : Type 0} → Config O → ℤ
timeout c =
    if same_int c.safety_margin (negsuc 0) then pos (c.ttl / 2) else pos c.ttl -ℤ c.safety_margin

-- `timing_slack`
unfoldable pub timing_slack : {O : Type 0} → Config O → ℤ
unfolding timeout
timing_slack c = timeout c -ℤ pos c.loop_wait
