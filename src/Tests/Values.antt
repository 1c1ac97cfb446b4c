-- ===== src/Tests/Values.antt =====
-- `patch_config` (patroni/utils.py) on small configurations, and the theorems there.
use metatroni.Prelude.{◌≡◌, refl, true, false, none}
use metatroni.Prelude.Int.{pos}
use metatroni.Names.{Name, name, name_eq}
use metatroni.Names.Decimal.{str}
use metatroni.Values.Value.{Value, Items, lookup, put, drop}
use metatroni.Values.Patch.{patch_scalar, patch_dict, patch_one, patch_config}
use metatroni.Values.Patched.{patch_config_unchanged, lookup-patch_config}

unfoldable program : Unit {0}
unfolding name_eq str lookup put drop patch_scalar patch_dict patch_one patch_config
program = tt

-- The text of a dictionary is not used here.
abbrev braces : Items → Name
braces d = name "{}"

abbrev config : Items
config = Items.item (name "ttl") (Value.number (pos 30)) (
    Items.item (name "postgresql")
      (Value.dict (Items.item (name "use_slots") (Value.truth true) Items.empty)) Items.empty)

abbrev same_ttl : Items
same_ttl = Items.item (name "ttl") (Value.text (name "30")) Items.empty

reported : (patch_config braces same_ttl config).0 ≡ false
unfolding program
reported = refl

patch_config_unchanged_example : (patch_config braces same_ttl config).1 ≡ config
patch_config_unchanged_example =
    patch_config_unchanged braces same_ttl config (tt, ((tt, tt), tt)) reported

not_named : lookup (name "postgresql") same_ttl ≡ none
unfolding program
not_named = refl

lookup-patch_config_example :
    lookup (name "postgresql") (patch_config braces same_ttl config).1
    ≡ lookup (name "postgresql") config
lookup-patch_config_example =
    lookup-patch_config braces (name "postgresql") same_ttl config not_named

-- `{'a': {'b': None}}`
abbrev nested_none : Items
nested_none =
    Items.item (name "a") (Value.dict (Items.item (name "b") Value.null Items.empty)) Items.empty

-- A dictionary that is new keeps its `None`, which the next patch removes without reporting it.
silent_removal :
    (patch_config braces nested_none Items.empty ≡ (true, nested_none))
    × (patch_config braces nested_none nested_none
        ≡ (false, Items.item (name "a") (Value.dict Items.empty) Items.empty))
unfolding program
silent_removal = (refl, refl)
