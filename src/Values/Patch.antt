-- ===== src/Values/Patch.antt =====
-- `patch_config` of patroni/utils.py.
use metatroni.Prelude.{Bool, true, false, not, ◌||◌, Option, none, some, if◌then◌else◌}
use metatroni.Names.{Name, name_eq}
use metatroni.Values.Value.{Value, Items, value_text, lookup, put, drop}

-- `config.pop(name, None) is not None`
abbrev pub has_value : Option Value → Bool
has_value none = false
has_value (some Value.null) = false
has_value (some v) = true

module _ (dict_text : Items → Name) where
  -- A scalar that is there is replaced if its text differs.
  abbrev pub differs : Value → Value → Bool
  differs v w = not (name_eq (value_text dict_text v) (value_text dict_text w))

  -- One turn of the loop of `patch_config`: whether the configuration was changed, and it.
  unfoldable pub patch_scalar : Name → Value → Option Value → Items → Bool × Items
  patch_scalar n v none c = (true, put n v c)
  patch_scalar n v (some w) c = if differs w v then (true, put n v c) else (false, c)

  -- `nested` is the call for a dictionary that is there under the name.
  unfoldable pub patch_dict :
      (Items → Bool × Items) → Name → Items → Option Value → Items → Bool × Items
  patch_dict nested n d (some (Value.dict e)) c = ((nested e).0, put n (Value.dict (nested e).1) c)
  patch_dict nested n d _ c = (true, put n (Value.dict d) c)

  unfoldable mutual
    unfolding patch_scalar patch_dict

    pub patch_one : Name → Value → Items → Bool × Items
    patch_one n Value.null c = (has_value (lookup n c), drop n c)
    patch_one n (Value.dict d) c = patch_dict (λ e. patch_config d e) n d (lookup n c) c
    patch_one n (Value.truth b) c = patch_scalar n (Value.truth b) (lookup n c) c
    patch_one n (Value.number z) c = patch_scalar n (Value.number z) (lookup n c) c
    patch_one n (Value.text s) c = patch_scalar n (Value.text s) (lookup n c) c
    patch_one n (Value.other s) c = patch_scalar n (Value.other s) (lookup n c) c

    -- `patch_config(config, data)`, with the data first.
    pub patch_config : Items → Items → Bool × Items
    patch_config Items.empty c = (false, c)
    patch_config (Items.item n v d) c =
        let one = patch_one n v c in let rest = patch_config d one.1 in (one.0 || rest.0, rest.1)
