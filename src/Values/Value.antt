-- ===== src/Values/Value.antt =====
-- JSON and YAML values as Python has them, and `str` on those that are no dictionaries.
use metatroni.Prelude.{suc, Bool, ◌∷◌, Option, none, some, if◌then◌else◌}
use metatroni.Prelude.Int.{ℤ, pos, negsuc}
use metatroni.Names.{Name, name, name_eq}
use metatroni.Names.Decimal.{str}

-- `None`, a truth value, a whole number, a text, a value of which only the text that `str` gives is
-- used, such as a list, or a dictionary: its items in their order.
mutual
  pub data Value : Type 0 where
    null : Value
    truth : Bool → Value
    number : ℤ → Value
    text : Name → Value
    other : Name → Value
    dict : Items → Value

  pub data Items : Type 0 where
    empty : Items
    item : Name → Value → Items → Items

abbrev int_text : ℤ → Name
int_text (pos n) = str n
int_text (negsuc n) = b'-' ∷ str (suc n)

-- `str(value)`, with what it gives of a dictionary.
abbrev pub value_text : (Items → Name) → Value → Name
value_text dict_text null = name "None"
value_text dict_text (truth b) = if b then name "True" else name "False"
value_text dict_text (number n) = int_text n
value_text dict_text (text s) = s
value_text dict_text (other s) = s
value_text dict_text (dict d) = dict_text d

-- `d.get(key)`, where `none` is a key that is not there.
unfoldable pub lookup : Name → Items → Option Value
lookup key empty = none
lookup key (item k v d) = let rest = lookup key d in if name_eq key k then some v else rest

-- `d[key] = value`
unfoldable pub put : Name → Value → Items → Items
put key value empty = item key value empty
put key value (item k v d) =
    let rest = put key value d in if name_eq key k then item k value d else item k v rest

-- `d.pop(key, None)`, what is left.
unfoldable pub drop : Name → Items → Items
drop key empty = empty
drop key (item k v d) = let rest = drop key d in if name_eq key k then d else item k v rest
