-- ===== src/Tests/Dict.antt =====
-- `CaseInsensitiveDict` (patroni/collections.py) at concrete items.
use metatroni.Prelude.{◌≡◌, refl, ℕ, [], ◌∷◌, some, none, if◌then◌else◌}
use metatroni.Names.{name, name_eq, lower, lower_code, same}
use metatroni.Collections.Dict.{
  CaseInsensitiveDict, store, find, has_key, remove, set_item, get_item, del_item, iter, keys,
  update, put_plain, plain, copy,
}
use metatroni.Collections.Dict.Laws.{IsValid, get_item-set_item, get_item-del_item}

program : Unit {0}
unfolding name_eq lower lower_code same store find has_key remove set_item get_item del_item iter
    keys update put_plain plain copy
program = tt

-- The doctest of `__len__`: `{'a': 'b', 'A': 'B', 'c': 'd'}`.
abbrev doctest : CaseInsensitiveDict ℕ
doctest =
    record { lowered = name "a"; key = name "A"; value = 2 }
    ∷ record { lowered = name "c"; key = name "c"; value = 3 }
    ∷ []

doctest_items : update ((name "a", 1) ∷ (name "A", 2) ∷ (name "c", 3) ∷ []) [] ≡ doctest
unfolding program
doctest_items = refl

copied : copy doctest ≡ doctest
unfolding program
copied = refl

doctest-IsValid : IsValid doctest
unfolding program
doctest-IsValid = (refl, refl, (refl, refl, tt))

abbrev shorter : CaseInsensitiveDict ℕ
shorter = record { lowered = name "c"; key = name "c"; value = 3 } ∷ []

get_item-set_item_example :
    get_item (name "C") (set_item (name "c") 7 doctest)
    ≡ (if same (name "C") (name "c") then some 7 else get_item (name "C") doctest)
get_item-set_item_example = get_item-set_item (name "C") (name "c") 7 doctest

get_item-del_item_example :
    IsValid shorter
    × (get_item (name "C") shorter
        ≡ (if same (name "C") (name "a") then none else get_item (name "C") doctest))
unfolding program
get_item-del_item_example =
    get_item-del_item (name "C") (name "a") doctest shorter doctest-IsValid refl
