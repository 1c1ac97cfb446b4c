-- ===== src/Dcs/Slots.antt =====
-- The replication slots of members in patroni/dcs/__init__.py: `slot_name_from_member_name`, and
-- `Cluster.get_slot_name_on_primary` with `Cluster.should_enforce_hot_standby_feedback`.
-- `str.lower` on all of Unicode is the parameter `str_lower`. The loops run on fuel, and are
-- `none` where it does not last.
pub mod Valid
pub mod Walk
pub mod Members
pub mod Found
use metatroni.Prelude.{
  ℕ, zero, suc, ◌-◌, Bool, true, false, not, ◌&&◌, ◌||◌, Option, none, some, List, [], ◌∷◌, ◌++◌,
  leb, ◌==◌, if◌then◌else◌, length, take, keep,
}
use metatroni.Names.{Name, name_eq}
use metatroni.Names.Decimal.{str, is_digit}
use metatroni.Dcs.SyncState.{is_set}

-- `[a-z0-9_]`
unfoldable pub is_slot_code : ℕ → Bool
unfolding is_digit
is_slot_code c = (leb b'a' c && leb c b'z') || is_digit c || c == b'_'

unfoldable pub pad_zeros : ℕ → Name → Name
pad_zeros zero s = s
pad_zeros (suc n) s = b'0' ∷ pad_zeros n s

-- `replace_char`, with `f"{ord(c):04d}"`
unfoldable pub replace_char : ℕ → Name
unfolding pad_zeros
replace_char c =
    if c == b'-' || c == b'.' then b'_' ∷ [] else b'u' ∷ pad_zeros (4 - length (str c)) (str c)

-- `re.sub('[^a-z0-9_]', replace_char, s)`
unfoldable pub replace_chars : Name → Name
unfolding is_slot_code replace_char
replace_chars [] = []
replace_chars (c ∷ s) =
    let rest = replace_chars s in if is_slot_code c then c ∷ rest else replace_char c ++ rest

unfoldable pub slot_name_from_member_name : (Name → Name) → Name → Name
unfolding replace_chars
slot_name_from_member_name str_lower member_name = take 63 (replace_chars (str_lower member_name))

-- What the tags of a node say of its replication.
pub record Tags : Type 0 where
  pub nostream : Bool
  pub replicatefrom : Option Name

pub record Member : Type 0 where
  pub name : Name
  pub tags : Tags
  pub lsn : Option ℕ

-- `self.get_member(member_name, False)`
unfoldable pub get_member : Name → List Member → Option Member
get_member member_name [] = none
get_member member_name (m ∷ ms) =
    let rest = get_member member_name ms in if name_eq m.name member_name then some m else rest

-- The member that the tags name, where it is not the node itself.
unfoldable pub upstream_of : List Member → Name → Option Name → Option Member
unfolding is_set get_member
upstream_of ms name none = none
upstream_of ms name (some r) =
    if is_set (some r) && not (name_eq r name) then get_member r ms else none

-- `name in seen_nodes`
unfoldable pub is_seen : Name → List Name → Bool
is_seen name [] = false
is_seen name (n ∷ seen) = name_eq name n || is_seen name seen

-- The loop of `get_slot_name_on_primary`.
unfoldable pub walk :
    (Name → Name) → ℕ → List Member → List Name → Name → Tags → Option (Option Name)
unfolding upstream_of is_seen slot_name_from_member_name
walk str_lower zero ms seen name tags = none
walk str_lower (suc fuel) ms seen name tags = elim tags.nostream [
  | true ↦ some none
  | false ↦ elim (upstream_of ms name tags.replicatefrom) [
    | none ↦ some (some (slot_name_from_member_name str_lower name))
    | some m ↦ elim (is_seen m.name (name ∷ seen)) [
      | true ↦ some none
      | false ↦ walk str_lower fuel ms (name ∷ seen) m.name m.tags
    ]
  ]
]

-- With one round more than there are members.
unfoldable pub get_slot_name_on_primary :
    (Name → Name) → List Member → Name → Tags → Option (Option Name)
unfolding walk
get_slot_name_on_primary str_lower ms name tags = walk str_lower (suc (length ms)) ms [] name tags

-- `m.replicatefrom == name and m.name != self.leader_name`
unfoldable pub streams_from : Name → Option Name → Member → Bool
unfolding is_set
streams_from name leader_name m =
    (elim m.tags.replicatefrom [ none ↦ false | some r ↦ name_eq r name ])
    && not (elim leader_name [ none ↦ false | some l ↦ name_eq m.name l ])

-- `any` of a loop that may not end.
unfoldable pub any_of : (Member → Option Bool) → List Member → Option Bool
any_of test [] = some false
any_of test (m ∷ ms) =
    let rest = any_of test ms in
    elim (test m) [ none ↦ none | some b ↦ if b then some true else rest ]

-- `should_enforce_hot_standby_feedback` of the node with the name and the tags. `has_logical` is
-- the answer of `_has_permanent_logical_slots`, and `use_slots` that of the configuration.
unfoldable pub should_enforce_hot_standby_feedback :
    (Name → Name)
    → (Name → Tags → Bool)
    → Bool
    → Option Name
    → List Member
    → ℕ
    → Name
    → Tags
    → Option Bool
unfolding any_of streams_from get_slot_name_on_primary is_set
should_enforce_hot_standby_feedback str_lower has_logical use_slots leader_name ms zero name tags =
    none
should_enforce_hot_standby_feedback str_lower has_logical use_slots leader_name ms (suc fuel) name
      tags =
    elim (has_logical name tags) [
      | true ↦ some true
      | false ↦ elim use_slots [
        | false ↦ some false
        | true ↦ elim (get_slot_name_on_primary str_lower ms name tags) [
          | none ↦ none
          | some slot ↦ elim (is_set slot) [
            | false ↦ some false
            | true ↦
                any_of
                  (λ m.
                    should_enforce_hot_standby_feedback str_lower has_logical use_slots leader_name
                      ms fuel m.name m.tags)
                  (keep (streams_from name leader_name) ms)
          ]
        ]
      ]
    ]
