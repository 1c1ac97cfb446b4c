-- ===== src/Dcs/Slots/Members.antt =====
-- `Cluster._get_members_slots` of patroni/dcs/__init__.py. The two filters of members are functions
-- here; the logged conflicts of names are left out.
use metatroni.Prelude.{
  ℕ, Bool, true, false, not, ◌&&◌, ◌||◌, Option, none, some, List, [], ◌∷◌, if◌then◌else◌, max,
  keep,
}
use metatroni.Names.{Name, name_eq}
use metatroni.Dcs.SyncState.{is_set}
use metatroni.Dcs.Slots.{Member, get_member, streams_from, slot_name_from_member_name}

-- What the method reads of the cluster view and the configuration. `leader_is_old` says that the
-- leader runs a version below 4.0.0, `keeps_slots` that `member_slots_ttl` is positive.
pub record View : Type 0 where
  pub members : List Member
  pub leader_name : Option Name
  pub leader_is_old : Bool
  pub slots : List (Name × ℕ)
  pub retain_slots : List Name
  pub use_slots : Bool
  pub keeps_slots : Bool

-- The attributes of a slot; the type is always physical, and a retained slot has no others.
pub record MemberSlot : Type 0 where
  pub lsn : Option ℕ
  pub expected_active : Option Bool

-- `leader_filter` on the node with the name
unfoldable pub leader_filter : List Member → Name → Member → Bool
unfolding get_member
leader_filter ms name m = elim m.tags.replicatefrom [
  | none ↦ true
  | some r ↦ name_eq r name || (elim (get_member r ms) [ none ↦ true | some x ↦ false ])
]

-- `expected_active`; `leads` says that the role is primary or standby leader.
unfoldable pub expected_active : View → Name → Bool → Member → Bool
unfolding leader_filter streams_from
expected_active v name leads m =
    if leads then leader_filter v.members name m else streams_from name v.leader_name m

-- `m.name != name and not m.nostream`
unfoldable pub may_stream : Name → Member → Bool
may_stream name m = not (name_eq m.name name) && not m.tags.nostream

unfoldable pub replicates_from : Name → Member → Bool
replicates_from name m = elim m.tags.replicatefrom [ none ↦ false | some r ↦ name_eq r name ]

-- The members that get a slot.
unfoldable pub with_slots : View → Name → Bool → Bool → Bool → List Member
unfolding expected_active may_stream replicates_from
with_slots v name leads nofailover can_advance_slots =
    keep
      (λ m.
        if can_advance_slots && v.keeps_slots
        then not nofailover || replicates_from name m
        else expected_active v name leads m)
      (keep (may_stream name) v.members)

-- `d[k] = x`
unfoldable pub set_slot : Name → MemberSlot → List (Name × MemberSlot) → List (Name × MemberSlot)
set_slot k x [] = (k, x) ∷ []
set_slot k x (e ∷ d) = let rest = set_slot k x d in if name_eq k e.0 then (k, x) ∷ d else e ∷ rest

-- `k in d`
unfoldable pub has_slot : Name → List (Name × MemberSlot) → Bool
has_slot k [] = false
has_slot k (e ∷ d) = name_eq k e.0 || has_slot k d

-- `slots.get(slot_name, 0)`
unfoldable pub slot_lsn : Name → List (Name × ℕ) → ℕ
slot_lsn k [] = 0
slot_lsn k (e ∷ d) = let rest = slot_lsn k d in if name_eq k e.0 then e.1 else rest

-- The LSN of the slot of a member.
unfoldable pub member_lsn : (Name → Name) → View → Member → ℕ
unfolding slot_lsn slot_name_from_member_name is_set
member_lsn str_lower v m =
    let lsn = slot_lsn (slot_name_from_member_name str_lower m.name) v.slots in
    if is_set m.tags.replicatefrom || v.leader_is_old
    then max (elim m.lsn [ none ↦ 0 | some l ↦ l ]) lsn
    else lsn

-- The loop over the members.
unfoldable pub add_members :
    (Name → Name)
    → View
    → Name
    → Bool
    → List Member
    → List (Name × MemberSlot)
    → List (Name × MemberSlot)
unfolding set_slot member_lsn expected_active slot_name_from_member_name
add_members str_lower v name leads [] ret = ret
add_members str_lower v name leads (m ∷ ms) ret = add_members str_lower v name leads ms (
    set_slot (slot_name_from_member_name str_lower m.name)
      (record {
        lsn = some (member_lsn str_lower v m);
        expected_active = some (expected_active v name leads m);
      })
      ret)

-- The slots of `retain_slots` that are not in `ret`.
unfoldable pub retained : (Name → Name) → View → Name → Bool → List (Name × MemberSlot) → List Name
unfolding has_slot slot_name_from_member_name
retained str_lower v name nofailover ret =
    let own = slot_name_from_member_name str_lower name in
    keep (λ k. not nofailover && (not (has_slot k ret) && not (name_eq k own))) v.retain_slots

-- `ret.update` with the slots to retain.
unfoldable pub add_retained : List Name → List (Name × MemberSlot) → List (Name × MemberSlot)
unfolding set_slot
add_retained [] ret = ret
add_retained (k ∷ ks) ret =
    add_retained ks (set_slot k (record { lsn = none; expected_active = none }) ret)

unfoldable pub get_members_slots :
    (Name → Name) → View → Name → Bool → Bool → Bool → List (Name × MemberSlot)
unfolding with_slots add_members add_retained retained
get_members_slots str_lower v name leads nofailover can_advance_slots =
    if v.use_slots
    then (let ret =
          add_members str_lower v name leads (with_slots v name leads nofailover can_advance_slots)
            [] in
        add_retained (retained str_lower v name nofailover ret) ret)
    else []
