-- ===== src/Tests/Slots.antt =====
-- Runs of the functions on replication slots of patroni/dcs/__init__.py on small clusters.
use metatroni.Prelude.{
  Memᴰ, ℕ, zero, suc, ◌≡◌, refl, true, false, Option, none, some, List, [], ◌∷◌, arith,
}
use metatroni.Names.{Name, name, name_eq, lower}
use metatroni.Names.Decimal.{str}
use metatroni.Dcs.SyncState.{is_set}
use metatroni.Dcs.Slots.{
  Tags, Member, slot_name_from_member_name, get_slot_name_on_primary,
  should_enforce_hot_standby_feedback,
}
use metatroni.Dcs.Slots.Members.{View, has_slot, get_members_slots}
use metatroni.Dcs.Slots.Found.{NamesOther, get_members_slots-primary}
use metatroni.Dcs.Slots.Valid.{IsSlotName, slot_name_from_member_name-IsSlotName}
use metatroni.Dcs.Slots.Walk.{Ending, get_slot_name_on_primary-Ending}

program : Unit {0}
unfolding get_members_slots has_slot lower str name_eq is_set slot_name_from_member_name
    get_slot_name_on_primary should_enforce_hot_standby_feedback
program = tt

slot_name_of_host : slot_name_from_member_name lower (name "Node-1.a!") ≡ name "node_1_au0033"
unfolding program
slot_name_of_host = refl

slot_name_from_member_name-IsSlotName_example :
    IsSlotName (slot_name_from_member_name lower (name "Node-1.a!"))
slot_name_from_member_name-IsSlotName_example =
    slot_name_from_member_name-IsSlotName lower (name "Node-1.a!") (unfold lower in omega arith)

abbrev from : Name → Tags
from n = record { nostream = false; replicatefrom = some n }

abbrev plain : Tags
plain = record { nostream = false; replicatefrom = none }

-- c streams from b, b from a, and a from the primary; d and e stream from each other.
abbrev cluster : List Member
cluster =
    record { name = name "a"; tags = plain; lsn = none }
    ∷ record { name = name "b"; tags = from (name "a"); lsn = none }
    ∷ record { name = name "c"; tags = from (name "b"); lsn = none }
    ∷ record { name = name "d"; tags = from (name "e"); lsn = none }
    ∷ record { name = name "e"; tags = from (name "d"); lsn = none }
    ∷ []

cascade :
    get_slot_name_on_primary lower cluster (name "c") (from (name "b")) ≡ some (some (name "a"))
unfolding program
cascade = refl

circle : get_slot_name_on_primary lower cluster (name "d") (from (name "e")) ≡ some none
unfolding program
circle = refl

get_slot_name_on_primary-Ending_example :
    (r : Option Name) × (get_slot_name_on_primary lower cluster (name "c") (from (name "b"))
      ≡ some r)
    × Ending cluster lower (name "c") (from (name "b")) r
get_slot_name_on_primary-Ending_example =
    get_slot_name_on_primary-Ending lower cluster (name "c") (from (name "b"))

abbrev view : View
view = record {
  members = record { name = name "p"; tags = plain; lsn = none } ∷ cluster;
  leader_name = some (name "p");
  leader_is_old = false;
  slots = (name "b", 7) ∷ [];
  retain_slots = name "old" ∷ [];
  use_slots = true;
  keeps_slots = false;
}

-- Only a streams from the primary; the slot of a node that has left is retained.
primary_slots :
    get_members_slots lower view (name "p") true false false
    ≡ (name "a", record { lsn = some 0; expected_active = some true })
      ∷ (name "old", record { lsn = none; expected_active = none })
      ∷ []
unfolding program
primary_slots = refl

replica_slots :
    get_members_slots lower view (name "a") false true false
    ≡ (name "b", record { lsn = some 7; expected_active = some true }) ∷ []
unfolding program
replica_slots = refl

-- A replica whose tag names the leader is told to look for the slot of the leader's own name.
leader_slot :
    (get_slot_name_on_primary lower view.members (name "b") (from (name "a"))
      ≡ some (some (name "a")))
    × (has_slot (name "a") (get_members_slots lower view (name "a") true false true) ≡ false)
unfolding program
leader_slot = (refl, refl)

plain-NamesOther : (n : Name) → NamesOther (record { name = n; tags = plain; lsn = none })
plain-NamesOther n r e = absurd cc

from-NamesOther :
    (n o : Name)
    → is_set (some o) ≡ true
    → name_eq o n ≡ false
    → NamesOther (record { name = n; tags = from o; lsn = none })
from-NamesOther n o set differs r e = let same : o ≡ r = cc e in rw⁻¹ same (set, differs)

view-NamesOther : (x : Member) → Memᴰ x view.members → NamesOther x
unfolding program
view-NamesOther x (Memᴰ.head e) = rw e (plain-NamesOther (name "p"))
view-NamesOther x (Memᴰ.tail (Memᴰ.head e)) = rw e (plain-NamesOther (name "a"))
view-NamesOther x (Memᴰ.tail (Memᴰ.tail (Memᴰ.head e))) =
    rw e (from-NamesOther (name "b") (name "a") refl refl)
view-NamesOther x (Memᴰ.tail (Memᴰ.tail (Memᴰ.tail (Memᴰ.head e)))) =
    rw e (from-NamesOther (name "c") (name "b") refl refl)
view-NamesOther x (Memᴰ.tail (Memᴰ.tail (Memᴰ.tail (Memᴰ.tail (Memᴰ.head e))))) =
    rw e (from-NamesOther (name "d") (name "e") refl refl)
view-NamesOther x (Memᴰ.tail (Memᴰ.tail (Memᴰ.tail (Memᴰ.tail (Memᴰ.tail (Memᴰ.head e)))))) =
    rw e (from-NamesOther (name "e") (name "d") refl refl)
view-NamesOther x (Memᴰ.tail (Memᴰ.tail (Memᴰ.tail (Memᴰ.tail (Memᴰ.tail (Memᴰ.tail k)))))) =
    elim k [ ]

get_members_slots-primary_example :
    has_slot (name "a") (get_members_slots lower view (name "p") true false true) ≡ true
unfolding program
get_members_slots-primary_example =
    get_members_slots-primary lower view (name "p") true
      (record { name = name "c"; tags = from (name "b"); lsn = none }) (name "a") refl
      view-NamesOther (Memᴰ.tail (Memᴰ.tail (Memᴰ.tail (Memᴰ.head refl)))) refl refl

-- A replica without logical slots that names itself: the recursion does not end.
abbrev alone : List Member
alone = record { name = name "a"; tags = from (name "a"); lsn = none } ∷ []

endless :
    (fuel : ℕ)
    → should_enforce_hot_standby_feedback lower
        (λ n t. false)
        true
        none
        alone
        fuel
        (name "a")
        (from (name "a"))
      ≡ none
unfolding program
endless zero = refl
endless (suc fuel) = rw (endless fuel)
