-- ===== src/Dcs/Slots/Found.antt =====
-- The slots that `Cluster._get_members_slots` of patroni/dcs/__init__.py gives a primary, beside the slot
-- that `Cluster.get_slot_name_on_primary` tells the other nodes to look for there.
use metatroni.Prelude.{
  ◌≡◌, refl, sym, ap, ◌∙◌, Bool, true, false, Option, none, some, List, [], ◌∷◌, arith, keep,
  Bool-cases, Option-cases, if_cases, Memᴰ, Memᴰ-keep, inl, inr,
}
use metatroni.Names.{Name, name_eq, name_eq→eq, name_eq_refl, eq→name_eq}
use metatroni.Dcs.SyncState.{is_set}
use metatroni.Dcs.Slots.{
  Tags, Member, get_member, upstream_of, get_slot_name_on_primary, slot_name_from_member_name,
}
use metatroni.Dcs.Slots.Walk.{
  Streams, Ending, upstream_of-get_member, get_slot_name_on_primary-Ending,
}
use metatroni.Dcs.Slots.Members.{
  View, MemberSlot, leader_filter, expected_active, may_stream, with_slots, set_slot, has_slot,
  add_members, add_retained, retained, get_members_slots,
}

-- A tag replicatefrom that is there names a node, and not the member itself.
abbrev pub NamesOther : Member → Type 0
NamesOther m =
    (r : Name)
    → m.tags.replicatefrom ≡ some r
    → (is_set (some r) ≡ true) × (name_eq r m.name ≡ false)

get_member-Mem : (r : Name) (ms : List Member) (m : Member) → get_member r ms ≡ some m → Memᴰ m ms
unfolding get_member
get_member-Mem r [] m e = absurd cc
get_member-Mem r (x ∷ ms) m e = elim (Bool-cases (name_eq x.name r)) [
  | inl found ↦ let same : x ≡ m = cc (e, found) in Memᴰ.head (sym same)
  | inr other ↦
      let e' : get_member r ms ≡ some m = cc (e, other) in Memᴰ.tail (get_member-Mem r ms m e')
]

-- The node at the end of the way up is a member, if the first is.
Streams-Mem :
    (ms : List Member) (m : Member) (n : Name) (t : Tags)
    → Memᴰ m ms
    → Streams ms m.name m.tags n t
    → (x : Member) × Memᴰ x ms × (x.name ≡ n) × (x.tags ≡ t)
Streams-Mem ms m n t k Streams.here = (m, k, refl, refl)
Streams-Mem ms m n t k (Streams.up n' t' x s on e) =
    let (r, found) = upstream_of-get_member ms n' t'.replicatefrom x e in
    (x, get_member-Mem r ms x found, refl, refl)

has_slot-set_slot :
    (k : Name) (x : MemberSlot) (d : List (Name × MemberSlot)) → has_slot k (set_slot k x d) ≡ true
unfolding has_slot set_slot
has_slot-set_slot k x [] = rw (name_eq_refl k) refl
has_slot-set_slot k x (e ∷ d) = elim (Bool-cases (name_eq k e.0)) [
  | inl here ↦ rw (here, name_eq_refl k) refl
  | inr other ↦ ground (arith, other, has_slot-set_slot k x d)
]

has_slot-keeps :
    (j k : Name) (x : MemberSlot) (d : List (Name × MemberSlot))
    → has_slot j d ≡ true
    → has_slot j (set_slot k x d) ≡ true
unfolding has_slot set_slot
has_slot-keeps j k x [] h = absurd cc
has_slot-keeps j k x (e ∷ d) h = elim (Bool-cases (name_eq k e.0)) [
  | inl here ↦ rw (here, name_eq→eq k e.0 here) h
  | inr other ↦ ground (arith, other, has_slot-keeps j k x d)
]

has_slot-add_retained :
    (j : Name) (ks : List Name) (d : List (Name × MemberSlot))
    → has_slot j d ≡ true
    → has_slot j (add_retained ks d) ≡ true
unfolding add_retained
has_slot-add_retained j [] d h = h
has_slot-add_retained j (k ∷ ks) d h = has_slot-add_retained j ks _ (has_slot-keeps j k _ d h)

module _ (str_lower : Name → Name) (v : View) (name : Name) (leads : Bool) where
  has_slot-add_members :
      (j : Name) (ms : List Member) (d : List (Name × MemberSlot))
      → has_slot j d ≡ true
      → has_slot j (add_members str_lower v name leads ms d) ≡ true
  unfolding add_members
  has_slot-add_members j [] d h = h
  has_slot-add_members j (m ∷ ms) d h =
      has_slot-add_members j ms _
        (has_slot-keeps j (slot_name_from_member_name str_lower m.name) _ d h)

  add_members-Mem :
      (m : Member) (ms : List Member) (d : List (Name × MemberSlot))
      → Memᴰ m ms
      → has_slot
          (slot_name_from_member_name str_lower m.name)
          (add_members str_lower v name leads ms d)
        ≡ true
  unfolding add_members
  add_members-Mem m [] d k = elim k [ ]
  add_members-Mem m (x ∷ ms) d (Memᴰ.head e) = rw (ap (λ (y : Member). y.name) e) (
      has_slot-add_members (slot_name_from_member_name str_lower x.name) ms _
        (has_slot-set_slot (slot_name_from_member_name str_lower x.name) _ d))
  add_members-Mem m (x ∷ ms) d (Memᴰ.tail k) = add_members-Mem m ms _ k

upstream_of-gone :
    (ms : List Member) (name r : Name)
    → upstream_of ms name (some r) ≡ none
    → is_set (some r) ≡ true
    → name_eq r name ≡ false
    → get_member r ms ≡ none
unfolding upstream_of
upstream_of-gone ms name r e set differs = ground (arith, e, set, differs)

-- A member that has no node to stream from gets its slot on a leader.
leads_to :
    (v : View) (m : Member) (name : Name)
    → NamesOther m
    → upstream_of v.members m.name m.tags.replicatefrom ≡ none
    → leader_filter v.members name m ≡ true
unfolding leader_filter
leads_to v m name other e = elim (Option-cases m.tags.replicatefrom) [
  | inl no_tag ↦ rw no_tag refl
  | inr (r, tag) ↦
      let (set, differs) = other r tag in
      let e' : upstream_of v.members m.name (some r) ≡ none = rw⁻¹ tag e in
      rw (tag, upstream_of-gone v.members m.name r e' set differs) (ground arith)
]

with_slots-Mem :
    (v : View) (m : Member) (name : Name) (can_advance_slots : Bool)
    → Memᴰ m v.members
    → NamesOther m
    → upstream_of v.members m.name m.tags.replicatefrom ≡ none
    → m.tags.nostream ≡ false
    → name_eq m.name name ≡ false
    → Memᴰ m (with_slots v name true false can_advance_slots)
unfolding with_slots may_stream expected_active
with_slots-Mem v m name can_advance_slots k other e on differs =
    Memᴰ-keep _ m (keep (may_stream name) v.members)
      (Memᴰ-keep (may_stream name) m v.members k (ground (arith, on, differs)))
      (ground (arith, leads_to v m name other e))

-- The other members that stream from no member get a slot on a leader.
get_members_slots-Mem :
    (str_lower : Name → Name) (v : View) (name : Name) (can_advance_slots : Bool) (m : Member)
    → v.use_slots ≡ true
    → Memᴰ m v.members
    → NamesOther m
    → upstream_of v.members m.name m.tags.replicatefrom ≡ none
    → m.tags.nostream ≡ false
    → name_eq m.name name ≡ false
    → has_slot
        (slot_name_from_member_name str_lower m.name)
        (get_members_slots str_lower v name true false can_advance_slots)
      ≡ true
unfolding get_members_slots
get_members_slots-Mem str_lower v name can_advance_slots m uses k other e on differs =
    let own = slot_name_from_member_name str_lower m.name in
    let ret =
      add_members str_lower v name true (with_slots v name true false can_advance_slots) [] in
    if_cases (λ d. has_slot own d ≡ true) v.use_slots _ []
      (λ u. has_slot-add_retained own (retained str_lower v name false ret) ret (
        add_members-Mem str_lower v name true m (with_slots v name true false can_advance_slots) []
          (with_slots-Mem v m name can_advance_slots k other e on differs)))
      (λ u. absurd cc)

-- Names with different slot names differ.
other_name :
    (str_lower : Name → Name) (a b slot : Name)
    → slot_name_from_member_name str_lower a ≡ slot
    → name_eq slot (slot_name_from_member_name str_lower b) ≡ false
    → name_eq a b ≡ false
other_name str_lower a b slot e differs = elim (Bool-cases (name_eq a b)) [
  | inl same ↦
      let slot_same : slot ≡ slot_name_from_member_name str_lower b =
        sym e ∙ ap (slot_name_from_member_name str_lower) (name_eq→eq a b same) in
      absurd (ground (arith, eq→name_eq slot _ slot_same, differs))
  | inr other ↦ other
]

-- The slot that get_slot_name_on_primary names for a member is one that _get_members_slots gives
-- the primary, if use_slots is set, it is not the slot name of the primary itself, the primary is
-- not tagged nofailover, and each tag replicatefrom of the members names a node other than its own.
pub get_members_slots-primary :
    (str_lower : Name → Name) (v : View) (name : Name) (can_advance_slots : Bool) (m : Member)
    (slot : Name)
    → v.use_slots ≡ true
    → ((x : Member) → Memᴰ x v.members → NamesOther x)
    → Memᴰ m v.members
    → get_slot_name_on_primary str_lower v.members m.name m.tags ≡ some (some slot)
    → name_eq slot (slot_name_from_member_name str_lower name) ≡ false
    → has_slot slot (get_members_slots str_lower v name true false can_advance_slots) ≡ true
get_members_slots-primary str_lower v name can_advance_slots m slot uses others k found differs =
    let (r, e, ending) = get_slot_name_on_primary-Ending str_lower v.members m.name m.tags in
    go r ending (cc (found, e))
  where
    go :
        (r : Option Name)
        → Ending v.members str_lower m.name m.tags r
        → r ≡ some slot
        → has_slot slot (get_members_slots str_lower v name true false can_advance_slots) ≡ true
    go _ (Ending.arrived n t s on end) e =
        let (x, among, named, tagged) = Streams-Mem v.members m n t k s in
        let is_slot : slot_name_from_member_name str_lower x.name ≡ slot = cc (named, e) in
        rw⁻¹ is_slot (
          get_members_slots-Mem str_lower v name can_advance_slots x uses among (others x among)
            (rw (named, tagged) end) (rw tagged on)
            (other_name str_lower x.name name slot is_slot differs))
    go _ (Ending.stopped n t s off) e = absurd cc
    go _ (Ending.circled n t n' t' x s s' on next back) e = absurd cc
