-- ===== src/Dcs/Slots/Walk.antt =====
-- Where the loop of `Cluster.get_slot_name_on_primary` of patroni/dcs/__init__.py ends.
use metatroni.Prelude.{
  ℕ, zero, suc, ◌≡◌, ◌∙◌, ◌≤◌, ◌<◌, true, false, Option, none, some, List, [], ◌∷◌, arith, length,
  if◌then◌else◌, Bool-cases, Option-cases, inl, inr,
}
use metatroni.Names.{Name, name_eq, name_eq→eq, name_eq_refl}
use metatroni.Dcs.Slots.{
  Tags, Member, get_member, upstream_of, is_seen, walk, get_slot_name_on_primary,
  slot_name_from_member_name,
}

module _ (ms : List Member) where
  -- From a node up the members that the nodes on the way stream from.
  pub data Streams (name : Name) (tags : Tags) : Name → Tags → Type 0 where
    here : Streams name tags name tags
    up :
        (n : Name) (t : Tags) (m : Member)
        → Streams name tags n t
        → t.nostream ≡ false
        → upstream_of ms n t.replicatefrom ≡ some m
        → Streams name tags m.name m.tags

  -- How the way up ends: on a node that streams from the primary, on one that does not stream, or
  -- by coming back to a node.
  pub data Ending (str_lower : Name → Name) (name : Name) (tags : Tags) : Option Name → Type 0 where
    arrived :
        (n : Name) (t : Tags)
        → Streams name tags n t
        → t.nostream ≡ false
        → upstream_of ms n t.replicatefrom ≡ none
        → Ending str_lower name tags (some (slot_name_from_member_name str_lower n))
    stopped :
        (n : Name) (t : Tags)
        → Streams name tags n t
        → t.nostream ≡ true
        → Ending str_lower name tags none
    circled :
        (n : Name) (t : Tags) (n' : Name) (t' : Tags) (m : Member)
        → Streams name tags n t
        → Streams n t n' t'
        → t'.nostream ≡ false
        → upstream_of ms n' t'.replicatefrom ≡ some m
        → m.name ≡ n
        → Ending str_lower name tags none

  -- The way passes through every node that was seen.
  abbrev AllPassed : (name : Name) (tags : Tags) → Name → Tags → List Name → Type 0
  AllPassed name tags n t [] = Unit {0}
  AllPassed name tags n t (k ∷ seen) =
      ((u : Tags) × Streams name tags k u × Streams k u n t) × AllPassed name tags n t seen

  AllPassed-up :
      (name : Name) (tags : Tags) (n : Name) (t : Tags) (m : Member) (seen : List Name)
      → t.nostream ≡ false
      → upstream_of ms n t.replicatefrom ≡ some m
      → AllPassed name tags n t seen
      → AllPassed name tags m.name m.tags seen
  AllPassed-up name tags n t m [] h e p = tt
  AllPassed-up name tags n t m (k ∷ seen) h e p =
      let (u, before, after) = p.0 in
      ((u, before, up n t m after h e), AllPassed-up name tags n t m seen h e p.1)

  AllPassed-is_seen :
      (name : Name) (tags : Tags) (n : Name) (t : Tags) (x : Name) (seen : List Name)
      → AllPassed name tags n t seen
      → is_seen x seen ≡ true
      → (k : Name) × (u : Tags) × (x ≡ k) × Streams name tags k u × Streams k u n t
  unfolding is_seen
  AllPassed-is_seen name tags n t x [] p h = absurd cc
  AllPassed-is_seen name tags n t x (k ∷ seen) p h = elim (Bool-cases (name_eq x k)) [
    | inl same ↦ let (u, before, after) = p.0 in (k, u, name_eq→eq x k same, before, after)
    | inr other ↦ AllPassed-is_seen name tags n t x seen p.1 (ground arith)
  ]

-- The members that were not seen yet.
unseen : List Name → List Member → ℕ
unseen seen [] = 0
unseen seen (m ∷ ms) = let rest = unseen seen ms in if is_seen m.name seen then rest else suc rest

unseen-le : (seen : List Name) (ms : List Member) → unseen seen ms ≤ length ms
unfolding unseen
unseen-le seen [] = omega arith
unseen-le seen (m ∷ ms) = ground (arith, unseen-le seen ms)

unseen-more :
    (n : Name) (seen : List Name) (ms : List Member) → unseen (n ∷ seen) ms ≤ unseen seen ms
unfolding unseen is_seen
unseen-more n seen [] = omega arith
unseen-more n seen (m ∷ ms) = ground (arith, unseen-more n seen ms)

unseen-found :
    (r : Name) (m : Member) (seen : List Name) (ms : List Member)
    → get_member r ms ≡ some m
    → is_seen m.name seen ≡ false
    → unseen (m.name ∷ seen) ms < unseen seen ms
unfolding unseen get_member is_seen
unseen-found r m seen [] e h = absurd cc
unseen-found r m seen (x ∷ ms) e h = elim (Bool-cases (name_eq x.name r)) [
  | inl found ↦
      let same : x ≡ m = cc (e, found) in
      rw same (rw (name_eq_refl m.name, h) (omega (arith, unseen-more m.name seen ms)))
  | inr other ↦
      let e' : get_member r ms ≡ some m = cc (e, other) in
      ground (arith, unseen-found r m seen ms e' h)
]

pub upstream_of-get_member :
    (ms : List Member) (n : Name) (from : Option Name) (m : Member)
    → upstream_of ms n from ≡ some m
    → (r : Name) × (get_member r ms ≡ some m)
unfolding upstream_of
upstream_of-get_member ms n none m e = absurd cc
upstream_of-get_member ms n (some r) m e = (r, ground arith)

walk-up :
    (str_lower : Name → Name) (ms : List Member) (fuel : ℕ) (seen : List Name) (n : Name) (t : Tags)
    (m : Member)
    → t.nostream ≡ false
    → upstream_of ms n t.replicatefrom ≡ some m
    → is_seen m.name (n ∷ seen) ≡ false
    → walk str_lower (suc fuel) ms seen n t ≡ walk str_lower fuel ms (n ∷ seen) m.name m.tags
unfolding walk
walk-up str_lower ms fuel seen n t m on next new = cc

module _ (str_lower : Name → Name) (ms : List Member) (name : Name) (tags : Tags) where
  walk-Ending :
      (fuel : ℕ) (seen : List Name) (n : Name) (t : Tags)
      → unseen (n ∷ seen) ms < fuel
      → Streams ms name tags n t
      → AllPassed ms name tags n t seen
      → (r : Option Name) × (walk str_lower fuel ms seen n t ≡ some r)
        × Ending ms str_lower name tags r
  unfolding walk
  walk-Ending zero seen n t h s p = absurd (omega arith)
  walk-Ending (suc fuel) seen n t h s p = elim (Bool-cases t.nostream) [
    | inl off ↦ (none, cc, stopped n t s off)
    | inr on ↦ elim (Option-cases (upstream_of ms n t.replicatefrom)) [
      | inl end ↦ (some (slot_name_from_member_name str_lower n), cc, arrived n t s on end)
      | inr (m, next) ↦ elim (Bool-cases (is_seen m.name (n ∷ seen))) [
        | inl again ↦
            let (k, u, e, before, after) =
              AllPassed-is_seen ms name tags n t m.name (n ∷ seen) ((t, s, here), p) again in
            (none, cc, circled k u n t m before after on next e)
        | inr new ↦
            let (r, e, ending) =
              walk-Ending fuel (n ∷ seen) m.name m.tags (closer m next new) (up n t m s on next)
                (AllPassed-up ms name tags n t m (n ∷ seen) on next ((t, s, here), p)) in
            (r, walk-up str_lower ms fuel seen n t m on next new ∙ e, ending)
      ]
    ]
  ]
    where
      closer :
          (m : Member)
          → upstream_of ms n t.replicatefrom ≡ some m
          → is_seen m.name (n ∷ seen) ≡ false
          → unseen (m.name ∷ n ∷ seen) ms < fuel
      closer m next new =
          let (r, e) = upstream_of-get_member ms n t.replicatefrom m next in
          omega (arith, h, unseen-found r m (n ∷ seen) ms e new)

  -- The loop ends within one round more than there are members. A slot name that it gives is that
  -- of a node up the way that the tags tell, which streams and follows no member; it gives none
  -- only where the way comes to a node that does not stream or back to a node.
  pub get_slot_name_on_primary-Ending :
      (r : Option Name) × (get_slot_name_on_primary str_lower ms name tags ≡ some r)
      × Ending ms str_lower name tags r
  unfolding get_slot_name_on_primary
  get_slot_name_on_primary-Ending =
      walk-Ending (suc (length ms)) [] name tags (omega (arith, unseen-le (name ∷ []) ms)) here tt
