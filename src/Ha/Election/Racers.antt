-- ===== src/Ha/Election/Racers.antt =====
-- The nodes among which `Ha.is_healthiest_node` (patroni/ha.py) holds the race.
use metatroni.Prelude.{
  ◌≡◌, refl, sym, ap, ◌∙◌, ◌⊎◌, inl, inr, true, false, not, List, [], ◌∷◌, ◌++◌, keep, some, arith,
  if◌then◌else◌, Bool-cases, Option-cases, Memᴰ, keep-Memᴰ, Memᴰ-keep, append-Memᴰ,
  Memᴰ-append_left, Memᴰ-append_right,
}
use metatroni.Names.{Name, name_eq, name_eq→eq}
use metatroni.Dcs.SyncState.{matches}
use metatroni.Ha.Race.{Candidate}
use metatroni.Ha.Election.{Ha, sync_mode_is_active}
use metatroni.Ha.Election.Health.{
  put_member, put_members, names_any, failsafe_members, is_left_out, all_known_members, racers,
}

-- One of the nodes has the name.
abbrev pub Named : Name → List Candidate → Type 0
Named n ns = (x : Candidate) × Memᴰ x ns × (x.name ≡ n)

put_member-from :
    (m : Candidate) (ns : List Candidate) (x : Candidate)
    → Memᴰ x (put_member m ns)
    → (x ≡ m) ⊎ Memᴰ x ns
unfolding put_member
put_member-from m [] x (Memᴰ.head e) = inl e
put_member-from m [] x (Memᴰ.tail k) = elim k [ ]
put_member-from m (n ∷ ns) x k = elim (Bool-cases (name_eq m.name n.name)) [
  | inl same ↦ elim (rw same at k) [ Memᴰ.head e ↦ inl e | Memᴰ.tail t ↦ inr (Memᴰ.tail t) ]
  | inr other ↦ elim (rw other at k) [
    | Memᴰ.head e ↦ inr (Memᴰ.head e)
    | Memᴰ.tail t ↦ elim (put_member-from m ns x t) [
      | inl new ↦ inl new
      | inr old ↦ inr (Memᴰ.tail old)
    ]
  ]
]

put_member-new : (m : Candidate) (ns : List Candidate) → Memᴰ m (put_member m ns)
unfolding put_member
put_member-new m [] = Memᴰ.head refl
put_member-new m (n ∷ ns) = elim (Bool-cases (name_eq m.name n.name)) [
  | inl same ↦ rw same (Memᴰ.head refl)
  | inr other ↦ rw other (Memᴰ.tail (put_member-new m ns))
]

further : (n : Name) (m : Candidate) (ns : List Candidate) → Named n ns → Named n (m ∷ ns)
further n m ns (x, k, e) = (x, Memᴰ.tail k, e)

put_member-kept :
    (m : Candidate) (ns : List Candidate) (x : Candidate)
    → Memᴰ x ns
    → Named x.name (put_member m ns)
unfolding put_member
put_member-kept m [] x k = elim k [ ]
put_member-kept m (n ∷ ns) x (Memᴰ.head e) = elim (Bool-cases (name_eq m.name n.name)) [
  | inl same ↦
      rw same
        (m, Memᴰ.head refl, name_eq→eq m.name n.name same ∙ ap (λ (y : Candidate). y.name) (sym e))
  | inr other ↦ rw other (x, Memᴰ.head e, refl)
]
put_member-kept m (n ∷ ns) x (Memᴰ.tail k) = elim (Bool-cases (name_eq m.name n.name)) [
  | inl same ↦ rw same (x, Memᴰ.tail k, refl)
  | inr other ↦ rw other (further x.name n (put_member m ns) (put_member-kept m ns x k))
]

put_members-from :
    (ms ns : List Candidate) (x : Candidate) → Memᴰ x (put_members ms ns) → Memᴰ x ms ⊎ Memᴰ x ns
unfolding put_members
put_members-from [] ns x k = inr k
put_members-from (m ∷ ms) ns x k = elim (put_members-from ms (put_member m ns) x k) [
  | inl later ↦ inl (Memᴰ.tail later)
  | inr now ↦ elim (put_member-from m ns x now) [
    | inl new ↦ inl (Memᴰ.head new)
    | inr old ↦ inr old
  ]
]

put_members-kept : (ms ns : List Candidate) (n : Name) → Named n ns → Named n (put_members ms ns)
unfolding put_members
put_members-kept [] ns n k = k
put_members-kept (m ∷ ms) ns n (x, k, e) =
    let (y, there, same) = put_member-kept m ns x k in
    put_members-kept ms (put_member m ns) n (y, there, same ∙ e)

put_members-all :
    (ms ns : List Candidate) (x : Candidate) → Memᴰ x ms → Named x.name (put_members ms ns)
unfolding put_members
put_members-all [] ns x k = elim k [ ]
put_members-all (m ∷ ms) ns x (Memᴰ.head e) =
    put_members-kept ms (put_member m ns) x.name
      (m, put_member-new m ns, ap (λ (y : Candidate). y.name) (sym e))
put_members-all (m ∷ ms) ns x (Memᴰ.tail k) = put_members-all ms (put_member m ns) x k

-- The node is a member of the old or the new cluster view, or of `/failsafe` where the mode is on.
abbrev pub Known : Ha → Candidate → Type 0
Known h x =
    Memᴰ x h.old_members
    ⊎ (Memᴰ x h.members
        ⊎ ((h.is_failsafe_mode ≡ true)
            × (ms : List Candidate) × (h.failsafe ≡ some ms)
            × Memᴰ x ms))

failsafe_members-from :
    (h : Ha) (x : Candidate)
    → Memᴰ x (failsafe_members h)
    → (h.is_failsafe_mode ≡ true) × (ms : List Candidate) × (h.failsafe ≡ some ms) × Memᴰ x ms
unfolding failsafe_members
failsafe_members-from h x k = elim (Bool-cases h.is_failsafe_mode) [
  | inr off ↦ elim (rw off at k) [ ]
  | inl on ↦ elim (Option-cases h.failsafe) [
    | inl missing ↦ elim (rw (on, missing) at k) [ ]
    | inr (ms, e) ↦ (on, ms, e, rw (on, e) at k)
  ]
]

failsafe_members-on :
    (h : Ha) (ms : List Candidate)
    → h.is_failsafe_mode ≡ true
    → h.failsafe ≡ some ms
    → failsafe_members h ≡ ms
unfolding failsafe_members
failsafe_members-on h ms on e = rw (on, e) refl

all_known_members-Known : (h : Ha) (x : Candidate) → Memᴰ x (all_known_members h) → Known h x
unfolding all_known_members
all_known_members-Known h x k =
    elim (append-Memᴰ (h.old_members ++ failsafe_members h) h.members x k) [
      | inr new ↦ inr (inl new)
      | inl rest ↦ elim (append-Memᴰ h.old_members (failsafe_members h) x rest) [
        | inl old ↦ inl old
        | inr listed ↦ inr (inr (failsafe_members-from h x listed))
      ]
    ]

Known-all_known_members : (h : Ha) (x : Candidate) → Known h x → Memᴰ x (all_known_members h)
unfolding all_known_members
Known-all_known_members h x (inl old) =
    Memᴰ-append_left (h.old_members ++ failsafe_members h) h.members x
      (Memᴰ-append_left h.old_members (failsafe_members h) x old)
Known-all_known_members h x (inr (inl new)) =
    Memᴰ-append_right (h.old_members ++ failsafe_members h) h.members x new
Known-all_known_members h x (inr (inr (on, ms, e, k))) =
    let listed : Memᴰ x (failsafe_members h) = rw (failsafe_members-on h ms on e) k in
    Memᴰ-append_left (h.old_members ++ failsafe_members h) h.members x
      (Memᴰ-append_right h.old_members (failsafe_members h) x listed)

-- The nodes of the race are known, and in synchronous mode those of the `/sync` key; each such name
-- has its node.
pub record AreRacers (h : Ha) (ns : List Candidate) : Type 0 where
  pub known : (x : Candidate) → Memᴰ x ns → Known h x
  pub in_key :
      (x : Candidate)
      → sync_mode_is_active h ≡ true
      → Memᴰ x ns
      → matches h.race.sync (some x.name) true ≡ true
  pub complete :
      (x : Candidate)
      → Known h x
      → (sync_mode_is_active h ≡ true → matches h.race.sync (some x.name) true ≡ true)
      → Named x.name ns

chosen : Ha → List Candidate
chosen h =
    if sync_mode_is_active h
    then keep (λ m. matches h.race.sync (some m.name) true) (all_known_members h)
    else all_known_members h

chosen-from :
    (h : Ha) (x : Candidate)
    → Memᴰ x (chosen h)
    → Memᴰ x (all_known_members h)
      × (sync_mode_is_active h ≡ true → matches h.race.sync (some x.name) true ≡ true)
unfolding chosen
chosen-from h x k = elim (Bool-cases (sync_mode_is_active h)) [
  | inl on ↦
      let (there, listed) = keep-Memᴰ _ (all_known_members h) x (rw on at k) in (there, λ e. listed)
  | inr off ↦ (rw off at k, λ e. absurd (cc (off, e)))
]

chosen-all :
    (h : Ha) (x : Candidate)
    → Memᴰ x (all_known_members h)
    → (sync_mode_is_active h ≡ true → matches h.race.sync (some x.name) true ≡ true)
    → Memᴰ x (chosen h)
unfolding chosen
chosen-all h x k listed = elim (Bool-cases (sync_mode_is_active h)) [
  | inl on ↦ rw on (Memᴰ-keep _ x (all_known_members h) k (listed on))
  | inr off ↦ rw off k
]

racers-chosen : (h : Ha) → racers h ≡ put_members (chosen h) []
unfolding racers chosen
racers-chosen h = refl

racer-chosen : (h : Ha) (x : Candidate) → Memᴰ x (racers h) → Memᴰ x (chosen h)
racer-chosen h x k = elim (put_members-from (chosen h) [] x (rw (racers-chosen h) at k)) [
  | inl there ↦ there
  | inr nothing ↦ elim nothing [ ]
]

pub racers-AreRacers : (h : Ha) → AreRacers h (racers h)
racers-AreRacers h = record {
  known = λ x k. all_known_members-Known h x (chosen-from h x (racer-chosen h x k)).0;
  in_key = λ x on k. (chosen-from h x (racer-chosen h x k)).1 on;
  complete = λ x k listed.
      rw (racers-chosen h)
        (put_members-all (chosen h) [] x (chosen-all h x (Known-all_known_members h x k) listed));
}

names_any-Named : (n : Name) (ms : List Candidate) → names_any n ms ≡ true → Named n ms
unfolding names_any
names_any-Named n [] h = absurd cc
names_any-Named n (m ∷ ms) h = elim (Bool-cases (name_eq n m.name)) [
  | inl here ↦ (m, Memᴰ.head refl, sym (name_eq→eq n m.name here))
  | inr other ↦ further n m ms (names_any-Named n ms (rw other at h))
]

-- A node that is not left out is a member of `/failsafe`, where the mode is on and it has members.
pub is_left_out-Named :
    (h : Ha) (m : Candidate) (ms : List Candidate)
    → is_left_out h ≡ false
    → h.is_failsafe_mode ≡ true
    → h.failsafe ≡ some (m ∷ ms)
    → Named h.race.name (m ∷ ms)
unfolding is_left_out
is_left_out-Named h m ms out on e =
    names_any-Named h.race.name (m ∷ ms) (listed (rw (failsafe_members-on h (m ∷ ms) on e) at out))
  where
    listed : not (names_any h.race.name (m ∷ ms)) ≡ false → names_any h.race.name (m ∷ ms) ≡ true
    listed o = ground (arith, o)
