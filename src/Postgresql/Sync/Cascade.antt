-- ===== src/Postgresql/Sync/Cascade.antt =====
-- Where `_should_cascade` of patroni/postgresql/sync.py ends: along the members that replicate from
-- one another.
use metatroni.Prelude.{
  ℕ, zero, suc, ◌≡◌, refl, ◌<◌, Bool, true, false, none, some, arith, Bool-cases, Option-cases, inl,
  inr,
}
use metatroni.Names.{lower}
use metatroni.Collections.Dict.{CaseInsensitiveDict, has_key}
use metatroni.Dcs.SyncState.{is_set}
use metatroni.Postgresql.Sync.Replicas.{Member, Row, upstream, should_cascade}

-- Each of some members is further from the end of its chain than the one it replicates from, which
-- is another of them.
abbrev pub Ranked : (Member → Type 0) → (Member → ℕ) → CaseInsensitiveDict Member → Type 0
Ranked Inside rank members =
    (m u : Member) → Inside m → upstream members m ≡ some u → Inside u × rank u < rank m

-- Where the members on the way do not replicate from one another in a circle, the search ends: its
-- calls are no more than the members on the way.
pub should_cascade_terminates :
    (Inside : Member → Type 0) (rank : Member → ℕ) (members : CaseInsensitiveDict Member)
    (replication : CaseInsensitiveDict Row)
    → Ranked Inside rank members
    → (f : ℕ) (m : Member) → Inside m
    → rank m < f
    → (b : Bool) × (should_cascade f members replication m ≡ some b)
unfolding should_cascade
should_cascade_terminates Inside rank members replication h zero m i k = absurd (omega arith)
should_cascade_terminates Inside rank members replication h (suc f) m i k =
    elim (Option-cases (upstream members m)) [
      | inl end ↦ (false, rw (should_cascade, end) refl)
      | inr (u, e) ↦ elim (Bool-cases (is_set u.replicatefrom)) [
        | inl further ↦
            let (inside, less) = h m u i e in
            let (b, r) =
              should_cascade_terminates Inside rank members replication h f u inside
                (omega (arith, less, k)) in
            (b, rw (should_cascade, e, further) r)
        | inr last ↦ (has_key (lower u.name) replication, rw (should_cascade, e, last) refl)
      ]
    ]

-- The search through a circle of members that replicate from one another ends for no depth.
pub should_cascade_circle :
    (Circle : Member → Type 0) (members : CaseInsensitiveDict Member)
    (replication : CaseInsensitiveDict Row)
    → ((m : Member)
        → Circle m
        → (u : Member) × (upstream members m ≡ some u) × (is_set u.replicatefrom ≡ true) × Circle u)
    → (f : ℕ) (m : Member) → Circle m
    → should_cascade f members replication m ≡ none
unfolding should_cascade
should_cascade_circle Circle members replication h zero m k = refl
should_cascade_circle Circle members replication h (suc f) m k =
    let (u, e, further, next) = h m k in
    rw (should_cascade, e, further) (should_cascade_circle Circle members replication h f u next)
