-- ===== src/Tests/Multisync.antt =====
-- `Ha._process_multisync_replication` (patroni/ha.py) where a new standby has caught up.
use metatroni.Prelude.{◌≡◌, refl, false, List, [], ◌∷◌, Option, some, none, map}
use metatroni.Prelude.Int.{pos}
use metatroni.Names.{Name, name}
use metatroni.Collections.{
  contains, add, add_all, from_list, inter, is_empty, set_eq, issubset, all_in, CaseInsensitiveSet,
}
use metatroni.Dcs.SyncState.Laws.{IsPlain}
use metatroni.Postgresql.Sync.Parser.{SyncType}
use metatroni.Ha.Multisync.{
  World, Seen, write, promote, assign, narrow, repair, take_over, process_multisync_replication,
}
use metatroni.Ha.Multisync.Order.{IsSeen, AllCovered, process_multisync_replication-AllCovered}
use metatroni.Tests.Replication.{program as replication_program, takes}

program : Unit {0}
unfolding replication_program contains add add_all from_list inter is_empty set_eq issubset all_in
    write promote assign narrow repair take_over process_multisync_replication
program = tt

abbrev start : World
start = record {
  sync = record {
    version = some 4;
    leader = some (name "a");
    sync_standby = some (name "b");
    quorum = pos 0;
  };
  names = name "b" ∷ [];
}

-- The standby b is gone, and c is to take its place.
abbrev seen : Seen
seen = record {
  name = name "a";
  is_synchronous_mode_strict = false;
  current = record {
    sync_type = SyncType.priority;
    numsync = 1;
    sync = name "b" ∷ [];
    chosen = record { active = name "c" ∷ []; sync_confirmed = [] };
  };
  confirmed_later = name "c" ∷ [];
}

-- The voters and the setting: the key is emptied, the setting is changed, and the key names c.
abbrev texts : List World → List (Option Name × CaseInsensitiveSet)
texts = map (λ (w : World). (w.sync.sync_standby, w.names))

replaced :
    texts (process_multisync_replication takes seen start)
    ≡ (none, name "b" ∷ []) ∷ (none, name "c" ∷ []) ∷ (some (name "c"), name "c" ∷ []) ∷ []
unfolding program
replaced = refl

a-IsPlain' : IsPlain (name "a")
unfolding program
a-IsPlain' = record { nonempty = refl; no_comma = refl; stripped = refl }

c-IsPlain' : IsPlain (name "c")
unfolding program
c-IsPlain' = record { nonempty = refl; no_comma = refl; stripped = refl }

seen-IsSeen : IsSeen seen start
unfolding program
seen-IsSeen = record {
  name = a-IsPlain';
  plain = tt;
  plain_later = (c-IsPlain', tt);
  active = λ x k. absurd (cc);
  later = λ x k. k;
  listed = λ x k. absurd (cc);
}

process_multisync_replication-AllCovered_example :
    AllCovered (process_multisync_replication takes seen start)
process_multisync_replication-AllCovered_example =
    process_multisync_replication-AllCovered takes seen start seen-IsSeen
