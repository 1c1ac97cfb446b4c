-- ===== src/Tests/Quorum.antt =====
-- Runs of `QuorumStateResolver` (patroni/quorum.py): the cases of tests/test_quorum.py.
use Prim.Native.Char.{code}
use Prim.Native.String.{String}
use metatroni.Prelude.{◌≡◌, refl, Bool, true, false, ◌&&◌, ◌==◌, List, [], ◌∷◌, ℕ}
use metatroni.Names.{name, name_eq, name_le, lower, lower_code, same}
use metatroni.Collections.{
  CaseInsensitiveSet, contains, add, discard, add_all, from_list, is_empty, all_in, union, inter,
  diff, issubset, is_proper_subset, set_eq, sorted, insert_sorted, sorted_reverse, discard_all,
  inter_update,
}
use metatroni.Quorum.Kinds.{TransitionType}
use metatroni.Quorum.State.{
  Transition, Result, ok, err, init, get, put, pure, yield, raise, raise_if, on_quorum_error,
  quorum_error, ◌>>=◌,
}
use metatroni.Quorum.Updates.{
  check_invariants, adjust, is_unchanged, sync_key, set_quorum, hint_restart, set_quorum_if_changed,
  quorum_update, sync_names, set_sync, sync_update, overlaps, sets_match,
}
use metatroni.Quorum.Stages.{
  sync_below_voters, sync_above_voters, use_margin, handle_non_steady_cases, remove_all_nodes,
  reduce_quorum, reduce_numsync, remove_gone_nodes, first_to_add, increase_numsync, increase_quorum,
  add_new_nodes, handle_replication_factor_change,
}
use metatroni.Quorum.Resolver.{
  voters_after_failover, change_leader, check_leader, recover, confirm_numsync, settle,
  generate_transitions, same_type, merge, merged, transitions,
}

-- All that a run computes with.
unfoldable pub program : Unit {0}
unfolding name_eq name_le lower lower_code same contains add discard add_all from_list is_empty
    all_in union inter diff issubset is_proper_subset set_eq sorted insert_sorted sorted_reverse
    discard_all inter_update init get put pure yield raise raise_if on_quorum_error ◌>>=◌
    check_invariants adjust is_unchanged sync_key set_quorum hint_restart set_quorum_if_changed
    quorum_update sync_names set_sync sync_update overlaps sets_match sync_below_voters
    sync_above_voters use_margin handle_non_steady_cases remove_all_nodes reduce_quorum
    reduce_numsync remove_gone_nodes first_to_add increase_numsync increase_quorum add_new_nodes
    handle_replication_factor_change voters_after_failover change_leader check_leader recover
    confirm_numsync settle generate_transitions same_type merge merged transitions
program = tt

-- `set("abc")`: the names of one letter each.
abbrev pub letters : String → CaseInsensitiveSet
letters String.[] = []
letters (String.◌∷◌ c s) = (code c ∷ []) ∷ letters s

abbrev pub sync_to : String → ℕ → String → Transition
sync_to l n s = record {
  transition_type = TransitionType.sync;
  leader = name l;
  num = n;
  names = letters s;
}

abbrev pub quorum_to : String → ℕ → String → Transition
quorum_to l n s = record {
  transition_type = TransitionType.quorum;
  leader = name l;
  num = n;
  names = letters s;
}

abbrev pub restart_to : String → ℕ → String → Transition
restart_to l n s = record {
  transition_type = TransitionType.restart;
  leader = name l;
  num = n;
  names = letters s;
}

unfoldable agree : List Transition → List Transition → Bool
agree [] [] = true
agree (t ∷ ts) (u ∷ us) =
    same_type t.transition_type u.transition_type
    && (name_eq t.leader u.leader)
    && (t.num == u.num)
    && (set_eq t.names u.names)
    && agree ts us
agree _ _ = false

-- `self.assertEqual(result, expected)`
unfoldable agrees : Result (List Transition) → List Transition → Bool
unfolding agree program
agrees (ok ts) us = agree ts us
agrees (err e) us = false

test_1111_1 :
    agrees
      (transitions (init (name "a") 0 (letters "") 0 (letters "") 0 (letters "b") 2 (name "a")))
      (sync_to "a" 1 "b" ∷ restart_to "a" 0 "" ∷ [])
    ≡ true
unfolding agrees
test_1111_1 = refl

test_1111_2 :
    agrees
      (transitions (init (name "a") 0 (letters "") 1 (letters "b") 1 (letters "b") 2 (name "a")))
      (quorum_to "a" 0 "b" ∷ [])
    ≡ true
unfolding agrees
test_1111_2 = refl

test_1111_3 :
    agrees
      (transitions (init (name "a") 0 (letters "") 0 (letters "") 0 (letters "bcde") 2 (name "a")))
      (sync_to "a" 2 "bcde" ∷ restart_to "a" 0 "" ∷ [])
    ≡ true
unfolding agrees
test_1111_3 = refl

test_1111_4 :
    agrees
      (transitions
        (init (name "a") 0 (letters "") 2 (letters "bcde") 1 (letters "bcde") 2 (name "a")))
      (quorum_to "a" 3 "bcde" ∷ [])
    ≡ true
unfolding agrees
test_1111_4 = refl

test_1222_1 :
    agrees
      (transitions (init (name "a") 0 (letters "b") 1 (letters "b") 1 (letters "b") 2 (name "a")))
      ([])
    ≡ true
unfolding agrees
test_1222_1 = refl

test_1222_2 :
    agrees
      (transitions (init (name "a") 0 (letters "b") 1 (letters "b") 1 (letters "BC") 1 (name "a")))
      (quorum_to "a" 1 "Cb" ∷ sync_to "a" 1 "Cb" ∷ [])
    ≡ true
unfolding agrees
test_1222_2 = refl

test_1222_3 :
    agrees
      (transitions (init (name "a") 0 (letters "b") 1 (letters "b") 1 (letters "bc") 2 (name "a")))
      (sync_to "a" 2 "bc" ∷ quorum_to "a" 1 "bc" ∷ [])
    ≡ true
unfolding agrees
test_1222_3 = refl

test_1222_4 :
    agrees
      (transitions
        (init (name "a") 1 (letters "bc") 2 (letters "bc") 2 (letters "bc") 2 (name "a")))
      (quorum_to "a" 0 "bc" ∷ [])
    ≡ true
unfolding agrees
test_1222_4 = refl

test_1222_5 :
    agrees
      (transitions
        (init (name "a") 0 (letters "b") 1 (letters "b") 1 (letters "BCEd") 2 (name "a")))
      (sync_to "a" 2 "Cb" ∷ quorum_to "a" 3 "CEbd" ∷ sync_to "a" 2 "CEbd" ∷ [])
    ≡ true
unfolding agrees
test_1222_5 = refl

test_1222_6 :
    agrees
      (transitions
        (init (name "a") 3 (letters "bcde") 2 (letters "bcde") 3 (letters "bcde") 2 (name "a")))
      (quorum_to "a" 2 "bcde" ∷ [])
    ≡ true
unfolding agrees
test_1222_6 = refl

test_1222_7 :
    agrees
      (transitions (init (name "a") 0 (letters "b") 1 (letters "b") 0 (letters "") 1 (name "a")))
      (quorum_to "a" 0 "" ∷ sync_to "a" 0 "" ∷ [])
    ≡ true
unfolding agrees
test_1222_7 = refl

test_1222_8 :
    agrees
      (transitions (init (name "a") 0 (letters "b") 1 (letters "b") 0 (letters "c") 1 (name "a")))
      (quorum_to "a" 0 "" ∷ sync_to "a" 1 "c" ∷ restart_to "a" 0 "" ∷ [])
    ≡ true
unfolding agrees
test_1222_8 = refl

test_1222_9 :
    agrees
      (transitions (init (name "a") 0 (letters "") 1 (letters "c") 1 (letters "c") 1 (name "a")))
      (quorum_to "a" 0 "c" ∷ [])
    ≡ true
unfolding agrees
test_1222_9 = refl

test_1233_1 :
    agrees
      (transitions (init (name "a") 0 (letters "b") 2 (letters "bc") 1 (letters "b") 2 (name "a")))
      (sync_to "a" 1 "b" ∷ [])
    ≡ true
unfolding agrees
test_1233_1 = refl

test_1233_2 :
    agrees
      (transitions (init (name "a") 0 (letters "b") 2 (letters "bc") 1 (letters "bc") 2 (name "a")))
      (quorum_to "a" 1 "bc" ∷ [])
    ≡ true
unfolding agrees
test_1233_2 = refl

test_1233_3 :
    agrees
      (transitions
        (init (name "a") 0 (letters "b") 2 (letters "bc") 1 (letters "bcd") 2 (name "a")))
      (quorum_to "a" 2 "bcd" ∷ sync_to "a" 2 "bcd" ∷ [])
    ≡ true
unfolding agrees
test_1233_3 = refl

test_1233_4 :
    agrees
      (transitions
        (init (name "a") 2 (letters "bcd") 2 (letters "bcd") 3 (letters "bcd") 2 (name "a")))
      (quorum_to "a" 1 "bcd" ∷ [])
    ≡ true
unfolding agrees
test_1233_4 = refl

test_1233_5 :
    agrees
      (transitions (init (name "a") 0 (letters "b") 2 (letters "bc") 1 (letters "bc") 1 (name "a")))
      (quorum_to "a" 1 "bc" ∷ sync_to "a" 1 "bc" ∷ [])
    ≡ true
unfolding agrees
test_1233_5 = refl

test_2322_1 :
    agrees
      (transitions (init (name "a") 1 (letters "bc") 1 (letters "b") 1 (letters "b") 1 (name "a")))
      (quorum_to "a" 0 "b" ∷ [])
    ≡ true
unfolding agrees
test_2322_1 = refl

test_2322_2 :
    agrees
      (transitions (init (name "a") 1 (letters "bc") 1 (letters "b") 1 (letters "bc") 1 (name "a")))
      (sync_to "a" 1 "bc" ∷ [])
    ≡ true
unfolding agrees
test_2322_2 = refl

test_2322_3 :
    agrees
      (transitions
        (init (name "a") 1 (letters "bc") 1 (letters "b") 1 (letters "bcd") 1 (name "a")))
      (sync_to "a" 1 "bc" ∷ quorum_to "a" 2 "bcd" ∷ sync_to "a" 1 "bcd" ∷ [])
    ≡ true
unfolding agrees
test_2322_3 = refl

test_2322_4 :
    agrees
      (transitions (init (name "a") 1 (letters "bc") 1 (letters "b") 1 (letters "bc") 2 (name "a")))
      (sync_to "a" 2 "bc" ∷ [])
    ≡ true
unfolding agrees
test_2322_4 = refl

test_2322_5 :
    agrees
      (transitions
        (init (name "a") 1 (letters "bc") 2 (letters "bc") 2 (letters "bc") 2 (name "a")))
      (quorum_to "a" 0 "bc" ∷ [])
    ≡ true
unfolding agrees
test_2322_5 = refl

test_3535_1 :
    agrees
      (transitions
        (init (name "a") 2 (letters "bcde") 2 (letters "bcde") 2 (letters "bc") 2 (name "a")))
      (sync_to "a" 2 "bc" ∷ quorum_to "a" 0 "bc" ∷ [])
    ≡ true
unfolding agrees
test_3535_1 = refl

test_3535_2 :
    agrees
      (transitions
        (init (name "a") 2 (letters "bcde") 2 (letters "bcde") 3 (letters "bcd") 2 (name "a")))
      (sync_to "a" 2 "bcd" ∷ quorum_to "a" 1 "bcd" ∷ [])
    ≡ true
unfolding agrees
test_3535_2 = refl

test_3535_3 :
    agrees
      (transitions
        (init (name "a") 2 (letters "bcde") 2 (letters "bcde") 2 (letters "bc") 1 (name "a")))
      (sync_to "a" 2 "bc" ∷ quorum_to "a" 1 "bc" ∷ sync_to "a" 1 "bc" ∷ [])
    ≡ true
unfolding agrees
test_3535_3 = refl

test_3535_4 :
    agrees
      (transitions
        (init (name "a") 1 (letters "bcde") 3 (letters "bcde") 2 (letters "bc") 1 (name "a")))
      (sync_to "a" 3 "bcd" ∷ quorum_to "a" 1 "bc" ∷ sync_to "a" 1 "bc" ∷ [])
    ≡ true
unfolding agrees
test_3535_4 = refl

test_3535_5 :
    agrees
      (transitions
        (init (name "a") 2 (letters "bcde") 2 (letters "bcde") 2 (letters "bcde") 3 (name "a")))
      (sync_to "a" 3 "bcde" ∷ [])
    ≡ true
unfolding agrees
test_3535_5 = refl

test_3535_6 :
    agrees
      (transitions
        (init (name "a") 2 (letters "bcde") 3 (letters "bcde") 3 (letters "bcde") 3 (name "a")))
      (quorum_to "a" 1 "bcde" ∷ [])
    ≡ true
unfolding agrees
test_3535_6 = refl

test_3535_7 :
    agrees
      (transitions
        (init (name "a") 2 (letters "bcde") 2 (letters "bcde") 2 (letters "bcdef") 1 (name "a")))
      (quorum_to "a" 4 "bcdef" ∷ sync_to "a" 1 "bcdef" ∷ [])
    ≡ true
unfolding agrees
test_3535_7 = refl

test_3535_8 :
    agrees
      (transitions
        (init (name "a") 2 (letters "bcde") 2 (letters "bcde") 2 (letters "bcd") 3 (name "a")))
      (sync_to "a" 3 "bcd" ∷ quorum_to "a" 1 "bcd" ∷ [])
    ≡ true
unfolding agrees
test_3535_8 = refl

test_remove_nosync_node_1 :
    agrees
      (transitions (init (name "a") 0 (letters "bc") 2 (letters "bc") 1 (letters "b") 2 (name "a")))
      (quorum_to "a" 0 "b" ∷ sync_to "a" 1 "b" ∷ [])
    ≡ true
unfolding agrees
test_remove_nosync_node_1 = refl

test_swap_sync_node_1 :
    agrees
      (transitions
        (init (name "a") 0 (letters "bc") 2 (letters "bc") 1 (letters "bd") 2 (name "a")))
      (quorum_to "a" 0 "b" ∷ sync_to "a" 2 "bd" ∷ quorum_to "a" 1 "bd" ∷ [])
    ≡ true
unfolding agrees
test_swap_sync_node_1 = refl

test_promotion_1 :
    agrees
      (transitions (init (name "a") 2 (letters "bcd") 0 (letters "") 0 (letters "") 1 (name "c")))
      (sync_to "a" 1 "abd" ∷ quorum_to "c" 2 "abd" ∷ [])
    ≡ true
unfolding agrees
test_promotion_1 = refl

test_promotion_2 :
    agrees
      (transitions
        (init (name "c") 2 (letters "abd") 1 (letters "abd") 0 (letters "b") 1 (name "c")))
      (sync_to "c" 1 "b" ∷ quorum_to "c" 0 "b" ∷ [])
    ≡ true
unfolding agrees
test_promotion_2 = refl

test_promotion_3 :
    agrees
      (transitions
        (init (name "c") 2 (letters "abd") 1 (letters "abd") 0 (letters "") 1 (name "c")))
      (quorum_to "c" 0 "" ∷ sync_to "c" 0 "" ∷ [])
    ≡ true
unfolding agrees
test_promotion_3 = refl

test_nonsync_promotion_1 :
    agrees
      (transitions (init (name "a") 1 (letters "bc") 0 (letters "") 0 (letters "") 1 (name "d")))
      (sync_to "a" 2 "abc" ∷ quorum_to "d" 1 "abc" ∷ [])
    ≡ true
unfolding agrees
test_nonsync_promotion_1 = refl

test_nonsync_promotion_2 :
    agrees
      (transitions
        (init (name "d") 1 (letters "abc") 2 (letters "abc") 0 (letters "bc") 1 (name "d")))
      (sync_to "d" 2 "bc" ∷ quorum_to "d" 1 "bc" ∷ sync_to "d" 1 "bc" ∷ [])
    ≡ true
unfolding agrees
test_nonsync_promotion_2 = refl

test_nonsync_promotion_3 :
    agrees
      (transitions
        (init (name "d") 1 (letters "abc") 2 (letters "abc") 0 (letters "") 1 (name "d")))
      (quorum_to "d" 0 "" ∷ sync_to "d" 0 "" ∷ [])
    ≡ true
unfolding agrees
test_nonsync_promotion_3 = refl

test_sync_high_quorum_low_safety_margin_high_1 :
    agrees
      (transitions
        (init (name "a") 2 (letters "bcdef") 4 (letters "bcdef") 3 (letters "bcdef") 2 (name "a")))
      (quorum_to "a" 3 "bcdef" ∷ sync_to "a" 2 "bcdef" ∷ [])
    ≡ true
unfolding agrees
test_sync_high_quorum_low_safety_margin_high_1 = refl

test_remove_nodes_with_decreasing_sync_1 :
    agrees
      (transitions
        (init (name "a") 1 (letters "bcdef") 4 (letters "bcdef") 2 (letters "bcd") 2 (name "a")))
      (sync_to "a" 4 "bcde" ∷ quorum_to "a" 1 "bcd" ∷ sync_to "a" 2 "bcd" ∷ [])
    ≡ true
unfolding agrees
test_remove_nodes_with_decreasing_sync_1 = refl

test_remove_nodes_with_decreasing_sync_2 :
    agrees
      (transitions
        (init (name "a") 1 (letters "bcdef") 4 (letters "bcde") 2 (letters "bcdg") 2 (name "a")))
      (quorum_to "a" 1 "bcd"
        ∷ sync_to "a" 3 "bcd"
        ∷ quorum_to "a" 2 "bcdg"
        ∷ sync_to "a" 2 "bcdg"
        ∷ [])
    ≡ true
unfolding agrees
test_remove_nodes_with_decreasing_sync_2 = refl

test_remove_nodes_with_decreasing_sync_3 :
    agrees
      (transitions
        (init (name "a") 1 (letters "bcdef") 4 (letters "bcde") 2 (letters "bcdf") 2 (name "a")))
      (sync_to "a" 4 "bcdf" ∷ quorum_to "a" 2 "bcdf" ∷ sync_to "a" 2 "bcdf" ∷ [])
    ≡ true
unfolding agrees
test_remove_nodes_with_decreasing_sync_3 = refl

test_remove_nodes_with_decreasing_sync_4 :
    agrees
      (transitions
        (init (name "a") 1 (letters "bcdef") 4 (letters "bcde") 2 (letters "bcde") 2 (name "a")))
      (quorum_to "a" 2 "bcde" ∷ sync_to "a" 2 "bcde" ∷ [])
    ≡ true
unfolding agrees
test_remove_nodes_with_decreasing_sync_4 = refl

test_remove_nodes_with_decreasing_sync_5 :
    agrees
      (transitions
        (init (name "a") 1 (letters "bcdef") 4 (letters "bcde") 2 (letters "cd") 1 (name "a")))
      (quorum_to "a" 1 "cd" ∷ sync_to "a" 1 "cd" ∷ [])
    ≡ true
unfolding agrees
test_remove_nodes_with_decreasing_sync_5 = refl

test_empty_ssn_1 :
    agrees
      (transitions (init (name "a") 1 (letters "bc") 1 (letters "") 0 (letters "") 1 (name "c")))
      (sync_to "a" 1 "ab" ∷ quorum_to "c" 1 "ab" ∷ [])
    ≡ true
unfolding agrees
test_empty_ssn_1 = refl

test_empty_ssn_2 :
    agrees
      (transitions (init (name "c") 1 (letters "ab") 1 (letters "ab") 0 (letters "b") 1 (name "c")))
      (sync_to "c" 1 "b" ∷ quorum_to "c" 0 "b" ∷ [])
    ≡ true
unfolding agrees
test_empty_ssn_2 = refl

-- With no synchronous node wanted the resolver fails instead of lowering the replication factor.
none_wanted :
    transitions (init (name "a") 1 (letters "bc") 1 (letters "bc") 2 (letters "bc") 0 (name "a"))
    ≡ err quorum_error
unfolding program
none_wanted = refl
