-- ===== src/Quorum/Kinds.antt =====
-- `Transition.transition_type` of patroni/quorum.py: the texts `sync`, `quorum` and `restart`.
pub data TransitionType : Type 0 where
  sync quorum restart : TransitionType
