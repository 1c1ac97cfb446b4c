-- ===== src/Ha/Cycle/Outage.antt =====
-- `Ha._handle_dcs_error` and `Ha.check_failsafe_topology` (patroni/ha.py): what a node does that
-- does not reach the store.
use metatroni.Prelude.{Bool, true, false, not, ◌&&◌, List, [], ◌∷◌, if◌then◌else◌, keep}
use metatroni.Names.{Name, name_eq}
use metatroni.Ha.Cycle.{
  DemoteMode, Query, Call, World, Action, ok, pure, ◌>>=◌, ◌>>◌, ask, tell, when, log, called,
  on_option,
}
use metatroni.Ha.Cycle.Lock.{set_is_leader}
use metatroni.Ha.Cycle.Demote.{demote}
use metatroni.Ha.Cycle.Follow.{Message}

-- `Ha.call_failsafe_member`
unfoldable pub call_failsafe_member : World → Name → Action Bool
call_failsafe_member w n s =
    let accepted = w.accepts n s.trace in
    (ok accepted, log (called (Call.posts_failsafe n accepted)) s)

-- The requests to all members, and whether all accept.
unfoldable pub call_members : World → List Name → Action Bool
call_members w [] = pure true
call_members w (n ∷ ns) = do
  rest ← call_members w ns
  accepted ← call_failsafe_member w n
  pure (accepted && rest)

unfoldable pub lists : Name → List Name → Bool
lists n [] = false
lists n (m ∷ ms) = if name_eq m n then true else lists n ms

-- A node that is alone is not asked about.
unfoldable pub call_others : World → List Name → Action Bool
call_others w [] = pure true
call_others w (n ∷ ns) = do
  accepted ← call_members w (n ∷ ns)
  when accepted (tell Call.updates_failsafe_slots)
  pure accepted

-- The members of the `/failsafe` key, this node among them.
unfoldable pub call_topology : World → List Name → Action Bool
call_topology w nodes =
    if lists w.name nodes
    then call_others w (keep (λ n. not (name_eq n w.name)) nodes)
    else pure false

-- `Ha.check_failsafe_topology`
unfoldable pub check_failsafe_topology : World → Action Bool
check_failsafe_topology w = on_option w.failsafe (pure false) (call_topology w)

unfoldable pub continue_as_leader : World → Action Message
continue_as_leader w = do
  set_is_leader w true
  tell Call.starts_failsafe
  tell Call.keepalive
  tell Call.syncs_slots
  pure Message.continues_failsafe

unfoldable pub stop_offline : World → Action Message
stop_offline w = do
  tell Call.resets_failsafe
  demote w DemoteMode.offline
  pure Message.demoted_no_dcs

-- The part for a primary.
unfoldable pub survive : World → Action Message
survive w = do
  agreed ← if w.is_failsafe_mode then check_failsafe_topology w else pure false
  if agreed then continue_as_leader w else stop_offline w

-- `Ha._handle_dcs_error`
unfoldable pub handle_dcs_error : World → Action Message
handle_dcs_error w = do
  running ← if w.is_paused then pure false else ask w Query.is_running
  if running
      then (do
        primary ← ask w Query.is_primary
        if primary then survive w else tell Call.syncs_slots >> pure Message.dcs_not_accessible)
      else pure Message.dcs_not_accessible
