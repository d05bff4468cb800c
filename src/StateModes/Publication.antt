-- ===== src/StateModes/Publication.antt =====
-- supvisors/statemodes.py: what the other instances are told, and what an update changes.
use supvisors.Prelude.{
  Bool, true, false, ◌&&◌, not, List, [], ◌∷◌, Option, none, some, Name, if◌then◌else◌, ◌==◌, ◌≡◌,
  ◌≢◌, arith, name_iff, name_self, ◌⊎◌, ap,
}
use supvisors.Prelude.Dict.{lookup, lookup-insert}
use supvisors.Types.InstanceStates.{SupvisorsInstanceStates, is_running}
use supvisors.Types.FsmStates.{SupvisorsStates}
use supvisors.StateModes.{StateModes, SupvisorsStateModes}
use supvisors.StateModes.Updates.{
  set_state, set_degraded_mode, set_master_identifier, set_starting_jobs, set_stopping_jobs,
  update_instance_state, update_instance_state_cases, drop_instance_cases, mark_instance_state,
  write_instance_state, deferred_publish_status, on_instance_state_event,
}

-- The last of the state and modes that were sent.
abbrev pub last_sent : List StateModes → Option StateModes
last_sent [] = none
last_sent (sm ∷ _) = some sm

-- The others know the local state and modes, or a publication is due.
abbrev pub IsShared : SupvisorsStateModes → Type 0
IsShared m = (m.update_mark ≡ true) ⊎ (last_sent m.published ≡ some m.local_state_modes)

-- A call on the state and modes that is to be shared.
pub data Change : Type 0 where
  state : SupvisorsStates → Change
  degraded_mode : Bool → Change
  master_identifier : Name → Change
  starting_jobs : Bool → Change
  stopping_jobs : Bool → Change
  instance_state : Name → SupvisorsInstanceStates → Change
  remote_event : Name → StateModes → Change

unfoldable pub apply : Change → SupvisorsStateModes → Option SupvisorsStateModes
apply (state s) m = some (set_state s m)
apply (degraded_mode b) m = some (set_degraded_mode b m)
apply (master_identifier k) m = some (set_master_identifier k m)
apply (starting_jobs b) m = some (set_starting_jobs b m)
apply (stopping_jobs b) m = some (set_stopping_jobs b m)
apply (instance_state k s) m = update_instance_state k s m
apply (remote_event k e) m = on_instance_state_event k e m

-- A Supvisors instance has an identifier.
abbrev pub IsNamed : Change → Type 0
IsNamed (instance_state k s) = k ≢ ""
IsNamed _ = Unit {0}

-- Where the other instances know the local state and modes or a publication is due, this holds
-- again after a setter of state, degraded_mode, master_identifier, starting_jobs or
-- stopping_jobs, a report on an instance that has a name, or an event of another instance, if it
-- raises nothing.
pub apply-IsShared :
    (c : Change) (m : SupvisorsStateModes) {m' : SupvisorsStateModes}
    → IsNamed c
    → IsShared m
    → apply c m ≡ some m'
    → IsShared m'
unfolding apply set_state set_degraded_mode set_master_identifier set_starting_jobs
    set_stopping_jobs mark_instance_state on_instance_state_event
apply-IsShared (state s) m named h e = ground arith
apply-IsShared (degraded_mode b) m named h e = ground arith
apply-IsShared (master_identifier k) m named h e = ground arith
apply-IsShared (starting_jobs b) m named h e = ground arith
apply-IsShared (stopping_jobs b) m named h e = ground arith
apply-IsShared (instance_state k s) m {m'} named h e =
    let (w, dropped, marked) = update_instance_state_cases k s m m' e in
    ground (
      arith,
      drop_instance_cases k s (write_instance_state k s m) w dropped,
      name_iff k w.local_state_modes.master_identifier,
      name_iff w.local_state_modes.master_identifier "",
    )
apply-IsShared (remote_event k v) m named h e = ground arith

-- If the other instances know the local state and modes or a publication is due, then after the
-- periodic publication the last message holds the local state and modes, which are as before, and
-- no publication is due.
pub deferred_publish_status_shares :
    (m : SupvisorsStateModes)
    → IsShared m
    → let m' = deferred_publish_status m in
      (last_sent m'.published ≡ some m.local_state_modes)
      × (m'.local_state_modes ≡ m.local_state_modes)
      × (m'.update_mark ≡ false)
unfolding deferred_publish_status
deferred_publish_status_shares m h = ground arith

-- A report on a named instance that raises nothing is written into the local view, and the Master
-- stays what it was, unless it is that instance and does not run: then there is none.
pub update_instance_state_effect :
    (k : Name) (s : SupvisorsInstanceStates) (m : SupvisorsStateModes) {m' : SupvisorsStateModes}
    → k ≢ ""
    → update_instance_state k s m ≡ some m'
    → (lookup k m'.local_state_modes.instance_states ≡ some s)
      × (m'.local_state_modes.master_identifier ≡ (
          if not (is_running s) && k == m.local_state_modes.master_identifier
          then ""
          else m.local_state_modes.master_identifier))
unfolding write_instance_state mark_instance_state
update_instance_state_effect k s m {m'} named e =
    let (w, dropped, marked) = update_instance_state_cases k s m m' e in
    ground (
      arith,
      drop_instance_cases k s (write_instance_state k s m) w dropped,
      ap (λ sm. lookup k (StateModes.instance_states sm))
          (drop_instance_cases k s (write_instance_state k s m) w dropped).0,
      lookup-insert k k s m.local_state_modes.instance_states,
      name_self k,
      name_iff k w.local_state_modes.master_identifier,
      name_iff w.local_state_modes.master_identifier "",
    )
