-- ===== src/Instances/Status.antt =====
-- supvisors/instancestatus.py: SupvisorsInstanceStatus and its state machine. `processes` holds the
-- namespecs of the processes: the objects are shared with the applications, and stand in the Context.
use supvisors.Prelude.{
  ℕ, ◌-◌, Bool, false, ◌&&◌, ◌||◌, List, [], ◌∷◌, Option, none, some, Name, any, ltb,
}
use supvisors.Types.InstanceStates.{
  SupvisorsInstanceStates, stopped, checking, checked, running, failed, isolated, same_state,
}
use supvisors.Instances.Times.{SupvisorsTimes}
use supvisors.Instances.Times

pub record InstanceStatus : Type 0 where
  pub identifier : Name
  pub state : SupvisorsInstanceStates
  pub times : SupvisorsTimes
  pub processes : List Name
  pub checking_time : Option ℕ
  pub checking_event_time : Option ℕ

unfoldable pub new : Name → InstanceStatus
unfolding Times.new
new identifier = record {
  identifier = identifier;
  state = stopped;
  times = Times.new;
  processes = [];
  checking_time = none;
  checking_event_time = none;
}

-- `_Transitions`
abbrev pub transitions : SupvisorsInstanceStates → List SupvisorsInstanceStates
transitions stopped = checking ∷ []
transitions checking = stopped ∷ checked ∷ failed ∷ isolated ∷ []
transitions checked = running ∷ failed ∷ []
transitions running = failed ∷ []
transitions failed = stopped ∷ isolated ∷ []
transitions isolated = []

-- check_transition(new_state)
unfoldable pub check_transition : SupvisorsInstanceStates → SupvisorsInstanceStates → Bool
check_transition state new_state = any (same_state new_state) (transitions state)

-- What the setter of `state` stores once the transition is accepted.
unfoldable pub enter_state : SupvisorsInstanceStates → ℕ → InstanceStatus → InstanceStatus
enter_state checking mtime s = record s { state = checking; checking_time = some mtime }
enter_state new_state mtime s = record s {
  state = new_state;
  checking_time = none;
  checking_event_time = none;
}

-- has_active_state()
abbrev pub has_active_state : SupvisorsInstanceStates → Bool
has_active_state s =
    same_state s checking || (same_state s checked || (same_state s running || same_state s failed))

-- is_inactive(local_sequence_counter); `-` stops at 0, where the source's difference is negative
-- and so not above the tolerance either
unfoldable pub is_inactive : (inactivity_ticks local_counter : ℕ) → InstanceStatus → Bool
is_inactive inactivity_ticks local_counter s =
    has_active_state s.state
    && ltb inactivity_ticks (local_counter - s.times.local_sequence_counter)

-- is_checking(timestamp)
unfoldable pub is_checking : ℕ → InstanceStatus → Bool
is_checking timestamp s =
    same_state s.state checking
    && elim s.checking_time [ none ↦ false | some entered ↦ ltb entered timestamp ]
