-- ===== src/Context/Setter.antt =====
-- supvisors/instancestatus.py: the setter of `state`, with the update of the local state and modes
-- that it triggers.
use supvisors.Prelude.{ℕ, not, none, some, Name, if◌then◌else◌}
use supvisors.Prelude.Dict.{lookup, insert}
use supvisors.Types.InstanceStates.{SupvisorsInstanceStates, same_state}
use supvisors.Instances.Status.{InstanceStatus, check_transition, enter_state}
use supvisors.StateModes.Updates.{write_instance_state, update_instance_state}
use supvisors.Context.{Context, Result, done, raised, invalid_transition, key_error}

-- An accepted transition. Where the update of the state and modes raises, the new state is stored
-- on both sides already, and the checking times are not yet written.
unfoldable pub accept_state :
    ℕ → SupvisorsInstanceStates → Name → InstanceStatus → Context → Result (Unit {0})
unfolding insert update_instance_state write_instance_state enter_state
accept_state mtime new_state identifier status c =
    elim (update_instance_state identifier new_state c.state_modes) [
      | none ↦ raised key_error (record c {
        instances = insert identifier (record status { state = new_state }) c.instances;
        state_modes = write_instance_state identifier new_state c.state_modes;
      })
      | some modes ↦ done tt (record c {
        instances = insert identifier (enter_state new_state mtime status) c.instances;
        state_modes = modes;
      })
    ]

-- `status.state = new_state`; `mtime` is what `time.monotonic()` returns
unfoldable pub set_state : ℕ → SupvisorsInstanceStates → Name → Context → Result (Unit {0})
unfolding lookup accept_state check_transition
set_state mtime new_state identifier c = elim (lookup identifier c.instances) [
  | none ↦ raised key_error c
  | some status ↦
      if same_state status.state new_state
      then done tt c
      else if not (check_transition status.state new_state)
      then raised invalid_transition c
      else accept_state mtime new_state identifier status c
]
