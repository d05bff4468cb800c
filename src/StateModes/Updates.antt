-- ===== src/StateModes/Updates.antt =====
-- supvisors/statemodes.py: the setters and the updates. `none` is a KeyError.
use supvisors.Prelude.{
  Bool, true, false, ◌&&◌, ◌||◌, not, ◌∷◌, Option, none, some, Name, if◌then◌else◌, ◌==◌, ◌≡◌,
  arith, Option-cases, some_eq, sym, ◌∙◌, inl, inr, refl,
}
use supvisors.Prelude.Dict.{lookup, insert}
use supvisors.Types.InstanceStates.{
  SupvisorsInstanceStates, stopped, isolated, same_state, is_running,
}
use supvisors.Types.FsmStates.{SupvisorsStates}
use supvisors.Types.FsmStates
use supvisors.StateModes.{StateModes, SupvisorsStateModes, new}

-- publish_status(): what the other instances are sent
unfoldable pub publish_status : SupvisorsStateModes → SupvisorsStateModes
publish_status m = record m { published = m.local_state_modes ∷ m.published }

abbrev same_bool : Bool → Bool → Bool
same_bool true b = b
same_bool false b = not b

-- These setters publish a change, and only a change.
unfoldable pub set_state : SupvisorsStates → SupvisorsStateModes → SupvisorsStateModes
unfolding publish_status
set_state state m =
    if FsmStates.same_state m.local_state_modes.state state
    then m
    else publish_status
        (record m { local_state_modes = record (m.local_state_modes) { state = state } })

unfoldable pub set_degraded_mode : Bool → SupvisorsStateModes → SupvisorsStateModes
unfolding publish_status
set_degraded_mode mode m =
    if same_bool m.local_state_modes.degraded_mode mode
    then m
    else publish_status
        (record m { local_state_modes = record (m.local_state_modes) { degraded_mode = mode } })

-- The discovery mode is set at start-up and not published.
unfoldable pub set_discovery_mode : Bool → SupvisorsStateModes → SupvisorsStateModes
set_discovery_mode mode m = record m {
  local_state_modes = record (m.local_state_modes) { discovery_mode = mode };
}

unfoldable pub set_master_identifier : Name → SupvisorsStateModes → SupvisorsStateModes
unfolding publish_status
set_master_identifier identifier m =
    if m.local_state_modes.master_identifier == identifier
    then m
    else publish_status (record m {
      local_state_modes = record (m.local_state_modes) { master_identifier = identifier };
    })

unfoldable pub set_starting_jobs : Bool → SupvisorsStateModes → SupvisorsStateModes
unfolding publish_status
set_starting_jobs in_progress m =
    if same_bool m.local_state_modes.starting_jobs in_progress
    then m
    else publish_status (record m {
      local_state_modes = record (m.local_state_modes) { starting_jobs = in_progress };
    })

unfoldable pub set_stopping_jobs : Bool → SupvisorsStateModes → SupvisorsStateModes
unfolding publish_status
set_stopping_jobs in_progress m =
    if same_bool m.local_state_modes.stopping_jobs in_progress
    then m
    else publish_status (record m {
      local_state_modes = record (m.local_state_modes) { stopping_jobs = in_progress };
    })

-- add_instance(identifier)
unfoldable pub add_instance : Name → SupvisorsStateModes → SupvisorsStateModes
unfolding new
add_instance identifier m = record m {
  remote_state_modes = insert identifier (new identifier) m.remote_state_modes;
  local_state_modes = record (m.local_state_modes) {
    instance_states = insert identifier stopped m.local_state_modes.instance_states;
  };
}

-- `self.local_state_modes.instance_states[identifier] = new_state`
unfoldable pub write_instance_state :
    Name → SupvisorsInstanceStates → SupvisorsStateModes → SupvisorsStateModes
write_instance_state identifier new_state m = record m {
  local_state_modes = record (m.local_state_modes) {
    instance_states = insert identifier new_state m.local_state_modes.instance_states;
  };
}

-- The state and modes of a remote instance that is gone are those of a new one.
unfoldable pub reset_instance : Name → SupvisorsStateModes → Option SupvisorsStateModes
unfolding new
reset_instance identifier m = elim (lookup identifier m.remote_state_modes) [
  | none ↦ none
  | some sm ↦
      some (record m {
        remote_state_modes = insert identifier (new sm.identifier) m.remote_state_modes;
      })
]

-- What a remote instance declared is dropped when it is stopped or isolated.
unfoldable pub drop_instance :
    Name → SupvisorsInstanceStates → SupvisorsStateModes → Option SupvisorsStateModes
unfolding reset_instance
drop_instance identifier new_state m =
    if (same_state new_state stopped || same_state new_state isolated)
      && not (identifier == m.local_identifier)
    then reset_instance identifier m
    else some m

-- A Master that does not run any more is forgotten; any other change is marked for publication.
unfoldable pub mark_instance_state :
    Name → SupvisorsInstanceStates → SupvisorsStateModes → SupvisorsStateModes
unfolding set_master_identifier
mark_instance_state identifier new_state m =
    if not (is_running new_state) && identifier == m.local_state_modes.master_identifier
    then set_master_identifier "" m
    else record m { update_mark = true }

-- update_instance_state(identifier, new_state)
unfoldable pub update_instance_state :
    Name → SupvisorsInstanceStates → SupvisorsStateModes → Option SupvisorsStateModes
unfolding write_instance_state drop_instance mark_instance_state
update_instance_state identifier new_state m =
    elim (drop_instance identifier new_state (write_instance_state identifier new_state m)) [
      | none ↦ none
      | some m' ↦ some (mark_instance_state identifier new_state m')
    ]

-- deferred_publish_status()
unfoldable pub deferred_publish_status : SupvisorsStateModes → SupvisorsStateModes
unfolding publish_status
deferred_publish_status m =
    if m.update_mark then record (publish_status m) { update_mark = false } else m

-- on_instance_state_event(identifier, event): the event is what the remote instance published
unfoldable pub on_instance_state_event :
    Name → StateModes → SupvisorsStateModes → Option SupvisorsStateModes
on_instance_state_event identifier event m =
    if identifier == m.local_identifier
    then some m
    else elim (lookup identifier m.remote_state_modes) [
      | none ↦ none
      | some sm ↦ some (record m {
        remote_state_modes =
            insert identifier (record event { identifier = sm.identifier }) m.remote_state_modes;
      })
    ]

pub drop_instance_cases :
    (k : Name) (s : SupvisorsInstanceStates) (m w : SupvisorsStateModes)
    → drop_instance k s m ≡ some w
    → (w.local_state_modes ≡ m.local_state_modes)
      × (w.local_identifier ≡ m.local_identifier)
      × (w.mapper ≡ m.mapper)
      × (w.published ≡ m.published)
      × (w.update_mark ≡ m.update_mark)
unfolding drop_instance
drop_instance_cases k s m w h = ground arith

-- The two halves of `update_instance_state`, where it raises nothing.
pub update_instance_state_cases :
    (k : Name) (s : SupvisorsInstanceStates) (m m' : SupvisorsStateModes)
    → update_instance_state k s m ≡ some m'
    → (w : SupvisorsStateModes) × (drop_instance k s (write_instance_state k s m) ≡ some w)
      × (mark_instance_state k s w ≡ m')
unfolding update_instance_state
update_instance_state_cases k s m m' h =
    elim (Option-cases (drop_instance k s (write_instance_state k s m))) [
      | inl e ↦ absurd (ground (arith, h, e))
      | inr (w, e) ↦ (w, e, some_eq (sym (applied w e) ∙ h))
    ]
  where
    applied :
        (w : SupvisorsStateModes)
        → drop_instance k s (write_instance_state k s m) ≡ some w
        → update_instance_state k s m ≡ some (mark_instance_state k s w)
    applied w e = rw (e, update_instance_state) refl
