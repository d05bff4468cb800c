-- ===== src/StateModes.antt =====
-- supvisors/statemodes.py: the state and modes that the Supvisors instances declare.
-- The source keeps them in one dictionary, `instance_state_modes`, and reads the entry of the local
-- instance as `local_state_modes`. That entry always exists, so it is a field of its own here, and
-- the dictionary holds the others. `published` lists what `publish_status` sent to the other
-- instances, the last one first.
pub mod Views
pub mod Updates
pub mod Publication
pub mod Stability
pub mod Master
pub mod Election
use supvisors.Prelude.{
  ℕ, Bool, true, false, List, [], ◌∷◌, Option, none, some, Name, if◌then◌else◌, ◌==◌, map,
}
use supvisors.Prelude.Dict.{Dict, lookup, insert, values}
use supvisors.Prelude.NameSet.{NameSet}
use supvisors.Types.InstanceStates.{SupvisorsInstanceStates, stopped}
use supvisors.Types.FsmStates.{SupvisorsStates, off}

pub record StateModes : Type 0 where
  pub identifier : Name
  pub state : SupvisorsStates
  pub degraded_mode : Bool
  pub discovery_mode : Bool
  pub master_identifier : Name
  pub starting_jobs : Bool
  pub stopping_jobs : Bool
  pub instance_states : Dict SupvisorsInstanceStates

-- StateModes(sup_id)
unfoldable pub new : Name → StateModes
new identifier = record {
  identifier = identifier;
  state = off;
  degraded_mode = false;
  discovery_mode = false;
  master_identifier = "";
  starting_jobs = false;
  stopping_jobs = false;
  instance_states = [];
}

-- What is read of the mapper (supvisors/internal_com/mapper.py) here and in the Context: the nick
-- identifiers of the known instances, the identifiers that are known under a nick identifier, and
-- those that the configuration names.
pub record Mapper : Type 0 where
  pub instances : Dict Name
  pub nick_identifiers : Dict Name
  pub core_identifiers : List Name
  pub initial_identifiers : List Name

pub record SupvisorsStateModes : Type 0 where
  pub mapper : Mapper
  pub local_identifier : Name
  pub local_state_modes : StateModes
  pub remote_state_modes : Dict StateModes
  pub stable_identifiers : NameSet
  pub update_mark : Bool
  pub published : List StateModes

-- `self.instance_state_modes.items()`
abbrev pub instance_state_modes : SupvisorsStateModes → Dict StateModes
instance_state_modes m = (m.local_identifier, m.local_state_modes) ∷ m.remote_state_modes

-- `self.instance_state_modes.get(identifier)`
unfoldable pub state_modes_of : Name → SupvisorsStateModes → Option StateModes
unfolding lookup
state_modes_of identifier m = lookup identifier (instance_state_modes m)

-- master_state_modes, master_state
unfoldable pub master_state : SupvisorsStateModes → Option SupvisorsStates
unfolding state_modes_of
master_state m = elim (state_modes_of m.local_state_modes.master_identifier m) [
  | none ↦ none
  | some modes ↦ some modes.state
]

-- is_master()
unfoldable pub is_master : SupvisorsStateModes → Bool
is_master m = m.local_state_modes.master_identifier == m.local_identifier

-- add_instance(identifier), of an instance that the mapper has
unfoldable pub add_instance : Name → SupvisorsStateModes → SupvisorsStateModes
unfolding insert new
add_instance k m =
    if k == m.local_identifier
    then record m { local_state_modes = record (new k) { instance_states = (k, stopped) ∷ [] } }
    else record m {
      local_state_modes = record (m.local_state_modes) {
        instance_states = insert k stopped m.local_state_modes.instance_states;
      };
      remote_state_modes = insert k (new k) m.remote_state_modes;
    }
