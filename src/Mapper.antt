-- ===== src/Mapper.antt =====
-- supvisors/internal_com/mapper.py: SupvisorsMapper, and the network of each Supvisors instance.
pub mod Network
pub mod InstanceId
pub mod Identify
pub mod Filter
pub mod RoundTrip
pub mod Known
pub mod History
pub mod Reach
pub mod Sound
use supvisors.Prelude.{Bool, List, [], Option, none, some, Name}
use supvisors.Prelude.Dict.{Dict, lookup}
use Network.{LocalNetwork}
use InstanceId.{SupvisorsInstanceId}

pub record SupvisorsMapper : Type 0 where
  pub local_network : LocalNetwork
  pub instances : Dict SupvisorsInstanceId
  pub nick_identifiers : Dict Name
  pub nodes : Dict (List Name)
  pub core_identifiers : List Name
  pub local_identifier : Option Name
  pub initial_identifiers : List Name
  pub stereotypes : Dict (List Name)

-- SupvisorsMapper(supvisors), with the network that LocalNetwork() finds
unfoldable pub new : LocalNetwork → SupvisorsMapper
new local_network = record {
  local_network = local_network;
  instances = [];
  nick_identifiers = [];
  nodes = [];
  core_identifiers = [];
  local_identifier = none;
  initial_identifiers = [];
  stereotypes = [];
}

-- get_nick_identifier(identifier)
unfoldable pub get_nick_identifier : Name → SupvisorsMapper → Option Name
unfolding lookup
get_nick_identifier k m = elim (lookup k m.instances) [
  | none ↦ none
  | some i ↦ some i.nick_identifier
]

-- `instances[identifier].local_view.machine_id`
unfoldable pub machine_of : SupvisorsMapper → Name → Option Name
unfolding lookup
machine_of m k = elim (lookup k m.instances) [
  | none ↦ none
  | some i ↦ elim i.local_view [ none ↦ none | some view ↦ some view.machine_id ]
]
