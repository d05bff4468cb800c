-- ===== src/Strategy/Loads.antt =====
-- The loads that supvisors/strategy.py goes by: those of the instances and of the nodes
-- (supvisors/context.py, supvisors/instancestatus.py), and those of the requests in progress.
-- `none` is an exception: KeyError, or the AttributeError of an instance without network.
use supvisors.Prelude.{ℕ, ◌+◌, Bool, List, [], ◌∷◌, Option, none, some, Name, leb}
use supvisors.Prelude.Dict.{Dict, lookup, insert}
use supvisors.Process.{Supervisor}
use supvisors.Mapper.{SupvisorsMapper, machine_of}
use supvisors.Context.{Context}
use supvisors.Context.Failures.{running_processes}
use supvisors.Application.Sequences.{total, load_of}

-- `loads.get(key, 0)`
abbrev pub or_zero : Option ℕ → ℕ
or_zero none = 0
or_zero (some n) = n

unfoldable pub load_at : Name → Dict ℕ → ℕ
unfolding lookup
load_at k d = or_zero (lookup k d)

-- `loads[key] += load`
unfoldable pub increment : Name → ℕ → Dict ℕ → Option (Dict ℕ)
unfolding lookup insert
increment k n d = elim (lookup k d) [ none ↦ none | some old ↦ some (insert k (old + n) d) ]

unfoldable pub zeros : Dict (List Name) → Dict ℕ
zeros [] = []
zeros ((k, ks) ∷ d) = (k, 0) ∷ zeros d

unfoldable pub sum_requests : SupvisorsMapper → Dict ℕ → Dict ℕ → Option (Dict ℕ)
unfolding machine_of increment
sum_requests m [] loads = some loads
sum_requests m ((k, n) ∷ requests) loads = elim (machine_of m k) [
  | none ↦ none
  | some machine ↦ elim (increment machine n loads) [
    | none ↦ none
    | some loads' ↦ sum_requests m requests loads'
  ]
]

-- get_node_load_request_map(mapper, load_request_map)
unfoldable pub get_node_load_request_map : SupvisorsMapper → Dict ℕ → Option (Dict ℕ)
unfolding zeros sum_requests
get_node_load_request_map m requests = sum_requests m requests (zeros m.nodes)

module _ (sup : Supervisor) (c : Context) where
  -- SupvisorsInstanceStatus.get_load() of `instances[identifier]`
  unfoldable pub get_load : Name → Option ℕ
  unfolding lookup running_processes load_of
  get_load k = elim (lookup k c.instances) [
    | none ↦ none
    | some status ↦ some (
        total (load_of c.processes)
          (running_processes sup status.identifier status.processes c.processes))
  ]

  unfoldable pub sum_loads : List Name → Option ℕ
  unfolding get_load
  sum_loads [] = some 0
  sum_loads (k ∷ ks) = elim (get_load k) [
    | none ↦ none
    | some n ↦ elim (sum_loads ks) [ none ↦ none | some rest ↦ some (n + rest) ]
  ]

  -- Context.get_nodes_load(), over the nodes of the mapper
  unfoldable pub get_nodes_load : Dict (List Name) → Option (Dict ℕ)
  unfolding sum_loads
  get_nodes_load [] = some []
  get_nodes_load ((machine, ks) ∷ nodes) = elim (sum_loads ks) [
    | none ↦ none
    | some n ↦ elim (get_nodes_load nodes) [ none ↦ none | some rest ↦ some ((machine, n) ∷ rest) ]
  ]

-- LoadDetails, and its components as `is_loading_valid` unpacks them: the source calls the second
-- one node_load_map there, and node_load_request_map where it builds the tuple.
abbrev pub LoadDetails : Type 0
LoadDetails = Dict ℕ × Dict ℕ × Dict ℕ

-- Whether the node has room, the load of the node, and that of the instance.
abbrev pub LoadingValidity : Type 0
LoadingValidity = Bool × ℕ × ℕ

module _ (sup : Supervisor) (m : SupvisorsMapper) (c : Context) where
  unfoldable pub is_loading_valid : Name → ℕ → LoadDetails → Option LoadingValidity
  unfolding get_load machine_of load_at
  is_loading_valid k expected_load (load_request_map, node_load_map, node_load_request_map) =
      elim (get_load sup c k) [
        | none ↦ none
        | some load ↦ elim (machine_of m k) [
          | none ↦ none
          | some machine ↦
              let node_loading =
                load_at machine node_load_map + load_at machine node_load_request_map in
              let instance_loading = load + load_at k load_request_map in
              some (leb (node_loading + expected_load) 100, node_loading, instance_loading)
        ]
      ]

  unfoldable pub get_loading_from :
      List Name → ℕ → LoadDetails → Dict LoadingValidity → Option (Dict LoadingValidity)
  unfolding is_loading_valid insert
  get_loading_from [] expected_load details d = some d
  get_loading_from (k ∷ ks) expected_load details d =
      elim (is_loading_valid k expected_load details) [
        | none ↦ none
        | some v ↦ get_loading_from ks expected_load details (insert k v d)
      ]

  unfoldable pub get_loading_and_validity :
      List Name → ℕ → LoadDetails → Option (Dict LoadingValidity)
  unfolding get_loading_from
  get_loading_and_validity ks expected_load details = get_loading_from ks expected_load details []
