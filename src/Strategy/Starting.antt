-- ===== src/Strategy/Starting.antt =====
-- supvisors/strategy.py: the starting strategies. `none` outside is an exception, and `none` inside
-- is the source's None.
use supvisors.Prelude.{
  ℕ, Bool, true, false, ◌&&◌, ◌||◌, List, [], ◌∷◌, Option, none, some, Name, ltb, leb, nat_beq,
  keep, if◌then◌else◌,
}
use supvisors.Prelude.Dict.{Dict, lookup}
use supvisors.Prelude.NameSet.{contains}
use supvisors.Prelude.Sorting.{sorted}
use supvisors.Types.Strategies.{
  StartingStrategies, config, less_loaded, most_loaded, local, less_loaded_node, most_loaded_node,
}
use supvisors.Types.InstanceStates as I
use supvisors.Process.{Supervisor}
use supvisors.Instances.Status.{InstanceStatus}
use supvisors.Mapper.{SupvisorsMapper, machine_of}
use supvisors.Context.{Context}
use supvisors.Strategy.Loads.{
  LoadDetails, LoadingValidity, get_node_load_request_map, get_nodes_load, get_loading_and_validity,
}

-- An identifier, the load of its node, and that of the instance.
abbrev pub Loaded : Type 0
Loaded = Name × ℕ × ℕ

-- The entries that have room.
unfoldable pub valid_entries : Dict LoadingValidity → List Loaded
valid_entries [] = []
valid_entries ((k, (valid, node, load)) ∷ d) =
    if valid then (k, node, load) ∷ valid_entries d else valid_entries d

-- Python's order on pairs of loads.
abbrev pub pair_le : (a b c d : ℕ) → Bool
pair_le a b c d = ltb a c || (nat_beq a c && leb b d)

abbrev pub by_instance : Loaded → Loaded → Bool
by_instance x y = pair_le x.2 x.1 y.2 y.1

abbrev pub by_node : Loaded → Loaded → Bool
by_node x y = pair_le x.1 x.2 y.1 y.2

unfoldable pub sort_valid_by_instance_load : Dict LoadingValidity → List Loaded
unfolding valid_entries sorted
sort_valid_by_instance_load d = sorted by_instance (valid_entries d)

unfoldable pub sort_valid_by_node_load : Dict LoadingValidity → List Loaded
unfolding valid_entries sorted
sort_valid_by_node_load d = sorted by_node (valid_entries d)

-- `sorted_identifiers[0][0] if sorted_identifiers else None`, and the same with `[-1][0]`
abbrev pub first : List Loaded → Option Name
first [] = none
first ((k, n, l) ∷ rest) = some k

abbrev pub last : List Loaded → Option Name
last [] = none
last ((k, n, l) ∷ []) = some k
last (x ∷ y ∷ rest) = last (y ∷ rest)

-- What each class does with its loading report; for LocalStrategy, `loading_validity_map[local]`.
unfoldable pub choose :
    StartingStrategies → Option Name → Dict LoadingValidity → Option (Option Name)
unfolding sort_valid_by_instance_load sort_valid_by_node_load valid_entries lookup
choose config here d = some (first (valid_entries d))
choose less_loaded here d = some (first (sort_valid_by_instance_load d))
choose most_loaded here d = some (last (sort_valid_by_instance_load d))
choose less_loaded_node here d = some (first (sort_valid_by_node_load d))
choose most_loaded_node here d = some (last (sort_valid_by_node_load d))
choose local none d = none
choose local (some k) d = elim (lookup k d) [
  | none ↦ none
  | some (valid, node, load) ↦ some (if valid then some k else none)
]

abbrev pub is_candidate : List Name → Option Name → Bool
is_candidate ks none = false
is_candidate ks (some k) = contains k ks

-- `local_identifier not in identifiers`, which LocalStrategy tests first
abbrev pub is_away : StartingStrategies → List Name → Option Name → Bool
is_away local ks here = if is_candidate ks here then false else true
is_away _ ks here = false

-- Context.running_identifiers()
unfoldable pub running_identifiers : Dict InstanceStatus → List Name
running_identifiers [] = []
running_identifiers ((k, status) ∷ d) =
    if I.same_state status.state I.running then k ∷ running_identifiers d else running_identifiers d

module _ (sup : Supervisor) (m : SupvisorsMapper) (c : Context) where
  -- AbstractStartingStrategy.get_supvisors_instance(identifiers, expected_load, load_details)
  unfoldable pub apply_strategy :
      StartingStrategies → List Name → ℕ → LoadDetails → Option (Option Name)
  unfolding contains get_loading_and_validity choose
  apply_strategy strategy identifiers expected_load details =
      if is_away strategy identifiers m.local_identifier
      then some none
      else elim (get_loading_and_validity sup m c identifiers expected_load details) [
        | none ↦ none
        | some d ↦ choose strategy m.local_identifier d
      ]

  unfoldable pub candidate_identifiers : List Name → List Name
  unfolding contains running_identifiers
  candidate_identifiers identifiers =
      keep (λ k. contains k (running_identifiers c.instances)) identifiers

  -- The load details that get_supvisors_instance passes on.
  unfoldable pub load_details : Dict ℕ → Option LoadDetails
  unfolding get_node_load_request_map get_nodes_load
  load_details load_request_map = elim (get_node_load_request_map m load_request_map) [
    | none ↦ none
    | some node_load_request_map ↦ elim (get_nodes_load sup c m.nodes) [
      | none ↦ none
      | some node_load_map ↦ some (load_request_map, node_load_request_map, node_load_map)
    ]
  ]

  -- What follows once the candidates are known.
  unfoldable pub from_candidates :
      StartingStrategies → List Name → ℕ → Dict ℕ → Option (Option Name)
  unfolding load_details apply_strategy
  from_candidates strategy [] expected_load load_request_map = some none
  from_candidates strategy (k ∷ ks) expected_load load_request_map =
      elim (load_details load_request_map) [
        | none ↦ none
        | some details ↦ apply_strategy strategy (k ∷ ks) expected_load details
      ]

  -- get_supvisors_instance(supvisors, strategy, identifiers, expected_load, load_request_map)
  unfoldable pub get_supvisors_instance :
      StartingStrategies → List Name → ℕ → Dict ℕ → Option (Option Name)
  unfolding candidate_identifiers from_candidates
  get_supvisors_instance strategy identifiers expected_load load_request_map =
      from_candidates strategy (candidate_identifiers identifiers) expected_load load_request_map

  -- get_node(supvisors, strategy, identifiers, expected_load, load_request_map)
  unfoldable pub get_node : StartingStrategies → List Name → ℕ → Dict ℕ → Option (Option Name)
  unfolding get_supvisors_instance machine_of
  get_node strategy identifiers expected_load load_request_map =
      elim (get_supvisors_instance strategy identifiers expected_load load_request_map) [
        | none ↦ none
        | some none ↦ some none
        | some (some k) ↦ elim (machine_of m k) [ none ↦ none | some machine ↦ some (some machine) ]
      ]
