-- ===== src/Application/Candidates.antt =====
-- supvisors/application.py: where an application that is not distributed can be started.
use supvisors.Prelude.{
  Bool, true, false, ◌&&◌, List, [], ◌∷◌, ◌++◌, Option, none, some, Name, keep, all, if◌then◌else◌,
}
use supvisors.Prelude.Dict.{Dict, lookup, values}
use supvisors.Prelude.NameSet.{contains}
use supvisors.Process.{ProcessInfo, ProcessStatus}
use supvisors.Process.Rules.{is_set}
use supvisors.Mapper.{SupvisorsMapper}
use supvisors.Application.{ApplicationStatus}
use supvisors.Application.Groups.{references}

-- The identifiers of the instances in which the program is not disabled.
unfoldable pub enabled_identifiers : Dict ProcessInfo → List Name
enabled_identifiers [] = []
enabled_identifiers ((k, info) ∷ d) =
    if info.disabled then enabled_identifiers d else k ∷ enabled_identifiers d

-- actual_identifiers
unfoldable pub actual_identifiers : Dict ProcessStatus → List (List Name)
unfolding enabled_identifiers
actual_identifiers [] = []
actual_identifiers ((k, p) ∷ d) = enabled_identifiers p.info_map ∷ actual_identifiers d

abbrev pub is_any : List (List Name) → Bool
is_any [] = false
is_any (_ ∷ _) = true

-- Without any process, the list of sets is empty, and nothing is in it.
unfoldable pub possible_identifiers : SupvisorsMapper → ApplicationStatus → List Name
unfolding references actual_identifiers contains
possible_identifiers m a =
    let sets = actual_identifiers a.processes in
    keep (λ k. is_any sets && all (λ ks. contains k ks) sets) (references m a.rules.identifiers)

-- The loop over the processes for one node: `none` after `break`.
unfoldable pub node_solution : List (List Name) → List Name → Option (List Name)
unfolding contains
node_solution [] node = some []
node_solution (ks ∷ sets) node =
    let rest = node_solution sets node in
    let shared = keep (λ k. contains k ks) node in
    if is_set shared then elim rest [ none ↦ none | some js ↦ some (shared ++ js) ] else none

-- The loop over the nodes.
unfoldable pub node_solutions : List (List Name) → List Name → List (List Name) → List Name
unfolding node_solution contains
node_solutions sets filtered [] = []
node_solutions sets filtered (node ∷ nodes) =
    elim (node_solution sets (keep (λ k. contains k filtered) node)) [
      | none ↦ node_solutions sets filtered nodes
      | some ks ↦ ks ++ node_solutions sets filtered nodes
    ]

unfoldable pub possible_node_identifiers : SupvisorsMapper → ApplicationStatus → List Name
unfolding references actual_identifiers node_solutions contains values
possible_node_identifiers m a =
    let filtered = references m a.rules.identifiers in
    let found = node_solutions (actual_identifiers a.processes) filtered (values m.nodes) in
    keep (λ k. contains k found) filtered

abbrev is_configured : Name → ProcessStatus → Bool
is_configured k p = elim (lookup k p.info_map) [ none ↦ false | some info ↦ true ]

unfoldable pub get_instance_processes : Name → ApplicationStatus → List ProcessStatus
unfolding lookup values
get_instance_processes k a = keep (is_configured k) (values a.processes)
