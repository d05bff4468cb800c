-- ===== src/Commander/Distribution.antt =====
-- supvisors/commander.py: ApplicationStartJobs.before, which places an application that is not
-- distributed. `none` is an exception.
use supvisors.Prelude.{List, [], ◌∷◌, Option, none, some, Name, keep, if◌then◌else◌}
use supvisors.Prelude.Dict.{lookup}
use supvisors.Prelude.NameSet.{contains}
use supvisors.Types.Strategies.{
  StartingStrategies, DistributionRules, all_instances, single_instance, single_node,
}
use supvisors.Process.Rules.{is_set}
use supvisors.Mapper.{SupvisorsMapper}
use supvisors.Context.{Context}
use supvisors.Application.{ApplicationStatus}
use supvisors.Application.Sequences.{get_start_sequence_expected_load}
use supvisors.Application.Candidates.{possible_identifiers, possible_node_identifiers}
use supvisors.Strategy.Starting.{get_supvisors_instance, get_node}
use supvisors.Commander.Commands.{ProcessCommand, update_identifier}
use supvisors.Commander.Jobs.{ApplicationJobs}
use supvisors.Commander.Kinds.{World, get_load_requests}

-- ProcessStartCommand.update_identifier
abbrev pub start_identifier : Context → Name → ProcessCommand → Option ProcessCommand
start_identifier c k cmd = update_identifier (λ info. info.startsecs) c k cmd

-- `self.supvisors.mapper.nodes.get(machine_id, [])`
abbrev pub node_identifiers : SupvisorsMapper → Option Name → List Name
node_identifiers m none = []
node_identifiers m (some machine) = elim (lookup machine m.nodes) [ none ↦ [] | some ks ↦ ks ]

-- A loop over the commands that changes each of them.
unfoldable pub place_group :
    (ProcessCommand → Option ProcessCommand) → List ProcessCommand → Option (List ProcessCommand)
place_group place [] = some []
place_group place (cmd ∷ cmds) = elim (place cmd) [
  | none ↦ none
  | some cmd' ↦ elim (place_group place cmds) [ none ↦ none | some cmds' ↦ some (cmd' ∷ cmds') ]
]

module _ {K : Type 0} where
  unfoldable pub place_planned :
      (ProcessCommand → Option ProcessCommand)
      → List (K × List ProcessCommand)
      → Option (List (K × List ProcessCommand))
  unfolding place_group
  place_planned place [] = some []
  place_planned place ((n, cmds) ∷ planned) = elim (place_group place cmds) [
    | none ↦ none
    | some cmds' ↦ elim (place_planned place planned) [
      | none ↦ none
      | some planned' ↦ some ((n, cmds') ∷ planned')
    ]
  ]

  -- The loop over all commands, once the candidates are chosen.
  unfoldable pub place_all :
      (ProcessCommand → Option ProcessCommand)
      → List Name
      → ApplicationJobs K
      → Option (ApplicationJobs K)
  unfolding place_planned
  place_all place ks j = elim (place_planned place j.planned_jobs) [
    | none ↦ none
    | some planned ↦ some (record j { planned_jobs = planned; identifiers = ks })
  ]

module _ {K : Type 0} (strategy : StartingStrategies) (a : ApplicationStatus) where
  -- One command of an application on a single node. Without an instance, the identifier None is not
  -- a key of the instances of the Context.
  unfoldable pub place_on_node :
      List Name → ApplicationJobs K → World → ProcessCommand → Option ProcessCommand
  unfolding lookup get_supvisors_instance get_load_requests update_identifier
  place_on_node ks j w cmd = elim (lookup cmd.process w.context.processes) [
    | none ↦ none
    | some p ↦
        elim (get_supvisors_instance w.supervisor w.mapper w.context strategy ks
          p.rules.expected_load (get_load_requests j w)) [
            | none ↦ none
            | some none ↦ none
            | some (some k) ↦ start_identifier w.context k cmd
          ]
  ]

  unfoldable pub distribute_to_single_node : ApplicationJobs K → World → Option (ApplicationJobs K)
  unfolding get_node possible_node_identifiers get_start_sequence_expected_load get_load_requests
      contains place_on_node place_all lookup
  distribute_to_single_node j w =
      let ks = possible_node_identifiers w.mapper a in
      elim (get_node w.supervisor w.mapper w.context strategy ks
        (get_start_sequence_expected_load a) (get_load_requests j w)) [
          | none ↦ none
          | some machine ↦
              let shared = keep (λ k. contains k (node_identifiers w.mapper machine)) ks in
              if is_set shared
              then place_all (place_on_node shared j w) shared j
              else some (record j { identifiers = [] })
        ]

  unfoldable pub distribute_to_single_instance :
      ApplicationJobs K → World → Option (ApplicationJobs K)
  unfolding get_supvisors_instance possible_identifiers get_start_sequence_expected_load
      get_load_requests update_identifier place_all
  distribute_to_single_instance j w =
      elim (get_supvisors_instance w.supervisor w.mapper w.context strategy
        (possible_identifiers w.mapper a) (get_start_sequence_expected_load a)
        (get_load_requests j w)) [
          | none ↦ none
          | some none ↦ some j
          | some (some k) ↦ place_all (start_identifier w.context k) (k ∷ []) j
        ]

  unfoldable pub before : DistributionRules → ApplicationJobs K → World → Option (ApplicationJobs K)
  unfolding distribute_to_single_node distribute_to_single_instance
  before all_instances j w = some j
  before single_instance j w = distribute_to_single_instance j w
  before single_node j w = distribute_to_single_node j w
