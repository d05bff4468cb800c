-- ===== src/Application/Upkeep.antt =====
-- supvisors/application.py: how processes come into an ApplicationStatus and leave it.
-- `none` is an exception.
use supvisors.Prelude.{Bool, List, [], ◌∷◌, Option, none, some, Name, if◌then◌else◌}
use supvisors.Prelude.Dict.{Dict, lookup, insert, delete}
use supvisors.Prelude.NameSet.{add}
use supvisors.Process.{ProcessStatus, Supervisor}
use supvisors.Process.Rules.{is_set}
use supvisors.Mapper.{SupvisorsMapper}
use supvisors.Application.{ApplicationStatus, HomogeneousGroup}
use supvisors.Application.Groups as G
use supvisors.Application.Sequences.{update_sequences}
use supvisors.Application.Status.{update, sequenced_names}

abbrev group_or : HomogeneousGroup → Option HomogeneousGroup → HomogeneousGroup
group_or default none = default
group_or default (some g) = g

unfoldable pub add_process : ProcessStatus → ApplicationStatus → ApplicationStatus
unfolding insert lookup G.new G.add_process
add_process p a = record a {
  processes = insert p.process_name p a.processes;
  process_groups =
      insert p.program_name
        (G.add_process p (group_or (G.new p.program_name) (lookup p.program_name a.process_groups)))
        a.process_groups;
}

-- A group is deleted with its last process.
abbrev put_group : Name → HomogeneousGroup → Dict HomogeneousGroup → Dict HomogeneousGroup
put_group k g groups = if is_set g.processes then insert k g groups else delete k groups

module _ (sup : Supervisor) (compile : Name → Option (Name → Bool)) where
  unfoldable pub remove_process : Name → ApplicationStatus → Option ApplicationStatus
  unfolding insert lookup delete G.remove_process update_sequences update
  remove_process k a = elim (lookup k a.processes) [
    | none ↦ none
    | some p ↦ elim (lookup p.program_name a.process_groups) [
      | none ↦ none
      | some g ↦ elim (G.remove_process k g) [
        | none ↦ none
        | some g' ↦ update sup compile (
            update_sequences (record a {
              processes = delete k a.processes;
              process_groups = put_group p.program_name g' a.process_groups;
            }))
      ]
    ]
  ]

-- The programs of the processes that the names stand for, each once: a set, which the source goes
-- through in any order, as the groups share no process.
unfoldable pub sequenced_programs : List Name → Dict ProcessStatus → List Name
unfolding lookup add
sequenced_programs [] d = []
sequenced_programs (k ∷ ks) d = elim (lookup k d) [
  | none ↦ sequenced_programs ks d
  | some p ↦ add p.program_name (sequenced_programs ks d)
]

unfoldable pub resolve_programs :
    List Name
    → SupvisorsMapper
    → Dict HomogeneousGroup
    → Dict ProcessStatus
    → Option (Dict ProcessStatus)
unfolding lookup G.resolve_rules
resolve_programs [] m groups d = some d
resolve_programs (k ∷ ks) m groups d = elim (lookup k groups) [
  | none ↦ none
  | some g ↦ elim (G.resolve_rules m g d) [
    | none ↦ none
    | some d' ↦ resolve_programs ks m groups d'
  ]
]

-- resolve_rules()
unfoldable pub resolve_rules : SupvisorsMapper → ApplicationStatus → Option ApplicationStatus
unfolding sequenced_programs resolve_programs sequenced_names
resolve_rules m a =
    elim (resolve_programs (sequenced_programs (sequenced_names a.start_sequence) a.processes) m
      a.process_groups a.processes) [ none ↦ none | some d ↦ some (record a { processes = d }) ]
