-- ===== src/Commander/Events.antt =====
-- supvisors/commander.py: what ApplicationJobs does about the events of the processes and the loss of
-- instances.
use supvisors.Prelude.{
  Bool, false, ◌&&◌, List, [], ◌∷◌, Option, none, some, Name, ◌==◌, if◌then◌else◌,
}
use supvisors.Prelude.NameSet.{NameSet, contains, discard}
use supvisors.Types.Strategies.{ProcessRequestResult, success, failed}
use supvisors.Commander.Commands.{ProcessCommand}
use supvisors.Commander.Jobs.{
  ApplicationJobs, JobKind, same_identifier, get_command, remove_command, planned_commands, next,
}

-- The command of that process and instance after `on_event` has changed it.
unfoldable pub replace_command : ProcessCommand → List ProcessCommand → List ProcessCommand
replace_command cmd [] = []
replace_command cmd (c ∷ cmds) =
    if same_identifier cmd.identifier c.identifier && (c.process_name == cmd.process_name)
    then cmd ∷ cmds
    else c ∷ replace_command cmd cmds

-- Whether the instance of a command is among the invalidated ones.
abbrev pub is_lost : List Name → ProcessCommand → Bool
is_lost invalidated cmd = elim cmd.identifier [ none ↦ false | some k ↦ contains k invalidated ]

-- The second loop of on_instances_invalidation.
unfoldable pub forget_planned : List ProcessCommand → NameSet → NameSet
unfolding discard
forget_planned [] failed_processes = failed_processes
forget_planned (cmd ∷ cmds) failed_processes =
    forget_planned cmds (discard cmd.process failed_processes)

module _ {K : Type 0} {S : Type 0} (kind : JobKind K S) where
  -- What follows the result of `command.on_event()`.
  unfoldable pub settle_event :
      ProcessCommand → ProcessRequestResult → ApplicationJobs K → S → Option (ApplicationJobs K × S)
  unfolding replace_command remove_command next
  settle_event cmd success j s =
      next kind
        (record j { current_jobs = remove_command j.current_jobs cmd.process_name cmd.identifier })
        s
  settle_event cmd failed j s =
      elim (kind.process_failure cmd
        (record j { current_jobs = remove_command j.current_jobs cmd.process_name cmd.identifier })
        s) [ none ↦ none | some j' ↦ next kind j' s ]
  settle_event cmd _ j s = some (record j { current_jobs = replace_command cmd j.current_jobs }, s)

  -- on_event(process, identifier)
  unfoldable pub on_event :
      Name → Option Name → ApplicationJobs K → S → Option (ApplicationJobs K × S)
  unfolding get_command settle_event
  on_event process_name identifier j s = elim (get_command j.current_jobs process_name identifier) [
    | none ↦ some (j, s)
    | some cmd ↦ elim (kind.on_event cmd s) [
      | none ↦ none
      | some (cmd', result) ↦ settle_event cmd' result j s
    ]
  ]

  -- The first loop of on_instances_invalidation, over the current commands.
  unfoldable pub lose_commands :
      List ProcessCommand
      → List Name
      → NameSet
      → ApplicationJobs K
      → S
      → Option (ApplicationJobs K × NameSet)
  unfolding contains discard remove_command
  lose_commands [] invalidated failed_processes j s = some (j, failed_processes)
  lose_commands (cmd ∷ cmds) invalidated failed_processes j s =
      if is_lost invalidated cmd
      then elim (kind.process_failure cmd
          (record j {
            current_jobs = remove_command j.current_jobs cmd.process_name cmd.identifier;
          })
          s) [
            | none ↦ none
            | some j' ↦ lose_commands cmds invalidated (discard cmd.process failed_processes) j' s
          ]
      else lose_commands cmds invalidated failed_processes j s

  -- on_instances_invalidation(invalidated_identifiers, failed_processes), with what is left of the
  -- failed processes
  unfoldable pub on_instances_invalidation :
      List Name → NameSet → ApplicationJobs K → S → Option (ApplicationJobs K × NameSet)
  unfolding lose_commands forget_planned planned_commands
  on_instances_invalidation invalidated failed_processes j s =
      elim (lose_commands j.current_jobs invalidated failed_processes j s) [
        | none ↦ none
        | some (j', left) ↦ some (j', forget_planned (planned_commands j'.planned_jobs) left)
      ]
