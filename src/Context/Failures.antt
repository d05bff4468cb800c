-- ===== src/Context/Failures.antt =====
-- supvisors/context.py: the instances that have failed, and the processes that are lost with them.
use supvisors.Prelude.{ℕ, false, List, [], ◌∷◌, ◌++◌, none, some, Name, if◌then◌else◌}
use supvisors.Prelude.Dict.{Dict, lookup, insert, keys}
use supvisors.Prelude.NameSet.{NameSet, add}
use supvisors.Types.InstanceStates.{failed, same_state}
use supvisors.Instances.Status.{InstanceStatus}
use supvisors.Process.{ProcessStatus, Supervisor}
use supvisors.Process.Events.{invalidate_identifier}
use supvisors.Process.Commands.{running_on}
use supvisors.Context.{Context, Result, done, raised, key_error, and_then}
use supvisors.Context.Setter.{set_state}
use supvisors.Context.Handshake.{invalidate}

-- on_instance_failure(status)
unfoldable pub on_instance_failure : ℕ → Name → Context → Result (Unit {0})
unfolding set_state
on_instance_failure mtime identifier c = set_state mtime failed identifier c

module _ (sup : Supervisor) where
  -- running_processes(), with the processes that are in the Context
  unfoldable pub running_processes : Name → List Name → Dict ProcessStatus → List Name
  unfolding lookup running_on
  running_processes identifier [] d = []
  running_processes identifier (n ∷ ns) d =
      let rest = running_processes identifier ns d in
      elim (lookup n d) [
        | none ↦ rest
        | some p ↦ if running_on sup identifier p then n ∷ rest else rest
      ]

  -- The processes for which `invalidate_identifier` returns True are added to the failed ones.
  unfoldable pub lose_processes : ℕ → Name → List Name → NameSet → Context → Result NameSet
  unfolding lookup insert add invalidate_identifier
  lose_processes mtime identifier [] lost c = done lost c
  lose_processes mtime identifier (n ∷ ns) lost c = elim (lookup n c.processes) [
    | none ↦ raised key_error c
    | some p ↦ elim (invalidate_identifier sup identifier mtime p) [
      | none ↦ raised key_error c
      | some (p', failure) ↦
          lose_processes mtime identifier ns (if failure then add n lost else lost)
            (record c { processes = insert n p' c.processes })
    ]
  ]

  -- One instance in `invalidate_failed`.
  unfoldable pub invalidate_one : ℕ → Name → InstanceStatus → NameSet → Context → Result NameSet
  unfolding and_then invalidate running_processes lose_processes
  invalidate_one mtime identifier status lost c =
      and_then (invalidate mtime identifier false c) (λ _ c'.
        lose_processes mtime identifier (running_processes identifier status.processes c'.processes)
          lost c')

  -- The loop of `invalidate_failed`, with the identifiers and the processes found so far.
  unfoldable pub invalidate_from :
      ℕ → List Name → NameSet → List Name → Context → Result (List Name × NameSet)
  unfolding lookup and_then invalidate_one
  invalidate_from mtime found lost [] c = done (found, lost) c
  invalidate_from mtime found lost (k ∷ ks) c = elim (lookup k c.instances) [
    | none ↦ raised key_error c
    | some status ↦
        and_then
          (if same_state status.state failed
            then invalidate_one mtime k status lost c
            else done lost c)
          (λ lost' c'.
            invalidate_from mtime
              (if same_state status.state failed then found ++ k ∷ [] else found) lost' ks c')
  ]

  -- invalidate_failed(); the re-evaluation of the applications is not part of the model
  unfoldable pub invalidate_failed : ℕ → Context → Result (List Name × NameSet)
  unfolding keys invalidate_from
  invalidate_failed mtime c = invalidate_from mtime [] [] (keys c.instances) c
