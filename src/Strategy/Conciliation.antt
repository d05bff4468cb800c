-- ===== src/Strategy/Conciliation.antt =====
-- supvisors/strategy.py: the conciliation strategies. `none` is the ValueError of `min` or `max` over
-- nothing, or the KeyError of a missing entry.
pub mod Kept
use supvisors.Prelude.{
  Bool, true, false, List, [], ◌∷◌, ◌++◌, Option, none, some, Name, ◌==◌, if◌then◌else◌,
}
use supvisors.Prelude.Dict.{Dict, lookup}
use supvisors.Prelude.NameSet.{NameSet, discard}
use supvisors.Prelude.Integers.{ℤ, int_le}
use supvisors.Types.Strategies.{
  ConciliationStrategies, senicide, infanticide, user, stop, restart, running_failure,
}
use supvisors.Process.{ProcessInfo, ProcessStatus}
use supvisors.Application.{ApplicationStatus}
use supvisors.Strategy.Failures.{
  RunningFailureHandler, add_default_job, trigger_jobs, Command, stopper_stop_process,
  stopper_restart_process, stopper_next,
}

-- The first identifier whose uptime no other precedes in the order.
unfoldable pub first_by : (ℤ → ℤ → Bool) → Dict ProcessInfo → NameSet → Option (Name × ℤ)
unfolding lookup
first_by le d [] = none
first_by le d (k ∷ []) = elim (lookup k d) [ none ↦ none | some info ↦ some (k, info.uptime) ]
first_by le d (k ∷ j ∷ ks) =
    let rest = first_by le d (j ∷ ks) in
    elim (lookup k d) [
      | none ↦ none
      | some info ↦ elim rest [
        | none ↦ none
        | some (i, uptime) ↦ some (if le info.uptime uptime then (k, info.uptime) else (i, uptime))
      ]
    ]

abbrev pub int_ge : ℤ → ℤ → Bool
int_ge a b = int_le b a

-- The loop of SenicideStrategy (by `int_le`, as `min`) and of InfanticideStrategy (by `int_ge`, as
-- `max`).
unfoldable pub keep_one : (ℤ → ℤ → Bool) → List ProcessStatus → Option (List Command)
unfolding first_by discard
keep_one le [] = some []
keep_one le (p ∷ conflicts) = elim (first_by le p.info_map p.running_identifiers) [
  | none ↦ none
  | some (saved_identifier, _) ↦ elim (keep_one le conflicts) [
    | none ↦ none
    | some calls ↦ some (
        stopper_stop_process p.namespec (some (discard saved_identifier p.running_identifiers))
        ∷ calls)
  ]
]

-- The loop of StopStrategy.
unfoldable pub stop_each : List ProcessStatus → List Command
stop_each [] = []
stop_each (p ∷ conflicts) = stopper_stop_process p.namespec none ∷ stop_each conflicts

-- The loop of RestartStrategy.
unfoldable pub restart_each : List ProcessStatus → List Command
restart_each [] = []
restart_each (p ∷ conflicts) = stopper_restart_process p.namespec ∷ restart_each conflicts

abbrev pub Outcome : Type 0
Outcome = RunningFailureHandler × List Command

abbrev pub then_next : RunningFailureHandler → Option (List Command) → Option Outcome
then_next h none = none
then_next h (some calls) = some (h, calls ++ (stopper_next ∷ []))

module _ (applications : Dict ApplicationStatus) where
  -- The jobs that the loop of FailureStrategy gives to the failure handler.
  unfoldable pub fail_each :
      List ProcessStatus → RunningFailureHandler → Option RunningFailureHandler
  unfolding add_default_job
  fail_each [] h = some h
  fail_each (p ∷ conflicts) h = elim (add_default_job applications p h) [
    | none ↦ none
    | some h' ↦ fail_each conflicts h'
  ]

  -- conciliate_conflicts(supvisors, strategy, conflicts). `busy` are the applications that the
  -- Starter and the Stopper have jobs for when FailureStrategy has added its own.
  unfoldable pub conciliate_conflicts :
      NameSet → ConciliationStrategies → List ProcessStatus → RunningFailureHandler → Option Outcome
  unfolding keep_one stop_each restart_each fail_each trigger_jobs
  conciliate_conflicts busy senicide conflicts h = then_next h (keep_one int_le conflicts)
  conciliate_conflicts busy infanticide conflicts h = then_next h (keep_one int_ge conflicts)
  conciliate_conflicts busy user conflicts h = some (h, [])
  conciliate_conflicts busy stop conflicts h = then_next h (some (stop_each conflicts))
  conciliate_conflicts busy restart conflicts h = then_next h (some (restart_each conflicts))
  conciliate_conflicts busy running_failure conflicts h = elim (fail_each conflicts h) [
    | none ↦ none
    | some h' ↦
        let (h'', calls) = trigger_jobs busy h' in
        some (h'', stop_each conflicts ++ (stopper_next ∷ calls))
  ]
