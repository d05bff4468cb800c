-- ===== src/Fsm/Checks.antt =====
-- supvisors/statemachine.py: the checks that the states share, `_check_instances` and
-- `_check_consistence`. The alerts that only avoid repeated logs are left out.
use supvisors.Prelude.{
  ℕ, Bool, true, false, not, List, [], ◌∷◌, Option, none, some, Name, any, if◌then◌else◌,
}
use supvisors.Prelude.Dict.{lookup}
use supvisors.Types.InstanceStates.{is_running}
use supvisors.Types.FsmStates.{
  SupvisorsStates, off, synchronization, election, distribution, operation, conciliation,
  restarting, shutting_down, final, SupvisorsFailureStrategies, continue, resync, shutdown,
}
use supvisors.Process.{Supervisor}
use supvisors.StateModes.Updates.{set_degraded_mode}
use supvisors.StateModes.Stability.{
  evaluate_stability, initial_running, all_running, core_instances_running,
}
use supvisors.StateModes.Master.{check_master}
use supvisors.Context.{done, raised, key_error}
use supvisors.Context.Handshake.{activate_checked}
use supvisors.Context.Failures.{invalidate_failed}
use supvisors.Fsm.{Machine, Outcome, returned, failed, chain, or_next, Options, with_modes}

abbrev some_election : List Name → Option SupvisorsStates
some_election [] = none
some_election (_ ∷ _) = some election

-- `next((failure for failure in failures if failure is not None), False)`
abbrev pub first_set : List (Option Bool) → Bool
first_set [] = false
first_set (none ∷ failures) = first_set failures
first_set (some b ∷ failures) = b

abbrev pub is_true : Option Bool → Bool
is_true none = false
is_true (some b) = b

abbrev pub react : SupvisorsFailureStrategies → Option SupvisorsStates
react continue = none
react resync = some synchronization
react shutdown = some shutting_down

module _ {J : Type 0} where
  -- The first half of `_check_instances`.
  unfoldable pub collect_lost : Supervisor → ℕ → Machine J → Outcome J (Unit {0})
  unfolding invalidate_failed
  collect_lost sup mtime m = elim (invalidate_failed sup mtime m.context) [
    | done (lost, processes) c ↦
        returned tt (record m { context = c; lost_instances = lost; lost_processes = processes })
    | raised e c ↦ failed e (record m { context = c })
  ]

  -- What `activate_checked` does to the machine, with a suggestion out of what it returns.
  unfoldable pub activating :
      (List Name → Option SupvisorsStates) → ℕ → Machine J → Outcome J (Option SupvisorsStates)
  unfolding activate_checked
  activating suggest mtime m = elim (activate_checked mtime m.context) [
    | done checked c ↦ returned (suggest checked) (record m { context = c })
    | raised e c ↦ failed e (record m { context = c })
  ]

  -- _activate_instances(): not in DISTRIBUTION, and back to ELECTION from the other working states
  unfoldable pub activate_instances :
      SupvisorsStates → ℕ → Machine J → Outcome J (Option SupvisorsStates)
  unfolding activating
  activate_instances distribution mtime m = returned none m
  activate_instances operation mtime m = activating some_election mtime m
  activate_instances conciliation mtime m = activating some_election mtime m
  activate_instances _ mtime m = activating (λ checked. none) mtime m

  -- _check_instances()
  unfoldable pub check_instances :
      Supervisor → SupvisorsStates → ℕ → Machine J → Outcome J (Option SupvisorsStates)
  unfolding collect_lost chain activate_instances
  check_instances sup s mtime m =
      chain (collect_lost sup mtime m) (λ _ m'. activate_instances s mtime m')

  -- `self.context.local_status.state == RUNNING`, with a suggestion for either case
  unfoldable pub when_local_runs :
      Option SupvisorsStates
      → Option SupvisorsStates
      → Machine J
      → Outcome J (Option SupvisorsStates)
  unfolding lookup
  when_local_runs if_so if_not m =
      elim (lookup m.context.state_modes.local_identifier m.context.instances) [
        | none ↦ failed key_error m
        | some status ↦ returned (if is_running status.state then if_so else if_not) m
      ]

  -- _check_user_failure(), _check_core_failure(), _check_strict_failure(), _check_list_failure();
  -- `none` where the option is not set
  unfoldable pub user_failure : Options → Machine J → Option Bool
  user_failure o m =
      if o.user then some (elim m.lost_instances [ [] ↦ false | _ ∷ _ ↦ true ]) else none

  unfoldable pub core_failure : Options → Machine J → Option Bool
  unfolding core_instances_running
  core_failure o m =
      if o.core then some (not (core_instances_running m.context.state_modes)) else none

  unfoldable pub strict_failure : Options → Machine J → Option Bool
  unfolding initial_running
  strict_failure o m = if o.strict then some (not (initial_running m.context.state_modes)) else none

  unfoldable pub list_failure : Options → Machine J → Option Bool
  unfolding all_running
  list_failure o m = if o.list then some (not (all_running m.context.state_modes)) else none

  -- _check_failure_strategy()
  unfoldable pub check_failure_strategy : Options → Machine J → Outcome J (Option SupvisorsStates)
  unfolding user_failure core_failure strict_failure list_failure with_modes set_degraded_mode
  check_failure_strategy o m =
      let user = user_failure o m in
      let core = core_failure o m in
      let strict = strict_failure o m in
      let list = list_failure o m in
      returned
        (if first_set (user ∷ core ∷ strict ∷ list ∷ [])
          then react o.supvisors_failure_strategy
          else none)
        (with_modes
          (set_degraded_mode (any is_true (strict ∷ list ∷ core ∷ [])) m.context.state_modes) m)

  -- _check_consistence() of _OnState, _SynchronizedState, _MasterSlaveState and _EndingState
  unfoldable pub check_on : Machine J → Outcome J (Option SupvisorsStates)
  unfolding when_local_runs
  check_on m = when_local_runs none (some off) m

  unfoldable pub check_synchronized : Options → Machine J → Outcome J (Option SupvisorsStates)
  unfolding check_on or_next check_failure_strategy
  check_synchronized o m = or_next (check_on m) (check_failure_strategy o)

  unfoldable pub check_mastered : Options → Machine J → Outcome J (Option SupvisorsStates)
  unfolding check_synchronized or_next check_master
  check_mastered o m =
      or_next (check_synchronized o m)
        (λ m'. returned (if check_master m'.context.state_modes then none else some election) m')

  unfoldable pub check_ending : Options → Machine J → Outcome J (Option SupvisorsStates)
  unfolding check_mastered chain
  check_ending o m =
      chain (check_mastered o m)
        (λ next_state m'. returned (elim next_state [ none ↦ none | some _ ↦ some final ]) m')

  unfoldable pub check_consistence :
      SupvisorsStates → Options → Machine J → Outcome J (Option SupvisorsStates)
  unfolding when_local_runs check_on check_synchronized check_mastered check_ending
  check_consistence off o m = when_local_runs (some synchronization) (some off) m
  check_consistence synchronization o m = check_on m
  check_consistence election o m = check_synchronized o m
  check_consistence restarting o m = check_ending o m
  check_consistence shutting_down o m = check_ending o m
  check_consistence final o m = returned none m
  check_consistence _ o m = check_mastered o m

  -- next() of _SupvisorsBaseState, which the states specialize
  unfoldable pub base_next :
      Supervisor → Options → SupvisorsStates → ℕ → Machine J → Outcome J (Option SupvisorsStates)
  unfolding check_instances or_next with_modes evaluate_stability check_consistence
  base_next sup o s mtime m =
      or_next (check_instances sup s mtime m)
        (λ m'. check_consistence s o (with_modes (evaluate_stability m'.context.state_modes) m'))
