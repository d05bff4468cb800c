-- ===== src/Fsm/Next.antt =====
-- supvisors/statemachine.py: `next`, `enter` and `exit` of the states.
use supvisors.Prelude.{
  ℕ, Bool, false, ◌-◌, ◌&&◌, ◌||◌, not, [], ◌∷◌, Option, none, some, Name, leb, if◌then◌else◌, ◌==◌,
}
use supvisors.Prelude.Dict.{lookup}
use supvisors.Prelude.NameSet.{NameSet}
use supvisors.Types.InstanceStates.{is_running}
use supvisors.Types.FsmStates.{
  SupvisorsStates, off, synchronization, election, distribution, operation, conciliation,
  restarting, shutting_down, final, same_state,
}
use supvisors.Process.{Supervisor}
use supvisors.StateModes.{master_state, is_master}
use supvisors.StateModes.Updates.{set_degraded_mode}
use supvisors.StateModes.Stability.{is_stable}
use supvisors.StateModes.Master.{check_master, select_master, accept_master}
use supvisors.Context.{value_error, attribute_error}
use supvisors.Fsm.{
  Machine, Outcome, returned, failed, chain, or_next, Options, Jobs, with_modes, task, restart,
  shutdown, trigger_jobs, abort_failures, abort_starter, abort_stopper, start_applications,
  stop_applications, conciliate_conflicts, starter_invalidation, stopper_invalidation,
  add_default_job,
}
use supvisors.Fsm.Checks.{core_failure, strict_failure, list_failure, base_next}

-- `failure is False`: the option is set and its condition is met
abbrev pub is_met : Option Bool → Bool
is_met none = false
is_met (some failure) = not failure

abbrev pub is_failure : Option Bool → Bool
is_failure none = false
is_failure (some failure) = failure

-- _check_end_sync_timeout(uptime)
unfoldable pub end_sync_timeout : Options → ℕ → Bool
end_sync_timeout o uptime = o.timeout && leb o.synchro_timeout uptime

abbrev pub master_in : SupvisorsStates → Option SupvisorsStates → Bool
master_in s none = false
master_in s (some t) = same_state t s

module _ {J : Type 0} where
  -- _check_end_sync_user(): `pick` is what accept_master takes of the declared Masters
  unfoldable pub end_sync_user :
      (NameSet → Option Name) → Options → Machine J → Outcome J (Option Bool)
  unfolding with_modes accept_master lookup
  end_sync_user pick o m =
      if o.user
      then (let m' = with_modes (accept_master pick m.context.state_modes) m in
          let master = m'.context.state_modes.local_state_modes.master_identifier in
          if master == ""
          then returned (some false) m'
          else elim (lookup master m'.context.instances) [
            | none ↦ failed attribute_error m'
            | some status ↦ returned (some (is_running status.state)) m'
          ])
      else returned none m

  -- The end of the next() of SynchronizationState.
  unfoldable pub synchronization_next :
      (NameSet → Option Name) → Options → ℕ → Machine J → Outcome J (Option SupvisorsStates)
  unfolding strict_failure list_failure core_failure end_sync_timeout end_sync_user chain with_modes
      set_degraded_mode
  synchronization_next pick o mtime m =
      let strict = strict_failure o m in
      let list = list_failure o m in
      let core = core_failure o m in
      let timeout = end_sync_timeout o (mtime - m.start_date) in
      chain (end_sync_user pick o m) (λ user m'.
        returned
          (some (
            if is_met strict || (is_met list || (timeout || (is_met core || is_failure user)))
            then election
            else synchronization))
          (with_modes
            (set_degraded_mode (is_failure strict || (is_failure list || is_failure core))
              m'.context.state_modes)
            m'))

  -- `self.state_modes.select_master()`, in which `min` raises where there is no candidate
  unfoldable pub elect : Machine J → Outcome J (Option SupvisorsStates)
  unfolding select_master with_modes
  elect m = elim (select_master m.context.state_modes) [
    | none ↦ failed value_error m
    | some modes ↦ returned (some election) (with_modes modes m)
  ]

  -- The end of the next() of ElectionState.
  unfoldable pub election_next : Machine J → Outcome J (Option SupvisorsStates)
  unfolding is_stable check_master is_master master_state elect
  election_next m =
      let modes = m.context.state_modes in
      if is_stable modes
      then (if check_master modes
            && (is_master modes || master_in distribution (master_state modes))
          then returned (some distribution) m
          else elect m)
      else returned (some election) m

  module _ (jobs : Jobs J) where
    unfoldable pub add_lost : NameSet → Machine J → Machine J
    unfolding task
    add_lost [] m = m
    add_lost (p ∷ ps) m = add_lost ps (task jobs (add_default_job p) m)

    -- _abort_jobs()
    unfoldable pub abort_jobs : Machine J → Machine J
    unfolding task
    abort_jobs m = task jobs abort_stopper (task jobs abort_starter (task jobs abort_failures m))

    -- _common_next()
    unfoldable pub common_next : Machine J → Machine J
    unfolding task
    common_next m = elim m.lost_instances [
      | [] ↦ m
      | k ∷ ks ↦
          task jobs (stopper_invalidation (k ∷ ks) m.lost_processes)
            (task jobs (starter_invalidation (k ∷ ks) m.lost_processes) m)
    ]

    -- _master_next() of _WorkingState
    unfoldable pub redistribute : Machine J → Machine J
    unfolding task add_lost
    redistribute m = elim m.lost_processes [
      | [] ↦ m
      | p ∷ ps ↦ task jobs trigger_jobs (add_lost (p ∷ ps) m)
    ]

    -- _master_next()
    unfoldable pub master_next : SupvisorsStates → Machine J → Option SupvisorsStates × Machine J
    unfolding task redistribute
    master_next distribution m =
        let m' = redistribute m in
        (some (if jobs.starter_in_progress m'.jobs then distribution else operation), m')
    master_next operation m =
        let m' = redistribute m in
        (
          some (
              if jobs.starter_in_progress m'.jobs || jobs.stopper_in_progress m'.jobs
              then operation
              else if jobs.conflicting m'.context
              then conciliation
              else operation),
          m',
        )
    master_next conciliation m =
        if jobs.starter_in_progress m.jobs || jobs.stopper_in_progress m.jobs
        then (some conciliation, m)
        else if not (jobs.conflicting m.context)
        then (some operation, m)
        else (some conciliation, task jobs conciliate_conflicts m)
    master_next restarting m =
        (some (if jobs.stopper_in_progress m.jobs then restarting else final), m)
    master_next shutting_down m =
        (some (if jobs.stopper_in_progress m.jobs then shutting_down else final), m)
    master_next _ m = (none, m)

    -- _slave_next()
    unfoldable pub slave_next : SupvisorsStates → Machine J → Option SupvisorsStates
    unfolding master_state
    slave_next restarting m =
        some
          (if master_in restarting (master_state m.context.state_modes) then restarting else final)
    slave_next shutting_down m = some (
        if master_in shutting_down (master_state m.context.state_modes)
        then shutting_down
        else final)
    slave_next _ m = master_state m.context.state_modes

    -- The end of the next() of _MasterSlaveState.
    unfoldable pub driven_next : SupvisorsStates → Machine J → Outcome J (Option SupvisorsStates)
    unfolding common_next master_next slave_next is_master
    driven_next s m =
        let m' = common_next m in
        if is_master m'.context.state_modes
        then (let (next_state, m'') = master_next s m' in returned next_state m'')
        else returned (slave_next s m') m'

    -- What follows the base next() in each state.
    unfoldable pub own_next :
        (NameSet → Option Name)
        → Options
        → SupvisorsStates
        → ℕ
        → Machine J
        → Outcome J (Option SupvisorsStates)
    unfolding synchronization_next election_next driven_next
    own_next pick o off mtime m = returned none m
    own_next pick o synchronization mtime m = synchronization_next pick o mtime m
    own_next pick o election mtime m = election_next m
    own_next pick o final mtime m = returned none m
    own_next pick o s mtime m = driven_next s m

    -- self.instance.next()
    unfoldable pub next :
        Supervisor
        → (NameSet → Option Name)
        → Options
        → SupvisorsStates
        → ℕ
        → Machine J
        → Outcome J (Option SupvisorsStates)
    unfolding or_next base_next own_next
    next sup pick o s mtime m = or_next (base_next sup o s mtime m) (own_next pick o s mtime)

    -- enter() of _EndingState
    unfoldable pub enter_ending : Machine J → Machine J
    unfolding abort_jobs task is_master
    enter_ending m =
        let m' = abort_jobs m in
        if is_master m.context.state_modes then task jobs stop_applications m' else m'

    -- self.instance.enter()
    unfoldable pub enter : SupvisorsStates → ℕ → Machine J → Machine J
    unfolding task is_master abort_jobs enter_ending
    enter off mtime m = record m { start_date = mtime }
    enter synchronization mtime m = abort_jobs m
    enter election mtime m = abort_jobs m
    enter distribution mtime m =
        if is_master m.context.state_modes then task jobs start_applications m else m
    enter operation mtime m = m
    enter conciliation mtime m =
        if is_master m.context.state_modes then task jobs conciliate_conflicts m else m
    enter restarting mtime m = enter_ending m
    enter shutting_down mtime m = enter_ending m
    enter final mtime m = m

  -- self.instance.exit()
  unfoldable pub exit : SupvisorsStates → Machine J → Machine J
  exit restarting m = record m {
    requests = restart m.context.state_modes.local_identifier ∷ m.requests;
  }
  exit shutting_down m = record m {
    requests = shutdown m.context.state_modes.local_identifier ∷ m.requests;
  }
  exit _ m = m
