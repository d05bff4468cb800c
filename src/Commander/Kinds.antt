-- ===== src/Commander/Kinds.antt =====
-- supvisors/commander.py: ApplicationStartJobs and ApplicationStopJobs, as the two kinds of jobs.
pub mod Lawful
use supvisors.Prelude.{
  ℕ, ◌+◌, Bool, true, false, not, ◌&&◌, ◌||◌, List, [], ◌∷◌, ◌++◌, Option, none, some, Name, ◌==◌,
  leb, if◌then◌else◌,
}
use supvisors.Prelude.Dict.{Dict, lookup, insert, keys}
use supvisors.Prelude.Integers.{ℤ, int_le}
use supvisors.Types.ProcessStates.{ProcessState}
use supvisors.Types.ProcessStates as P
use supvisors.Types.Strategies.{
  StartingStrategies, StartingFailureStrategies, abort, stop, DistributionRules, all_instances,
  ProcessRequestResult,
}
use supvisors.Process.{ProcessInfo, ProcessStatus, Supervisor}
use supvisors.Process.Rules.{is_set}
use supvisors.Process.Status as S
use supvisors.Process.Commands.{running_on, possible_identifiers}
use supvisors.Mapper.{SupvisorsMapper}
use supvisors.Mapper.Filter.{filter}
use supvisors.Context.{Context}
use supvisors.Strategy.Loads.{load_at}
use supvisors.Strategy.Starting.{get_supvisors_instance}
use supvisors.Commander.Commands.{
  ProcessCommand, get_instance_info, sequence_counter, update_sequence_counter, update_identifier,
  start_on_event, stop_on_event, start_timed_out, stop_timed_out,
}
use supvisors.Commander.Jobs.{ApplicationJobs, JobKind, planned_commands}

-- The calls of rpc_handler and of listener.force_process_state; the reason of the latter tells the
-- state that was expected in time, or that there is no resource.
pub data Request : Type 0 where
  send_start_process : Name → Name → Name → Request
  send_stop_process : Name → Name → Request
  force_process_state : Name → Option Name → ProcessState → Option ProcessState → Request

-- What the jobs read and call, `requests` with the last call first. `other_requests` are the loads
-- that the other jobs of the Starter have requested.
pub record World : Type 0 where
  pub supervisor : Supervisor
  pub mapper : SupvisorsMapper
  pub context : Context
  pub other_requests : Dict ℕ
  pub requests : List Request

unfoldable pub send : Request → World → World
send request w = record w { requests = request ∷ w.requests }

abbrev Step : Type 0 → Type 0
Step K = Option (Bool × ProcessCommand × ApplicationJobs K × World)

abbrev pub or_empty : Option Name → Name
or_empty none = ""
or_empty (some k) = k

-- One more load under its identifier.
unfoldable pub add_load : Name → ℕ → Dict ℕ → Dict ℕ
unfolding load_at insert
add_load k n loads = insert k (load_at k loads + n) loads

unfoldable pub add_requests :
    Supervisor → List ProcessCommand → Dict ProcessStatus → Dict ℕ → Dict ℕ
unfolding S.stopped lookup add_load
add_requests sup [] d loads = loads
add_requests sup (cmd ∷ cmds) d loads =
    let rest = add_requests sup cmds d loads in
    elim (lookup cmd.process d) [
      | none ↦ rest
      | some p ↦ elim cmd.identifier [
        | none ↦ rest
        | some k ↦ if S.stopped sup p then add_load k p.rules.expected_load rest else rest
      ]
    ]

-- The instance that is found for a command, if one is.
unfoldable pub place_command :
    Context → ProcessCommand → Option (Option Name) → Option ProcessCommand
unfolding update_identifier
place_command c cmd none = none
place_command c cmd (some none) = some cmd
place_command c cmd (some (some k)) = update_identifier (λ info. info.startsecs) c k cmd

abbrev pub is_all : DistributionRules → Bool
is_all all_instances = true
is_all _ = false

-- `check` with what the command and its process read
unfoldable pub start_check : ProcessCommand → World → Option (ProcessState × ProcessRequestResult)
unfolding lookup get_instance_info sequence_counter start_timed_out
start_check cmd w = elim (lookup cmd.process w.context.processes) [
  | none ↦ none
  | some p ↦ elim (get_instance_info w.context cmd) [
    | none ↦ none
    | some info ↦ elim (sequence_counter w.context cmd) [
      | none ↦ none
      | some counter ↦ some (start_timed_out p.rules counter info cmd)
    ]
  ]
]

unfoldable pub stop_check : ProcessCommand → World → Option (ProcessState × ProcessRequestResult)
unfolding get_instance_info sequence_counter stop_timed_out
stop_check cmd w = elim (get_instance_info w.context cmd) [
  | none ↦ none
  | some info ↦ elim (sequence_counter w.context cmd) [
    | none ↦ none
    | some counter ↦ some (stop_timed_out w.supervisor counter info cmd)
  ]
]

module _ {K : Type 0} where
  -- Starter.get_load_requests(), of these jobs and of the others
  unfoldable pub get_load_requests : ApplicationJobs K → World → Dict ℕ
  unfolding add_requests planned_commands
  get_load_requests j w =
      add_requests w.supervisor (j.current_jobs ++ planned_commands j.planned_jobs)
        w.context.processes w.other_requests

  -- ApplicationStartJobs.process_failure
  unfoldable pub fail_jobs : ProcessStatus → ApplicationJobs K → ApplicationJobs K
  fail_jobs p j =
      if p.rules.required
      then elim p.rules.starting_failure_strategy [
        | abort ↦ record j { planned_jobs = [] }
        | stop ↦ record j { planned_jobs = []; stop_request = true }
        | _ ↦ j
      ]
      else j

  unfoldable pub start_failure :
      ProcessCommand → ApplicationJobs K → World → Option (ApplicationJobs K)
  unfolding fail_jobs lookup
  start_failure cmd j w = elim (lookup cmd.process w.context.processes) [
    | none ↦ none
    | some p ↦ some (fail_jobs p j)
  ]

  -- A command of an application that is not distributed has been placed by `before`.
  unfoldable pub locate :
      DistributionRules
      → ProcessStatus
      → ProcessCommand
      → ApplicationJobs K
      → World
      → Option ProcessCommand
  unfolding place_command get_supvisors_instance possible_identifiers filter keys get_load_requests
  locate distribution p cmd j w =
      if is_all distribution
      then place_command w.context cmd (
          get_supvisors_instance w.supervisor w.mapper w.context cmd.strategy
            (possible_identifiers (keys w.mapper.instances) (filter w.mapper) p)
            p.rules.expected_load (get_load_requests j w))
      else some cmd

  -- command.start(), or the failure of a command without instance
  unfoldable pub start_located :
      ProcessStatus → ApplicationJobs K → World → Option ProcessCommand → Step K
  unfolding update_sequence_counter send fail_jobs
  start_located p j w none = none
  start_located p j w (some cmd) = elim cmd.identifier [
    | none ↦
        some (false, cmd, fail_jobs p j, send (force_process_state cmd.process none P.fatal none) w)
    | some k ↦ elim (update_sequence_counter w.context cmd) [
      | none ↦ none
      | some cmd' ↦ some (true, cmd', j, send (send_start_process k cmd.process cmd.extra_args) w)
    ]
  ]

  -- ApplicationStartJobs.process_job, for the process of the command
  unfoldable pub start_process :
      DistributionRules → Option ProcessStatus → ProcessCommand → ApplicationJobs K → World → Step K
  unfolding S.stopped locate start_located
  start_process distribution none cmd j w = none
  start_process distribution (some p) cmd j w =
      if S.stopped w.supervisor p
      then start_located p j w (locate distribution p cmd j w)
      else some (false, cmd, j, w)

  -- command.stop()
  unfoldable pub stop_on : Name → ProcessCommand → ApplicationJobs K → World → Step K
  unfolding update_sequence_counter send
  stop_on k cmd j w = elim (update_sequence_counter w.context cmd) [
    | none ↦ none
    | some cmd' ↦ some (true, cmd', j, send (send_stop_process k cmd.process) w)
  ]

  -- ApplicationStopJobs.process_job
  unfoldable pub stop_process :
      Option ProcessStatus → Option Name → ProcessCommand → ApplicationJobs K → World → Step K
  unfolding running_on stop_on
  stop_process none k cmd j w = none
  stop_process (some p) none cmd j w = some (false, cmd, j, w)
  stop_process (some p) (some k) cmd j w =
      if running_on w.supervisor k p then stop_on k cmd j w else some (false, cmd, j, w)

  -- ApplicationStartJobs.on_command_added
  unfoldable pub add_located :
      StartingStrategies
      → DistributionRules
      → Option ProcessStatus
      → ProcessCommand
      → ApplicationJobs K
      → World
      → Option ProcessCommand
  unfolding place_command get_supvisors_instance get_load_requests
  add_located strategy distribution none cmd j w = none
  add_located strategy distribution (some p) cmd j w =
      if not (is_all distribution) && is_set j.identifiers
      then place_command w.context cmd (
          get_supvisors_instance w.supervisor w.mapper w.context strategy j.identifiers
            p.rules.expected_load (get_load_requests j w))
      else some cmd

-- ApplicationStartJobs, whose pickup_logic is `min` and whose failure_state is FATAL
abbrev pub start_jobs : StartingStrategies → DistributionRules → JobKind ℕ World
start_jobs strategy distribution = record {
  precedes = leb;
  process_job =
      λ cmd j w. start_process distribution (lookup cmd.process w.context.processes) cmd j w;
  on_event = λ cmd w. start_on_event w.context cmd;
  timed_out = start_check;
  fail_command = λ cmd expected w.
      send (force_process_state cmd.process cmd.identifier P.fatal (some expected)) w;
  process_failure = start_failure;
  on_command_added =
      λ cmd j w. add_located strategy distribution (lookup cmd.process w.context.processes) cmd j w;
}

-- ApplicationStopJobs, whose pickup_logic is `max` and whose failure_state is STOPPED
abbrev pub stop_jobs : JobKind ℤ World
stop_jobs = record {
  precedes = λ a b. int_le b a;
  process_job =
      λ cmd j w. stop_process (lookup cmd.process w.context.processes) cmd.identifier cmd j w;
  on_event = λ cmd w. stop_on_event w.context w.supervisor cmd;
  timed_out = stop_check;
  fail_command = λ cmd expected w.
      send (force_process_state cmd.process cmd.identifier P.stopped (some expected)) w;
  process_failure = λ cmd j w. some j;
  on_command_added = λ cmd j w. some cmd;
}
