-- ===== src/Commander/Commands.antt =====
-- supvisors/commander.py: ProcessCommand, ProcessStartCommand and ProcessStopCommand. A command holds
-- the names of its process and of its instance, which stand in the Context. `none` is an exception:
-- KeyError, or a subscript or an attribute of None.
use supvisors.Prelude.{
  ℕ, ◌+◌, ◌/◌, Bool, false, not, ◌&&◌, ◌||◌, List, [], ◌∷◌, Option, none, some, Name, ltb, length,
  if◌then◌else◌,
}
use supvisors.Prelude.Dict.{Dict, lookup}
use supvisors.Types.ProcessStates.{
  ProcessState, starting, running, backoff, stopping, stopped, exited, has_state, same_state,
}
use supvisors.Types.InstanceStates as I
use supvisors.Types.Strategies.{
  StartingStrategies, ProcessRequestResult, in_progress, success, failed, timed_out,
}
use supvisors.Process.{ProcessInfo, ProcessStatus, Supervisor}
use supvisors.Process.Rules.{ProcessRules}
use supvisors.Instances.Status.{InstanceStatus}
use supvisors.Context.{Context}

-- The fields from `strategy` on are those of ProcessStartCommand.
pub record ProcessCommand : Type 0 where
  pub process : Name
  pub process_name : Name
  pub identifier : Option Name
  pub request_sequence_counter : ℕ
  pub minimum_ticks : ℕ
  pub wait_ticks : ℕ
  pub strategy : StartingStrategies
  pub ignore_wait_exit : Bool
  pub extra_args : Name

abbrev pub default_tick_timeout : ℕ
default_tick_timeout = 2

-- Tick5Event.period of Supervisor
abbrev pub tick_period : ℕ
tick_period = 5

-- Context.valid_identifiers()
unfoldable pub valid_identifiers : Dict InstanceStatus → List Name
valid_identifiers [] = []
valid_identifiers ((k, status) ∷ d) =
    if I.same_state status.state I.isolated then valid_identifiers d else k ∷ valid_identifiers d

unfoldable pub minimum_ticks : Context → ℕ
unfolding valid_identifiers
minimum_ticks c =
    let tenth = length (valid_identifiers c.instances) / 10 in
    if ltb default_tick_timeout tenth then tenth else default_tick_timeout

-- ProcessStartCommand(process, strategy); a ProcessStopCommand has its identifier set at once
unfoldable pub new : Context → ProcessStatus → StartingStrategies → ProcessCommand
unfolding minimum_ticks
new c p strategy = record {
  process = p.namespec;
  process_name = p.process_name;
  identifier = none;
  request_sequence_counter = 0;
  minimum_ticks = minimum_ticks c;
  wait_ticks = minimum_ticks c;
  strategy = strategy;
  ignore_wait_exit = false;
  extra_args = p.extra_args;
}

-- The setter of wait_ticks: math.ceil(wait_secs / Tick5Event.period) + minimum_ticks
unfoldable pub set_wait_ticks : ℕ → ProcessCommand → ProcessCommand
set_wait_ticks wait_secs cmd = record cmd {
  wait_ticks = (wait_secs + 4) / tick_period + cmd.minimum_ticks;
}

-- `process.info_map.get(identifier)`
unfoldable pub info_of : Option ProcessStatus → Option Name → Option ProcessInfo
unfolding lookup
info_of none k = none
info_of (some p) none = none
info_of (some p) (some k) = lookup k p.info_map

unfoldable pub get_instance_info : Context → ProcessCommand → Option ProcessInfo
unfolding info_of lookup
get_instance_info c cmd = info_of (lookup cmd.process c.processes) cmd.identifier

-- `instance_status.sequence_counter`
unfoldable pub sequence_counter : Context → ProcessCommand → Option ℕ
unfolding lookup
sequence_counter c cmd = elim cmd.identifier [
  | none ↦ none
  | some k ↦ elim (lookup k c.instances) [
    | none ↦ none
    | some status ↦ some status.times.remote_sequence_counter
  ]
]

unfoldable pub update_sequence_counter : Context → ProcessCommand → Option ProcessCommand
unfolding sequence_counter
update_sequence_counter c cmd = elim (sequence_counter c cmd) [
  | none ↦ none
  | some counter ↦ some (record cmd { request_sequence_counter = counter })
]

-- update_identifier(identifier), where `secs` reads the entry that the command waits for
unfoldable pub update_identifier :
    (ProcessInfo → ℕ) → Context → Name → ProcessCommand → Option ProcessCommand
unfolding get_instance_info set_wait_ticks lookup
update_identifier secs c k cmd =
    let cmd' = record cmd { identifier = some k } in
    elim (lookup k c.instances) [
      | none ↦ none
      | some status ↦ elim (get_instance_info c cmd') [
        | none ↦ none
        | some info ↦ some (set_wait_ticks (secs info) cmd')
      ]
    ]

-- ProcessStartCommand.on_event, but for BACKOFF's update_sequence_counter
unfoldable pub start_result : ProcessRules → Bool → ProcessInfo → ProcessRequestResult
start_result rules ignore_wait_exit info =
    if same_state info.state starting
    then in_progress
    else if same_state info.state running
    then (if not rules.wait_exit || ignore_wait_exit then success else in_progress)
    else if same_state info.state exited
    then (if rules.wait_exit && info.expected then success else failed)
    else if same_state info.state backoff
    then in_progress
    else failed

-- ProcessStopCommand.on_event
unfoldable pub stop_result : Supervisor → ProcessInfo → ProcessRequestResult
stop_result sup info = if has_state info.state sup.stopped_states then success else in_progress

module _ (c : Context) where
  -- ProcessStartCommand.on_event(), with the command that it leaves
  unfoldable pub start_on_event : ProcessCommand → Option (ProcessCommand × ProcessRequestResult)
  unfolding get_instance_info update_sequence_counter start_result lookup
  start_on_event cmd = elim (lookup cmd.process c.processes) [
    | none ↦ none
    | some p ↦ elim (get_instance_info c cmd) [
      | none ↦ none
      | some info ↦
          let result = start_result p.rules cmd.ignore_wait_exit info in
          if same_state info.state backoff
          then elim (update_sequence_counter c cmd) [
            | none ↦ none
            | some cmd' ↦ some (cmd', result)
          ]
          else some (cmd, result)
    ]
  ]

  unfoldable pub stop_on_event :
      Supervisor → ProcessCommand → Option (ProcessCommand × ProcessRequestResult)
  unfolding get_instance_info stop_result
  stop_on_event sup cmd = elim (get_instance_info c cmd) [
    | none ↦ none
    | some info ↦ some (cmd, stop_result sup info)
  ]

-- TIMED_OUT once the counter is above the limit.
abbrev pub await : ProcessState → (counter limit : ℕ) → ProcessState × ProcessRequestResult
await expected counter limit = (expected, if ltb limit counter then timed_out else in_progress)

-- ProcessStartCommand.timed_out() for the counter of the instance, but for the date of the state:
-- the state that is expected, and the result.
unfoldable pub start_timed_out :
    ProcessRules → ℕ → ProcessInfo → ProcessCommand → ProcessState × ProcessRequestResult
start_timed_out rules counter info cmd =
    if same_state info.state running
    then (if rules.wait_exit && not cmd.ignore_wait_exit
        then (exited, in_progress)
        else (running, success))
    else if has_state info.state (backoff ∷ starting ∷ [])
    then await running counter (cmd.request_sequence_counter + cmd.wait_ticks)
    else await starting counter (cmd.request_sequence_counter + cmd.minimum_ticks)

-- ProcessStopCommand.timed_out()
unfoldable pub stop_timed_out :
    Supervisor → ℕ → ProcessInfo → ProcessCommand → ProcessState × ProcessRequestResult
stop_timed_out sup counter info cmd =
    if same_state info.state stopping
    then await stopped counter (cmd.request_sequence_counter + cmd.wait_ticks)
    else if has_state info.state sup.stopped_states
    then (info.state, success)
    else await stopping counter (cmd.request_sequence_counter + cmd.minimum_ticks)
