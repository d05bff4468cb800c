-- ===== src/Process.antt =====
-- supvisors/process.py: the data of ProcessStatus. A payload is a record of the entries that the
-- methods read or write. Times are counted in a unit small enough to be whole numbers.
pub mod Rules
pub mod Status
pub mod Events
pub mod Synthesis
pub mod Invariant
pub mod Commands
pub mod History
use supvisors.Prelude.{
  ℕ, Bool, true, false, ◌&&◌, ◌||◌, not, List, [], Option, none, Name, arith, ◌≡◌,
}
use supvisors.Prelude.Dict.{Dict}
use supvisors.Prelude.NameSet.{NameSet}
use supvisors.Prelude.Integers.{ℤ}
use supvisors.Types.ProcessStates.{
  ProcessState, unknown, fatal, exited, same_state, has_state, is_running, is_stopped,
}
use Rules.{ProcessRules}

pub record ProcessInfo : Type 0 where
  pub state : ProcessState
  pub statename : Name
  pub now : ℕ
  pub now_monotonic : ℕ
  pub start : ℕ
  pub start_monotonic : ℕ
  pub stop : ℕ
  pub stop_monotonic : ℕ
  pub uptime : ℤ
  pub event_time : ℕ
  pub local_mtime : ℕ
  pub expected : Bool
  pub disabled : Bool
  pub has_crashed : Bool
  pub pid : ℕ
  pub extra_args : Name
  pub spawnerr : Name
  pub description : Name
  pub program_name : Name
  pub process_index : ℕ
  pub startsecs : ℕ
  pub stopwaitsecs : ℕ

-- The payload of a process event. That of a lost instance has no entry `pid`.
pub record ProcessEvent : Type 0 where
  pub state : ProcessState
  pub now : ℕ
  pub now_monotonic : ℕ
  pub pid : Option ℕ
  pub expected : Bool
  pub extra_args : Name
  pub spawnerr : Name

-- What the methods use of Supervisor, which is not part of the repository.
pub record Supervisor : Type 0 where
  pub running_states : List ProcessState
  pub stopped_states : List ProcessState
  pub describe_state : ProcessState → Name
  pub interpret : ProcessInfo → Name

-- Supervisor's documentation of its lists of states.
pub record IsSupervisor (sup : Supervisor) : Type 0 where
  pub running_iff : (s : ProcessState) → has_state s sup.running_states ≡ is_running s
  pub stopped_iff : (s : ProcessState) → has_state s sup.stopped_states ≡ is_stopped s

-- `applied_args` lists the calls of `supervisor_data.update_extra_args`, the last one first.
pub record ProcessStatus : Type 0 where
  pub application_name : Name
  pub process_name : Name
  pub namespec : Name
  pub rules : ProcessRules
  pub state : ProcessState
  pub forced_state : Option ProcessState
  pub forced_reason : Name
  pub expected_exit : Bool
  pub last_event_mtime : ℕ
  pub program_name : Name
  pub process_index : ℕ
  pub extra_args : Name
  pub running_identifiers : NameSet
  pub info_map : Dict ProcessInfo
  pub applied_args : List Name

-- ProcessStatus(application_name, process_name, rules, supvisors); `make_namespec` is Supervisor's.
unfoldable pub new : Name → Name → Name → ProcessRules → ProcessStatus
new application_name process_name namespec rules = record {
  application_name = application_name;
  process_name = process_name;
  namespec = namespec;
  rules = rules;
  state = unknown;
  forced_state = none;
  forced_reason = "";
  expected_exit = true;
  last_event_mtime = 0;
  program_name = "";
  process_index = 0;
  extra_args = "";
  running_identifiers = [];
  info_map = [];
  applied_args = [];
}

-- is_crashed_event(info)
unfoldable pub is_crashed_event : ProcessState → Bool → Bool
is_crashed_event state expected =
    same_state state fatal || (same_state state exited && not expected)
