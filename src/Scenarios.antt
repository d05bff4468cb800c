-- ===== src/Scenarios.antt =====
-- Test data for the modules below: three instances and a process of theirs.
mod Processes
mod Modes
mod Instances
mod Advances
mod Programs
mod Placement
mod Sequences
mod Discovery
use supvisors.Prelude.{
  ℕ, Bool, true, false, List, [], ◌∷◌, Option, none, some, Name, ◌≡◌, refl, arith,
}
use supvisors.Prelude.Dict.{Dict}
use supvisors.Prelude.Integers.{ℤ, pos, negsuc}
use supvisors.Types.ProcessStates.{
  ProcessState, stopped, starting, running, backoff, stopping, exited, fatal, unknown, has_state,
  is_running, is_stopped,
}
use supvisors.Types.Strategies
use supvisors.Types.InstanceStates
use supvisors.Types.FsmStates
use supvisors.Types.Applications
use supvisors.Application.{ApplicationStatus}
use supvisors.Mapper.Network.{LocalNetwork}
use supvisors.Process.{ProcessInfo, ProcessEvent, ProcessStatus, Supervisor, IsSupervisor}
use supvisors.Process.Rules.{ProcessRules}
use supvisors.StateModes.{StateModes, SupvisorsStateModes, Mapper}
use supvisors.Instances.Times.{Clock}
use supvisors.Instances.Status.{InstanceStatus}
use supvisors.Instances.Status
use supvisors.Context.{Context}

-- Supervisor's lists; its descriptions are left empty.
abbrev pub supervisor : Supervisor
supervisor = record {
  running_states = running ∷ backoff ∷ starting ∷ [];
  stopped_states = stopped ∷ exited ∷ fatal ∷ unknown ∷ [];
  describe_state = λ s. "";
  interpret = λ info. "";
}

pub supervisor-IsSupervisor : IsSupervisor supervisor
supervisor-IsSupervisor = record {
  running_iff = λ s. ground arith;
  stopped_iff = λ s. ground arith;
}

abbrev pub rules : ProcessRules
rules = record {
  identifiers = "*" ∷ [];
  at_identifiers = [];
  hash_identifiers = [];
  start_sequence = 1;
  stop_sequence = negsuc 0;
  required = true;
  wait_exit = false;
  expected_load = 10;
  starting_failure_strategy = Strategies.StartingFailureStrategies.abort;
  running_failure_strategy = Strategies.RunningFailureStrategies.restart_application;
}

abbrev pub info : ProcessState → ProcessInfo
info s = record {
  state = s;
  statename = "";
  now = 100;
  now_monotonic = 100;
  start = 90;
  start_monotonic = 90;
  stop = 0;
  stop_monotonic = 0;
  uptime = pos 0;
  event_time = 95;
  local_mtime = 0;
  expected = true;
  disabled = false;
  has_crashed = false;
  pid = 17;
  extra_args = "";
  spawnerr = "";
  description = "";
  program_name = "cat";
  process_index = 0;
  startsecs = 12;
  stopwaitsecs = 10;
}

abbrev pub event : ProcessState → ProcessEvent
event s = record {
  state = s;
  now = 120;
  now_monotonic = 120;
  pid = some 18;
  expected = true;
  extra_args = "";
  spawnerr = "";
}

abbrev pub seen : Name → Dict InstanceStates.SupvisorsInstanceStates → Name → StateModes
seen k d master = record {
  identifier = k;
  state = FsmStates.SupvisorsStates.operation;
  degraded_mode = false;
  discovery_mode = false;
  master_identifier = master;
  starting_jobs = false;
  stopping_jobs = false;
  instance_states = d;
}

abbrev pub both_running : Dict InstanceStates.SupvisorsInstanceStates
both_running =
    ("a", InstanceStates.SupvisorsInstanceStates.running)
    ∷ ("b", InstanceStates.SupvisorsInstanceStates.running)
    ∷ ("c", InstanceStates.SupvisorsInstanceStates.stopped)
    ∷ []

abbrev pub mapper : Mapper
mapper = record {
  instances = ("a", "alpha") ∷ ("b", "beta") ∷ ("c", "gamma") ∷ [];
  nick_identifiers = ("alpha", "a") ∷ ("beta", "b") ∷ ("gamma", "c") ∷ [];
  core_identifiers = "b" ∷ [];
  initial_identifiers = "a" ∷ "b" ∷ [];
}

-- The state and modes of `local`, which follows `other`; both declare the given Master.
abbrev pub modes : Name → Name → Name → SupvisorsStateModes
modes local other master = record {
  mapper = mapper;
  local_identifier = local;
  local_state_modes = seen local both_running master;
  remote_state_modes = (other, seen other both_running master) ∷ ("c", seen "c" [] "") ∷ [];
  stable_identifiers = "a" ∷ "b" ∷ [];
  update_mark = true;
  published = [];
}

abbrev pub clock : ℕ → Clock
clock t = record { mtime = t; time = t }

abbrev pub instance_status : Name → InstanceStates.SupvisorsInstanceStates → InstanceStatus
instance_status k s = record (Status.new k) { state = s }

abbrev pub context : Context
context = record {
  auto_fence = true;
  inactivity_ticks = 2;
  instances =
      ("a", instance_status "a" InstanceStates.SupvisorsInstanceStates.running)
      ∷ ("b", instance_status "b" InstanceStates.SupvisorsInstanceStates.running)
      ∷ ("c", instance_status "c" InstanceStates.SupvisorsInstanceStates.stopped)
      ∷ [];
  processes = [];
  state_modes = modes "a" "b" "a";
  check_requests = [];
}

abbrev pub process : Name → ProcessState → ProcessStatus
process name state = record {
  application_name = "app";
  process_name = name;
  namespec = name;
  rules = rules;
  state = state;
  forced_state = none;
  forced_reason = "";
  expected_exit = true;
  last_event_mtime = 0;
  program_name = name;
  process_index = 0;
  extra_args = "";
  running_identifiers = "a" ∷ "b" ∷ [];
  info_map =
      ("a", record (info state) { uptime = pos 3 })
      ∷ ("b", record (info state) { uptime = pos 8 })
      ∷ [];
  applied_args = [];
}

abbrev pub application : ApplicationStatus
application = record {
  application_name = "app";
  state = Applications.ApplicationStates.stopped;
  major_failure = false;
  minor_failure = false;
  rules = record {
    managed = true;
    distribution = Strategies.DistributionRules.all_instances;
    identifiers = "*" ∷ [];
    hash_identifiers = [];
    start_sequence = 1;
    stop_sequence = pos 1;
    starting_strategy = Strategies.StartingStrategies.config;
    starting_failure_strategy = Strategies.StartingFailureStrategies.abort;
    running_failure_strategy = Strategies.RunningFailureStrategies.continue;
    status_tree = none;
  };
  processes = ("cat", process "cat" running) ∷ ("dog", process "dog" fatal) ∷ [];
  process_groups = [];
  start_sequence = (1, "cat" ∷ "dog" ∷ []) ∷ [];
  stop_sequence = [];
}

abbrev pub network : Name → Name → Name → LocalNetwork
network nic machine ip = record {
  machine_id = machine;
  fqdn = machine;
  addresses =
      (
        nic,
        record {
          host_name = machine;
          aliases = [];
          ipv4_addresses = ip ∷ [];
          nic_info = some record {
            nic_name = nic;
            ipv4_address = ip;
            netmask = "255.255.255.0";
            network_address = "10.0.0.0";
          };
        },
      )
      ∷ [];
}
