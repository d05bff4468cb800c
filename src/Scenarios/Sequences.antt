-- ===== src/Scenarios/Sequences.antt =====
-- supvisors/commander.py on the start jobs of two processes, one after the other.
use supvisors.Prelude.{ℕ, false, [], ◌∷◌, Name, refl}
use supvisors.Prelude.Dict.{lookup, keys, values}
use supvisors.Types.ProcessStates.{stopped}
use supvisors.Types.Strategies.{StartingStrategies, DistributionRules}
use supvisors.Context.{Context}
use supvisors.Commander.Commands.{ProcessCommand, new}
use supvisors.Commander.Jobs.{ApplicationJobs, JobKind, next}
use supvisors.Commander.Progress.{Ends, next-Ends}
use supvisors.Commander.Kinds.{World, get_load_requests, start_jobs}
use supvisors.Commander.Kinds.Lawful.{start_jobs-IsKind}
use supvisors.Mapper.{machine_of}
use supvisors.Application.{ApplicationStatus}
use supvisors.Strategy.Starting.{running_identifiers}
use supvisors.Commander.Distribution.{before}
use supvisors.Commander.Whole.{Whole, before-Whole}
use supvisors.Scenarios.{supervisor, context, process, application}
use supvisors.Scenarios.Placement.{mapper}

abbrev resting : Context
resting = record context {
  processes = ("cat", process "cat" stopped) ∷ ("dog", process "dog" stopped) ∷ [];
}

abbrev world : World
world = record {
  supervisor = supervisor;
  mapper = mapper;
  context = resting;
  other_requests = [];
  requests = [];
}

abbrev command : Name → ProcessCommand
command name = new resting (process name stopped) StartingStrategies.config

abbrev jobs : ApplicationJobs ℕ
jobs = record {
  application_name = "app";
  planned_jobs = (2, command "dog" ∷ []) ∷ (1, command "cat" ∷ []) ∷ [];
  current_jobs = [];
  identifiers = [];
  stop_request = false;
}

abbrev kind : JobKind ℕ World
kind = start_jobs StartingStrategies.config DistributionRules.all_instances

next-Ends_example :
    Ends kind
      (start_jobs-IsKind StartingStrategies.config DistributionRules.all_instances)
      jobs
      (next kind jobs world)
next-Ends_example =
    next-Ends kind (start_jobs-IsKind StartingStrategies.config DistributionRules.all_instances)
      jobs world

abbrev together : ApplicationStatus
together = record application {
  processes = ("cat", process "cat" stopped) ∷ ("dog", process "dog" stopped) ∷ [];
}

before-Whole_example :
    Whole StartingStrategies.less_loaded together jobs world
      (before StartingStrategies.less_loaded together DistributionRules.single_instance jobs world)
unfolding lookup machine_of keys values running_identifiers get_load_requests new
before-Whole_example =
    before-Whole StartingStrategies.less_loaded together jobs world
      (record { requests_known = refl; nodes_known = refl }) refl
      (
        (record { status = process "dog" stopped; known = refl; key = "dog"; owned = refl }, tt),
        (
          (record { status = process "cat" stopped; known = refl; key = "cat"; owned = refl }, tt),
          tt,
        ),
      )
