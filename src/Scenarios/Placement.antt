-- ===== src/Scenarios/Placement.antt =====
-- supvisors/strategy.py on two running instances, and on two processes that run on both.
use supvisors.Prelude.{ℕ, false, List, [], ◌∷◌, none, some, Name, refl}
use supvisors.Prelude.Dict.{Dict, lookup, keys, values}
use supvisors.Prelude.NameSet.{discard}
use supvisors.Prelude.Integers.{int_le}
use supvisors.Types.ProcessStates.{running}
use supvisors.Types.Strategies as T
use supvisors.Process.{ProcessStatus}
use supvisors.Application.{ApplicationStatus}
use supvisors.Mapper.{SupvisorsMapper, machine_of}
use supvisors.Mapper.InstanceId.{SupvisorsInstanceId}
use supvisors.Strategy.Starting.{get_supvisors_instance, running_identifiers}
use supvisors.Strategy.Bounds.{IsMapped}
use supvisors.Strategy.Bounds.Room.{Decided, get_supvisors_instance-Decided}
use supvisors.Strategy.Failures.{new, add_jobs}
use supvisors.Strategy.Priority.{Job}
use supvisors.Strategy.Jobs.{wanted, Outcome, add_jobs-Follows}
use supvisors.Strategy.Conciliation.{int_ge, conciliate_conflicts}
use supvisors.Strategy.Conciliation.Kept.{Settled, conciliate-Settled}
use supvisors.Scenarios.{supervisor, context, process, application, network}

abbrev pub instance_id : Name → Name → SupvisorsInstanceId
instance_id k machine = record {
  identifier = k;
  nick_identifier = k;
  host_id = k;
  http_port = 25000;
  event_port = 25001;
  user_nickname = false;
  simple_address = record { host_name = k; aliases = []; ipv4_addresses = k ∷ []; nic_info = none };
  remote_view = none;
  local_view = some (network "eth0" machine k);
  stereotypes = [];
}

abbrev pub mapper : SupvisorsMapper
mapper = record {
  local_network = network "eth0" "m1" "a";
  instances = ("a", instance_id "a" "m1") ∷ ("b", instance_id "b" "m2") ∷ [];
  nick_identifiers = [];
  nodes = ("m1", "a" ∷ []) ∷ ("m2", "b" ∷ []) ∷ [];
  core_identifiers = [];
  local_identifier = some "a";
  initial_identifiers = "a" ∷ "b" ∷ [];
  stereotypes = [];
}

-- Thirty percent of "a" are requested.
abbrev requests : Dict ℕ
requests = ("a", 30) ∷ []

mapper-IsMapped : IsMapped mapper context requests
unfolding lookup machine_of keys values
mapper-IsMapped = record { requests_known = refl; nodes_known = refl }

get_supvisors_instance-Decided_example :
    Decided supervisor mapper context T.StartingStrategies.less_loaded
      ("a" ∷ "b" ∷ [])
      20
      requests
      (get_supvisors_instance supervisor mapper context T.StartingStrategies.less_loaded
        ("a" ∷ "b" ∷ [])
        20
        requests)
unfolding running_identifiers machine_of lookup
get_supvisors_instance-Decided_example =
    get_supvisors_instance-Decided supervisor mapper context T.StartingStrategies.less_loaded
      ("a" ∷ "b" ∷ []) 20 requests mapper-IsMapped refl

abbrev applications : Dict ApplicationStatus
applications = ("app", application) ∷ []

abbrev split : Name → Name × Name
split k = ("app", k)

-- The restart of one process, and then of the application that the process belongs to.
abbrev jobs : List Job
jobs =
    (T.RunningFailureStrategies.restart_process, process "cat" running)
    ∷ (T.RunningFailureStrategies.restart_application, process "dog" running)
    ∷ []

add_jobs-Follows_example : Outcome applications split (wanted jobs) (add_jobs applications jobs new)
unfolding lookup
add_jobs-Follows_example = add_jobs-Follows applications split jobs (
  record {
    named = record { namespec = refl; application = refl; process = refl };
    status = application;
    known = refl;
  },
  (
    record {
      named = record { namespec = refl; application = refl; process = refl };
      status = application;
      known = refl;
    },
    tt,
  ),
)

abbrev conflicts : List ProcessStatus
conflicts = process "cat" running ∷ []

conciliate-Settled_example :
    Settled int_le conflicts new
      (conciliate_conflicts applications [] T.ConciliationStrategies.senicide conflicts new)
    × Settled int_ge conflicts new
        (conciliate_conflicts applications [] T.ConciliationStrategies.infanticide conflicts new)
unfolding lookup discard
conciliate-Settled_example =
    conciliate-Settled applications [] conflicts new
      (record { several = refl; informed = refl }, tt)
