-- ===== src/Scenarios/Advances.antt =====
-- supvisors/statemachine.py on the instances `a` and `b`, with jobs that do nothing.
use supvisors.Prelude.{
  true, false, ◌||◌, [], ◌∷◌, Option, none, some, Name, ◌≡◌, ◌≢◌, refl, In, here,
}
use supvisors.Prelude.NameSet.{NameSet}
use supvisors.Types.FsmStates.{SupvisorsStates, election, distribution, continue}
use supvisors.Instances.Status.{new}
use supvisors.StateModes.{StateModes, is_master, master_state}
use supvisors.StateModes.Stability.{is_stable, running_modes}
use supvisors.StateModes.Election.{declare}
use supvisors.Fsm.{Machine, Outcome, returned, failed, Options, Jobs}
use supvisors.Fsm.Next.{next, master_in}
use supvisors.Fsm.Safety.{next-distribution}
use supvisors.Scenarios.{supervisor, context, modes, seen, both_running}

abbrev idle : Jobs (Unit {0})
idle = record {
  run = λ t c j. (j, c.state_modes);
  starter_in_progress = λ j. false;
  stopper_in_progress = λ j. false;
  conflicting = λ c. false;
}

abbrev options : Options
options = record {
  strict = false;
  list = false;
  timeout = true;
  core = false;
  user = false;
  synchro_timeout = 15;
  supvisors_failure_strategy = continue;
}

abbrev pick : NameSet → Option Name
pick [] = none
pick (k ∷ ks) = some k

-- `a` in the given state, with itself as the Master.
abbrev machine : SupvisorsStates → Machine (Unit {0})
machine s = record {
  context = record context {
    state_modes = record (modes "a" "b" "a") {
      local_state_modes = record (seen "a" both_running "a") { state = s };
    };
  };
  jobs = tt;
  start_date = 0;
  lost_instances = [];
  lost_processes = [];
  requests = [];
}

abbrev after_next : Outcome (Unit {0}) (Option SupvisorsStates) → Machine (Unit {0})
after_next (returned s m) = m
after_next (failed e m) = m

abbrev elected : Machine (Unit {0})
elected = after_next (next idle supervisor pick options election 30 (machine election))

elects :
    next idle supervisor pick options election 30 (machine election)
    ≡ returned (some distribution) elected
unfolding next new
elects = refl

abbrev seen_a : StateModes
seen_a = record (seen "a" both_running "a") { state = election }

a_runs : In seen_a (running_modes elected.context.state_modes)
unfolding next new running_modes
a_runs = here refl

next-distribution_example :
    (is_stable elected.context.state_modes ≡ true)
    × (declare "a" (running_modes elected.context.state_modes) ≡ true)
    × ◌≢◌ {A = Name} "a" ""
    × ((is_master elected.context.state_modes
          || master_in distribution (master_state elected.context.state_modes))
        ≡ true)
next-distribution_example =
    next-distribution supervisor pick options idle 30 (machine election) elects a_runs
