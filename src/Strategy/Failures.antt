-- ===== src/Strategy/Failures.antt =====
-- supvisors/strategy.py: RunningFailureHandler. The applications are those of the Context, by name;
-- a set of processes is kept by their namespecs. `none` is the KeyError of an unknown application.
use supvisors.Prelude.{
  Bool, true, false, not, ◌&&◌, ◌||◌, List, [], ◌∷◌, ◌++◌, Option, none, some, Name, ◌==◌,
  if◌then◌else◌,
}
use supvisors.Prelude.Dict.{Dict, lookup, insert, delete}
use supvisors.Prelude.NameSet.{NameSet, contains, add, discard}
use supvisors.Types.Strategies.{
  RunningFailureStrategies, continue, restart_process, stop_application, restart_application,
  shutdown, restart,
}
use supvisors.Process.{ProcessStatus}
use supvisors.Application.{ApplicationStatus}
use supvisors.Application.Status.{stopped}
use supvisors.Application.Sequences.{get_start_sequenced_processes}

pub record RunningFailureHandler : Type 0 where
  pub stop_application_jobs : NameSet
  pub restart_application_jobs : NameSet
  pub restart_process_jobs : Dict ProcessStatus
  pub continue_process_jobs : Dict ProcessStatus

-- RunningFailureHandler(supvisors), and `abort`
unfoldable pub new : RunningFailureHandler
new = record {
  stop_application_jobs = [];
  restart_application_jobs = [];
  restart_process_jobs = [];
  continue_process_jobs = [];
}

-- abort()
unfoldable pub abort : RunningFailureHandler → RunningFailureHandler
unfolding new
abort h = record h {
  stop_application_jobs = [];
  restart_application_jobs = [];
  restart_process_jobs = [];
  continue_process_jobs = [];
}

-- The loop that takes the processes that pass the test out of a set.
unfoldable pub drop : (ProcessStatus → Bool) → Dict ProcessStatus → Dict ProcessStatus
drop test [] = []
drop test ((k, p) ∷ d) = if test p then drop test d else (k, p) ∷ drop test d

unfoldable pub has_process : ProcessStatus → Dict ProcessStatus → Bool
unfolding lookup
has_process p d = elim (lookup p.namespec d) [ none ↦ false | some q ↦ true ]

-- `process in application.get_start_sequenced_processes()`, of a process of the application
unfoldable pub is_sequenced : ApplicationStatus → ProcessStatus → Bool
unfolding contains get_start_sequenced_processes
is_sequenced a p = contains p.process_name (get_start_sequenced_processes a)

unfoldable pub add_stop_application_job : Name → RunningFailureHandler → RunningFailureHandler
unfolding add discard drop
add_stop_application_job a h = record h {
  stop_application_jobs = add a h.stop_application_jobs;
  restart_application_jobs = discard a h.restart_application_jobs;
  restart_process_jobs = drop (λ p. p.application_name == a) h.restart_process_jobs;
  continue_process_jobs = drop (λ p. p.application_name == a) h.continue_process_jobs;
}

unfoldable pub add_restart_application_job :
    Name → ApplicationStatus → RunningFailureHandler → RunningFailureHandler
unfolding contains add drop is_sequenced
add_restart_application_job a status h =
    if contains a h.stop_application_jobs then h else record h {
      restart_application_jobs = add a h.restart_application_jobs;
      restart_process_jobs =
          drop (λ p. (p.application_name == a) && is_sequenced status p) h.restart_process_jobs;
      continue_process_jobs =
          drop (λ p. (p.application_name == a) && is_sequenced status p) h.continue_process_jobs;
    }

-- The two tests that the process jobs begin with.
unfoldable pub is_superseded :
    Name → ApplicationStatus → ProcessStatus → RunningFailureHandler → Bool
unfolding contains is_sequenced
is_superseded a status p h =
    contains a h.stop_application_jobs
    || (contains a h.restart_application_jobs && is_sequenced status p)

unfoldable pub add_restart_process_job :
    Name → ApplicationStatus → ProcessStatus → RunningFailureHandler → RunningFailureHandler
unfolding is_superseded insert delete
add_restart_process_job a status p h = if is_superseded a status p h then h else record h {
  restart_process_jobs = insert p.namespec p h.restart_process_jobs;
  continue_process_jobs = delete p.namespec h.continue_process_jobs;
}

unfoldable pub add_continue_process_job :
    Name → ApplicationStatus → ProcessStatus → RunningFailureHandler → RunningFailureHandler
unfolding is_superseded has_process insert
add_continue_process_job a status p h =
    if is_superseded a status p h || has_process p h.restart_process_jobs
    then h
    else record h { continue_process_jobs = insert p.namespec p h.continue_process_jobs }

-- The job of one application, which stands under its name in `context.applications`.
unfoldable pub add_job_of :
    RunningFailureStrategies
    → ApplicationStatus
    → ProcessStatus
    → RunningFailureHandler
    → RunningFailureHandler
unfolding add_stop_application_job add_restart_application_job add_restart_process_job
    add_continue_process_job
add_job_of stop_application status p h = add_stop_application_job p.application_name h
add_job_of restart_application status p h = add_restart_application_job p.application_name status h
add_job_of restart_process status p h = add_restart_process_job p.application_name status p h
add_job_of continue status p h = add_continue_process_job p.application_name status p h
add_job_of shutdown status p h = h
add_job_of restart status p h = h

module _ (applications : Dict ApplicationStatus) where
  unfoldable pub add_job :
      RunningFailureStrategies
      → ProcessStatus
      → RunningFailureHandler
      → Option RunningFailureHandler
  unfolding add_job_of lookup
  add_job strategy p h = elim (lookup p.application_name applications) [
    | none ↦ none
    | some status ↦ some (add_job_of strategy status p h)
  ]

  abbrev pub is_restart_process : RunningFailureStrategies → Bool
  is_restart_process restart_process = true
  is_restart_process _ = false

  unfoldable pub add_default_job :
      ProcessStatus → RunningFailureHandler → Option RunningFailureHandler
  unfolding add_job_of lookup stopped is_sequenced
  add_default_job p h = elim (lookup p.application_name applications) [
    | none ↦ none
    | some status ↦
        let h' = add_job_of p.rules.running_failure_strategy status p h in
        some (
          if is_restart_process p.rules.running_failure_strategy
            && (stopped status && is_sequenced status p)
          then add_job_of restart_application status p h'
          else h')
  ]

  -- Several jobs, one after the other.
  unfoldable pub add_jobs :
      List (RunningFailureStrategies × ProcessStatus)
      → RunningFailureHandler
      → Option RunningFailureHandler
  unfolding add_job
  add_jobs [] h = some h
  add_jobs ((strategy, p) ∷ jobs) h = elim (add_job strategy p h) [
    | none ↦ none
    | some h' ↦ add_jobs jobs h'
  ]

-- The calls of the Stopper and of the Starter. A process is stopped on the identifiers that are
-- given, or wherever it runs. But for the two `next`, the calls come with `trigger=False`.
pub data Command : Type 0 where
  stopper_stop_application : Name → Command
  stopper_restart_application : Name → Command
  stopper_restart_process : Name → Command
  stopper_stop_process : Name → Option (List Name) → Command
  stopper_next : Command
  starter_next : Command

-- The applications to be stopped now, and those that wait for the end of the jobs in progress.
unfoldable pub ready : NameSet → NameSet → List Name
unfolding contains
ready busy [] = []
ready busy (a ∷ jobs) = if contains a busy then ready busy jobs else a ∷ ready busy jobs

unfoldable pub deferred : NameSet → NameSet → NameSet
unfolding contains
deferred busy [] = []
deferred busy (a ∷ jobs) = if contains a busy then a ∷ deferred busy jobs else deferred busy jobs

unfoldable pub stop_all : List Name → List Command
stop_all [] = []
stop_all (a ∷ names) = stopper_stop_application a ∷ stop_all names

unfoldable pub restart_all : List Name → List Command
restart_all [] = []
restart_all (a ∷ names) = stopper_restart_application a ∷ restart_all names

unfoldable pub restart_processes : NameSet → Dict ProcessStatus → List Command
unfolding contains
restart_processes busy [] = []
restart_processes busy ((k, p) ∷ d) =
    if contains p.application_name busy
    then restart_processes busy d
    else stopper_restart_process k ∷ restart_processes busy d

-- trigger_jobs(), with the application names that the Starter and the Stopper are busy with: the
-- handler that is left, and the calls. The source goes through its sets in any order.
unfoldable pub trigger_jobs : NameSet → RunningFailureHandler → RunningFailureHandler × List Command
unfolding contains ready deferred stop_all restart_all restart_processes drop
trigger_jobs busy h = (
  record h {
    stop_application_jobs = deferred busy h.stop_application_jobs;
    restart_application_jobs = deferred busy h.restart_application_jobs;
    restart_process_jobs =
        drop (λ p. not (contains p.application_name busy)) h.restart_process_jobs;
    continue_process_jobs = [];
  },
  stop_all (ready busy h.stop_application_jobs)
      ++ (restart_all (ready busy h.restart_application_jobs)
          ++ (restart_processes busy h.restart_process_jobs ++ (stopper_next ∷ starter_next ∷ []))),
)
