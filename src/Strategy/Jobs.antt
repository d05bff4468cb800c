-- ===== src/Strategy/Jobs.antt =====
-- supvisors/strategy.py: RunningFailureHandler after any number of jobs.
use supvisors.Prelude.{
  ◌≡◌, refl, subst, Bool, false, ◌||◌, List, [], ◌∷◌, Option, some, Name, ◌==◌, any, All, arith,
}
use supvisors.Prelude.Dict.{Dict, lookup}
use supvisors.Prelude.NameSet.{contains}
use supvisors.Types.Strategies.{
  RunningFailureStrategies, continue, restart_process, stop_application, restart_application,
  shutdown, restart,
}
use supvisors.Process.{ProcessStatus}
use supvisors.Application.{ApplicationStatus}
use supvisors.Strategy.Failures.{RunningFailureHandler, new, add_job_of, add_job, add_jobs}
use supvisors.Strategy.Priority.{Wanted, Job, nothing, ask, ask_all, Follows, IsNamed, IsRefined}
use supvisors.Strategy.Refinement.{stop-IsRefined, restart-IsRefined}
use supvisors.Strategy.Supersede.{process-IsRefined, continue-IsRefined}

-- What a job asks for.
abbrev pub stops : Name → Job → Bool
stops a (stop_application, p) = p.application_name == a
stops a (_, p) = false

abbrev pub restarts : Name → Job → Bool
restarts a (restart_application, p) = p.application_name == a
restarts a (_, p) = false

abbrev pub restarts_process : Name → Job → Bool
restarts_process k (restart_process, p) = p.namespec == k
restarts_process k (_, p) = false

abbrev pub continues : Name → Job → Bool
continues k (continue, p) = p.namespec == k
continues k (_, p) = false

-- What a list of jobs asks for, in whatever order they come.
unfoldable pub wanted : List Job → Wanted
wanted jobs = record {
  stop = λ a. any (stops a) jobs;
  restart = λ a. any (restarts a) jobs;
  restart_process = λ k. any (restarts_process k) jobs;
  continue = λ k. any (continues k) jobs;
}

one_stop :
    (s : RunningFailureStrategies) (p : ProcessStatus) (w : Wanted) (a : Name)
    → (ask (s, p) w).stop a ≡ (w.stop a || stops a (s, p))
unfolding ask
one_stop s p w a = ground arith

all_stop :
    (jobs : List Job) (w : Wanted) (a : Name)
    → (ask_all jobs w).stop a ≡ (w.stop a || any (stops a) jobs)
unfolding ask_all
all_stop [] w a = ground arith
all_stop ((s, p) ∷ jobs) w a = ground (arith, all_stop jobs (ask (s, p) w) a, one_stop s p w a)

one_restart :
    (s : RunningFailureStrategies) (p : ProcessStatus) (w : Wanted) (a : Name)
    → (ask (s, p) w).restart a ≡ (w.restart a || restarts a (s, p))
unfolding ask
one_restart s p w a = ground arith

all_restart :
    (jobs : List Job) (w : Wanted) (a : Name)
    → (ask_all jobs w).restart a ≡ (w.restart a || any (restarts a) jobs)
unfolding ask_all
all_restart [] w a = ground arith
all_restart ((s, p) ∷ jobs) w a =
    ground (arith, all_restart jobs (ask (s, p) w) a, one_restart s p w a)

one_restart_process :
    (s : RunningFailureStrategies) (p : ProcessStatus) (w : Wanted) (k : Name)
    → (ask (s, p) w).restart_process k ≡ (w.restart_process k || restarts_process k (s, p))
unfolding ask
one_restart_process s p w k = ground arith

all_restart_process :
    (jobs : List Job) (w : Wanted) (k : Name)
    → (ask_all jobs w).restart_process k ≡ (w.restart_process k || any (restarts_process k) jobs)
unfolding ask_all
all_restart_process [] w k = ground arith
all_restart_process ((s, p) ∷ jobs) w k =
    ground (arith, all_restart_process jobs (ask (s, p) w) k, one_restart_process s p w k)

one_continue :
    (s : RunningFailureStrategies) (p : ProcessStatus) (w : Wanted) (k : Name)
    → (ask (s, p) w).continue k ≡ (w.continue k || continues k (s, p))
unfolding ask
one_continue s p w k = ground arith

all_continue :
    (jobs : List Job) (w : Wanted) (k : Name)
    → (ask_all jobs w).continue k ≡ (w.continue k || any (continues k) jobs)
unfolding ask_all
all_continue [] w k = ground arith
all_continue ((s, p) ∷ jobs) w k =
    ground (arith, all_continue jobs (ask (s, p) w) k, one_continue s p w k)

ask_all-wanted : (jobs : List Job) → ask_all jobs nothing ≡ wanted jobs
unfolding wanted
ask_all-wanted jobs = λ i. record {
  stop = λ a. all_stop jobs nothing a i;
  restart = λ a. all_restart jobs nothing a i;
  restart_process = λ k. all_restart_process jobs nothing k i;
  continue = λ k. all_continue jobs nothing k i;
}

module _ (applications : Dict ApplicationStatus) (split : Name → Name × Name) where
  -- A job for a process of an application that the Context knows.
  pub record IsJob (job : Job) : Type 0 where
    pub named : IsNamed applications split job.1.namespec job.1
    pub status : ApplicationStatus
    pub known : lookup job.1.application_name applications ≡ some status

  -- A handler is returned, and it has the jobs that the priorities leave of those wanted.
  pub record Outcome (w : Wanted) (result : Option RunningFailureHandler) : Type 0 where
    pub handler : RunningFailureHandler
    pub returned : result ≡ some handler
    pub follows : Follows applications split w handler

  new-IsRefined : IsRefined applications split nothing new
  unfolding new contains lookup
  new-IsRefined = record {
    follows = record {
      stops = λ a. refl;
      restarts = λ a. refl;
      process_restarts = λ k. refl;
      continues = λ k. refl;
    };
    restarts_named = tt;
    continues_named = tt;
  }

  add_job_of-IsRefined :
      (strategy : RunningFailureStrategies) (p : ProcessStatus) (j : IsJob (strategy, p))
      (w : Wanted) (h : RunningFailureHandler)
      → IsRefined applications split w h
      → IsRefined applications split (ask (strategy, p) w) (add_job_of strategy j.status p h)
  unfolding add_job_of ask
  add_job_of-IsRefined stop_application p j w h r =
      stop-IsRefined applications split p j.named w h r
  add_job_of-IsRefined restart_application p j w h r =
      restart-IsRefined applications split p j.named w h r j.status j.known
  add_job_of-IsRefined restart_process p j w h r =
      process-IsRefined applications split p j.named w h r j.status j.known
  add_job_of-IsRefined continue p j w h r =
      continue-IsRefined applications split p j.named w h r j.status j.known
  add_job_of-IsRefined shutdown p j w h r = r
  add_job_of-IsRefined restart p j w h r = r

  from_handler :
      (jobs : List Job) (w : Wanted) (h : RunningFailureHandler)
      → All IsJob jobs
      → IsRefined applications split w h
      → Outcome (ask_all jobs w) (add_jobs applications jobs h)
  unfolding add_jobs ask_all add_job
  from_handler [] w h js r = record { handler = h; returned = refl; follows = r.follows }
  from_handler ((s, p) ∷ jobs) w h js r =
      rw (js.0.known, add_jobs, add_job)
        (from_handler jobs (ask (s, p) w) (add_job_of s js.0.status p h) js.1
          (add_job_of-IsRefined s p js.0 w h r))

  -- Jobs for processes of known applications, whose names agree with their namespecs, raise
  -- nothing in a new RunningFailureHandler. In whatever order they come, it ends with the stops
  -- that were asked for, the restarts of applications that are not stopped, the restarts of
  -- processes that no application job overrules, and the continued processes that neither those
  -- nor a restart overrule; the restart of an application overrules only the processes that it
  -- starts in sequence.
  pub add_jobs-Follows :
      (jobs : List Job) → All IsJob jobs → Outcome (wanted jobs) (add_jobs applications jobs new)
  add_jobs-Follows jobs js =
      subst (λ w. Outcome w (add_jobs applications jobs new)) (ask_all-wanted jobs)
        (from_handler jobs nothing new js new-IsRefined)
