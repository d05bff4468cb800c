-- ===== src/Strategy/Priority.antt =====
-- supvisors/strategy.py: whatever the order of the jobs, RunningFailureHandler ends with the jobs
-- that its priorities leave.
use supvisors.Prelude.{
  ◌≡◌, refl, sym, ap, ◌∙◌, inl, inr, Bool, true, false, not, ◌&&◌, ◌||◌, List, [], ◌∷◌, Option,
  none, some, Name, ◌==◌, name_iff, Bool-cases, arith,
}
use supvisors.Prelude.Dict.{Dict, lookup, insert, delete, lookup-insert, lookup-delete}
use supvisors.Prelude.NameSet.{contains}
use supvisors.Types.Strategies.{
  RunningFailureStrategies, continue, restart_process, stop_application, restart_application,
  shutdown, restart,
}
use supvisors.Process.{ProcessStatus}
use supvisors.Application.{ApplicationStatus}
use supvisors.Application.Sequences.{get_start_sequenced_processes}
use supvisors.Strategy.Failures.{RunningFailureHandler, drop, is_sequenced}

-- What has been asked for: the applications to stop and to restart, the processes to restart and
-- to leave.
pub record Wanted : Type 0 where
  pub stop : Name → Bool
  pub restart : Name → Bool
  pub restart_process : Name → Bool
  pub continue : Name → Bool

abbrev pub Job : Type 0
Job = RunningFailureStrategies × ProcessStatus

abbrev pub nothing : Wanted
nothing = record {
  stop = λ a. false;
  restart = λ a. false;
  restart_process = λ k. false;
  continue = λ k. false;
}

-- One more job, without any priority.
unfoldable pub ask : Job → Wanted → Wanted
ask (stop_application, p) w = record w { stop = λ a. w.stop a || (p.application_name == a) }
ask (restart_application, p) w = record w {
  restart = λ a. w.restart a || (p.application_name == a);
}
ask (restart_process, p) w = record w {
  restart_process = λ k. w.restart_process k || (p.namespec == k);
}
ask (continue, p) w = record w { continue = λ k. w.continue k || (p.namespec == k) }
ask (shutdown, p) w = w
ask (restart, p) w = w

unfoldable pub ask_all : List Job → Wanted → Wanted
unfolding ask
ask_all [] w = w
ask_all (job ∷ jobs) w = ask_all jobs (ask job w)

abbrev pub is_there : Option ProcessStatus → Bool
is_there none = false
is_there (some p) = true

-- `split` is split_namespec of Supervisor: the application and the name of a process.
module _ (applications : Dict ApplicationStatus) (split : Name → Name × Name) where
  -- Whether a namespec is that of a process that its application starts in sequence.
  abbrev pub sequenced : Name → Bool
  sequenced k = elim (lookup (split k).0 applications) [
    | none ↦ false
    | some status ↦ contains (split k).1 (get_start_sequenced_processes status)
  ]

  -- What is left of the application jobs over a process.
  abbrev pub overruled : Wanted → Name → Bool
  overruled w k = w.stop (split k).0 || (w.restart (split k).0 && sequenced k)

  -- A stop overrules a restart, and both overrule the processes that they concern; the restart of a
  -- process overrules that it is left.
  pub record Follows (w : Wanted) (h : RunningFailureHandler) : Type 0 where
    pub stops : (a : Name) → contains a h.stop_application_jobs ≡ w.stop a
    pub restarts :
        (a : Name) → contains a h.restart_application_jobs ≡ (w.restart a && not (w.stop a))
    pub process_restarts :
        (k : Name)
        → is_there (lookup k h.restart_process_jobs) ≡ (w.restart_process k && not (overruled w k))
    pub continues :
        (k : Name)
        → is_there (lookup k h.continue_process_jobs)
          ≡ (w.continue k && not (w.restart_process k) && not (overruled w k))

  -- The names of a process agree with its namespec.
  pub record IsNamed (k : Name) (p : ProcessStatus) : Type 0 where
    pub namespec : p.namespec ≡ k
    pub application : p.application_name ≡ (split k).0
    pub process : p.process_name ≡ (split k).1

  abbrev pub Named : Dict ProcessStatus → Type 0
  Named [] = Unit
  Named ((k, p) ∷ d) = IsNamed k p × Named d

  pub drop-Named :
      (test : ProcessStatus → Bool) (d : Dict ProcessStatus) → Named d → Named (drop test d)
  unfolding drop
  drop-Named test [] n = tt
  drop-Named test ((k, p) ∷ d) n = elim (Bool-cases (test p)) [
    | inl e ↦ rw e (drop-Named test d n.1)
    | inr e ↦ rw e (n.0, drop-Named test d n.1)
  ]

  pub insert-Named :
      (k : Name) (p : ProcessStatus) (d : Dict ProcessStatus)
      → IsNamed k p
      → Named d
      → Named (insert k p d)
  unfolding insert
  insert-Named k p [] h n = (h, tt)
  insert-Named k p ((j, q) ∷ d) h n = elim (Bool-cases (j == k)) [
    | inl e ↦ rw e (h, n.1)
    | inr e ↦ rw e (n.0, insert-Named k p d h n.1)
  ]

  pub delete-Named : (k : Name) (d : Dict ProcessStatus) → Named d → Named (delete k d)
  unfolding delete
  delete-Named k [] n = tt
  delete-Named k ((j, q) ∷ d) n = elim (Bool-cases (j == k)) [
    | inl e ↦ rw e (delete-Named k d n.1)
    | inr e ↦ rw e (n.0, delete-Named k d n.1)
  ]

  -- A test that goes by the names of a process takes out the namespecs that it fits.
  pub lookup-drop :
      (d : Dict ProcessStatus) (test : ProcessStatus → Bool) (fits : Name → Bool)
      → ((k : Name) (p : ProcessStatus) → IsNamed k p → test p ≡ fits k)
      → Named d
      → (k : Name) → is_there (lookup k (drop test d)) ≡ (is_there (lookup k d) && not (fits k))
  unfolding drop lookup
  lookup-drop [] test fits agree n k = refl
  lookup-drop ((j, p) ∷ d) test fits agree n k =
      ground (arith, agree j p n.0, lookup-drop d test fits agree n.1 k, name_iff j k, ap fits)

  pub there-insert :
      (k j : Name) (p : ProcessStatus) (d : Dict ProcessStatus)
      → is_there (lookup j (insert k p d)) ≡ ((k == j) || is_there (lookup j d))
  there-insert k j p d = ground (arith, lookup-insert k j p d)

  pub there-delete :
      (k j : Name) (d : Dict ProcessStatus)
      → is_there (lookup j (delete k d)) ≡ (not (k == j) && is_there (lookup j d))
  there-delete k j d = ground (arith, lookup-delete k j d)

  pub in_application :
      (a : Name) (k : Name) (p : ProcessStatus)
      → IsNamed k p
      → (p.application_name == a) ≡ ((split k).0 == a)
  in_application a k p h = ap (λ n. n == a) h.application

  pub sequenced_at :
      (k : Name) (status : ApplicationStatus)
      → lookup (split k).0 applications ≡ some status
      → sequenced k ≡ contains (split k).1 (get_start_sequenced_processes status)
  sequenced_at k status e = rw (e, sequenced) refl

  pub in_sequence :
      (a : Name) (status : ApplicationStatus) (k : Name) (p : ProcessStatus)
      → lookup a applications ≡ some status
      → IsNamed k p
      → ((p.application_name == a) && is_sequenced status p) ≡ (((split k).0 == a) && sequenced k)
  unfolding is_sequenced
  in_sequence a status k p e h = elim (Bool-cases ((split k).0 == a)) [
    | inl q ↦
        let r = (name_iff (split k).0 a).0 q in
        rw (in_application a k p h, q, h.process)
          (sym (sequenced_at k status (ap (λ n. lookup n applications) r ∙ e)))
    | inr q ↦ rw (in_application a k p h, q) refl
  ]

  -- The handler stands for what has been asked for.
  pub record IsRefined (w : Wanted) (h : RunningFailureHandler) : Type 0 where
    pub follows : Follows w h
    pub restarts_named : Named h.restart_process_jobs
    pub continues_named : Named h.continue_process_jobs
