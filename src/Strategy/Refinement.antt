-- ===== src/Strategy/Refinement.antt =====
-- supvisors/strategy.py: RunningFailureHandler refines what has been asked for: the jobs on
-- applications.
use supvisors.Prelude.{
  ◌≡◌, sym, subst, ◌∙◌, inl, inr, true, false, not, ◌&&◌, some, Name, ◌==◌, name_iff, Bool-cases,
  arith,
}
use supvisors.Prelude.Dict.{Dict, lookup}
use supvisors.Prelude.NameSet.{contains, contains-add, contains-discard}
use supvisors.Types.Strategies.{stop_application, restart_application}
use supvisors.Process.{ProcessStatus}
use supvisors.Application.{ApplicationStatus}
use supvisors.Strategy.Failures.{
  RunningFailureHandler, drop, is_sequenced, add_stop_application_job, add_restart_application_job,
}
use supvisors.Strategy.Priority.{
  Wanted, ask, is_there, sequenced, IsNamed, Named, IsRefined, drop-Named, lookup-drop,
  in_application, in_sequence,
}

module _ (applications : Dict ApplicationStatus) (split : Name → Name × Name) where
  module _ (p : ProcessStatus) (n : IsNamed applications split p.namespec p) (w : Wanted)
      (h : RunningFailureHandler) (r : IsRefined applications split w h) where
    pub stop-IsRefined :
        IsRefined applications split
          (ask (stop_application, p) w)
          (add_stop_application_job p.application_name h)
    unfolding ask add_stop_application_job
    stop-IsRefined = record {
      follows = record {
        stops = λ a.
            ground
              (arith, contains-add p.application_name a h.stop_application_jobs, r.follows.stops a);
        restarts = λ a. ground (
          arith,
          contains-discard p.application_name a h.restart_application_jobs,
          r.follows.restarts a,
        );
        process_restarts = λ k. ground (
          arith,
          lookup-drop applications split h.restart_process_jobs
              (λ q. q.application_name == p.application_name)
              (λ j. (split j).0 == p.application_name)
              (in_application applications split p.application_name) r.restarts_named k,
          r.follows.process_restarts k,
          name_iff p.application_name (split k).0,
          name_iff (split k).0 p.application_name,
        );
        continues = λ k. ground (
          arith,
          lookup-drop applications split h.continue_process_jobs
              (λ q. q.application_name == p.application_name)
              (λ j. (split j).0 == p.application_name)
              (in_application applications split p.application_name) r.continues_named k,
          r.follows.continues k,
          name_iff p.application_name (split k).0,
          name_iff (split k).0 p.application_name,
        );
      };
      restarts_named = drop-Named applications split _ h.restart_process_jobs r.restarts_named;
      continues_named = drop-Named applications split _ h.continue_process_jobs r.continues_named;
    }

    module _ (status : ApplicationStatus)
        (e : lookup p.application_name applications ≡ some status) where
      stopped_alike :
          contains p.application_name h.stop_application_jobs ≡ true
          → (a : Name) → (p.application_name == a) ≡ true
          → w.stop a ≡ true
      stopped_alike q a i =
          subst (λ b. w.stop b ≡ true) ((name_iff p.application_name a).0 i)
            (sym (r.follows.stops p.application_name) ∙ q)

      pub restart-IsRefined :
          IsRefined applications split
            (ask (restart_application, p) w)
            (add_restart_application_job p.application_name status h)
      unfolding ask add_restart_application_job
      restart-IsRefined = elim (Bool-cases (contains p.application_name h.stop_application_jobs)) [
        | inl q ↦ rw q (record {
          follows = record {
            stops = r.follows.stops;
            restarts = λ a. ground (arith, r.follows.restarts a, stopped_alike q a);
            process_restarts =
                λ k. ground (arith, r.follows.process_restarts k, stopped_alike q (split k).0);
            continues = λ k. ground (arith, r.follows.continues k, stopped_alike q (split k).0);
          };
          restarts_named = r.restarts_named;
          continues_named = r.continues_named;
        })
        | inr q ↦ rw q (record {
          follows = record {
            stops = r.follows.stops;
            restarts = λ a. ground (
              arith,
              contains-add p.application_name a h.restart_application_jobs,
              r.follows.restarts a,
              not_stopped q a,
            );
            process_restarts = λ k. ground (
              arith,
              dropped h.restart_process_jobs r.restarts_named k,
              r.follows.process_restarts k,
              name_iff p.application_name (split k).0,
              name_iff (split k).0 p.application_name,
            );
            continues = λ k. ground (
              arith,
              dropped h.continue_process_jobs r.continues_named k,
              r.follows.continues k,
              name_iff p.application_name (split k).0,
              name_iff (split k).0 p.application_name,
            );
          };
          restarts_named = drop-Named applications split _ h.restart_process_jobs r.restarts_named;
          continues_named =
              drop-Named applications split _ h.continue_process_jobs r.continues_named;
        })
      ]
        where
          not_stopped :
              contains p.application_name h.stop_application_jobs ≡ false
              → (a : Name) → (p.application_name == a) ≡ true
              → w.stop a ≡ false
          not_stopped q a i =
              subst (λ b. w.stop b ≡ false) ((name_iff p.application_name a).0 i)
                (sym (r.follows.stops p.application_name) ∙ q)

          dropped :
              (d : Dict ProcessStatus)
              → Named applications split d
              → (k : Name)
              → is_there (
                  lookup k (
                    drop
                      (λ j. (j.application_name == p.application_name) && is_sequenced status j)
                      d))
                ≡ (is_there (lookup k d)
                    && not (((split k).0 == p.application_name) && sequenced applications split k))
          dropped d m k =
              lookup-drop applications split d
                (λ j. (j.application_name == p.application_name) && is_sequenced status j)
                (λ j. ((split j).0 == p.application_name) && sequenced applications split j)
                (λ j o i. in_sequence applications split p.application_name status j o e i) m k
