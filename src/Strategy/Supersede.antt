-- ===== src/Strategy/Supersede.antt =====
-- supvisors/strategy.py: RunningFailureHandler refines what has been asked for: the jobs on processes.
use supvisors.Prelude.{
  ◌≡◌, sym, subst, ◌∙◌, inl, inr, Bool, true, false, not, ◌&&◌, ◌||◌, some, Name, ◌==◌, name_iff,
  name_self, Bool-cases, arith,
}
use supvisors.Prelude.Dict.{Dict, lookup}
use supvisors.Types.Strategies.{continue, restart_process}
use supvisors.Process.{ProcessStatus}
use supvisors.Application.{ApplicationStatus}
use supvisors.Strategy.Failures.{
  RunningFailureHandler, is_sequenced, is_superseded, has_process, add_restart_process_job,
  add_continue_process_job,
}
use supvisors.Strategy.Priority.{
  Wanted, ask, is_there, sequenced, overruled, IsNamed, IsRefined, insert-Named, delete-Named,
  there-insert, there-delete, in_sequence,
}

module _ (applications : Dict ApplicationStatus) (split : Name → Name × Name) where
  module _ (p : ProcessStatus) (n : IsNamed applications split p.namespec p) (w : Wanted)
      (h : RunningFailureHandler) (r : IsRefined applications split w h) where
    module _ (status : ApplicationStatus)
        (e : lookup p.application_name applications ≡ some status) where
      -- Whether the process is in the sequence of its application.
      sequenced_alike : is_sequenced status p ≡ sequenced applications split p.namespec
      sequenced_alike = ground (
        arith,
        in_sequence applications split p.application_name status p.namespec p e n,
        name_self p.application_name,
        n.application,
      )

      -- The application's jobs that overrule those on the process.
      superseded :
          is_superseded p.application_name status p h ≡ overruled applications split w p.namespec
      unfolding is_superseded
      superseded =
          rw
            (
              r.follows.stops p.application_name,
              r.follows.restarts p.application_name,
              sequenced_alike,
              n.application,
            )
            (ground arith)

      -- What overrules jobs on this process does so for every process of that namespec.
      overruled_alike :
          (b : Bool)
          → is_superseded p.application_name status p h ≡ b
          → (k : Name) → (p.namespec == k) ≡ true
          → overruled applications split w k ≡ b
      overruled_alike b q k i =
          subst (λ j. overruled applications split w j ≡ b) ((name_iff p.namespec k).0 i)
            (sym superseded ∙ q)

      pub process-IsRefined :
          IsRefined applications split
            (ask (restart_process, p) w)
            (add_restart_process_job p.application_name status p h)
      unfolding ask add_restart_process_job
      process-IsRefined = elim (Bool-cases (is_superseded p.application_name status p h)) [
        | inl q ↦ rw q (record {
          follows = record {
            stops = r.follows.stops;
            restarts = r.follows.restarts;
            process_restarts =
                λ k. ground (arith, r.follows.process_restarts k, overruled_alike true q k);
            continues = λ k. ground (arith, r.follows.continues k, overruled_alike true q k);
          };
          restarts_named = r.restarts_named;
          continues_named = r.continues_named;
        })
        | inr q ↦ rw q (record {
          follows = record {
            stops = r.follows.stops;
            restarts = r.follows.restarts;
            process_restarts = λ k. ground (
              arith,
              there-insert applications split p.namespec k p h.restart_process_jobs,
              r.follows.process_restarts k,
              overruled_alike false q k,
            );
            continues = λ k. ground (
              arith,
              there-delete applications split p.namespec k h.continue_process_jobs,
              r.follows.continues k,
              overruled_alike false q k,
            );
          };
          restarts_named =
              insert-Named applications split p.namespec p h.restart_process_jobs n
                r.restarts_named;
          continues_named =
              delete-Named applications split p.namespec h.continue_process_jobs r.continues_named;
        })
      ]

      -- Such a process is already to be restarted, or is none of those.
      restarted_alike :
          (b : Bool)
          → has_process p h.restart_process_jobs ≡ b
          → (k : Name) → (p.namespec == k) ≡ true
          → (w.restart_process k && not (overruled applications split w k)) ≡ b
      unfolding has_process
      restarted_alike b q k i =
          subst (λ j. (w.restart_process j && not (overruled applications split w j)) ≡ b)
            ((name_iff p.namespec k).0 i) (sym (r.follows.process_restarts p.namespec) ∙ there q)
        where
          there :
              has_process p h.restart_process_jobs ≡ b
              → is_there (lookup p.namespec h.restart_process_jobs) ≡ b
          there s = ground (arith, s)

      pub continue-IsRefined :
          IsRefined applications split
            (ask (continue, p) w)
            (add_continue_process_job p.application_name status p h)
      unfolding ask add_continue_process_job
      continue-IsRefined =
          elim (Bool-cases
            (is_superseded p.application_name status p h || has_process p h.restart_process_jobs)) [
              | inl q ↦ rw q (record {
                follows = record {
                  stops = r.follows.stops;
                  restarts = r.follows.restarts;
                  process_restarts = r.follows.process_restarts;
                  continues = λ k. ground (arith, r.follows.continues k, superseded_or q k);
                };
                restarts_named = r.restarts_named;
                continues_named = r.continues_named;
              })
              | inr q ↦ rw q (record {
                follows = record {
                  stops = r.follows.stops;
                  restarts = r.follows.restarts;
                  process_restarts = r.follows.process_restarts;
                  continues = λ k. ground (
                    arith,
                    there-insert applications split p.namespec k p h.continue_process_jobs,
                    r.follows.continues k,
                    overruled_alike false (ground (arith, q)) k,
                    restarted_alike false (ground (arith, q)) k,
                  );
                };
                restarts_named = r.restarts_named;
                continues_named =
                    insert-Named applications split p.namespec p h.continue_process_jobs n
                      r.continues_named;
              })
            ]
        where
          superseded_or :
              (is_superseded p.application_name status p h || has_process p h.restart_process_jobs)
                ≡ true
              → (k : Name) → (p.namespec == k) ≡ true
              → (not (w.restart_process k) && not (overruled applications split w k)) ≡ false
          superseded_or q k i = elim (Bool-cases (is_superseded p.application_name status p h)) [
            | inl s ↦ ground (arith, overruled_alike true s k i)
            | inr s ↦ ground (arith, restarted_alike true (ground (arith, q, s)) k i)
          ]
