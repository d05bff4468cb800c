-- ===== src/Commander/Kinds/Lawful.antt =====
-- supvisors/commander.py: the start and stop jobs keep the promises of JobKind.
use supvisors.Prelude.{
  ℕ, ◌≡◌, ◌⊎◌, refl, ◌∙◌, inl, inr, Bool, true, false, [], Option, none, some, Name, Bool-cases,
  Option-cases, arith, if◌then◌else◌,
}
use supvisors.Prelude.Dict.{lookup}
use supvisors.Prelude.Integers.{ℤ, int_le_total, int_le_trans}
use supvisors.Types.Strategies.{
  StartingStrategies, StartingFailureStrategies, abort, stop, continue, DistributionRules,
}
use supvisors.Types.ProcessStates as P
use supvisors.Instances.Status.{InstanceStatus}
use supvisors.Process.{ProcessInfo, ProcessStatus}
use supvisors.Process.Status as S
use supvisors.Process.Commands.{running_on}
use supvisors.Context.{Context}
use supvisors.Commander.Commands.{
  ProcessCommand, update_sequence_counter, update_identifier, set_wait_ticks, sequence_counter,
  get_instance_info,
}
use supvisors.Commander.Jobs.{ApplicationJobs}
use supvisors.Commander.Groups.{IsKind, Kept}
use supvisors.Commander.Kinds.{
  World, send, send_start_process, send_stop_process, force_process_state, is_all, start_jobs,
  stop_jobs, fail_jobs, place_command, locate, start_located, start_process, stop_on, stop_process,
}

-- What a change of a command leaves, if it raises nothing.
abbrev SameProcess : ProcessCommand → Option ProcessCommand → Type 0
SameProcess cmd none = Unit
SameProcess cmd (some cmd') = cmd'.process ≡ cmd.process

update_sequence_counter-SameProcess :
    (c : Context) (cmd : ProcessCommand) → SameProcess cmd (update_sequence_counter c cmd)
unfolding update_sequence_counter
update_sequence_counter-SameProcess c cmd = elim (Option-cases (sequence_counter c cmd)) [
  | inl e ↦ rw (e, update_sequence_counter) tt
  | inr (counter, e) ↦ rw (e, update_sequence_counter) refl
]

update_identifier-SameProcess :
    (secs : ProcessInfo → ℕ) (c : Context) (k : Name) (cmd : ProcessCommand)
    → SameProcess cmd (update_identifier secs c k cmd)
unfolding update_identifier set_wait_ticks
update_identifier-SameProcess secs c k cmd =
    known (lookup k c.instances) (get_instance_info c (record cmd { identifier = some k }))
  where
    known :
        (o : Option InstanceStatus) (i : Option ProcessInfo)
        → SameProcess cmd (elim o [
          | none ↦ none
          | some status ↦ elim i [
            | none ↦ none
            | some info ↦ some (set_wait_ticks (secs info) (record cmd { identifier = some k }))
          ]
        ])
    known none i = tt
    known (some status) none = tt
    known (some status) (some info) = refl

place_command-SameProcess :
    (c : Context) (cmd : ProcessCommand) (o : Option (Option Name))
    → SameProcess cmd (place_command c cmd o)
unfolding place_command
place_command-SameProcess c cmd none = tt
place_command-SameProcess c cmd (some none) = refl
place_command-SameProcess c cmd (some (some k)) =
    update_identifier-SameProcess (λ info. info.startsecs) c k cmd

module _ (K : Type 0) where
  abbrev Left : ApplicationJobs K → ApplicationJobs K → Type 0
  Left j j' =
      (j'.current_jobs ≡ j.current_jobs)
      × ((j'.planned_jobs ≡ j.planned_jobs) ⊎ (j'.planned_jobs ≡ []))

  fail_jobs-Left : (p : ProcessStatus) (j : ApplicationJobs K) → Left j (fail_jobs p j)
  unfolding fail_jobs
  fail_jobs-Left p j = by_rules p.rules.required p.rules.starting_failure_strategy
    where
      by_rules :
          (required : Bool) (strategy : StartingFailureStrategies)
          → Left j (
              if required
              then elim strategy [
                | abort ↦ record j { planned_jobs = [] }
                | stop ↦ record j { planned_jobs = []; stop_request = true }
                | _ ↦ j
              ]
              else j)
      by_rules false strategy = (refl, inl refl)
      by_rules true abort = (refl, inr refl)
      by_rules true stop = (refl, inr refl)
      by_rules true continue = (refl, inl refl)

  stop_on-Kept :
      (k : Name) (cmd : ProcessCommand) (j : ApplicationJobs K) (w : World)
      → Kept K World cmd j (stop_on k cmd j w)
  unfolding stop_on
  stop_on-Kept k cmd j w =
      left (update_sequence_counter w.context cmd)
        (update_sequence_counter-SameProcess w.context cmd)
    where
      left :
          (o : Option ProcessCommand)
          → SameProcess cmd o
          → Kept K World cmd j (elim o [
            | none ↦ none
            | some cmd' ↦ some (true, cmd', j, send (send_stop_process k cmd.process) w)
          ])
      left none h = tt
      left (some cmd') h = (h, refl, inl refl)

  stop_process-Kept :
      (p : Option ProcessStatus) (k : Option Name) (cmd : ProcessCommand) (j : ApplicationJobs K)
      (w : World)
      → Kept K World cmd j (stop_process p k cmd j w)
  unfolding stop_process
  stop_process-Kept none k cmd j w = tt
  stop_process-Kept (some p) none cmd j w = (refl, refl, inl refl)
  stop_process-Kept (some p) (some k) cmd j w = elim (Bool-cases (running_on w.supervisor k p)) [
    | inl e ↦ rw e (stop_on-Kept k cmd j w)
    | inr e ↦ rw e (refl, refl, inl refl)
  ]

  -- A command that is located starts, or fails for want of an instance.
  start_located-Kept :
      (p : ProcessStatus) (cmd : ProcessCommand) (j : ApplicationJobs K) (w : World)
      (o : Option ProcessCommand)
      → SameProcess cmd o
      → Kept K World cmd j (start_located p j w o)
  unfolding start_located
  start_located-Kept p cmd j w none h = tt
  start_located-Kept p cmd j w (some cmd') h = located cmd'.identifier
    where
      started :
          (k : Name) (o : Option ProcessCommand)
          → SameProcess cmd' o
          → Kept K World cmd j (elim o [
            | none ↦ none
            | some c ↦ some (true, c, j, send (send_start_process k cmd'.process cmd'.extra_args) w)
          ])
      started k none g = tt
      started k (some c) g = (g ∙ h, refl, inl refl)

      located :
          (i : Option Name)
          → Kept K World cmd j (elim i [
            | none ↦ some (
              false,
              cmd',
              fail_jobs p j,
              send (force_process_state cmd'.process none P.fatal none) w,
            )
            | some k ↦ elim (update_sequence_counter w.context cmd') [
              | none ↦ none
              | some c ↦
                  some (true, c, j, send (send_start_process k cmd'.process cmd'.extra_args) w)
            ]
          ])
      located none = let (c, l) = fail_jobs-Left p j in (h, c, l)
      located (some k) =
          started k (update_sequence_counter w.context cmd')
            (update_sequence_counter-SameProcess w.context cmd')

  locate-SameProcess :
      (distribution : DistributionRules) (p : ProcessStatus) (cmd : ProcessCommand)
      (j : ApplicationJobs K) (w : World)
      → SameProcess cmd (locate distribution p cmd j w)
  unfolding locate
  locate-SameProcess distribution p cmd j w = elim (Bool-cases (is_all distribution)) [
    | inl e ↦ rw e (place_command-SameProcess w.context cmd _)
    | inr e ↦ rw e refl
  ]

  start_process-Kept :
      (distribution : DistributionRules) (p : Option ProcessStatus) (cmd : ProcessCommand)
      (j : ApplicationJobs K) (w : World)
      → Kept K World cmd j (start_process distribution p cmd j w)
  unfolding start_process
  start_process-Kept distribution none cmd j w = tt
  start_process-Kept distribution (some p) cmd j w = elim (Bool-cases (S.stopped w.supervisor p)) [
    | inl e ↦ rw e (
        start_located-Kept p cmd j w (locate distribution p cmd j w)
          (locate-SameProcess distribution p cmd j w))
    | inr e ↦ rw e (refl, refl, inl refl)
  ]

-- The start jobs take their sequences from the lowest number, the stop jobs from the highest.
pub start_jobs-IsKind :
    (strategy : StartingStrategies) (distribution : DistributionRules)
    → IsKind ℕ World (start_jobs strategy distribution)
start_jobs-IsKind strategy distribution = record {
  total = λ a b. ground arith;
  trans = λ a b c h k. ground (arith, h, k);
  keeps =
      λ cmd j w. start_process-Kept ℕ distribution (lookup cmd.process w.context.processes) cmd j w;
}

pub stop_jobs-IsKind : IsKind ℤ World stop_jobs
stop_jobs-IsKind = record {
  total = λ a b. int_le_total b a;
  trans = λ a b c h k. int_le_trans c b a k h;
  keeps = λ cmd j w.
      stop_process-Kept ℤ (lookup cmd.process w.context.processes) cmd.identifier cmd j w;
}
