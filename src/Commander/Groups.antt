-- ===== src/Commander/Groups.antt =====
-- supvisors/commander.py: the loop of ApplicationJobs.next over the commands of one sequence.
use supvisors.Prelude.{
  ◌≡◌, ◌⊎◌, refl, sym, subst, ◌∙◌, inl, inr, Bool, true, false, List, [], ◌∷◌, ◌++◌, Option, none,
  some, Name, arith, if◌then◌else◌,
}
use supvisors.Prelude.NameSet.{contains}
use supvisors.Commander.Commands.{ProcessCommand}
use supvisors.Commander.Jobs.{ApplicationJobs, JobKind, run_group}
use supvisors.Commander.Picking.{within}

-- What process_job leaves, if it raises nothing.
abbrev pub Kept :
    (K : Type 0) (S : Type 0)
    → ProcessCommand
    → ApplicationJobs K
    → Option (Bool × ProcessCommand × ApplicationJobs K × S)
    → Type 0
Kept K S cmd j none = Unit
Kept K S cmd j (some (queued, cmd', j', s')) =
    (cmd'.process ≡ cmd.process)
    × (j'.current_jobs ≡ j.current_jobs)
    × ((j'.planned_jobs ≡ j.planned_jobs) ⊎ (j'.planned_jobs ≡ []))

-- The promises of a kind of jobs: its order of numbers is one, and process_job leaves the current
-- jobs, the process of the command, and the planned jobs as they are unless it drops these.
pub record IsKind (K : Type 0) (S : Type 0) (kind : JobKind K S) : Type 0 where
  pub total : (a b : K) → (kind.precedes a b ≡ true) ⊎ (kind.precedes b a ≡ true)
  pub trans :
      (a b c : K) → kind.precedes a b ≡ true → kind.precedes b c ≡ true → kind.precedes a c ≡ true
  pub keeps :
      (cmd : ProcessCommand) (j : ApplicationJobs K) (s : S)
      → Kept K S cmd j (kind.process_job cmd j s)

module _ {K : Type 0} {S : Type 0} (kind : JobKind K S) (good : IsKind K S kind) where
  -- process_job has raised an exception.
  pub record Raises : Type 0 where
    pub cmd : ProcessCommand
    pub jobs : ApplicationJobs K
    pub rest : S
    pub raised : kind.process_job cmd jobs rest ≡ none

  pub record GroupDone (names : List Name) (j j' : ApplicationJobs K) : Type 0 where
    pub left : (j'.planned_jobs ≡ j.planned_jobs) ⊎ (j'.planned_jobs ≡ [])
    pub kept : within names j'.current_jobs ≡ true

  abbrev pub GroupEnds : List Name → ApplicationJobs K → Option (ApplicationJobs K × S) → Type 0
  GroupEnds names j none = Raises
  GroupEnds names j (some (j', s')) = GroupDone names j j'

  within-append :
      (names : List Name) (cmds : List ProcessCommand) (cmd : ProcessCommand)
      → within names cmds ≡ true
      → contains cmd.process names ≡ true
      → within names (cmds ++ (cmd ∷ [])) ≡ true
  within-append names [] cmd h i = ground (arith, i)
  within-append names (c ∷ cmds) cmd h i = ground (arith, h, within-append names cmds cmd)

  group_left :
      (names : List Name) (j j' : ApplicationJobs K) (o : Option (ApplicationJobs K × S))
      → (j'.planned_jobs ≡ j.planned_jobs) ⊎ (j'.planned_jobs ≡ [])
      → GroupEnds names j' o
      → GroupEnds names j o
  group_left names j j' none h e = e
  group_left names j j' (some (j'', s'')) h e = record {
    left = elim e.left [
      | inl q ↦ elim h [ inl r ↦ inl (q ∙ r) | inr r ↦ inr (q ∙ r) ]
      | inr q ↦ inr q
    ];
    kept = e.kept;
  }

  pub run_group-Ends :
      (group : List ProcessCommand) (names : List Name) (j : ApplicationJobs K) (s : S)
      → within names group ≡ true
      → within names j.current_jobs ≡ true
      → GroupEnds names j (run_group kind group j s)
  unfolding run_group
  run_group-Ends [] names j s g c = record { left = inl refl; kept = c }
  run_group-Ends (cmd ∷ group) names j s g c =
      one (kind.process_job cmd j s) refl
        (λ j' s' w. run_group-Ends group names j' s' (ground (arith, g)) w)
    where
      one :
          (o : Option (Bool × ProcessCommand × ApplicationJobs K × S))
          → kind.process_job cmd j s ≡ o
          → ((j' : ApplicationJobs K) (s' : S)
              → within names j'.current_jobs ≡ true
              → GroupEnds names j' (run_group kind group j' s'))
          → GroupEnds names j (elim o [
            | none ↦ none
            | some (queued, cmd', j', s') ↦
                run_group kind group
                  (if queued
                    then record j' { current_jobs = j'.current_jobs ++ (cmd' ∷ []) }
                    else j')
                  s'
          ])
      one none e rest = record { cmd = cmd; jobs = j; rest = s; raised = e }
      one (some (true, cmd', j', s')) e rest =
          let (same_process, current, left) = subst (Kept K S cmd j) e (good.keeps cmd j s) in
          group_left names j _ _ left (
            rest _ s' (
              within-append names j'.current_jobs cmd'
                (subst (λ l. within names l ≡ true) (sym current) c)
                (subst (λ n. contains n names ≡ true) (sym same_process) (ground (arith, g)))))
      one (some (false, cmd', j', s')) e rest =
          let (same_process, current, left) = subst (Kept K S cmd j) e (good.keeps cmd j s) in
          group_left names j j' _ left
            (rest j' s' (subst (λ l. within names l ≡ true) (sym current) c))
