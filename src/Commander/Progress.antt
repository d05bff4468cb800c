-- ===== src/Commander/Progress.antt =====
-- supvisors/commander.py: ApplicationJobs.next takes the sequences in their order, one at a time.
use supvisors.Prelude.{
  ℕ, zero, suc, ◌≤◌, ◌≡◌, ◌⊎◌, refl, sym, ap, subst, inl, inr, true, false, List, [], ◌∷◌, Option,
  none, some, Name, length, In, name_self, Bool-cases, arith,
}
use supvisors.Prelude.NameSet.{contains}
use supvisors.Commander.Commands.{ProcessCommand}
use supvisors.Commander.Jobs.{ApplicationJobs, JobKind, pick, run_group, next_from, next}
use supvisors.Commander.Picking.{
  Planned, is_empty, processes_of, within, IsPart, IsPicked, Picked, pick-Picked,
}
use supvisors.Commander.Groups.{IsKind, Raises, GroupEnds, run_group-Ends}

module _ {K : Type 0} {S : Type 0} (kind : JobKind K S) (good : IsKind K S kind) where
  -- How `next` leaves the jobs: as they were while a command is in progress; with nothing planned
  -- when none is; or with commands of one planned sequence, which no sequence left precedes.
  pub data IsSettled (j j' : ApplicationJobs K) : Type 0 where
    waits : is_empty j.current_jobs ≡ false → j' ≡ j → IsSettled j j'
    idle : is_empty j'.current_jobs ≡ true → is_empty j'.planned_jobs ≡ true → IsSettled j j'
    starts :
        (number : K) (group : List ProcessCommand)
        → In (number, group) j.planned_jobs
        → is_empty j'.current_jobs ≡ false
        → within (processes_of group) j'.current_jobs ≡ true
        → IsPart j.planned_jobs j'.planned_jobs
        → ((number' : K) (group' : List ProcessCommand)
            → In (number', group') j'.planned_jobs
            → kind.precedes number number' ≡ true)
        → IsSettled j j'

  -- An exception is one of process_job.
  abbrev pub Ends : ApplicationJobs K → Option (ApplicationJobs K × S) → Type 0
  Ends j none = Raises kind good
  Ends j (some (j', s')) = IsSettled j j'

  within-more :
      (n : Name) (names : List Name) (cmds : List ProcessCommand)
      → within names cmds ≡ true
      → within (n ∷ names) cmds ≡ true
  unfolding contains
  within-more n names [] h = refl
  within-more n names (cmd ∷ cmds) h = ground (arith, h, within-more n names cmds)

  within-itself : (group : List ProcessCommand) → within (processes_of group) group ≡ true
  unfolding contains
  within-itself [] = refl
  within-itself (cmd ∷ group) = ground (
    arith,
    name_self cmd.process,
    within-more cmd.process (processes_of group) group (within-itself group),
  )

  empty_within :
      (names : List Name) (cmds : List ProcessCommand)
      → is_empty cmds ≡ true
      → within names cmds ≡ true
  empty_within names [] h = refl
  empty_within names (cmd ∷ cmds) h = absurd (ground (arith, h))

  none_planned : (planned : Planned K) → length planned ≤ 0 → is_empty planned ≡ true
  none_planned [] h = refl
  none_planned (x ∷ planned) h = absurd (ground (arith, h))

  left-IsPart :
      (others planned : Planned K) → (planned ≡ others) ⊎ (planned ≡ []) → IsPart others planned
  left-IsPart others planned (inl q) x i = subst (λ l. In x l) q i
  left-IsPart others planned (inr q) x i = elim (subst (λ l. In x l) q i) [ ]

  length_left :
      (others planned : Planned K) (n : ℕ)
      → (planned ≡ others) ⊎ (planned ≡ [])
      → length others ≤ n
      → length planned ≤ n
  length_left others planned n (inl q) h = subst (λ l. length l ≤ n) (sym q) h
  length_left others planned n (inr q) h = subst (λ l. length l ≤ n) (sym q) (ground arith)

  -- What the rest of the calls leave, after one group has been taken.
  after_group :
      (j j' j'' : ApplicationJobs K) (entry : K × List ProcessCommand) (others : Planned K)
      → IsPicked kind.precedes good.total good.trans j.planned_jobs entry others
      → IsPart others j'.planned_jobs
      → within (processes_of entry.1) j'.current_jobs ≡ true
      → IsSettled j' j''
      → IsSettled j j''
  after_group j j' j'' entry others p sub w (waits busy q) =
      subst (λ x. IsSettled j x) (sym q)
        (starts entry.0 entry.1 p.member busy w (λ x i. p.part x (sub x i))
          (λ number group i. p.first (number, group) (sub (number, group) i)))
  after_group j j' j'' entry others p sub w (idle a b) = idle a b
  after_group j j' j'' entry others p sub w (starts number group i busy v part first) =
      starts number group (p.part (number, group) (sub (number, group) i)) busy v
        (λ x k. p.part x (sub x (part x k))) first

  next_from-Ends :
      (n : ℕ) (j : ApplicationJobs K) (s : S)
      → length j.planned_jobs ≤ n
      → Ends j (next_from kind n j s)
  unfolding next_from
  next_from-Ends zero j s h = elim (Bool-cases (is_empty j.current_jobs)) [
    | inl e ↦ idle e (none_planned j.planned_jobs h)
    | inr e ↦ waits e refl
  ]
  next_from-Ends (suc n) j s h = current j.current_jobs refl (λ j' s' l. next_from-Ends n j' s' l)
    where
      ran :
          (entry : K × List ProcessCommand) (others : Planned K)
          (o : Option (ApplicationJobs K × S))
          → IsPicked kind.precedes good.total good.trans j.planned_jobs entry others
          → GroupEnds kind good (processes_of entry.1) (record j { planned_jobs = others }) o
          → ((j' : ApplicationJobs K) (s' : S)
              → length j'.planned_jobs ≤ n
              → Ends j' (next_from kind n j' s'))
          → Ends j (elim o [ none ↦ none | some (j', s') ↦ next_from kind n j' s' ])
      ran entry others none p d rest = d
      ran entry others (some (j', s')) p d rest =
          let short : length others ≤ n = ground (arith, p.shorter, h) in
          onward (next_from kind n j' s')
            (rest j' s' (length_left others j'.planned_jobs n d.left short))
        where
          onward : (o : Option (ApplicationJobs K × S)) → Ends j' o → Ends j o
          onward none e = e
          onward (some (j'', s'')) e =
              after_group j j' j'' entry others p (left-IsPart others j'.planned_jobs d.left) d.kept
                e

      picked :
          (o : Option ((K × List ProcessCommand) × Planned K))
          → is_empty j.current_jobs ≡ true
          → Picked kind.precedes good.total good.trans j.planned_jobs o
          → ((j' : ApplicationJobs K) (s' : S)
              → length j'.planned_jobs ≤ n
              → Ends j' (next_from kind n j' s'))
          → Ends j (elim o [
            | none ↦ some (j, s)
            | some (entry, others) ↦
                elim (run_group kind entry.1 (record j { planned_jobs = others }) s) [
                  | none ↦ none
                  | some (j', s') ↦ next_from kind n j' s'
                ]
          ])
      picked none e p rest = idle e p
      picked (some (entry, others)) e p rest =
          ran entry others (run_group kind entry.1 (record j { planned_jobs = others }) s) p
            (run_group-Ends kind good entry.1 (processes_of entry.1)
              (record j { planned_jobs = others }) s (within-itself entry.1)
              (empty_within (processes_of entry.1) j.current_jobs e))
            rest

      current :
          (l : List ProcessCommand)
          → j.current_jobs ≡ l
          → ((j' : ApplicationJobs K) (s' : S)
              → length j'.planned_jobs ≤ n
              → Ends j' (next_from kind n j' s'))
          → Ends j (elim l [
            | _ ∷ _ ↦ some (j, s)
            | [] ↦ elim (pick kind.precedes j.planned_jobs) [
              | none ↦ some (j, s)
              | some (entry, others) ↦
                  elim (run_group kind entry.1 (record j { planned_jobs = others }) s) [
                    | none ↦ none
                    | some (j', s') ↦ next_from kind n j' s'
                  ]
            ]
          ])
      current (c ∷ cs) e rest = waits (ap is_empty e) refl
      current [] e rest =
          picked (pick kind.precedes j.planned_jobs) (ap is_empty e)
            (pick-Picked kind.precedes good.total good.trans j.planned_jobs) rest

  -- For jobs whose kind keeps its promises, as the start and the stop jobs do, next raises only
  -- what process_job raises and ends otherwise: it leaves the jobs as they were while a command
  -- is in progress, or nothing in progress and nothing planned, or in progress only processes of
  -- one planned sequence, whose number no sequence that is left precedes.
  pub next-Ends : (j : ApplicationJobs K) (s : S) → Ends j (next kind j s)
  unfolding next
  next-Ends j s = next_from-Ends (length j.planned_jobs) j s (ground arith)
