-- ===== src/Commander/Whole.antt =====
-- supvisors/commander.py: the start jobs of an application for a single instance, after `before`.
use supvisors.Prelude.{
  ◌≡◌, refl, inl, inr, subst, true, ◌&&◌, List, [], ◌∷◌, Option, none, some, Name, ◌==◌, all,
  Bool-cases, In-of_keep, arith,
}
use supvisors.Prelude.Dict.{Dict, lookup}
use supvisors.Prelude.NameSet.{contains, contains-In}
use supvisors.Types.Strategies.{StartingStrategies, single_instance}
use supvisors.Process.{ProcessInfo, ProcessStatus}
use supvisors.Mapper.{SupvisorsMapper, machine_of}
use supvisors.Context.{Context}
use supvisors.Application.{ApplicationStatus}
use supvisors.Application.Sequences.{get_start_sequence_expected_load}
use supvisors.Application.Groups.{references}
use supvisors.Application.Candidates.{
  is_any, enabled_identifiers, actual_identifiers, possible_identifiers,
}
use supvisors.Strategy.Starting.{running_identifiers, get_supvisors_instance}
use supvisors.Strategy.Bounds.{is_some, is_some-eq, IsMapped}
use supvisors.Strategy.Bounds.Room.{
  Decided, is_runner, running-known, get_supvisors_instance-Decided,
}
use supvisors.Commander.Commands.{
  ProcessCommand, get_instance_info, info_of, set_wait_ticks, update_identifier,
}
use supvisors.Commander.Jobs.{ApplicationJobs}
use supvisors.Commander.Kinds.{World, get_load_requests}
use supvisors.Commander.Distribution.{
  start_identifier, place_group, place_planned, place_all, distribute_to_single_instance, before,
}

-- A command for a process of the application, as the Context has it.
pub record IsOwn (c : Context) (a : ApplicationStatus) (cmd : ProcessCommand) : Type 0 where
  pub status : ProcessStatus
  pub known : lookup cmd.process c.processes ≡ some status
  pub key : Name
  pub owned : lookup key a.processes ≡ some status

abbrev pub EachOwn : Context → ApplicationStatus → List ProcessCommand → Type 0
EachOwn c a [] = Unit
EachOwn c a (cmd ∷ cmds) = IsOwn c a cmd × EachOwn c a cmds

module _ {K : Type 0} where
  abbrev pub AllOwn : Context → ApplicationStatus → List (K × List ProcessCommand) → Type 0
  AllOwn c a [] = Unit
  AllOwn c a ((n, cmds) ∷ planned) = EachOwn c a cmds × AllOwn c a planned

-- The commands of `planned'` are those of `planned`, in the same sequences, on the instance.
pub data Moved (k : Name) : List ProcessCommand → List ProcessCommand → Type 0 where
  done : Moved k [] []
  more :
      {cmd cmd' : ProcessCommand} {cmds cmds' : List ProcessCommand}
      → cmd'.process ≡ cmd.process
      → cmd'.identifier ≡ some k
      → Moved k cmds cmds'
      → Moved k (cmd ∷ cmds) (cmd' ∷ cmds')

pub data AllMoved {K : Type 0} (k : Name)
    : List (K × List ProcessCommand) → List (K × List ProcessCommand) → Type 0 where
  done : AllMoved k [] []
  more :
      {n : K} {cmds cmds' : List ProcessCommand} {planned planned' : List (K × List ProcessCommand)}
      → Moved k cmds cmds'
      → AllMoved k planned planned'
      → AllMoved k ((n, cmds) ∷ planned) ((n, cmds') ∷ planned')

enabled-known :
    (k : Name) (infos : Dict ProcessInfo)
    → contains k (enabled_identifiers infos) ≡ true
    → is_some (lookup k infos) ≡ true
unfolding enabled_identifiers lookup contains
enabled-known k [] h = h
enabled-known k ((j, i) ∷ d) h = ground (arith, enabled-known k d)

actual-known :
    (k key : Name) (d : Dict ProcessStatus) (p : ProcessStatus)
    → all (λ ks. contains k ks) (actual_identifiers d) ≡ true
    → lookup key d ≡ some p
    → contains k (enabled_identifiers p.info_map) ≡ true
unfolding actual_identifiers lookup
actual-known k key [] p h e = absurd (ground arith)
actual-known k key ((j, q) ∷ d) p h e = elim (Bool-cases (j == key)) [
  | inl b ↦ first (rw b at e)
  | inr b ↦ actual-known k key d p (ground (arith, h)) (rw b at e)
]
  where
    first : some q ≡ some p → contains k (enabled_identifiers p.info_map) ≡ true
    first r =
        let same : q ≡ p = ground arith in
        subst (λ x. contains k (enabled_identifiers x.info_map) ≡ true) same (ground (arith, h))

-- A possible instance has an entry for each process of the application.
possible-known :
    (m : SupvisorsMapper) (a : ApplicationStatus) (k key : Name) (p : ProcessStatus)
    → contains k (possible_identifiers m a) ≡ true
    → lookup key a.processes ≡ some p
    → is_some (lookup k p.info_map) ≡ true
unfolding possible_identifiers
possible-known m a k key p h e =
    let (i, f) =
      In-of_keep
        (λ j.
          is_any (actual_identifiers a.processes)
          && all (λ ks. contains j ks) (actual_identifiers a.processes))
        (references m a.rules.identifiers) (contains-In k (possible_identifiers m a) h) in
    enabled-known k p.info_map (actual-known k key a.processes p (ground (arith, f)) e)

module _ (c : Context) (a : ApplicationStatus) (k : Name) where
  abbrev Fits : Type 0
  Fits =
      (key : Name) (p : ProcessStatus)
      → lookup key a.processes ≡ some p
      → is_some (lookup k p.info_map) ≡ true

  place-one :
      (cmd : ProcessCommand)
      → Fits
      → is_some (lookup k c.instances) ≡ true
      → IsOwn c a cmd
      → (cmd' : ProcessCommand) × (start_identifier c k cmd ≡ some cmd')
        × (cmd'.process ≡ cmd.process)
        × (cmd'.identifier ≡ some k)
  unfolding update_identifier get_instance_info info_of set_wait_ticks
  place-one cmd fits here own =
      let (status, e) = is_some-eq (lookup k c.instances) here in
      let (info, f) =
        is_some-eq (lookup k own.status.info_map) (fits own.key own.status own.owned) in
      let cmd' = set_wait_ticks info.startsecs (record cmd { identifier = some k }) in
      (cmd', ground (arith, e, own.known, f), refl, refl)

  place-group :
      (cmds : List ProcessCommand)
      → Fits
      → is_some (lookup k c.instances) ≡ true
      → EachOwn c a cmds
      → (cmds' : List ProcessCommand) × (place_group (start_identifier c k) cmds ≡ some cmds')
        × Moved k cmds cmds'
  unfolding place_group
  place-group [] fits here own = ([], refl, done)
  place-group (cmd ∷ cmds) fits here own =
      let (cmd', e, p, i) = place-one cmd fits here own.0 in
      let (cmds', f, moved) = place-group cmds fits here own.1 in
      (cmd' ∷ cmds', ground (arith, e, f), more p i moved)

  place-planned :
      {K : Type 0} (planned : List (K × List ProcessCommand))
      → Fits
      → is_some (lookup k c.instances) ≡ true
      → AllOwn c a planned
      → (planned' : List (K × List ProcessCommand)) × (place_planned (start_identifier c k) planned
          ≡ some planned')
        × AllMoved k planned planned'
  unfolding place_planned
  place-planned [] fits here own = ([], refl, done)
  place-planned ((n, cmds) ∷ planned) fits here own =
      let (cmds', e, moved) = place-group cmds fits here own.0 in
      let (planned', f, rest) = place-planned planned fits here own.1 in
      ((n, cmds') ∷ planned', ground (arith, e, f), more moved rest)

module _ {K : Type 0} (strategy : StartingStrategies) (a : ApplicationStatus) where
  abbrev Decision : ApplicationJobs K → World → Option Name → Type 0
  Decision j w chosen =
      Decided w.supervisor w.mapper w.context strategy (possible_identifiers w.mapper a)
        (get_start_sequence_expected_load a) (get_load_requests j w) (some chosen)

  -- What `before` returns for a single instance.
  pub data Whole (j : ApplicationJobs K) (w : World) : Option (ApplicationJobs K) → Type 0 where
    unplaced : Decision j w none → Whole j w (some j)
    placed :
        (k : Name) (planned : List (K × List ProcessCommand))
        → Decision j w (some k)
        → AllMoved k j.planned_jobs planned
        → Whole j w (some (record j { planned_jobs = planned; identifiers = k ∷ [] }))

  chosen-runner :
      (j : ApplicationJobs K) (w : World) (k : Name)
      → Decision j w (some k)
      → is_runner w.supervisor w.mapper w.context (possible_identifiers w.mapper a) (some k) ≡ true
  chosen-runner j w k d =
      let same : d.settled.chosen ≡ some k = ground (arith, d.settled.returned) in
      subst
        (λ r. is_runner w.supervisor w.mapper w.context (possible_identifiers w.mapper a) r ≡ true)
        same d.runner

  on_instance :
      (j : ApplicationJobs K) (w : World) (k : Name)
      → AllOwn w.context a j.planned_jobs
      → Decision j w (some k)
      → Whole j w (place_all (start_identifier w.context k) (k ∷ []) j)
  unfolding place_all
  on_instance j w k own d =
      let r = chosen-runner j w k d in
      let (planned, e, moved) =
        place-planned w.context a k j.planned_jobs
          (λ key p f. possible-known w.mapper a k key p (ground (arith, r)) f)
          (running-known w.supervisor w.mapper w.context k w.context.instances (ground (arith, r)))
          own in
      rw (place_all, e) (placed k planned d moved)

  decided :
      (j : ApplicationJobs K) (w : World) (o : Option (Option Name))
      → AllOwn w.context a j.planned_jobs
      → Decided w.supervisor w.mapper w.context strategy
          (possible_identifiers w.mapper a)
          (get_start_sequence_expected_load a)
          (get_load_requests j w)
          o
      → Whole j w (elim o [
        | none ↦ none
        | some none ↦ some j
        | some (some k) ↦ place_all (start_identifier w.context k) (k ∷ []) j
      ])
  decided j w none own d = absurd (ground (arith, d.settled.returned))
  decided j w (some none) own d = unplaced d
  decided j w (some (some k)) own d = on_instance j w k own d

  -- Where the requests are for instances on known nodes, the nodes have known instances, every
  -- running instance has a machine, and each planned command is for a process of the
  -- application, before raises nothing for a single instance. Either get_supvisors_instance
  -- decides that no possible instance of the application is to be taken for its whole starting
  -- load, and the jobs are as before, or it decides on an instance, which becomes the only one
  -- of the jobs, and the commands stand for the same processes in the same sequences, each with
  -- that instance.
  pub before-Whole :
      (j : ApplicationJobs K) (w : World)
      → IsMapped w.mapper w.context (get_load_requests j w)
      → all (λ k. is_some (machine_of w.mapper k)) (running_identifiers w.context.instances) ≡ true
      → AllOwn w.context a j.planned_jobs
      → Whole j w (before strategy a single_instance j w)
  unfolding before distribute_to_single_instance
  before-Whole j w mapped machines own =
      decided j w
        (get_supvisors_instance w.supervisor w.mapper w.context strategy
          (possible_identifiers w.mapper a) (get_start_sequence_expected_load a)
          (get_load_requests j w))
        own
        (get_supvisors_instance-Decided w.supervisor w.mapper w.context strategy
          (possible_identifiers w.mapper a) (get_start_sequence_expected_load a)
          (get_load_requests j w) mapped machines)
