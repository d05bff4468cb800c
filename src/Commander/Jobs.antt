-- ===== src/Commander/Jobs.antt =====
-- supvisors/commander.py: ApplicationJobs. What ApplicationStartJobs and ApplicationStopJobs redefine
-- is the interface JobKind; `none` is an exception.
use supvisors.Prelude.{
  ℕ, zero, suc, Bool, true, false, ◌&&◌, ◌||◌, List, [], ◌∷◌, ◌++◌, Option, none, some, Name, ◌==◌,
  length, if◌then◌else◌,
}
use supvisors.Types.ProcessStates.{ProcessState}
use supvisors.Types.Strategies.{ProcessRequestResult, success, timed_out}
use supvisors.Commander.Commands.{ProcessCommand}

-- The two fields at the end are those of ApplicationStartJobs that change.
pub record ApplicationJobs (K : Type 0) : Type 0 where
  pub application_name : Name
  pub planned_jobs : List (K × List ProcessCommand)
  pub current_jobs : List ProcessCommand
  pub identifiers : List Name
  pub stop_request : Bool

-- `S` is the rest of the program, K the numbers of the sequences.
pub record JobKind (K : Type 0) (S : Type 0) : Type 1 where
  pub precedes : K → K → Bool
  pub process_job :
      ProcessCommand
      → ApplicationJobs K
      → S
      → Option (Bool × ProcessCommand × ApplicationJobs K × S)
  pub on_event : ProcessCommand → S → Option (ProcessCommand × ProcessRequestResult)
  pub timed_out : ProcessCommand → S → Option (ProcessState × ProcessRequestResult)
  pub fail_command : ProcessCommand → ProcessState → S → S
  pub process_failure : ProcessCommand → ApplicationJobs K → S → Option (ApplicationJobs K)
  pub on_command_added : ProcessCommand → ApplicationJobs K → S → Option ProcessCommand

abbrev pub same_identifier : Option Name → Option Name → Bool
same_identifier none k = true
same_identifier (some j) none = false
same_identifier (some j) (some k) = j == k

-- get_command(jobs, process_name, identifier)
unfoldable pub get_command : List ProcessCommand → Name → Option Name → Option ProcessCommand
get_command [] process_name identifier = none
get_command (cmd ∷ jobs) process_name identifier =
    if same_identifier identifier cmd.identifier && (cmd.process_name == process_name)
    then some cmd
    else get_command jobs process_name identifier

-- current_jobs.remove(command), of the first command that get_command finds
unfoldable pub remove_command : List ProcessCommand → Name → Option Name → List ProcessCommand
remove_command [] process_name identifier = []
remove_command (cmd ∷ jobs) process_name identifier =
    if same_identifier identifier cmd.identifier && (cmd.process_name == process_name)
    then jobs
    else cmd ∷ remove_command jobs process_name identifier

abbrev pub is_some : Option ProcessCommand → Bool
is_some none = false
is_some (some cmd) = true

module _ {K : Type 0} where
  -- sum(self.planned_jobs.values(), [])
  unfoldable pub planned_commands : List (K × List ProcessCommand) → List ProcessCommand
  planned_commands [] = []
  planned_commands ((k, cmds) ∷ planned) = cmds ++ planned_commands planned

  -- in_progress()
  unfoldable pub is_busy : ApplicationJobs K → Bool
  is_busy j = elim j.planned_jobs [
    | _ ∷ _ ↦ true
    | [] ↦ elim j.current_jobs [ _ ∷ _ ↦ true | [] ↦ false ]
  ]

  -- planned_jobs.setdefault(sequence_number, []).append(command)
  unfoldable pub plan :
      (K → K → Bool)
      → K
      → ProcessCommand
      → List (K × List ProcessCommand)
      → List (K × List ProcessCommand)
  plan eq n cmd [] = (n, cmd ∷ []) ∷ []
  plan eq n cmd ((k, cmds) ∷ planned) =
      if eq k n then (k, cmds ++ (cmd ∷ [])) ∷ planned else (k, cmds) ∷ plan eq n cmd planned

module _ {K : Type 0} {V : Type 0} where
  -- The entry of the number that pickup_logic picks, and the others.
  unfoldable pub pick : (K → K → Bool) → List (K × V) → Option ((K × V) × List (K × V))
  pick precedes [] = none
  pick precedes (x ∷ planned) = elim (pick precedes planned) [
    | none ↦ some (x, planned)
    | some (y, others) ↦ some (if precedes x.0 y.0 then (x, planned) else (y, x ∷ others))
  ]

module _ {K : Type 0} {S : Type 0} (kind : JobKind K S) where
  -- The body of the loop of add_commands.
  unfoldable pub add_command :
      (K → K → Bool) → K → ProcessCommand → ApplicationJobs K → S → Option (ApplicationJobs K)
  unfolding get_command planned_commands plan
  add_command eq n cmd j s =
      if is_some (get_command j.current_jobs cmd.process_name cmd.identifier)
        || is_some (get_command (planned_commands j.planned_jobs) cmd.process_name cmd.identifier)
      then some j
      else elim (kind.on_command_added cmd
          (record j { planned_jobs = plan eq n cmd j.planned_jobs }) s) [
            | none ↦ none
            | some cmd' ↦ some (record j { planned_jobs = plan eq n cmd' j.planned_jobs })
          ]

  unfoldable pub add_commands :
      (K → K → Bool) → K → List ProcessCommand → ApplicationJobs K → S → Option (ApplicationJobs K)
  unfolding add_command
  add_commands eq n [] j s = some j
  add_commands eq n (cmd ∷ cmds) j s = elim (add_command eq n cmd j s) [
    | none ↦ none
    | some j' ↦ add_commands eq n cmds j' s
  ]

  -- The loop over the commands of one group.
  unfoldable pub run_group :
      List ProcessCommand → ApplicationJobs K → S → Option (ApplicationJobs K × S)
  run_group [] j s = some (j, s)
  run_group (cmd ∷ group) j s = elim (kind.process_job cmd j s) [
    | none ↦ none
    | some (queued, cmd', j', s') ↦
        run_group group
          (if queued then record j' { current_jobs = j'.current_jobs ++ (cmd' ∷ []) } else j') s'
  ]

  -- next(), whose recursion takes a planned group at each call
  unfoldable pub next_from : ℕ → ApplicationJobs K → S → Option (ApplicationJobs K × S)
  unfolding pick run_group
  next_from zero j s = some (j, s)
  next_from (suc n) j s = elim j.current_jobs [
    | _ ∷ _ ↦ some (j, s)
    | [] ↦ elim (pick kind.precedes j.planned_jobs) [
      | none ↦ some (j, s)
      | some (entry, others) ↦ elim (run_group entry.1 (record j { planned_jobs = others }) s) [
        | none ↦ none
        | some (j', s') ↦ next_from n j' s'
      ]
    ]
  ]

  unfoldable pub next : ApplicationJobs K → S → Option (ApplicationJobs K × S)
  unfolding next_from
  next j s = next_from (length j.planned_jobs) j s

  -- The loop of check(): the commands that stay, and what becomes of the rest of the program.
  unfoldable pub check_commands : List ProcessCommand → S → Option (List ProcessCommand × S)
  check_commands [] s = some ([], s)
  check_commands (cmd ∷ cmds) s = elim (kind.timed_out cmd s) [
    | none ↦ none
    | some (expected, timed_out) ↦ check_commands cmds (kind.fail_command cmd expected s)
    | some (expected, success) ↦ check_commands cmds s
    | some (expected, _) ↦ elim (check_commands cmds s) [
      | none ↦ none
      | some (kept, s') ↦ some (cmd ∷ kept, s')
    ]
  ]

  unfoldable pub check : ApplicationJobs K → S → Option (ApplicationJobs K × S)
  unfolding check_commands next
  check j s = elim (check_commands j.current_jobs s) [
    | none ↦ none
    | some (kept, s') ↦ next (record j { current_jobs = kept }) s'
  ]
