-- ===== src/Application/Status.antt =====
-- supvisors/application.py: the state and the operational status of ApplicationStatus.
-- `none` is an exception that `update` does not catch.
pub mod Required
pub mod Typing
use supvisors.Prelude.{
  ℕ, Bool, true, false, not, ◌&&◌, ◌||◌, List, [], ◌∷◌, ◌++◌, Option, none, some, Name, nat_beq,
  any, all, if◌then◌else◌,
}
use supvisors.Prelude.Dict.{Dict, lookup, keys, values}
use supvisors.Prelude.NameSet.{contains}
use supvisors.Types.ProcessStates.{ProcessState, has_state}
use supvisors.Types.ProcessStates as P
use supvisors.Types.Applications.{ApplicationStates, starting, stopping, value}
use supvisors.Types.Applications as A
use supvisors.Process.{ProcessInfo, ProcessStatus, Supervisor}
use supvisors.Process.Status as S
use supvisors.Process.Commands.{displayed_state}
use supvisors.Application.{ApplicationStatus}
use supvisors.Application.Formula.{Expr, Value, boolean, booleans, parse_error, raised, evaluate}

-- running()
unfoldable pub running : ApplicationStatus → Bool
running a = A.same_state a.state starting || A.same_state a.state A.running

-- stopped()
unfoldable pub stopped : ApplicationStatus → Bool
stopped a = A.same_state a.state A.stopped

unfoldable pub is_unused : ProcessInfo → Bool
is_unused info = P.same_state info.state P.stopped && nat_beq info.stop 0

unfoldable pub never_started : ApplicationStatus → Bool
unfolding is_unused values
never_started a = all (λ p. all is_unused (values p.info_map)) (values a.processes)

unfoldable pub has_running_processes : Supervisor → ApplicationStatus → Bool
unfolding S.running values
has_running_processes sup a = any (S.running sup) (values a.processes)

unfoldable pub get_operational_status : ApplicationStatus → Name
get_operational_status a =
    if A.same_state a.state A.running
    then if a.major_failure
      then "Not Operational"
      else if a.minor_failure
      then "Degraded"
      else "Operational"
    else ""

-- The locals `starting`, `running` and `stopping` after one more process.
unfoldable pub note_state : ProcessState → Bool × Bool × Bool → Bool × Bool × Bool
note_state s (starts, runs, stops) =
    if P.same_state s P.running
    then (starts, true, stops)
    else if has_state s (P.starting ∷ P.backoff ∷ [])
    then (true, runs, stops)
    else if P.same_state s P.stopping
    then (starts, runs, true)
    else (starts, runs, stops)

unfoldable pub note_states : Dict ProcessStatus → Bool × Bool × Bool → Bool × Bool × Bool
unfolding note_state displayed_state
note_states [] flags = flags
note_states ((k, p) ∷ d) flags = note_states d (note_state (displayed_state p) flags)

unfoldable pub update_state : ApplicationStatus → ApplicationStates
unfolding note_states
update_state a =
    let (starts, runs, stops) = note_states a.processes (false, false, false) in
    if stops then stopping else if starts then starting else if runs then A.running else A.stopped

-- A displayed state that `update_status_required` and `update_status_formula` take for a failure.
unfoldable pub failed : ProcessStatus → Bool
unfolding displayed_state
failed p =
    has_state (displayed_state p) (P.fatal ∷ P.unknown ∷ [])
    || (P.same_state (displayed_state p) P.exited && not p.expected_exit)

-- major_failure, minor_failure and possible_major_failure after one more process.
unfoldable pub note_failure :
    List Name → Name → ProcessStatus → Bool × Bool × Bool → Bool × Bool × Bool
unfolding failed contains displayed_state
note_failure sequenced k p (major, minor, possible) =
    if failed p
    then if p.rules.required
      then (true, minor, possible)
      else (major, minor || contains k sequenced, possible)
    else if P.same_state (displayed_state p) P.stopped
    then (major, minor, possible || p.rules.required)
    else (major, minor, possible)

unfoldable pub note_failures :
    Dict ProcessStatus → List Name → Bool × Bool × Bool → Bool × Bool × Bool
unfolding note_failure
note_failures [] sequenced flags = flags
note_failures ((k, p) ∷ d) sequenced flags =
    note_failures d sequenced (note_failure sequenced k p flags)

unfoldable pub update_status_required : List Name → ApplicationStatus → ApplicationStatus
unfolding note_failures
update_status_required sequenced a =
    let (major, minor, possible) =
      note_failures a.processes sequenced (a.major_failure, a.minor_failure, false) in
    let major' = if A.same_state a.state A.stopped then major else major || possible in
    record a { major_failure = major'; minor_failure = if major' then false else minor }

-- _get_process_status(process_name), which is only called on names of `processes`
unfoldable pub get_process_status : Supervisor → Dict ProcessStatus → Name → Bool
unfolding lookup displayed_state
get_process_status sup d k = elim (lookup k d) [
  | none ↦ false
  | some p ↦
      has_state (displayed_state p) sup.running_states
      || (P.same_state (displayed_state p) P.exited && p.expected_exit)
]

-- Whether the process of that name, if there is one, has failed.
unfoldable pub has_failed : Dict ProcessStatus → Name → Bool
unfolding lookup failed
has_failed d k = elim (lookup k d) [ none ↦ false | some p ↦ failed p ]

unfoldable pub set_formula : List Name → ApplicationStatus → Value → Option ApplicationStatus
unfolding has_failed
set_formula sequenced a (boolean true) = some (record a {
  major_failure = false;
  minor_failure = a.minor_failure || any (has_failed a.processes) sequenced;
})
set_formula sequenced a (boolean false) = some (record a { major_failure = true })
set_formula sequenced a (booleans _) = some (record a { major_failure = true })
set_formula sequenced a parse_error = some (record a { major_failure = true })
set_formula sequenced a raised = none

-- The names that the start sequence lists.
unfoldable pub sequenced_names : List (ℕ × List Name) → List Name
sequenced_names [] = []
sequenced_names ((n, ks) ∷ seq) = ks ++ sequenced_names seq

-- `compile` is that of `get_matches`.
module _ (sup : Supervisor) (compile : Name → Option (Name → Bool)) where
  unfoldable pub update_status_formula :
      Expr → List Name → ApplicationStatus → Option ApplicationStatus
  unfolding evaluate get_process_status set_formula keys
  update_status_formula tree sequenced a =
      set_formula sequenced a
        (evaluate compile (keys a.processes) (get_process_status sup a.processes) tree)

  unfoldable pub update : ApplicationStatus → Option ApplicationStatus
  unfolding update_state update_status_required update_status_formula sequenced_names
  update a =
      let sequenced = sequenced_names a.start_sequence in
      let a' = record a { state = update_state a; major_failure = false; minor_failure = false } in
      elim a.rules.status_tree [
        | none ↦ some (update_status_required sequenced a')
        | some tree ↦ update_status_formula tree sequenced a'
      ]
