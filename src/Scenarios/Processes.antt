-- ===== src/Scenarios/Processes.antt =====
-- supvisors/process.py on a process that runs on two instances.
use supvisors.Prelude.{
  Bool, true, false, not, ◌&&◌, ◌||◌, Option, none, some, Name, ◌≡◌, ◌≢◌, ◌↔◌, refl, subst, sym,
  some_eq, if◌then◌else◌, ◌==◌, arith,
}
use supvisors.Prelude.Dict.{lookup, insert}
use supvisors.Prelude.NameSet.{contains}
use supvisors.Types.ProcessStates.{starting, running, stopped, exited, is_running, is_stopping}
use supvisors.Process.{ProcessStatus, new}
use supvisors.Process.Status
use supvisors.Process.Status.{state_of}
use supvisors.Process.Synthesis.{is_live}
use supvisors.Process.Rules.{IsChecked, check_dependencies, check_dependencies-IsChecked}
use supvisors.Process.Events.{add_info, update_info, invalidate_identifier, remove_identifier}
use supvisors.Process.Invariant.{IsConsistent, any_state, test}
use supvisors.Process.Invariant.Methods.{
  new-IsConsistent, add_info-IsConsistent, update_info-IsConsistent,
  invalidate_identifier-IsConsistent,
}
use supvisors.Process.Invariant.Removal.{remove_identifier-Removes}
use supvisors.Process.History.{
  Reach, start, next, added, updated, running_synthesis, running_identifiers_sound,
}
use supvisors.Scenarios.{supervisor, supervisor-IsSupervisor, rules, info, event}

abbrev fresh : ProcessStatus
fresh = new "app" "cat" "app:cat" rules

abbrev or_fresh : Option ProcessStatus → ProcessStatus
or_fresh none = fresh
or_fresh (some p) = p

abbrev on_one : ProcessStatus
on_one = or_fresh (add_info supervisor "a" 5 (info starting) fresh)

abbrev on_two : ProcessStatus
on_two = or_fresh (add_info supervisor "b" 6 (info running) on_one)

abbrev exited_on_one : ProcessStatus
exited_on_one = or_fresh (update_info supervisor "a" 7 (event exited) true on_two)

life : Reach supervisor fresh exited_on_one
unfolding new add_info update_info lookup insert Status.update_status
life =
    next (next (next start (added "a" 5 (info starting) refl)) (added "b" 6 (info running) refl))
      (updated "a" 7 (event exited) (λ e. ground arith) refl)

fresh-IsConsistent : IsConsistent fresh
fresh-IsConsistent = new-IsConsistent "app" "cat" "app:cat" rules

on_one-IsConsistent : IsConsistent on_one
unfolding new add_info lookup insert Status.update_status
on_one-IsConsistent =
    let (q, e, c, _) =
      add_info-IsConsistent supervisor supervisor-IsSupervisor "a" 5 (info starting) fresh
        fresh-IsConsistent in
    subst IsConsistent (some_eq (sym e)) c

running_synthesis_example :
    (Status.running supervisor exited_on_one ≡ any_state is_running exited_on_one.info_map)
    × (Status.stopped supervisor exited_on_one ≡ (
        not (any_state is_running exited_on_one.info_map)
        && not (any_state is_stopping exited_on_one.info_map)))
running_synthesis_example =
    running_synthesis supervisor supervisor-IsSupervisor "app" "cat" "app:cat" rules life

running_identifiers_sound_example :
    ((contains "b" exited_on_one.running_identifiers
        && not (test is_live (state_of "b" exited_on_one.info_map)))
      ≡ false)
    × ((test is_running (state_of "b" exited_on_one.info_map)
          && not (contains "b" exited_on_one.running_identifiers))
        ≡ false)
running_identifiers_sound_example =
    running_identifiers_sound supervisor supervisor-IsSupervisor "app" "cat" "app:cat" rules life
      "b"

add_info-IsConsistent_example :
    (q : ProcessStatus) × (add_info supervisor "b" 6 (info running) on_one ≡ some q)
    × IsConsistent q
    × ((j : Name)
        → state_of j q.info_map ≡ (if "b" == j then some running else state_of j on_one.info_map))
add_info-IsConsistent_example =
    add_info-IsConsistent supervisor supervisor-IsSupervisor "b" 6 (info running) on_one
      on_one-IsConsistent

a_known : lookup "a" on_one.info_map ≢ none
unfolding new add_info lookup insert Status.update_status
a_known e = ground arith

update_info-IsConsistent_example :
    (q : ProcessStatus) × (update_info supervisor "a" 7 (event exited) true on_one ≡ some q)
    × IsConsistent q
    × ((j : Name)
        → state_of j q.info_map ≡ (if "a" == j then some exited else state_of j on_one.info_map))
update_info-IsConsistent_example =
    update_info-IsConsistent supervisor supervisor-IsSupervisor "a" 7 (event exited) true on_one
      on_one-IsConsistent a_known

invalidate_identifier-IsConsistent_example :
    (q : ProcessStatus) × (failure : Bool) × (invalidate_identifier supervisor "a" 8 on_one
      ≡ some (q, failure))
    × IsConsistent q
    × (contains "a" q.running_identifiers ≡ false)
    × ((failure
          && (not (contains "a" on_one.running_identifiers) || any_state is_running q.info_map))
        ≡ false)
    × ((contains "a" on_one.running_identifiers
          && (not failure && not (any_state is_live q.info_map)))
        ≡ false)
invalidate_identifier-IsConsistent_example =
    invalidate_identifier-IsConsistent supervisor supervisor-IsSupervisor "a" 8 on_one
      on_one-IsConsistent

abbrev stopped_on_one : ProcessStatus
stopped_on_one = or_fresh (add_info supervisor "a" 5 (info stopped) fresh)

stopped_on_one-IsConsistent : IsConsistent stopped_on_one
unfolding new add_info lookup insert Status.update_status
stopped_on_one-IsConsistent =
    let (q, e, c, _) =
      add_info-IsConsistent supervisor supervisor-IsSupervisor "a" 5 (info stopped) fresh
        fresh-IsConsistent in
    subst IsConsistent (some_eq (sym e)) c

a_not_live : test is_live (state_of "a" stopped_on_one.info_map) ≡ false
unfolding new add_info lookup insert Status.update_status
a_not_live = refl

a_listed : lookup "a" stopped_on_one.info_map ≢ none
unfolding new add_info lookup insert Status.update_status
a_listed e = ground (arith, e)

remove_identifier-Removes_example :
    (q : ProcessStatus) × (last : Bool) × (remove_identifier "a" stopped_on_one ≡ some (q, last))
    × IsConsistent q
    × (lookup "a" q.info_map ≡ none)
    × ((j : Name) → j ≢ "a" → lookup j q.info_map ≡ lookup j stopped_on_one.info_map)
    × ((last ≡ true) ↔ ((j : Name) → lookup j q.info_map ≡ none))
remove_identifier-Removes_example =
    remove_identifier-Removes "a" stopped_on_one stopped_on_one-IsConsistent a_listed a_not_live

check_dependencies-IsChecked_example :
    let (r, autorestart) = check_dependencies false rules (some true) in
    IsChecked false r autorestart
check_dependencies-IsChecked_example = check_dependencies-IsChecked false rules (some true)
