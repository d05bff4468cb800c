-- ===== src/Process/Commands.antt =====
-- supvisors/process.py: the queries of ProcessStatus.
use supvisors.Prelude.{
  ℕ, Bool, true, false, ◌&&◌, not, List, [], ◌∷◌, Option, none, some, Name, ◌==◌, any, all, keep,
  if◌then◌else◌,
}
use supvisors.Prelude.Dict.{lookup, values}
use supvisors.Prelude.NameSet.{contains}
use supvisors.Types.ProcessStates.{ProcessState, running, same_state}
use supvisors.Process.{ProcessStatus, Supervisor, is_crashed_event}
use supvisors.Process.Rules.{wildcard}
use supvisors.Process.Status.{conflicting, state_of}
use supvisors.Process.Status

-- get_pid(identifier); `none` where the entry is missing
unfoldable pub get_pid : Name → ProcessStatus → Option ℕ
unfolding contains
get_pid identifier p =
    if same_state p.state running && contains identifier p.running_identifiers
    then elim (lookup identifier p.info_map) [ none ↦ none | some info ↦ some info.pid ]
    else some 0

abbrev is_filled {ℓ} : {A : Type ℓ} → List A → Bool
is_filled [] = false
is_filled (_ ∷ _) = true

-- disabled(): a process that no instance knows is not disabled
unfoldable pub disabled : ProcessStatus → Bool
unfolding values
disabled p = is_filled p.info_map && all (λ info. info.disabled) (values p.info_map)

unfoldable pub disabled_on : Name → ProcessStatus → Bool
unfolding lookup
disabled_on identifier p = elim (lookup identifier p.info_map) [
  | none ↦ false
  | some info ↦ info.disabled
]

unfoldable pub has_crashed : ProcessStatus → Bool
unfolding values
has_crashed p = any (λ info. info.has_crashed) (values p.info_map)

-- crashed(identifier); with no identifier, or an empty one, the synthetic state is asked
unfoldable pub crashed : Option Name → ProcessStatus → Bool
unfolding lookup is_crashed_event
crashed none p = is_crashed_event p.state p.expected_exit
crashed (some identifier) p =
    if identifier == ""
    then is_crashed_event p.state p.expected_exit
    else elim (lookup identifier p.info_map) [
      | none ↦ false
      | some info ↦ is_crashed_event info.state info.expected
    ]

-- displayed_state
unfoldable pub displayed_state : ProcessStatus → ProcessState
displayed_state p = elim p.forced_state [ none ↦ p.state | some forced ↦ forced ]

module _ (sup : Supervisor) where
  -- running_on(identifier)
  unfoldable pub running_on : Name → ProcessStatus → Bool
  unfolding contains Status.running
  running_on identifier p = Status.running sup p && contains identifier p.running_identifiers

-- `identifier in self.info_map`
unfoldable pub is_known : Name → ProcessStatus → Bool
unfolding lookup
is_known identifier p = elim (lookup identifier p.info_map) [ none ↦ false | some _ ↦ true ]

-- possible_identifiers(); `instances` are the identifiers that the mapper knows, and `filter` is
-- its method of that name
unfoldable pub possible_identifiers :
    (instances : List Name) (filter : List Name → List Name) → ProcessStatus → List Name
unfolding contains disabled_on is_known
possible_identifiers instances filter p =
    let filtered =
      if contains wildcard p.rules.identifiers then instances else filter p.rules.identifiers in
    keep (λ identifier. is_known identifier p && not (disabled_on identifier p)) filtered
