-- ===== src/Process/Status.antt =====
-- supvisors/process.py: `update_status`, which keeps the synthetic state of a process.
-- `none` is the exception of a key that is missing or of a `max` over nothing.
use supvisors.Prelude.{
  Bool, true, List, [], ◌∷◌, ◌++◌, Option, none, some, Name, length, ltb, any, if◌then◌else◌,
}
use supvisors.Prelude.Dict.{Dict, lookup, values}
use supvisors.Prelude.NameSet.{NameSet, add, discard}
use supvisors.Types.ProcessStates.{ProcessState, stopping, unknown, has_state, same_state}
use supvisors.Process.{ProcessInfo, ProcessStatus, Supervisor}

-- `next((s for s in states if s in found), default)`
unfoldable pub first_state : List ProcessState → List ProcessState → ProcessState → ProcessState
first_state [] found default = default
first_state (s ∷ states) found default =
    if has_state s found then s else first_state states found default

-- The states of the instances that are named, `none` if one has no information.
unfoldable pub states_of : NameSet → Dict ProcessInfo → Option (List ProcessState)
states_of [] d = some []
states_of (k ∷ ks) d = elim (lookup k d) [
  | none ↦ none
  | some info ↦ elim (states_of ks d) [ none ↦ none | some states ↦ some (info.state ∷ states) ]
]

-- The state in which the instance `k` last reported the process.
abbrev pub state_of : Name → Dict ProcessInfo → Option ProcessState
state_of k d = elim (lookup k d) [ none ↦ none | some info ↦ some info.state ]

-- `max(infos, key=lambda x: x['local_mtime'])` from the best so far: the first one of the largest.
unfoldable pub latest_from : ProcessInfo → List ProcessInfo → ProcessInfo
latest_from best [] = best
latest_from best (info ∷ infos) =
    latest_from (if ltb best.local_mtime info.local_mtime then info else best) infos

unfoldable pub latest : List ProcessInfo → Option ProcessInfo
unfolding latest_from
latest [] = none
latest (info ∷ infos) = some (latest_from info infos)

module _ (sup : Supervisor) where
  -- stopped(), running()
  unfoldable pub stopped : ProcessStatus → Bool
  stopped p = has_state p.state sup.stopped_states

  unfoldable pub running : ProcessStatus → Bool
  running p = has_state p.state sup.running_states

  -- running_state(states)
  unfoldable pub running_state : List ProcessState → ProcessState
  unfolding first_state
  running_state states = first_state (sup.running_states ++ stopping ∷ []) states unknown

  -- The first part of `update_status`: the list of the running identifiers.
  unfoldable pub update_running : Name → ProcessState → ProcessStatus → ProcessStatus
  unfolding add discard stopped
  update_running identifier new_state p =
      if has_state new_state sup.stopped_states
      then record p { running_identifiers = discard identifier p.running_identifiers }
      else if has_state new_state sup.running_states
      then (if stopped p
          then record p { running_identifiers = identifier ∷ [] }
          else record p { running_identifiers = add identifier p.running_identifiers })
      else p

-- conflicting()
unfoldable pub conflicting : ProcessStatus → Bool
conflicting p = ltb 1 (length p.running_identifiers)

module _ (sup : Supervisor) where
  -- The last part of `update_status` where no instance runs the process.
  unfoldable pub synthesize_stopped : ProcessStatus → Option ProcessStatus
  unfolding latest values
  synthesize_stopped p =
      if any (λ info. same_state info.state stopping) (values p.info_map)
      then some (record p { state = stopping; expected_exit = true })
      else elim (latest (values p.info_map)) [
        | none ↦ none
        | some info ↦ some (record p { state = info.state; expected_exit = info.expected })
      ]

  -- `_evaluate_conflict`
  unfoldable pub evaluate_conflict : ProcessStatus → Option ProcessStatus
  unfolding states_of running_state
  evaluate_conflict p = elim (states_of p.running_identifiers p.info_map) [
    | none ↦ none
    | some states ↦ some (record p { state = running_state sup states })
  ]

  unfoldable pub synthesize_running : Name → ProcessStatus → Option ProcessStatus
  synthesize_running k p = elim (state_of k p.info_map) [
    | none ↦ none
    | some state ↦ some (record p { state = state; expected_exit = true })
  ]

  -- `running_identifiers` is split as the source tests its length and its truth value.
  unfoldable pub synthesize : NameSet → ProcessStatus → Option ProcessStatus
  unfolding synthesize_stopped evaluate_conflict synthesize_running conflicting
  synthesize [] p = synthesize_stopped p
  synthesize (k ∷ ks) p = if conflicting p then evaluate_conflict p else synthesize_running k p

  unfoldable pub update_status : Name → ProcessState → ProcessStatus → Option ProcessStatus
  unfolding update_running synthesize
  update_status identifier new_state p =
      let p' = update_running sup identifier new_state p in synthesize p'.running_identifiers p'
