-- ===== src/Process/Events.antt =====
-- supvisors/process.py: the methods of ProcessStatus that change it. The argument `mtime` is what
-- `time.monotonic()` returns. `none` is an exception that the source does not catch.
use Prim.Native.String.{◌++◌ as join}
use supvisors.Prelude.{
  ℕ, Bool, true, false, ◌&&◌, ◌||◌, List, [], ◌∷◌, Option, none, some, Name, leb, if◌then◌else◌,
  ◌==◌,
}
use supvisors.Prelude.Dict.{lookup, insert, delete}
use supvisors.Prelude.NameSet.{contains}
use supvisors.Prelude.Integers.{pos, sub_ℕ}
use supvisors.Types.ProcessStates.{
  ProcessState, stopped, starting, backoff, running, stopping, fatal, has_state, same_state,
}
use supvisors.Process.{ProcessInfo, ProcessEvent, ProcessStatus, Supervisor, is_crashed_event}
use supvisors.Process.Status.{update_status}

abbrev pub is_empty {ℓ} : {A : Type ℓ} → List A → Bool
is_empty [] = true
is_empty (_ ∷ _) = false

-- update_uptime(info)
unfoldable pub update_uptime : ProcessInfo → ProcessInfo
update_uptime info = record info {
  uptime =
      if same_state info.state running || same_state info.state stopping
      then sub_ℕ info.now_monotonic info.start_monotonic
      else pos 0;
}

-- The setter of `extra_args`.
unfoldable pub set_extra_args : Name → ProcessStatus → ProcessStatus
set_extra_args args p =
    if p.extra_args == args
    then p
    else record p { extra_args = args; applied_args = args ∷ p.applied_args }

-- reset_forced_state(state); `none` where the caller passes no state
unfoldable pub reset_forced_state : Option ProcessState → ProcessStatus → ProcessStatus
reset_forced_state (some stopped) p = p
reset_forced_state _ p = record p { forced_state = none; forced_reason = "" }

-- The events that Supvisors forces carry the instance where the state was expected.
unfoldable pub force_state : Name → ℕ → ProcessEvent → ProcessStatus → ProcessStatus × Bool
force_state identifier mtime event p =
    let forced : Bool = elim (lookup identifier p.info_map) [
      | none ↦ true
      | some info ↦ leb info.event_time event.now_monotonic
    ] in
    if forced
    then (
      record p {
        last_event_mtime = mtime;
        forced_state = some event.state;
        forced_reason = event.spawnerr;
      },
      true,
    )
    else (p, false)

-- The extra arguments of a new instance are kept only if they agree with the known ones.
unfoldable pub agree_extra_args : ProcessInfo → ProcessStatus → ProcessInfo × ProcessStatus
unfolding set_extra_args
agree_extra_args info p =
    if p.extra_args == info.extra_args
    then (info, p)
    else (record info { extra_args = "" }, set_extra_args "" p)

-- The event by which a lost instance is taken out of the process.
unfoldable pub lost_event : Name → ProcessInfo → ProcessEvent
lost_event identifier info = record {
  state = fatal;
  now = info.now;
  now_monotonic = info.now_monotonic;
  pid = none;
  expected = false;
  extra_args = info.extra_args;
  spawnerr = join "Supervisor " (join identifier " lost");
}

module _ (sup : Supervisor) where
  -- The entry that `add_info` stores.
  unfoldable pub added_info : ℕ → ProcessInfo → ProcessInfo
  unfolding update_uptime is_crashed_event
  added_info mtime payload =
      let info =
        update_uptime
          (record payload { local_mtime = mtime; event_time = payload.now_monotonic }) in
      record info { has_crashed = is_crashed_event info.state info.expected || info.has_crashed }

  -- The body of `add_info` before its call of `update_status`.
  unfoldable pub store_added : Name → ℕ → ProcessInfo → ProcessStatus → ProcessInfo × ProcessStatus
  unfolding added_info agree_extra_args reset_forced_state
  store_added identifier mtime payload p =
      let (info, p') = agree_extra_args (added_info mtime payload) p in
      (
        info,
        reset_forced_state (some info.state) (record p' {
          info_map = insert identifier info p'.info_map;
          last_event_mtime = mtime;
          program_name = info.program_name;
          process_index = info.process_index;
        }),
      )

  unfoldable pub add_info : Name → ℕ → ProcessInfo → ProcessStatus → Option ProcessStatus
  unfolding store_added
  add_info identifier mtime payload p =
      let (info, p') = store_added identifier mtime payload p in
      update_status sup identifier info.state p'

  -- The times that a state event sets: `start` in a starting state, and `stop` in a stopped-like
  -- one but FATAL.
  unfoldable pub stamp_times : ProcessInfo → ProcessInfo
  stamp_times info =
      if same_state info.state starting || same_state info.state backoff
      then record info { start = info.now; start_monotonic = info.now_monotonic }
      else if same_state info.state fatal
      then info
      else if has_state info.state sup.stopped_states
      then record info { stop = info.now; stop_monotonic = info.now_monotonic }
      else info

  -- The entry that `update_info` leaves; `external` is false for a lost instance.
  unfoldable pub updated_info : ℕ → ProcessEvent → Bool → ProcessInfo → ProcessInfo
  unfolding stamp_times update_uptime is_crashed_event
  updated_info mtime event external old =
      let info = record old {
        state = event.state;
        now = event.now;
        now_monotonic = event.now_monotonic;
        pid = elim event.pid [ none ↦ old.pid | some pid ↦ pid ];
        expected = event.expected;
        extra_args = event.extra_args;
        spawnerr = event.spawnerr;
        local_mtime = mtime;
        event_time = event.now_monotonic;
        statename = sup.describe_state event.state;
      } in
      let info' = update_uptime (stamp_times (record info { description = sup.interpret info })) in
      record info' {
        has_crashed =
            info'.has_crashed || (external && is_crashed_event info'.state info'.expected);
      }

  -- The body of `update_info` before its call of `update_status`.
  unfoldable pub store_updated :
      Name → ℕ → ProcessEvent → Bool → ProcessInfo → ProcessStatus → ProcessStatus
  unfolding updated_info set_extra_args reset_forced_state
  store_updated identifier mtime event external old p = reset_forced_state none (
      set_extra_args event.extra_args (record p {
        info_map = insert identifier (updated_info mtime event external old) p.info_map;
        last_event_mtime = mtime;
      }))

  unfoldable pub update_info : Name → ℕ → ProcessEvent → Bool → ProcessStatus → Option ProcessStatus
  unfolding store_updated
  update_info identifier mtime event external p = elim (lookup identifier p.info_map) [
    | none ↦ none
    | some old ↦
        update_status sup identifier event.state
          (store_updated identifier mtime event external old p)
  ]

  -- The flag tells that the process runs nowhere any more.
  unfoldable pub invalidate_identifier : Name → ℕ → ProcessStatus → Option (ProcessStatus × Bool)
  unfolding update_info contains lost_event
  invalidate_identifier identifier mtime p =
      if contains identifier p.running_identifiers
      then elim (lookup identifier p.info_map) [
        | none ↦ none
        | some info ↦ elim (update_info identifier mtime (lost_event identifier info) false p) [
          | none ↦ none
          | some p' ↦ some (p', is_empty p'.running_identifiers)
        ]
      ]
      else some (p, false)

  -- update_times(identifier, remote_mtime, remote_time)
  unfoldable pub update_times : Name → ℕ → ℕ → ProcessStatus → ProcessStatus
  unfolding update_uptime
  update_times identifier remote_mtime remote_time p = elim (lookup identifier p.info_map) [
    | none ↦ p
    | some old ↦
        let info = update_uptime (record old { now_monotonic = remote_mtime; now = remote_time }) in
        record p {
          info_map =
              insert identifier (record info { description = sup.interpret info }) p.info_map;
        }
  ]

-- update_disability(identifier, disabled)
unfoldable pub update_disability : Name → Bool → ProcessStatus → ProcessStatus
update_disability identifier disabled p = elim (lookup identifier p.info_map) [
  | none ↦ p
  | some info ↦ record p {
    info_map = insert identifier (record info { disabled = disabled }) p.info_map;
  }
]

-- remove_identifier(identifier): whether the process is defined nowhere any more
unfoldable pub remove_identifier : Name → ProcessStatus → Option (ProcessStatus × Bool)
remove_identifier identifier p = elim (lookup identifier p.info_map) [
  | none ↦ none
  | some _ ↦
      let p' = record p { info_map = delete identifier p.info_map } in
      some (p', is_empty p'.info_map)
]
