-- ===== src/Context/Ticks.antt =====
-- supvisors/context.py: the ticks of the instances, and the periodic check of their activity.
use supvisors.Prelude.{ℕ, Bool, ◌||◌, not, List, [], ◌∷◌, Option, none, some, Name, if◌then◌else◌}
use supvisors.Prelude.Dict.{Dict, lookup, insert, keys}
use supvisors.Types.InstanceStates.{
  SupvisorsInstanceStates, stopped, checking, checked, running, failed, same_state,
}
use supvisors.Instances.Times.{Clock, SupvisorsTimes}
use supvisors.Instances.Times
use supvisors.Instances.Status.{InstanceStatus, is_inactive}
use supvisors.Process.{ProcessStatus, Supervisor}
use supvisors.Process.Events.{update_times}
use supvisors.Context.{Context, Result, done, raised, key_error, and_then}
use supvisors.Context.Setter.{set_state}

-- The payload of a TICK event.
pub record TickEvent : Type 0 where
  pub sequence_counter : ℕ
  pub when_monotonic : ℕ
  pub when : ℕ

-- The states of the local instance in which the ticks of the others are taken in.
abbrev pub can_work : SupvisorsInstanceStates → Bool
can_work s = same_state s checked || same_state s running

-- `tick_period` is TICK_PERIOD.
module _ (sup : Supervisor) (tick_period : ℕ) where
  -- The loop of `update_tick` over the processes of an instance.
  unfoldable pub update_process_times :
      Name → (remote_mtime remote_time : ℕ) → List Name → Dict ProcessStatus → Dict ProcessStatus
  unfolding lookup insert update_times
  update_process_times identifier mtime time [] d = d
  update_process_times identifier mtime time (n ∷ ns) d =
      update_process_times identifier mtime time ns (elim (lookup n d) [
        | none ↦ d
        | some p ↦ insert n (update_times sup identifier mtime time p) d
      ])

  -- update_tick(…); a local counter `none` is the -1 of the local instance
  unfoldable pub update_tick :
      Clock → Name → TickEvent → Option ℕ → InstanceStatus → Context → Context
  unfolding insert update_process_times Times.update
  update_tick clock identifier event local_counter status c =
      let times =
        Times.update tick_period event.sequence_counter event.when_monotonic event.when
          local_counter clock status.times in
      record c {
        instances = insert identifier (record status { times = times }) c.instances;
        processes =
            update_process_times identifier times.remote_mtime times.remote_time status.processes
              c.processes;
      }

  -- The handshake is triggered on the first TICK.
  unfoldable pub check_stopped : Clock → Name → Context → Result (Unit {0})
  unfolding lookup set_state and_then
  check_stopped clock identifier c = elim (lookup identifier c.instances) [
    | none ↦ raised key_error c
    | some status ↦
        if same_state status.state stopped
        then and_then (set_state clock.mtime checking identifier c)
            (λ _ c'. done tt (record c' { check_requests = identifier ∷ c'.check_requests }))
        else done tt c
  ]

  -- on_local_tick_event(event)
  unfoldable pub on_local_tick_event : Clock → TickEvent → Context → Result (Unit {0})
  unfolding lookup update_tick check_stopped
  on_local_tick_event clock event c =
      let local = c.state_modes.local_identifier in
      elim (lookup local c.instances) [
        | none ↦ raised key_error c
        | some status ↦ check_stopped clock local (update_tick clock local event none status c)
      ]

  -- on_tick_event(status, event)
  unfoldable pub on_tick_event : Clock → Name → TickEvent → Context → Result (Unit {0})
  unfolding lookup update_tick check_stopped
  on_tick_event clock identifier event c =
      elim (lookup c.state_modes.local_identifier c.instances) [
        | none ↦ raised key_error c
        | some local_status ↦
            if not (can_work local_status.state)
            then done tt c
            else elim (lookup identifier c.instances) [
              | none ↦ raised key_error c
              | some status ↦ check_stopped clock identifier (
                  update_tick clock identifier event
                    (some local_status.times.remote_sequence_counter) status c)
            ]
      ]

-- The loop of `on_timer_event`, over the keys that are left.
unfoldable pub fail_inactive : ℕ → ℕ → List Name → Context → Result (Unit {0})
unfolding lookup set_state and_then is_inactive
fail_inactive mtime counter [] c = done tt c
fail_inactive mtime counter (k ∷ ks) c = elim (lookup k c.instances) [
  | none ↦ raised key_error c
  | some status ↦
      and_then
        (if is_inactive c.inactivity_ticks counter status
          then set_state mtime failed k c
          else done tt c)
        (λ _ c'. fail_inactive mtime counter ks c')
]

-- on_timer_event(event)
unfoldable pub on_timer_event : ℕ → TickEvent → Context → Result (Unit {0})
unfolding keys fail_inactive
on_timer_event mtime event c = fail_inactive mtime event.sequence_counter (keys c.instances) c
