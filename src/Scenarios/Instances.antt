-- ===== src/Scenarios/Instances.antt =====
-- supvisors/context.py on a local instance `a`, a running instance `b` and a stopped one.
use supvisors.Prelude.{ℕ, List, [], ◌∷◌, some, ◌≡◌, ◌≢◌, arith, refl}
use supvisors.Types.InstanceStates.{isolated}
use supvisors.Types.Strategies.{authorized}
use supvisors.Prelude.Dict.{lookup}
use supvisors.Instances.Status.{new}
use supvisors.Context.{Context, state_in}
use supvisors.Context.Ticks.{TickEvent, on_tick_event, on_timer_event, on_local_tick_event}
use supvisors.Context.Failures.{invalidate_failed}
use supvisors.Context.Handshake.{activate_checked, on_authorization, load_nothing}
use supvisors.Context.Discovery.{on_discovery_event}
use supvisors.Context.Handlers.{
  Call, discovery, no_processes, tick, local_tick, timer, invalidate_all, activate, authorization,
  after_all,
}
use supvisors.Context.Transitions.{after_all-isolated}
use supvisors.Context.Mirror.{IsMirrored, after_all-IsMirrored, after_all-IsOpen}
use supvisors.Scenarios.{supervisor, context, clock}
use supvisors.Scenarios.Placement.{instance_id}
use supvisors.Mapper.InstanceId.{SupvisorsInstanceId}
use supvisors.Context.Known.{AreMapped}

abbrev at_tick : ℕ → TickEvent
at_tick n = record { sequence_counter = n; when_monotonic = n; when = n }

abbrev found : SupvisorsInstanceId
found = instance_id "d" "m3"

-- `d` is discovered and does not tell its processes, `c` starts and is authorized, `b` is silent until it is invalidated, and comes back too late.
abbrev calls : List Call
calls =
    local_tick (clock 5) (at_tick 1)
    ∷ tick (clock 6) "c" (at_tick 1)
    ∷ authorization 8 "c"
        (record { now_monotonic = 7; info_monotonic = 7; authorization = some authorized })
    ∷ activate 9
    ∷ timer 20 (at_tick 3)
    ∷ invalidate_all 21
    ∷ discovery "d" "delta" (some found)
    ∷ tick (clock 21) "d" (at_tick 1)
    ∷ no_processes 22 "d"
    ∷ tick (clock 22) "b" (at_tick 9)
    ∷ []

context-AreMapped : AreMapped context
unfolding state_in lookup new
context-AreMapped = record { instances = λ k e. ground (arith, e); local = refl }

context-IsMirrored : IsMirrored context
unfolding state_in lookup new
context-IsMirrored k = ground arith

abbrev fenced : Context
fenced = after_all supervisor 5 calls context

b_isolated : state_in "b" fenced.instances ≡ some isolated
unfolding state_in after_all new on_tick_event invalidate_failed on_timer_event activate_checked
    on_authorization on_local_tick_event load_nothing on_discovery_event
b_isolated = refl

fenced-AreMapped : AreMapped fenced
fenced-AreMapped =
    (after_all-IsMirrored supervisor 5 calls context refl context-AreMapped context-IsMirrored).0

after_all-isolated_example :
    state_in "b" (after_all supervisor 5 (tick (clock 23) "b" (at_tick 9) ∷ []) fenced).instances
    ≡ some isolated
after_all-isolated_example =
    after_all-isolated supervisor 5 (tick (clock 23) "b" (at_tick 9) ∷ []) fenced "b" refl
      fenced-AreMapped b_isolated

after_all-IsMirrored_example :
    AreMapped (after_all supervisor 5 calls context)
    × IsMirrored (after_all supervisor 5 calls context)
after_all-IsMirrored_example =
    after_all-IsMirrored supervisor 5 calls context refl context-AreMapped context-IsMirrored

a_open : state_in "a" context.instances ≢ some isolated
unfolding state_in new
a_open e = ground arith

after_all-IsOpen_example :
    ((after_all supervisor 5 calls context).state_modes.local_identifier ≡ "a")
    × (state_in "a" (after_all supervisor 5 calls context).instances ≢ some isolated)
after_all-IsOpen_example = after_all-IsOpen supervisor 5 calls context refl context-AreMapped a_open
