-- ===== src/Context/Handlers.antt =====
-- supvisors/context.py: the calls that set the state of an instance or add one. The other methods
-- of the Context assign no state: load_processes with the processes of an instance, and the
-- handlers of identification and process events.
use supvisors.Prelude.{ℕ, Bool, true, List, [], ◌∷◌, Option, some, Name, ◌==◌}
use supvisors.Process.{Supervisor}
use supvisors.Instances.Times.{Clock}
use supvisors.Context.{Context, context_of}
use supvisors.Context.Handshake.{
  AuthorizationEvent, on_authorization, activate_checked, load_nothing,
}
use supvisors.Context.Ticks.{TickEvent, on_local_tick_event, on_tick_event, on_timer_event}
use supvisors.Mapper.InstanceId.{SupvisorsInstanceId}
use supvisors.Context.Discovery.{on_discovery_event}
use supvisors.Context.Failures.{on_instance_failure, invalidate_failed}

pub data Call : Type 0 where
  discovery : (identifier nick_identifier : Name) → Option SupvisorsInstanceId → Call
  no_processes : ℕ → Name → Call
  authorization : ℕ → Name → AuthorizationEvent → Call
  activate : ℕ → Call
  local_tick : Clock → TickEvent → Call
  tick : Clock → Name → TickEvent → Call
  timer : ℕ → TickEvent → Call
  failure : ℕ → Name → Call
  invalidate_all : ℕ → Call

-- An instance that is discovered is found under the identifier that it publishes.
abbrev pub is_named : Call → Bool
is_named (discovery identifier nick_identifier (some i)) = i.identifier == identifier
is_named _ = true

module _ (sup : Supervisor) (tick_period : ℕ) where
  -- What a call leaves behind, whether it returns or raises.
  unfoldable pub after : Call → Context → Context
  unfolding context_of
  after (discovery k nick item) c = context_of (on_discovery_event k nick item c)
  after (no_processes mtime k) c = context_of (load_nothing mtime k c)
  after (authorization mtime k event) c = context_of (on_authorization mtime k event c)
  after (activate mtime) c = context_of (activate_checked mtime c)
  after (local_tick clock event) c = context_of (on_local_tick_event sup tick_period clock event c)
  after (tick clock k event) c = context_of (on_tick_event sup tick_period clock k event c)
  after (timer mtime event) c = context_of (on_timer_event mtime event c)
  after (failure mtime k) c = context_of (on_instance_failure mtime k c)
  after (invalidate_all mtime) c = context_of (invalidate_failed sup mtime c)

  -- The calls, one after the other.
  unfoldable pub after_all : List Call → Context → Context
  unfolding after
  after_all [] c = c
  after_all (e ∷ es) c = after_all es (after e c)
