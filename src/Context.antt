-- ===== src/Context.antt =====
-- supvisors/context.py: Context, as far as it follows the Supvisors instances. The processes, which
-- the source shares between the applications and the instances, stand here under their namespecs.
pub mod Setter
pub mod Handshake
pub mod Ticks
pub mod Failures
pub mod Discovery
pub mod Handlers
pub mod Effect
pub mod Discovered
pub mod Closure
pub mod Known
pub mod Mirror
pub mod Transitions
use supvisors.Prelude.{ℕ, Bool, List, Option, none, some, Name}
use supvisors.Prelude.Dict.{Dict, lookup}
use supvisors.Types.InstanceStates.{SupvisorsInstanceStates}
use supvisors.Instances.Status.{InstanceStatus}
use supvisors.Process.{ProcessStatus}
use supvisors.StateModes.{SupvisorsStateModes}

-- `check_requests` lists the calls of `rpc_handler.send_check_instance`, the last one first.
pub record Context : Type 0 where
  pub auto_fence : Bool
  pub inactivity_ticks : ℕ
  pub instances : Dict InstanceStatus
  pub processes : Dict ProcessStatus
  pub state_modes : SupvisorsStateModes
  pub check_requests : List Name

-- The exceptions that a handler lets through: InvalidTransition, the KeyError of a missing entry,
-- the ValueError of `min` over nothing, and the AttributeError of a method of None.
pub data Exception : Type 0 where
  invalid_transition key_error value_error attribute_error : Exception

-- What a handler leaves behind: an exception keeps the changes that were made before it.
pub data Result {ℓ} (A : Type ℓ) : Type ℓ where
  done : A → Context → Result A
  raised : Exception → Context → Result A

module _ {ℓ} {A : Type ℓ} where
  unfoldable pub context_of : Result A → Context
  context_of (done a c) = c
  context_of (raised e c) = c

module _ {ℓ ℓ'} {A : Type ℓ} {B : Type ℓ'} where
  unfoldable pub and_then : Result A → (A → Context → Result B) → Result B
  and_then (done a c) f = f a c
  and_then (raised e c) f = raised e c

-- The state of an instance that the Context knows.
unfoldable pub state_in : Name → Dict InstanceStatus → Option SupvisorsInstanceStates
unfolding lookup
state_in k d = elim (lookup k d) [ none ↦ none | some status ↦ some status.state ]
