-- ===== src/Types/InstanceStates.antt =====
-- SupvisorsInstanceStates of supvisors/ttypes.py.
use supvisors.Prelude.{ℕ, Bool, nat_beq}

pub data SupvisorsInstanceStates : Type 0 where
  stopped checking checked running failed isolated : SupvisorsInstanceStates

abbrev pub value : SupvisorsInstanceStates → ℕ
value stopped = 0
value checking = 1
value checked = 2
value running = 3
value failed = 4
value isolated = 5

abbrev pub same_state : SupvisorsInstanceStates → SupvisorsInstanceStates → Bool
same_state s t = nat_beq (value s) (value t)

abbrev pub is_running : SupvisorsInstanceStates → Bool
is_running s = same_state s running
