-- ===== src/Types/Applications.antt =====
-- ApplicationStates of supvisors/ttypes.py.
use supvisors.Prelude.{ℕ, Bool, nat_beq}

pub data ApplicationStates : Type 0 where
  stopped starting running stopping deleted : ApplicationStates

abbrev pub value : ApplicationStates → ℕ
value stopped = 0
value starting = 1
value running = 2
value stopping = 3
value deleted = 4

abbrev pub same_state : ApplicationStates → ApplicationStates → Bool
same_state s t = nat_beq (value s) (value t)
