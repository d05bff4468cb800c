-- ===== src/Types/FsmStates.antt =====
-- SupvisorsStates, SynchronizationOptions and SupvisorsFailureStrategies of supvisors/ttypes.py.
use supvisors.Prelude.{ℕ, Bool, nat_beq, List, [], ◌∷◌, any}

pub data SupvisorsStates : Type 0 where
  off synchronization election distribution operation conciliation restarting shutting_down final :
      SupvisorsStates

abbrev pub value : SupvisorsStates → ℕ
value off = 0
value synchronization = 1
value election = 2
value distribution = 3
value operation = 4
value conciliation = 5
value restarting = 6
value shutting_down = 7
value final = 8

abbrev pub same_state : SupvisorsStates → SupvisorsStates → Bool
same_state s t = nat_beq (value s) (value t)

abbrev pub in_states : SupvisorsStates → List SupvisorsStates → Bool
in_states s states = any (same_state s) states

abbrev pub working_states : List SupvisorsStates
working_states = election ∷ distribution ∷ operation ∷ conciliation ∷ []

pub data SupvisorsFailureStrategies : Type 0 where
  continue resync shutdown : SupvisorsFailureStrategies
