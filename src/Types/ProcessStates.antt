-- ===== src/Types/ProcessStates.antt =====
-- Supervisor's process states, as supvisors/client/java lists them, and the classes that
-- Supervisor's documentation puts them in.
use supvisors.Prelude.{ℕ, Bool, true, false, ◌≡◌, List, any, nat_beq, arith}

pub data ProcessState : Type 0 where
  stopped starting running backoff stopping exited fatal unknown : ProcessState

-- The code by which Python compares process states.
abbrev pub state_code : ProcessState → ℕ
state_code stopped = 0
state_code starting = 10
state_code running = 20
state_code backoff = 30
state_code stopping = 40
state_code exited = 100
state_code fatal = 200
state_code unknown = 1000

abbrev pub same_state : ProcessState → ProcessState → Bool
same_state s t = nat_beq (state_code s) (state_code t)

-- `s in states`
abbrev pub has_state : ProcessState → List ProcessState → Bool
has_state s states = any (λ t. same_state t s) states

-- The documented classes: BACKOFF is running-like, and STOPPING is in neither list.
abbrev pub is_running : ProcessState → Bool
is_running starting = true
is_running running = true
is_running backoff = true
is_running _ = false

abbrev pub is_stopping : ProcessState → Bool
is_stopping stopping = true
is_stopping _ = false

abbrev pub is_stopped : ProcessState → Bool
is_stopped stopped = true
is_stopped exited = true
is_stopped fatal = true
is_stopped unknown = true
is_stopped _ = false

pub same_state-eq : (s t : ProcessState) → same_state s t ≡ true → s ≡ t
same_state-eq s t h = ground arith
