-- ===== src/Fsm.antt =====
-- supvisors/statemachine.py: the Supvisors state machine. Its jobs (Starter and Stopper of
-- supvisors/commander.py, RunningFailureHandler and the conciliation of supvisors/strategy.py) are
-- an interface here: they keep a state of their own, and what they change besides are the modes
-- `starting_jobs` and `stopping_jobs`.
pub mod Checks
pub mod Next
pub mod Safety
use supvisors.Prelude.{ℕ, Bool, List, [], ◌∷◌, Option, none, some, Name, any}
use supvisors.Prelude.NameSet.{NameSet}
use supvisors.Types.FsmStates.{
  SupvisorsStates, off, synchronization, election, distribution, operation, conciliation,
  restarting, shutting_down, final, same_state, SupvisorsFailureStrategies,
}
use supvisors.StateModes.{SupvisorsStateModes}
use supvisors.Context.{Context, Exception}

-- The calls that the states make on the jobs.
pub data Task : Type 0 where
  starter_check stopper_check trigger_jobs : Task
  abort_failures abort_starter abort_stopper : Task
  start_applications stop_applications conciliate_conflicts : Task
  starter_invalidation stopper_invalidation : List Name → NameSet → Task
  add_default_job : Name → Task

pub record Jobs (J : Type 0) : Type 0 where
  pub run : Task → Context → J → J × SupvisorsStateModes
  pub starter_in_progress : J → Bool
  pub stopper_in_progress : J → Bool
  pub conflicting : Context → Bool

-- The options that the state machine reads; a Boolean tells whether a SynchronizationOptions is set.
pub record Options : Type 0 where
  pub strict : Bool
  pub list : Bool
  pub timeout : Bool
  pub core : Bool
  pub user : Bool
  pub synchro_timeout : ℕ
  pub supvisors_failure_strategy : SupvisorsFailureStrategies

pub data Request : Type 0 where
  restart shutdown : Name → Request

-- FiniteStateMachine with its state object. `requests` lists what the rpc_handler has sent.
pub record Machine (J : Type 0) : Type 0 where
  pub context : Context
  pub jobs : J
  pub start_date : ℕ
  pub lost_instances : List Name
  pub lost_processes : NameSet
  pub requests : List Request

-- What a method of a state leaves behind.
pub data Outcome (J A : Type 0) : Type 0 where
  returned : A → Machine J → Outcome J A
  failed : Exception → Machine J → Outcome J A

unfoldable pub chain : {J A B : Type 0} → Outcome J A → (A → Machine J → Outcome J B) → Outcome J B
chain (returned a m) f = f a m
chain (failed e m) f = failed e m

-- `next_state or …`: the first suggestion ends the evaluation.
unfoldable pub or_next :
    {J : Type 0}
    → Outcome J (Option SupvisorsStates)
    → (Machine J → Outcome J (Option SupvisorsStates))
    → Outcome J (Option SupvisorsStates)
or_next (returned none m) f = f m
or_next (returned (some s) m) f = returned (some s) m
or_next (failed e m) f = failed e m

-- FiniteStateMachine.state
abbrev pub state : {J : Type 0} → Machine J → SupvisorsStates
state m = m.context.state_modes.local_state_modes.state

module _ {J : Type 0} where
  unfoldable pub with_modes : SupvisorsStateModes → Machine J → Machine J
  with_modes modes m = record m { context = record (m.context) { state_modes = modes } }

  -- A call on the jobs.
  unfoldable pub task : Jobs J → Task → Machine J → Machine J
  unfolding with_modes
  task jobs t m =
      let (j, modes) = jobs.run t m.context m.jobs in with_modes modes (record m { jobs = j })
