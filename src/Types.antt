-- ===== src/Types.antt =====
-- The enumerations of supvisors/ttypes.py, a module for each group of states.
pub mod ProcessStates
pub mod InstanceStates
pub mod FsmStates
pub mod Strategies
pub mod Applications
