-- ===== src/Strategy.antt =====
-- supvisors/strategy.py: where a process is started, how conflicts are settled, and what is done
-- about a process that fails.
pub mod Loads
pub mod Starting
pub mod Choice
pub mod Best
pub mod Bounds
pub mod Failures
pub mod Priority
pub mod Refinement
pub mod Supersede
pub mod Jobs
pub mod Conciliation
