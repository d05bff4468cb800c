-- ===== src/Commander.antt =====
-- supvisors/commander.py: the commands of Starter and Stopper, and the jobs of one application.
pub mod Commands
pub mod Jobs
pub mod Events
pub mod Picking
pub mod Groups
pub mod Progress
pub mod Kinds
pub mod Distribution
pub mod Whole
