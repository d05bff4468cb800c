-- ===== src/Instances.antt =====
-- supvisors/instancestatus.py: what the local Supvisors instance keeps of each instance.
pub mod Times
pub mod Status
