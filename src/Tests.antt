-- ===== src/Tests.antt =====
-- Concrete runs and instances of the theorems.
pub mod Guest
mod SyncRuns
mod PassRuns
mod SessionRuns
mod EndingRuns
mod TrapRuns
mod SlotRuns
mod MountRuns
mod ProgramRuns
mod ActuatorRuns
mod ThreadRuns
mod StealRuns
