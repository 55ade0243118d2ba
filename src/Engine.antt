-- ===== src/Engine.antt =====
-- lanfence/engine.py: sightings, findings and their dispatch.
pub mod Findings
pub mod Sightings
pub mod Coalesce
pub mod Dispatch
pub mod Absences
pub mod Inventory
