-- ===== src/Witnesses.antt =====
-- Concrete runs of the code: the theorems at particular devices, sightings and settings.
pub mod Data
pub mod Inputs
mod Worker
mod Store
mod Engine
mod Rules
mod Servers
mod Baselines
mod Changes
mod Identities
mod Reviews
mod Names
mod Adverts
mod Messages
