-- ===== src/Store.antt =====
-- lanfence/db.py: the database, one module for each group of tables.
pub mod State
pub mod Coverage
pub mod Review
pub mod Presence
pub mod Alerts
pub mod Evidence
pub mod Observe
pub mod Offline
pub mod Availability
pub mod Changelog
pub mod Deletion
pub mod Dhcp
pub mod Lifecycle
pub mod Items
pub mod Baselines
pub mod Adverts
pub mod Services
