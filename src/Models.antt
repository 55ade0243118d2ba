-- ===== src/Models.antt =====
-- lanfence/models.py: the structured models that the parts of the program share.
pub mod Severity
pub mod Device
pub mod Finding
pub mod Change
pub mod Signed
pub mod Risk
pub mod Baseline
pub mod Service
