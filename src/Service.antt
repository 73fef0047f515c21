-- ===== src/Service.antt =====
-- service/: the trait that dispatches requests, and the simple printer service that implements it.
pub mod Common
pub mod Dispatch
pub mod Simple
