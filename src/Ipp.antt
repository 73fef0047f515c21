-- ===== src/Ipp.antt =====
-- What the program uses of the crates `ipp`, `http` and `async_compression`, none of which is in
-- this repository: the enumerations with the variants that the source names, plain accessors as
-- record fields, and every function of those crates as a parameter, in `Ipp.External`.
pub mod Enums
pub mod Value
pub mod HashMap
pub mod Attributes
pub mod Http
pub mod External
