-- ===== src/Tests.antt =====
-- Concrete runs of the model: the crates it takes as a parameter, instantiated; requests; and the
-- theorems at concrete inputs.
mod Names
mod Crates
mod Requests
mod Jobs
mod Answers
mod Errors
mod Parts
mod Streams
mod Times
mod TwoSteps
mod Sessions
mod Asked
mod Pdf
mod Wire
mod Reports
