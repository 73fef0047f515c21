-- ===== src/Service/Simple.antt =====
-- service/simple.rs: the simple printer service.
pub mod Info
pub mod Url
pub mod Render
pub mod RenderLaws
pub mod PrinterAttributes
pub mod JobAttributes
pub mod ByName
pub mod State
pub mod Responses
pub mod Documents
pub mod Handlers
pub mod World
pub mod Consistent
pub mod Steps
pub mod Life
pub mod Accepted
pub mod FindJob
pub mod Outcomes
pub mod Answers
pub mod Listing
pub mod Filters
pub mod GetJobs
pub mod UrlLaws
pub mod JobUris
pub mod JobIds
pub mod Times
pub mod Progress
pub mod Stuck
pub mod Commute
pub mod TwoSteps
pub mod NotFound
pub mod Runs
pub mod Sequential
pub mod Reports
pub mod Asked
pub mod Queries
pub mod Refusals
pub mod Requested
pub mod RequestedDocument
pub mod Queue
