-- ===== src/Workers.antt =====
-- The workers that check proxies (crawler/verify.go and crawler/crawler.go): their settings, and the slots they share.
pub mod Settings
pub mod Slots
pub mod State
pub mod Candidate
pub mod Routine
pub mod Startup
pub mod Pending
pub mod Ends
pub mod Outcomes
pub mod Claims
