-- ===== src/Tasks.antt =====
-- The life of a task in src/registry.js: claims, heartbeats, completions, failures and retries.
pub mod Guards
pub mod Claim
pub mod Blocked
pub mod Complete
pub mod Finish
pub mod Validate
pub mod Wait
pub mod Refresh
pub mod Rounds
pub mod Ends
pub mod Calls
pub mod Fencing
pub mod Rules
pub mod Rows
pub mod Claiming
pub mod Exclusive
pub mod Attempts
pub mod Budget
pub mod Legal
pub mod Samples
mod Tests
mod ReleaseTests
